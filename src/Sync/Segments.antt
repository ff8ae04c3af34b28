-- ===== src/Sync/Segments.antt =====
-- `_bar_segments_for_range` marks every instant of its range by the presence of its bar.
use xret.Observation.{mem}
use native.Mathlib.Decide.{dec_lt}
use xret.Coverage.Coalesce.{
  touches, coalesce_from-cons, coalesce_from-status, coalesce_from-IsNormal,
}
use xret.Sync.{presence, grouped, clipped, boundaries, bar_segments_for_range}
use xret.Coverage.Status.{stronger, status_at, contains, at_segment}
use xret.Coverage.{seg, same_status, coalesce_from, StoredStatus, Segment}
use xret.Timeframe.Laws.{first_boundary, TimeBar-IsGrid, IsValid}
use xret.Coverage.Normal.{IsNormal}
use xret.Coverage.Pieces.{StartsAfter, IsDisjoint-cons, IsDisjoint}
use xret.Timeframe.Grid.{IsBoundary-lt-step}
use xret.Timeframe.{floor, TimeBar, Datetime}
use xret.Timeframe.Intervals.{iter_intervals-Bars, iter_intervals, Bars}
use xret.Prelude.{
  leb, ◌==◌, ◌&&◌, ◌≤◌, ◌∙◌, ◌<◌, some, refl, ok, none, min, max, ltb→lt, ltb, inr, inl,
  if◌then◌else◌, arith, ap, [], Option, List, Bool-cases, ◌∷◌, ◌≡◌,
}

same_status_comm : (a b : StoredStatus) → same_status a b ≡ same_status b a
same_status_comm StoredStatus.available StoredStatus.available = refl
same_status_comm StoredStatus.available StoredStatus.unavailable = refl
same_status_comm StoredStatus.unavailable StoredStatus.available = refl
same_status_comm StoredStatus.unavailable StoredStatus.unavailable = refl

continues-touches :
    (c s : Segment) → (same_status s.status c.status && c.end == s.start) ≡ touches c s
unfolding touches
continues-touches c s = rw (same_status_comm s.status c.status) (ground arith)

grouped-cons :
    (c s : Segment) (rest : List Segment)
    → grouped (some c) (s ∷ rest) ≡ (
        if touches c s
        then grouped (some (seg c.start s.end c.status)) rest
        else c ∷ grouped (some s) rest)
unfolding grouped
grouped-cons c s rest = rw continues-touches refl

-- The grouping loop is the coalescing of catalog.py.
grouped-some : (c : Segment) (segs : List Segment) → grouped (some c) segs ≡ coalesce_from c segs
grouped-some c [] = unfold grouped coalesce_from in refl
grouped-some c (s ∷ rest) = elim (Bool-cases (touches c s)) [
  | inl e ↦
      rw (coalesce_from-cons, grouped-cons, e) (grouped-some (seg c.start s.end c.status) rest)
  | inr e ↦ rw (coalesce_from-cons, grouped-cons, e) (ap (λ r. c ∷ r) (grouped-some s rest))
]

clipped-StartsAfter :
    (p start end a b : Datetime) (st : StoredStatus) (rest : List Segment)
    → p ≤ max start a
    → StartsAfter p rest
    → StartsAfter p (clipped start end a b st rest)
unfolding clipped
clipped-StartsAfter p start end a b st [] le h = ground arith
clipped-StartsAfter p start end a b st (r ∷ rest) le h = ground arith

StartsAfter-earlier :
    (p q : Datetime) (segs : List Segment) → p ≤ q → StartsAfter q segs → StartsAfter p segs
StartsAfter-earlier p q [] le h = tt
StartsAfter-earlier p q (s ∷ rest) le h = omega arith

clipped-IsDisjoint :
    (start end a b : Datetime) (st : StoredStatus) (rest : List Segment)
    → StartsAfter (max start b) rest
    → IsDisjoint rest
    → IsDisjoint (clipped start end a b st rest)
unfolding clipped
clipped-IsDisjoint start end a b st rest h d = elim (Bool-cases (ltb (max start a) (min end b))) [
  | inl e ↦ rw e (
      IsDisjoint-cons (seg (max start a) (min end b) st) rest (ltb→lt (max start a) (min end b) e)
        (StartsAfter-earlier (min end b) (max start b) rest (omega arith) h) d)
  | inr e ↦ rw e d
]

module _ (t : TimeBar) (valid : IsValid t) (present : List Datetime) (start end : Datetime) where
  bar-lt-end :
      (cursor a b : Datetime) (rest : List (Datetime × Datetime))
      → Bars t end cursor ((a, b) ∷ rest)
      → a < b
  bar-lt-end cursor a b rest h =
      omega (arith, h.3, IsBoundary-lt-step (TimeBar-IsGrid t valid) a h.2)

  boundaries-StartsAfter :
      (p cursor : Datetime) (bars : List (Datetime × Datetime))
      → p ≤ max start cursor
      → Bars t end cursor bars
      → StartsAfter p (boundaries present start end bars)
  unfolding boundaries
  boundaries-StartsAfter p cursor [] le h = tt
  boundaries-StartsAfter p cursor ((a, b) ∷ rest) le h =
      clipped-StartsAfter p start end a b (presence (mem a present))
        (boundaries present start end rest) (omega (arith, h.0))
        (boundaries-StartsAfter p b rest (omega (arith, h.0, bar-lt-end cursor a b rest h)) h.4)

  boundaries-IsDisjoint :
      (cursor : Datetime) (bars : List (Datetime × Datetime))
      → Bars t end cursor bars
      → IsDisjoint (boundaries present start end bars)
  unfolding boundaries
  boundaries-IsDisjoint cursor [] h = tt
  boundaries-IsDisjoint cursor ((a, b) ∷ rest) h =
      clipped-IsDisjoint start end a b (presence (mem a present))
        (boundaries present start end rest)
        (boundaries-StartsAfter (max start b) b rest (omega arith) h.4)
        (boundaries-IsDisjoint b rest h.4)

  -- What the bars from `cursor` on say of an instant.
  told : Datetime → Datetime → Option StoredStatus
  told cursor v =
      if contains (max start cursor) end v then some (presence (mem (floor t v) present)) else none

  clipped-told :
      (cursor a b v : Datetime) (rest : List (Datetime × Datetime)) (segs : List Segment)
      → Bars t end cursor ((a, b) ∷ rest)
      → status_at segs v ≡ told b v
      → status_at (clipped start end a b (presence (mem a present)) segs) v ≡ told cursor v
  unfolding clipped status_at told contains at_segment stronger
  clipped-told cursor a b v rest segs h e = elim (dec_lt v b) [
    | yes p ↦ elim (dec_lt v cursor) [
      | yes q ↦ ground (arith, h.0)
      | no q ↦ ground (arith, h.0, in_this_bar q p)
    ]
    | no p ↦ ground (arith, h.0, bar-lt-end cursor a b rest h)
  ]
    where
      in_this_bar : ¬ (v < cursor) → v < b → floor t v ≡ a
      in_this_bar q p =
          (TimeBar-IsGrid t valid).floor_within a v h.2 (omega (arith, h.0)) (omega (arith, h.3))

  boundaries-status :
      (cursor v : Datetime) (bars : List (Datetime × Datetime))
      → Bars t end cursor bars
      → status_at (boundaries present start end bars) v ≡ told cursor v
  unfolding boundaries
  boundaries-status cursor v [] h = unfold told status_at contains in ground arith
  boundaries-status cursor v ((a, b) ∷ rest) h =
      clipped-told cursor a b v rest (boundaries present start end rest) h
        (boundaries-status b v rest h.4)

grouped-status :
    (segs : List Segment) (v : Datetime)
    → IsDisjoint segs
    → status_at (grouped none segs) v ≡ status_at segs v
unfolding grouped
grouped-status [] v h = refl
grouped-status (s ∷ rest) v h = rw grouped-some (coalesce_from-status s rest v h)

grouped-IsNormal : (segs : List Segment) → IsDisjoint segs → IsNormal (grouped none segs)
unfolding grouped
grouped-IsNormal [] h = tt
grouped-IsNormal (s ∷ rest) h = rw grouped-some (coalesce_from-IsNormal s rest h)

module _ (t : TimeBar) (start end : Datetime) (valid : IsValid t)
    (first : first_boundary t ≤ start) where
  from_floor :
      start < end
      → (bars : List (Datetime × Datetime)) × (iter_intervals t (floor t start) end ≡ ok bars)
        × Bars t end (floor t start) bars
  from_floor lt =
      iter_intervals-Bars t (floor t start) end valid
        ((TimeBar-IsGrid t valid).floor-IsBoundary start first)
        (omega (arith, (TimeBar-IsGrid t valid).floor-le start first))

  told-floor :
      (present : List Datetime) (v : Datetime)
      → told t valid present start end (floor t start) v
        ≡ (if contains start end v then some (presence (mem (floor t v) present)) else none)
  unfolding told contains
  told-floor present v = ground (arith, (TimeBar-IsGrid t valid).floor-le start first)

ran :
    (t : TimeBar) (start end : Datetime) (bars : List (Datetime × Datetime))
    (present : List Datetime)
    → iter_intervals t (floor t start) end ≡ ok bars
    → floor t start < end
    → bar_segments_for_range t present start end
      ≡ ok (grouped none (boundaries present start end bars))
unfolding bar_segments_for_range
ran t start end bars present e lt = elim (Bool-cases (leb end (floor t start))) [
  | inl c ↦ absurd (ground arith)
  | inr c ↦ rw (c, e) refl
]

-- For a valid time bar and a nonempty range not before its first boundary, the segments that a
-- sync records are in normal form, and an instant is covered exactly when the range contains it:
-- `available` when the bar that begins at its floor was fetched and `unavailable` when it was not.
pub bar_segments_for_range-status :
    (t : TimeBar) (present : List Datetime) (start end : Datetime)
    → IsValid t
    → first_boundary t ≤ start
    → start < end
    → (segs : List Segment) × (bar_segments_for_range t present start end ≡ ok segs)
      × IsNormal segs
      × ((v : Datetime)
          → status_at segs v
            ≡ (if contains start end v then some (presence (mem (floor t v) present)) else none))
unfolding bar_segments_for_range
bar_segments_for_range-status t present start end valid first lt =
    let b = from_floor t start end valid first lt in
    let segs = boundaries present start end b.0 in
    let disjoint = boundaries-IsDisjoint t valid present start end (floor t start) b.0 b.2 in
    (
      grouped none segs,
      ran t start end b.0 present b.1
          (omega (arith, lt, (TimeBar-IsGrid t valid).floor-le start first)),
      grouped-IsNormal segs disjoint,
      λ v.
          grouped-status segs v disjoint
          ∙ boundaries-status t valid present start end (floor t start) v b.0 b.2
          ∙ told-floor t start end valid first present v,
    )
