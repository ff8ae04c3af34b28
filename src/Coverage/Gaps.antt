-- ===== src/Coverage/Gaps.antt =====
-- `covered_and_gaps`: the two lists divide the request by the status at each instant.
use xret.Coverage.Splits.{split_from-ok, plain_split_from, plain_place, plain_fill}
use xret.Coverage.Ascending.{IsAscending-later, IsAscending}
use native.Mathlib.Decide.{dec_lt}
use xret.Coverage.Normalize.{
  IsNormal-IsProper, normalize_segments-status, normalize_segments-IsNormal,
}
use xret.Coverage.Status.{status_at, interval_at, contains}
use xret.Coverage.Normal.{
  status_at-later, status_at-first, status_at-before, rest-before, IsProper, IsNormal,
}
use xret.Coverage.{
  add_gap, add_covered, same_status, normalize_segments, covered_and_gaps, StoredStatus, Split,
  Segment, CoverageStatus,
}
use xret.Prelude.{
  ltb→lt, ltb, false, ◌⊎◌, ◌≤◌, ◌∙◌, ◌||◌, ◌<◌, ◌&&◌, ℕ, some, refl, ok, none, min, max, leb, inr,
  inl, if◌then◌else◌, arith, ap, [], Option, List, Bool-cases, All, ◌∷◌, ◌≡◌,
}

-- What the covered list says of an instant of this status, and what the gaps say.
abbrev pub as_covered : Option StoredStatus → Option CoverageStatus
as_covered none = none
as_covered (some StoredStatus.available) = some CoverageStatus.available
as_covered (some StoredStatus.unavailable) = none

abbrev pub as_gap : Option StoredStatus → Option CoverageStatus
as_gap none = some CoverageStatus.missing
as_gap (some StoredStatus.available) = none
as_gap (some StoredStatus.unavailable) = some CoverageStatus.unavailable

-- Within the half-open range from `a` to `b` the two lists say what the segments say.
pub record Divides (a b : ℕ) (segs : List Segment) (s : Split) : Type 0 where
  pub covered_at :
      (t : ℕ)
      → interval_at s.covered t ≡ (if contains a b t then as_covered (status_at segs t) else none)
  pub gaps_at :
      (t : ℕ) → interval_at s.gaps t ≡ (if contains a b t then as_gap (status_at segs t) else none)
  pub covered_ascending : IsAscending a s.covered
  pub gaps_ascending : IsAscending a s.gaps

plain_fill-covered : (a b : ℕ) (s : Split) → (plain_fill a b s).covered ≡ s.covered
unfolding plain_fill add_gap
plain_fill-covered a b s = ground arith

plain_fill-gaps :
    (a b : ℕ) (s : Split) (t : ℕ)
    → interval_at (plain_fill a b s).gaps t
      ≡ (if contains a b t then some CoverageStatus.missing else interval_at s.gaps t)
unfolding plain_fill add_gap interval_at
plain_fill-gaps a b s t = ground arith

plain_place-covered :
    (k : StoredStatus) (a b : ℕ) (s : Split) (t : ℕ)
    → interval_at (plain_place k a b s).covered t ≡ (
        if contains a b t && same_status k StoredStatus.available
        then some CoverageStatus.available
        else interval_at s.covered t)
unfolding plain_place add_covered add_gap interval_at
plain_place-covered StoredStatus.available a b s t = ground arith
plain_place-covered StoredStatus.unavailable a b s t = ground arith

plain_place-gaps :
    (k : StoredStatus) (a b : ℕ) (s : Split) (t : ℕ)
    → interval_at (plain_place k a b s).gaps t ≡ (
        if contains a b t && same_status k StoredStatus.unavailable
        then some CoverageStatus.unavailable
        else interval_at s.gaps t)
unfolding plain_place add_covered add_gap interval_at
plain_place-gaps StoredStatus.available a b s t = ground arith
plain_place-gaps StoredStatus.unavailable a b s t = ground arith

plain_fill-IsAscending :
    (a b : ℕ) (s : Split) → a ≤ b → IsAscending b s.gaps → IsAscending a (plain_fill a b s).gaps
unfolding plain_fill add_gap
plain_fill-IsAscending a b s le h = elim (Bool-cases (ltb a b)) [
  | inl e ↦ rw e (omega arith, ltb→lt a b e, h)
  | inr e ↦ rw e (IsAscending-later a b s.gaps le h)
]

plain_fill_empty-IsAscending :
    (a b : ℕ) → IsAscending a (plain_fill a b (record { covered = []; gaps = [] })).gaps
unfolding plain_fill add_gap
plain_fill_empty-IsAscending a b = elim (Bool-cases (ltb a b)) [
  | inl e ↦ rw e (omega arith, ltb→lt a b e, tt)
  | inr e ↦ rw e tt
]

plain_place-IsAscending :
    (k : StoredStatus) (a b : ℕ) (s : Split)
    → a < b
    → IsAscending b s.covered
    → IsAscending b s.gaps
    → IsAscending a (plain_place k a b s).covered × IsAscending a (plain_place k a b s).gaps
unfolding plain_place add_covered add_gap
plain_place-IsAscending StoredStatus.available a b s lt h k =
    ((omega arith, lt, h), IsAscending-later a b s.gaps (omega arith) k)
plain_place-IsAscending StoredStatus.unavailable a b s lt h k =
    (IsAscending-later a b s.covered (omega arith) h, (omega arith, lt, k))

-- The cursor has not passed what the first segment contributes.
abbrev Reached : ℕ → ℕ → List Segment → Type 0
Reached cursor start [] = Unit
Reached cursor start (s ∷ rest) = cursor ≤ max s.start start

Reached-skip :
    (cursor start : ℕ) (s : Segment) (rest : List Segment)
    → IsNormal (s ∷ rest)
    → Reached cursor start (s ∷ rest)
    → Reached cursor start rest
Reached-skip cursor start s [] h r = tt
Reached-skip cursor start s (n ∷ rest) h r = ground arith

Reached-use :
    (start end : ℕ) (s : Segment) (rest : List Segment)
    → IsNormal (s ∷ rest)
    → Reached (min s.end end) start rest
Reached-use start end s [] h = tt
Reached-use start end s (n ∷ rest) h = ground arith

module _ (start end cursor : ℕ) (s : Segment) (rest : List Segment) where
  -- A segment outside the request is passed over.
  skip-Divides :
      (r : Split)
      → IsNormal (s ∷ rest)
      → start ≤ cursor
      → (s.end ≤ start) ⊎ (end ≤ s.start)
      → Divides cursor end rest r
      → Divides cursor end (s ∷ rest) r
  unfolding status_at contains
  skip-Divides r h p out d = record {
    covered_at = λ t. ground (arith, d.covered_at t, status_at-before s rest t h);
    gaps_at = λ t. ground (arith, d.gaps_at t, status_at-before s rest t h, rest-before s rest t h);
    covered_ascending = d.covered_ascending;
    gaps_ascending = d.gaps_ascending;
  }

  module _ (h : IsNormal (s ∷ rest)) (from_start : start ≤ cursor)
      (reached : cursor ≤ max s.start start) (lo : start < s.end) (hi : s.start < end)
      (sound : start < end) where
    -- Three parts of the request: the hole before the segment, the segment, what follows.
    before_status : (t : ℕ) → cursor ≤ t → t < max s.start start → status_at (s ∷ rest) t ≡ none
    before_status t p q = status_at-before s rest t h (omega arith)

    inside_status :
        (t : ℕ) → max s.start start ≤ t → t < min s.end end → status_at (s ∷ rest) t ≡ some s.status
    inside_status t p q = status_at-first s rest t h (omega arith) (omega arith)

    after_status : (t : ℕ) → min s.end end ≤ t → t < end → status_at (s ∷ rest) t ≡ status_at rest t
    after_status t p q = status_at-later s rest t (omega arith)

    placed :
        (r : Split)
        → Divides (min s.end end) end rest r
        → IsAscending
            (max s.start start)
            (plain_place s.status (max s.start start) (min s.end end) r).covered
          × IsAscending
              (max s.start start)
              (plain_place s.status (max s.start start) (min s.end end) r).gaps
    placed r d =
        plain_place-IsAscending s.status (max s.start start) (min s.end end) r
          (omega (arith, h.0, sound)) d.covered_ascending d.gaps_ascending

    use-Divides :
        (r : Split)
        → Divides (min s.end end) end rest r
        → Divides cursor end (s ∷ rest) (
            plain_fill cursor
              (max s.start start)
              (plain_place s.status (max s.start start) (min s.end end) r))
    unfolding contains
    use-Divides r d = record {
      covered_at = λ t.
          rw (plain_fill-covered, plain_place-covered)
            (ground (arith, d.covered_at t, before_status t, inside_status t, after_status t));
      gaps_at = λ t.
          rw (plain_fill-gaps, plain_place-gaps)
            (elim (dec_lt t (max s.start start)) [
              | yes p ↦ ground (arith, d.gaps_at t, before_status t)
              | no p ↦ elim (dec_lt t (min s.end end)) [
                | yes q ↦ ground (arith, d.gaps_at t, inside_status t)
                | no q ↦ ground (arith, d.gaps_at t, after_status t)
              ]
            ]);
      covered_ascending =
          rw plain_fill-covered
            (IsAscending-later cursor (max s.start start) _ reached (placed r d).0);
      gaps_ascending = plain_fill-IsAscending cursor (max s.start start) _ reached (placed r d).1;
    }

plain_split_from-cons :
    (start end cursor : ℕ) (s : Segment) (rest : List Segment)
    → plain_split_from start end cursor (s ∷ rest) ≡ (
        if leb s.end start || leb end s.start
        then plain_split_from start end cursor rest
        else plain_fill cursor (max s.start start) (
            plain_place s.status
              (max s.start start)
              (min s.end end)
              (plain_split_from start end (min s.end end) rest)))
unfolding plain_split_from
plain_split_from-cons start end cursor s rest = refl

start_Reached : (start : ℕ) (segs : List Segment) → Reached start start segs
start_Reached start [] = tt
start_Reached start (s ∷ rest) = omega arith

plain_split_from-Divides :
    (start end cursor : ℕ) (segs : List Segment)
    → IsNormal segs
    → start < end
    → start ≤ cursor
    → Reached cursor start segs
    → Divides cursor end segs (plain_split_from start end cursor segs)
plain_split_from-Divides start end cursor [] h w p r = record {
  covered_at =
      λ t. unfold plain_split_from status_at interval_at in rw plain_fill-covered (ground arith);
  gaps_at = λ t. unfold plain_split_from status_at interval_at in rw plain_fill-gaps (ground arith);
  covered_ascending = unfold plain_split_from in rw plain_fill-covered tt;
  gaps_ascending = unfold plain_split_from in plain_fill_empty-IsAscending cursor end;
}
plain_split_from-Divides start end cursor (s ∷ rest) h w p r =
    elim (Bool-cases (leb s.end start || leb end s.start)) [
      | inl e ↦
          rw (plain_split_from-cons, e)
            (skip-Divides start end cursor s rest (plain_split_from start end cursor rest) h p
              (ground arith)
              (plain_split_from-Divides start end cursor rest h.2 w p
                (Reached-skip cursor start s rest h r)))
      | inr e ↦
          rw (plain_split_from-cons, e)
            (use-Divides start end cursor s rest h p r (ground arith) (ground arith) w
              (plain_split_from start end (min s.end end) rest)
              (plain_split_from-Divides start end (min s.end end) rest h.2 w (ground arith)
                (Reached-use start end s rest h)))
    ]

answered :
    (segs : List Segment) (start end : ℕ)
    → All IsProper segs
    → start < end
    → covered_and_gaps segs start end
      ≡ ok (plain_split_from start end start (normalize_segments segs))
unfolding covered_and_gaps
answered segs start end h lt =
    let later : leb end start ≡ false = ground arith in
    rw later (
      split_from-ok start end start (normalize_segments segs) lt
        (IsNormal-IsProper (normalize_segments segs) (normalize_segments-IsNormal segs h)))

-- A request from `start` to a later `end` over nonempty segments, in any order and overlapping or
-- not, is no error and returns two lists of nonempty ascending intervals that do not overlap. Of an
-- instant inside the request the covered list says `available` just where some available segment
-- contains it. The gaps say `unavailable` where only unavailable segments contain it, and `missing`
-- where none does. Outside the request both say nothing.
pub covered_and_gaps_exact :
    (segs : List Segment) (start end : ℕ)
    → All IsProper segs
    → start < end
    → (s : Split) × (covered_and_gaps segs start end ≡ ok s) × Divides start end segs s
covered_and_gaps_exact segs start end h lt = (
  plain_split_from start end start (normalize_segments segs),
  answered segs start end h lt,
  record {
    covered_at = λ t.
        d.covered_at t
        ∙ ap (λ o. if contains start end t then as_covered o else none)
            (normalize_segments-status segs t h);
    gaps_at = λ t.
        d.gaps_at t
        ∙ ap (λ o. if contains start end t then as_gap o else none)
            (normalize_segments-status segs t h);
    covered_ascending = d.covered_ascending;
    gaps_ascending = d.gaps_ascending;
  },
)
  where
    d :
        Divides start end
          (normalize_segments segs)
          (plain_split_from start end start (normalize_segments segs))
    d =
        plain_split_from-Divides start end start (normalize_segments segs)
          (normalize_segments-IsNormal segs h) lt (omega arith)
          (start_Reached start (normalize_segments segs))
