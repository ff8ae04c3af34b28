-- ===== src/Coverage/Pieces.antt =====
-- The elementary intervals of `normalize_segments` have the status of the candidates.
use xret.Prelude.{
  sym, ℕ, ◌≤◌, ◌<◌, ◌≡◌, ◌⊎◌, inl, inr, Option, none, some, List, [], ◌∷◌, arith, ltb,
  if◌then◌else◌, All, ap, refl, ◌∙◌, ◌||◌,
}
use xret.Coverage.{seg, points, Segment, StoredStatus, best, better, piece, elementary}
use native.Mathlib.Decide.{dec_lt}
use xret.Coverage.Status.{contains, status_at, at_segment, stronger, stronger_assoc}
use xret.Coverage.Normal.{IsProper}
use xret.Coverage.Points.{points-EndsIn, points-Ascending, EndsIn, In, Ascending}

abbrev opt_status : Option Segment → Option StoredStatus
opt_status none = none
opt_status (some s) = some s.status

-- `e` does not lie strictly between `lo` and `hi`.
abbrev Outside : ℕ → ℕ → ℕ → Type 0
Outside lo hi e = (e ≤ lo) ⊎ (hi ≤ e)

abbrev Clear : ℕ → ℕ → Segment → Type 0
Clear lo hi s = Outside lo hi s.start × Outside lo hi s.end × IsProper s

-- One candidate: what `best` keeps is the stronger status.
next_best : ℕ → ℕ → Option Segment → Segment → Option Segment
unfolding better
next_best lo hi b s = if ltb lo s.start || ltb s.end hi then b else if better s b then some s else b

next_best-status :
    (lo hi t : ℕ) (b : Option Segment) (s : Segment)
    → lo ≤ t
    → t < hi
    → Clear lo hi s
    → opt_status (next_best lo hi b s) ≡ stronger (opt_status b) (at_segment s t)
unfolding next_best at_segment stronger
next_best-status lo hi t none s p q c = ground arith
next_best-status lo hi t (some b) s p q c = ground arith

best-status :
    (lo hi t : ℕ) (b : Option Segment) (segs : List Segment)
    → lo ≤ t
    → t < hi
    → All (Clear lo hi) segs
    → opt_status (best lo hi b segs) ≡ stronger (opt_status b) (status_at segs t)
unfolding best next_best status_at
best-status lo hi t b [] p q c = ground arith
best-status lo hi t b (s ∷ rest) p q c =
    best-status lo hi t (next_best lo hi b s) rest p q c.1
    ∙ ap (λ o. stronger o (status_at rest t)) (next_best-status lo hi t b s p q c.0)
    ∙ stronger_assoc (opt_status b) (at_segment s t) (status_at rest t)

-- `e` is behind the first point, or among the later ones.
abbrev Met : List ℕ → ℕ → Type 0
Met [] e = ⊥
Met (p ∷ ps) e = (e ≤ p) ⊎ In e ps

abbrev MetEnds : List ℕ → Segment → Type 0
MetEnds ps s = Met ps s.start × Met ps s.end × IsProper s

In-Below : (e p : ℕ) (ps : List ℕ) → Ascending (p ∷ ps) → In e ps → p < e
In-Below e p [] h m = absurd m
In-Below e p (q ∷ qs) h (inl m) = ground arith
In-Below e p (q ∷ qs) h (inr m) = omega (arith, In-Below e q qs h.1 m)

Met-Outside :
    (lo hi e : ℕ) (ps : List ℕ) → Ascending (lo ∷ hi ∷ ps) → Met (lo ∷ hi ∷ ps) e → Outside lo hi e
Met-Outside lo hi e ps h (inl m) = inl m
Met-Outside lo hi e ps h (inr (inl m)) = inr (omega arith)
Met-Outside lo hi e ps h (inr (inr m)) = inr (omega (arith, In-Below e hi ps h.1 m))

Met-next : (lo hi e : ℕ) (ps : List ℕ) → lo < hi → Met (lo ∷ hi ∷ ps) e → Met (hi ∷ ps) e
Met-next lo hi e ps h (inl m) = inl (omega arith)
Met-next lo hi e ps h (inr (inl m)) = inl (omega arith)
Met-next lo hi e ps h (inr (inr m)) = inr m

All-Clear :
    (lo hi : ℕ) (ps : List ℕ) (segs : List Segment)
    → Ascending (lo ∷ hi ∷ ps)
    → All (MetEnds (lo ∷ hi ∷ ps)) segs
    → All (Clear lo hi) segs
All-Clear lo hi ps [] h m = tt
All-Clear lo hi ps (s ∷ rest) h m = (
  (Met-Outside lo hi s.start ps h m.0.0, Met-Outside lo hi s.end ps h m.0.1, m.0.2),
  All-Clear lo hi ps rest h m.1,
)

All-Met-next :
    (lo hi : ℕ) (ps : List ℕ) (segs : List Segment)
    → lo < hi
    → All (MetEnds (lo ∷ hi ∷ ps)) segs
    → All (MetEnds (hi ∷ ps)) segs
All-Met-next lo hi ps [] h m = tt
All-Met-next lo hi ps (s ∷ rest) h m = (
  (Met-next lo hi s.start ps h m.0.0, Met-next lo hi s.end ps h m.0.1, m.0.2),
  All-Met-next lo hi ps rest h m.1,
)

-- Past the last point no candidate goes on.
ended :
    (p t : ℕ) (segs : List Segment) → All (MetEnds (p ∷ [])) segs → p ≤ t → status_at segs t ≡ none
unfolding status_at
ended p t [] m h = refl
ended p t (s ∷ rest) ((a, inl b, c), d) h = ground (arith, ended p t rest d h)
ended p t (s ∷ rest) ((a, inr b, c), d) h = absurd b

piece-at :
    (lo hi t : ℕ) (b : Option Segment) (rest : List Segment)
    → status_at (piece lo hi b rest) t
      ≡ stronger (if contains lo hi t then opt_status b else none) (status_at rest t)
unfolding piece status_at
piece-at lo hi t none rest = ground arith
piece-at lo hi t (some b) rest = ground arith

elementary-cell :
    (segs : List Segment) (lo hi t : ℕ) (ps : List ℕ)
    → status_at (elementary segs (lo ∷ hi ∷ ps)) t
      ≡ stronger
          (if contains lo hi t then opt_status (best lo hi none segs) else none)
          (status_at (elementary segs (hi ∷ ps)) t)
unfolding elementary
elementary-cell segs lo hi t ps =
    piece-at lo hi t (best lo hi none segs) (elementary segs (hi ∷ ps))

elementary-last : (segs : List Segment) (p t : ℕ) → status_at (elementary segs (p ∷ [])) t ≡ none
unfolding elementary status_at
elementary-last segs p t = refl

elementary-before :
    (segs : List Segment) (p t : ℕ) (ps : List ℕ)
    → Ascending (p ∷ ps)
    → t < p
    → status_at (elementary segs (p ∷ ps)) t ≡ none
unfolding contains stronger
elementary-before segs p t [] h lt = elementary-last segs p t
elementary-before segs p t (q ∷ qs) h lt =
    rw elementary-cell (ground (arith, elementary-before segs q t qs h.1))

-- From the first point on, the pieces have the status of the candidates.
pub elementary-status :
    (segs : List Segment) (p t : ℕ) (ps : List ℕ)
    → Ascending (p ∷ ps)
    → All (MetEnds (p ∷ ps)) segs
    → p ≤ t
    → status_at (elementary segs (p ∷ ps)) t ≡ status_at segs t
unfolding contains stronger
elementary-status segs p t [] h m le = elementary-last segs p t ∙ sym (ended p t segs m le)
elementary-status segs p t (q ∷ qs) h m le = elim (dec_lt t q) [
  | yes lt ↦ rw elementary-cell (
      ground (
        arith,
        elementary-before segs q t qs h.1 lt,
        best-status p q t none segs le lt (All-Clear p q qs segs h m),
      ))
  | no ge ↦ rw elementary-cell (
      ground
        (arith, elementary-status segs q t qs h.1 (All-Met-next p q qs segs h.0 m) (omega arith)))
]

-- Before every candidate there is nothing.
unstarted :
    (p t : ℕ) (ps : List ℕ) (segs : List Segment)
    → Ascending (p ∷ ps)
    → All (EndsIn (p ∷ ps)) segs
    → t < p
    → status_at segs t ≡ none
unfolding status_at
unstarted p t ps [] h m lt = refl
unstarted p t ps (s ∷ rest) h ((inl a, b), d) lt = ground (arith, unstarted p t ps rest h d)
unstarted p t ps (s ∷ rest) h ((inr a, b), d) lt =
    ground (arith, In-Below s.start p ps h a, unstarted p t ps rest h d)

In-Met : (e : ℕ) (ps : List ℕ) → In e ps → Met ps e
In-Met e [] m = m
In-Met e (p ∷ ps) (inl m) = inl (omega arith)
In-Met e (p ∷ ps) (inr m) = inr m

All-MetEnds :
    (ps : List ℕ) (segs : List Segment)
    → All (EndsIn ps) segs
    → All IsProper segs
    → All (MetEnds ps) segs
All-MetEnds ps [] h k = tt
All-MetEnds ps (s ∷ rest) h k =
    ((In-Met s.start ps h.0.0, In-Met s.end ps h.0.1, k.0), All-MetEnds ps rest h.1 k.1)

pieces_over :
    (segs : List Segment) (ps : List ℕ) (t : ℕ)
    → Ascending ps
    → All (EndsIn ps) segs
    → All IsProper segs
    → status_at (elementary segs ps) t ≡ status_at segs t
pieces_over [] [] t h m k = unfold elementary in refl
pieces_over (s ∷ rest) [] t h m k = absurd m.0.0
pieces_over segs (p ∷ ps) t h m k = elim (dec_lt t p) [
  | yes lt ↦ elementary-before segs p t ps h lt ∙ sym (unstarted p t ps segs h m lt)
  | no ge ↦ elementary-status segs p t ps h (All-MetEnds (p ∷ ps) segs m k) (omega arith)
]

-- The elementary intervals over all points have the status of the candidates at every instant.
pub pieces-status :
    (segs : List Segment) (t : ℕ)
    → All IsProper segs
    → status_at (elementary segs (points segs)) t ≡ status_at segs t
pieces-status segs t k =
    pieces_over segs (points segs) t (points-Ascending segs) (points-EndsIn segs) k

-- Ascending and disjoint, neighbours may be of one status.
abbrev pub IsDisjoint : List Segment → Type 0
IsDisjoint [] = Unit
IsDisjoint (s ∷ []) = IsProper s
IsDisjoint (s ∷ r ∷ rest) = IsProper s × (s.end ≤ r.start) × IsDisjoint (r ∷ rest)

abbrev pub StartsAfter : ℕ → List Segment → Type 0
StartsAfter p [] = Unit
StartsAfter p (s ∷ rest) = p ≤ s.start

pub IsDisjoint-cons :
    (s : Segment) (rest : List Segment)
    → IsProper s
    → StartsAfter s.end rest
    → IsDisjoint rest
    → IsDisjoint (s ∷ rest)
IsDisjoint-cons s [] h k d = h
IsDisjoint-cons s (r ∷ rest) h k d = (h, k, d)

piece-StartsAfter :
    (lo hi : ℕ) (b : Option Segment) (rest : List Segment)
    → lo < hi
    → StartsAfter hi rest
    → StartsAfter lo (piece lo hi b rest)
unfolding piece
piece-StartsAfter lo hi none [] h k = k
piece-StartsAfter lo hi none (r ∷ rest) h k = omega arith
piece-StartsAfter lo hi (some b) rest h k = omega arith

elementary-StartsAfter :
    (segs : List Segment) (p : ℕ) (ps : List ℕ)
    → Ascending (p ∷ ps)
    → StartsAfter p (elementary segs (p ∷ ps))
unfolding elementary
elementary-StartsAfter segs p [] h = tt
elementary-StartsAfter segs p (q ∷ qs) h =
    piece-StartsAfter p q (best p q none segs) (elementary segs (q ∷ qs)) h.0
      (elementary-StartsAfter segs q qs h.1)

piece-IsDisjoint :
    (lo hi : ℕ) (b : Option Segment) (rest : List Segment)
    → lo < hi
    → StartsAfter hi rest
    → IsDisjoint rest
    → IsDisjoint (piece lo hi b rest)
unfolding piece
piece-IsDisjoint lo hi none rest h k d = d
piece-IsDisjoint lo hi (some b) rest h k d = IsDisjoint-cons (seg lo hi b.status) rest h k d

pub elementary-IsDisjoint :
    (segs : List Segment) (ps : List ℕ) → Ascending ps → IsDisjoint (elementary segs ps)
unfolding elementary
elementary-IsDisjoint segs [] h = tt
elementary-IsDisjoint segs (p ∷ []) h = tt
elementary-IsDisjoint segs (p ∷ q ∷ qs) h =
    piece-IsDisjoint p q (best p q none segs) (elementary segs (q ∷ qs)) h.0
      (elementary-StartsAfter segs q qs h.1) (elementary-IsDisjoint segs (q ∷ qs) h.1)
