-- ===== src/Coverage/Normalize.antt =====
-- `normalize_segments`, `apply_update` and batches of updates.
use xret.Coverage.Points.{points-Ascending}
use xret.Coverage.Coalesce.{coalesce_from-status, coalesce_from-IsNormal}
use xret.Coverage.Status.{
  stronger_comm, status_at-one, status_at-append, status_at-cons, stronger_assoc,
  stronger_none-status, at_segment, stronger, status_at,
}
use xret.Coverage.Normal.{IsNormal-unique, IsProper, IsNormal}
use xret.Coverage.Pieces.{pieces-status, elementary-IsDisjoint, IsDisjoint}
use xret.Coverage.{
  points, elementary, Segment, apply_update, normalize_segments, all_apart, coalesce,
}
use xret.Prelude.{
  ◌++◌, refl, inr, inl, [], All-append, ap, sym, arith, ◌∙◌, Bool-cases, true, All, ℕ, List, ◌∷◌,
  ◌≡◌,
}

coalesce-status :
    (segs : List Segment) (t : ℕ) → IsDisjoint segs → status_at (coalesce segs) t ≡ status_at segs t
unfolding coalesce
coalesce-status [] t h = refl
coalesce-status (s ∷ rest) t h = coalesce_from-status s rest t h

coalesce-IsNormal : (segs : List Segment) → IsDisjoint segs → IsNormal (coalesce segs)
unfolding coalesce
coalesce-IsNormal [] h = tt
coalesce-IsNormal (s ∷ rest) h = coalesce_from-IsNormal s rest h

-- The shortcut is taken only for what is in normal form already.
all_apart-IsNormal :
    (segs : List Segment) → All IsProper segs → all_apart segs ≡ true → IsNormal segs
unfolding all_apart
all_apart-IsNormal [] h e = tt
all_apart-IsNormal (s ∷ []) h e = (h.0, tt, tt)
all_apart-IsNormal (s ∷ r ∷ rest) h e =
    (h.0, ground arith, all_apart-IsNormal (r ∷ rest) h.1 (ground arith))

-- For nonempty segments in any order, overlapping or not: at every instant the normalized list
-- has the strongest status (available before unavailable) of the segments that contain it.
pub normalize_segments-status :
    (segs : List Segment) (t : ℕ)
    → All IsProper segs
    → status_at (normalize_segments segs) t ≡ status_at segs t
unfolding normalize_segments
normalize_segments-status segs t h = elim (Bool-cases (all_apart segs)) [
  | inl e ↦ rw e
  | inr e ↦ rw e (
      coalesce-status (elementary segs (points segs)) t
        (elementary-IsDisjoint segs (points segs) (points-Ascending segs))
      ∙ pieces-status segs t h)
]

-- For nonempty segments the result is in normal form: nonempty segments, ascending and disjoint,
-- no two neighbours touching with the same status.
pub normalize_segments-IsNormal :
    (segs : List Segment) → All IsProper segs → IsNormal (normalize_segments segs)
unfolding normalize_segments
normalize_segments-IsNormal segs h = elim (Bool-cases (all_apart segs)) [
  | inl e ↦ rw e (all_apart-IsNormal segs h e)
  | inr e ↦ rw e (
      coalesce-IsNormal (elementary segs (points segs))
        (elementary-IsDisjoint segs (points segs) (points-Ascending segs)))
]

pub IsNormal-IsProper : (segs : List Segment) → IsNormal segs → All IsProper segs
IsNormal-IsProper [] h = tt
IsNormal-IsProper (s ∷ rest) h = (h.0, IsNormal-IsProper rest h.2)

-- Two lists of nonempty segments that say the same of every instant normalize to one list.
pub normalize_segments-canonical :
    (xs ys : List Segment)
    → All IsProper xs
    → All IsProper ys
    → ((t : ℕ) → status_at xs t ≡ status_at ys t)
    → normalize_segments xs ≡ normalize_segments ys
normalize_segments-canonical xs ys h k same =
    IsNormal-unique (normalize_segments xs) (normalize_segments ys)
      (normalize_segments-IsNormal xs h) (normalize_segments-IsNormal ys k)
      (λ t. normalize_segments-status xs t h ∙ same t ∙ sym (normalize_segments-status ys t k))

-- What is in normal form is left as it is.
pub normalize_segments-normal : (xs : List Segment) → IsNormal xs → normalize_segments xs ≡ xs
normalize_segments-normal xs h =
    IsNormal-unique (normalize_segments xs) xs
      (normalize_segments-IsNormal xs (IsNormal-IsProper xs h)) h
      (λ t. normalize_segments-status xs t (IsNormal-IsProper xs h))

-- `apply_coverage` for each segment in order.
pub apply_all : List Segment → List Segment → List Segment
apply_all existing [] = existing
apply_all existing (s ∷ rest) = apply_all (apply_update existing s) rest

pub apply_update-IsNormal :
    (existing : List Segment) (s : Segment)
    → IsNormal existing
    → IsProper s
    → IsNormal (apply_update existing s)
unfolding apply_update
apply_update-IsNormal existing s h p =
    normalize_segments-IsNormal (existing ++ s ∷ [])
      (All-append IsProper existing (s ∷ []) (IsNormal-IsProper existing h) (p, tt))

-- Over stored coverage in normal form, a nonempty update leaves at each instant the stronger of the
-- stored status and its own.
pub apply_update-status :
    (existing : List Segment) (s : Segment) (t : ℕ)
    → IsNormal existing
    → IsProper s
    → status_at (apply_update existing s) t ≡ stronger (status_at existing t) (at_segment s t)
unfolding apply_update
apply_update-status existing s t h p =
    normalize_segments-status (existing ++ s ∷ []) t
      (All-append IsProper existing (s ∷ []) (IsNormal-IsProper existing h) (p, tt))
    ∙ status_at-append existing (s ∷ []) t
    ∙ ap (stronger (status_at existing t)) (status_at-one s t)

apply_all-IsNormal :
    (existing updates : List Segment)
    → IsNormal existing
    → All IsProper updates
    → IsNormal (apply_all existing updates)
unfolding apply_all
apply_all-IsNormal existing [] h k = h
apply_all-IsNormal existing (s ∷ rest) h k =
    apply_all-IsNormal (apply_update existing s) rest (apply_update-IsNormal existing s h k.0) k.1

apply_all-status :
    (existing updates : List Segment) (t : ℕ)
    → IsNormal existing
    → All IsProper updates
    → status_at (apply_all existing updates) t
      ≡ stronger (status_at existing t) (status_at updates t)
unfolding apply_all
apply_all-status existing [] t h k = sym (stronger_none-status existing t)
apply_all-status existing (s ∷ rest) t h k =
    apply_all-status (apply_update existing s) rest t (apply_update-IsNormal existing s h k.0) k.1
    ∙ ap (λ o. stronger o (status_at rest t)) (apply_update-status existing s t h k.0)
    ∙ stronger_assoc (status_at existing t) (at_segment s t) (status_at rest t)
    ∙ ap (stronger (status_at existing t)) (status_at-cons s rest t)

-- Over stored coverage in normal form, one pass over a batch of nonempty segments gives the list
-- that the updates give one by one, in their order.
pub batch-eq-apply_all :
    (existing updates : List Segment)
    → IsNormal existing
    → All IsProper updates
    → normalize_segments (existing ++ updates) ≡ apply_all existing updates
batch-eq-apply_all existing updates h k =
    let proper : All IsProper (existing ++ updates) =
      All-append IsProper existing updates (IsNormal-IsProper existing h) k in
    IsNormal-unique (normalize_segments (existing ++ updates)) (apply_all existing updates)
      (normalize_segments-IsNormal (existing ++ updates) proper)
      (apply_all-IsNormal existing updates h k)
      (λ t.
        normalize_segments-status (existing ++ updates) t proper
        ∙ status_at-append existing updates t
        ∙ sym (apply_all-status existing updates t h k))

-- The order of two groups of nonempty segments does not matter.
pub normalize_segments-swap :
    (xs ys : List Segment)
    → All IsProper xs
    → All IsProper ys
    → normalize_segments (xs ++ ys) ≡ normalize_segments (ys ++ xs)
normalize_segments-swap xs ys h k =
    normalize_segments-canonical (xs ++ ys) (ys ++ xs) (All-append IsProper xs ys h k)
      (All-append IsProper ys xs k h)
      (λ t.
        status_at-append xs ys t
        ∙ stronger_comm (status_at xs t) (status_at ys t)
        ∙ sym (status_at-append ys xs t))
