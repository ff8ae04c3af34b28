-- ===== src/Coverage/Splits.antt =====
-- The loop of `covered_and_gaps` without the checks of the intervals, which never fail.
use xret.Coverage.Normal.{IsProper}
use xret.Coverage.{
  split_from, place, interval, fill, coverage_interval, add_gap, add_covered, StoredStatus, Split,
  Segment, CoverageStatus,
}
use xret.Prelude.{
  ◌||◌, ◌<◌, ℕ, refl, ok, min, max, ltb, leb, inr, inl, if◌then◌else◌, false, arith, [], Result,
  List, Bool-cases, All, ◌∷◌, ◌≡◌,
}

unfoldable pub plain_fill : ℕ → ℕ → Split → Split
plain_fill cursor to s =
    if ltb cursor to then add_gap (interval cursor to CoverageStatus.missing) s else s

unfoldable pub plain_place : StoredStatus → ℕ → ℕ → Split → Split
plain_place StoredStatus.available a b s = add_covered (interval a b CoverageStatus.available) s
plain_place StoredStatus.unavailable a b s = add_gap (interval a b CoverageStatus.unavailable) s

unfoldable pub plain_split_from : ℕ → ℕ → ℕ → List Segment → Split
plain_split_from start end cursor [] = plain_fill cursor end (record { covered = []; gaps = [] })
plain_split_from start end cursor (s ∷ rest) =
    let skip = plain_split_from start end cursor rest in
    let seg_start = max s.start start in
    let seg_end = min s.end end in
    let use_it =
      plain_fill cursor seg_start
        (plain_place s.status seg_start seg_end (plain_split_from start end seg_end rest)) in
    if leb s.end start || leb end s.start then skip else use_it

fill-ok : (a b : ℕ) (r : Result Split) (s : Split) → r ≡ ok s → fill a b r ≡ ok (plain_fill a b s)
unfolding fill plain_fill coverage_interval
fill-ok a b r s e = elim (Bool-cases (ltb a b)) [
  | inl p ↦ let q : leb b a ≡ false = ground arith in rw (p, q, e) refl
  | inr p ↦ rw (p, e) refl
]

place-ok :
    (k : StoredStatus) (a b : ℕ) (r : Result Split) (s : Split)
    → a < b
    → r ≡ ok s
    → place k a b r ≡ ok (plain_place k a b s)
unfolding place plain_place coverage_interval
place-ok StoredStatus.available a b r s lt e =
    let q : leb b a ≡ false = ground arith in rw (q, e) refl
place-ok StoredStatus.unavailable a b r s lt e =
    let q : leb b a ≡ false = ground arith in rw (q, e) refl

-- On nonempty segments no interval is refused.
pub split_from-ok :
    (start end cursor : ℕ) (segs : List Segment)
    → start < end
    → All IsProper segs
    → split_from start end cursor segs ≡ ok (plain_split_from start end cursor segs)
unfolding split_from plain_split_from
split_from-ok start end cursor [] lt h =
    fill-ok cursor end (ok (record { covered = []; gaps = [] }))
      (record { covered = []; gaps = [] }) refl
split_from-ok start end cursor (s ∷ rest) lt h =
    elim (Bool-cases (leb s.end start || leb end s.start)) [
      | inl e ↦ rw e (split_from-ok start end cursor rest lt h.1)
      | inr e ↦ rw e (
          fill-ok cursor (max s.start start) _ _ (
            place-ok s.status (max s.start start) (min s.end end) _ _ (ground arith)
              (split_from-ok start end (min s.end end) rest lt h.1)))
    ]
