-- ===== src/Observation/Plain.antt =====
-- The steps of the evaluation without the checks of the intervals, which never fail.
use xret.Observation.{
  walk, mem, joins, join_from, hole, coalesce, bar_status, bar_facts, add_fact, ObservationCoverage,
}
use xret.Coverage.Ascending.{IsAscending}
use xret.Timeframe.{Datetime}
use xret.Coverage.{interval, coverage_interval, Interval, CoverageStatus}
use xret.Prelude.{
  refl, ok, min, max, ltb, leb, inr, inl, if◌then◌else◌, false, arith, [], Result, List, Bool-cases,
  ◌∷◌, ◌≡◌,
}

unfoldable pub plain_facts :
    List Datetime → Datetime → Datetime → List (Datetime × Datetime) → List Interval
plain_facts present a b [] = []
plain_facts present a b ((bar_start, bar_end) ∷ rest) =
    interval (max a bar_start) (min b bar_end) (bar_status (mem bar_start present))
    ∷ plain_facts present a b rest

unfoldable pub plain_join_from : Interval → List Interval → List Interval
plain_join_from last [] = last ∷ []
plain_join_from last (i ∷ rest) =
    let joined = plain_join_from (interval last.start i.end last.status) rest in
    let kept = last ∷ plain_join_from i rest in if joins last i then joined else kept

unfoldable pub plain_coalesce : List Interval → List Interval
unfolding plain_join_from
plain_coalesce [] = []
plain_coalesce (i ∷ rest) = plain_join_from i rest

unfoldable pub plain_hole : Datetime → Datetime → ObservationCoverage → ObservationCoverage
plain_hole cursor to c =
    if ltb cursor to
    then record c { gaps = interval cursor to CoverageStatus.missing ∷ c.gaps }
    else c

unfoldable pub plain_walk : Datetime → Datetime → List Interval → ObservationCoverage
unfolding plain_hole add_fact
plain_walk cursor end [] = plain_hole cursor end (record { covered = []; gaps = [] })
plain_walk cursor end (f ∷ rest) =
    plain_hole cursor f.start (add_fact f f.status (plain_walk f.end end rest))

-- On facts that ascend within the request nothing is refused.
pub bar_facts-ok :
    (present : List Datetime) (a b p : Datetime) (bars : List (Datetime × Datetime))
    → IsAscending p (plain_facts present a b bars)
    → bar_facts present a b bars ≡ ok (plain_facts present a b bars)
unfolding bar_facts plain_facts coverage_interval
bar_facts-ok present a b p [] h = refl
bar_facts-ok present a b p ((c, d) ∷ rest) h =
    let proper : leb (min b d) (max a c) ≡ false = ground arith in
    rw (proper, bar_facts-ok present a b (min b d) rest h.2) refl

join_from-ok :
    (p : Datetime) (l : Interval) (is : List Interval)
    → IsAscending p (l ∷ is)
    → join_from l is ≡ ok (plain_join_from l is)
unfolding join_from plain_join_from coverage_interval
join_from-ok p l [] h = refl
join_from-ok p l (i ∷ rest) h = elim (Bool-cases (joins l i)) [
  | inl e ↦
      let proper : leb i.end l.start ≡ false = ground arith in
      rw (e, proper)
        (join_from-ok p (interval l.start i.end l.status) rest (h.0, omega arith, h.2.2))
  | inr e ↦ rw (e, join_from-ok l.end i rest h.2) refl
]

pub coalesce-ok :
    (p : Datetime) (is : List Interval) → IsAscending p is → coalesce is ≡ ok (plain_coalesce is)
unfolding coalesce plain_coalesce
coalesce-ok p [] h = refl
coalesce-ok p (i ∷ rest) h = join_from-ok p i rest h

hole-ok :
    (a b : Datetime) (r : Result ObservationCoverage) (c : ObservationCoverage)
    → r ≡ ok c
    → hole a b r ≡ ok (plain_hole a b c)
unfolding hole plain_hole coverage_interval
hole-ok a b r c e = elim (Bool-cases (ltb a b)) [
  | inl p ↦ let q : leb b a ≡ false = ground arith in rw (p, q, e) refl
  | inr p ↦ rw (p, e) refl
]

pub walk-ok :
    (cursor end : Datetime) (facts : List Interval)
    → walk cursor end facts ≡ ok (plain_walk cursor end facts)
unfolding walk plain_walk
walk-ok cursor end [] = hole-ok cursor end _ _ refl
walk-ok cursor end (f ∷ rest) = hole-ok cursor f.start _ _ (rw (walk-ok f.end end rest) refl)
