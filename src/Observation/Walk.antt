-- ===== src/Observation/Walk.antt =====
-- The plain_walk over ascending facts divides the request.
use xret.Observation.Plain.{plain_walk, plain_hole}
use xret.Coverage.Ascending.{IsAscending-later, IsAscending}
use xret.Coverage.Status.{interval_at, contains}
use xret.Observation.{same_coverage, add_fact, ObservationCoverage}
use xret.Observation.Ascending.{interval_at-before, EndsBy}
use xret.Timeframe.{Datetime}
use xret.Coverage.{Interval, CoverageStatus}
use xret.Prelude.{
  ◌≤◌, ◌<◌, ◌&&◌, some, not, none, ltb→lt, ltb, inr, inl, if◌then◌else◌, arith, [], Option, List,
  Bool-cases, ◌∷◌, ◌≡◌,
}

abbrev pub is_covered : Option CoverageStatus → Option CoverageStatus
is_covered (some CoverageStatus.available) = some CoverageStatus.available
is_covered _ = none

-- What nothing proves is missing.
abbrev pub is_gap : Option CoverageStatus → Option CoverageStatus
is_gap none = some CoverageStatus.missing
is_gap (some CoverageStatus.available) = none
is_gap (some CoverageStatus.unavailable) = some CoverageStatus.unavailable
is_gap (some CoverageStatus.missing) = some CoverageStatus.missing

pub record Walked (cursor end : Datetime) (facts : List Interval) (c : ObservationCoverage)
    : Type 0 where
  pub covered_ascending : IsAscending cursor c.covered
  pub gaps_ascending : IsAscending cursor c.gaps
  pub covered_at :
      (v : Datetime)
      → interval_at c.covered v
        ≡ (if contains cursor end v then is_covered (interval_at facts v) else none)
  pub gaps_at :
      (v : Datetime)
      → interval_at c.gaps v
        ≡ (if contains cursor end v then is_gap (interval_at facts v) else none)

plain_hole-covered :
    (a b : Datetime) (c : ObservationCoverage) → (plain_hole a b c).covered ≡ c.covered
unfolding plain_hole
plain_hole-covered a b c = ground arith

plain_hole-gaps :
    (a b : Datetime) (c : ObservationCoverage) (v : Datetime)
    → interval_at (plain_hole a b c).gaps v
      ≡ (if contains a b v then some CoverageStatus.missing else interval_at c.gaps v)
unfolding plain_hole interval_at
plain_hole-gaps a b c v = ground arith

plain_hole-gaps-IsAscending :
    (a b : Datetime) (c : ObservationCoverage)
    → a ≤ b
    → IsAscending b c.gaps
    → IsAscending a (plain_hole a b c).gaps
unfolding plain_hole
plain_hole-gaps-IsAscending a b c le h = elim (Bool-cases (ltb a b)) [
  | inl e ↦ rw e (omega arith, ltb→lt a b e, h)
  | inr e ↦ rw e (IsAscending-later a b c.gaps le h)
]

add_fact-covered :
    (f : Interval) (s : CoverageStatus) (c : ObservationCoverage) (v : Datetime)
    → interval_at (add_fact f s c).covered v ≡ (
        if contains f.start f.end v && same_coverage s CoverageStatus.available
        then some f.status
        else interval_at c.covered v)
unfolding add_fact interval_at same_coverage
add_fact-covered f CoverageStatus.available c v = ground arith
add_fact-covered f CoverageStatus.unavailable c v = ground arith
add_fact-covered f CoverageStatus.missing c v = ground arith

add_fact-gaps :
    (f : Interval) (s : CoverageStatus) (c : ObservationCoverage) (v : Datetime)
    → interval_at (add_fact f s c).gaps v ≡ (
        if contains f.start f.end v && not (same_coverage s CoverageStatus.available)
        then some f.status
        else interval_at c.gaps v)
unfolding add_fact interval_at same_coverage
add_fact-gaps f CoverageStatus.available c v = ground arith
add_fact-gaps f CoverageStatus.unavailable c v = ground arith
add_fact-gaps f CoverageStatus.missing c v = ground arith

add_fact-IsAscending :
    (f : Interval) (s : CoverageStatus) (c : ObservationCoverage)
    → f.start < f.end
    → IsAscending f.end c.covered
    → IsAscending f.end c.gaps
    → IsAscending f.start (add_fact f s c).covered × IsAscending f.start (add_fact f s c).gaps
unfolding add_fact
add_fact-IsAscending f CoverageStatus.available c lt h k =
    ((omega arith, lt, h), IsAscending-later f.start f.end c.gaps (omega arith) k)
add_fact-IsAscending f CoverageStatus.unavailable c lt h k =
    (IsAscending-later f.start f.end c.covered (omega arith) h, (omega arith, lt, k))
add_fact-IsAscending f CoverageStatus.missing c lt h k =
    (IsAscending-later f.start f.end c.covered (omega arith) h, (omega arith, lt, k))

module _ (cursor end : Datetime) (f : Interval) (rest : List Interval)
    (c : ObservationCoverage) where
  module _ (h : IsAscending cursor (f ∷ rest)) (e : f.end ≤ end) (d : Walked f.end end rest c) where
    before_fact : (v : Datetime) → v < f.start → interval_at (f ∷ rest) v ≡ none
    before_fact v p = interval_at-before f.start v (f ∷ rest) (omega arith, h.1, h.2) p

    in_fact : (v : Datetime) → f.start ≤ v → v < f.end → interval_at (f ∷ rest) v ≡ some f.status
    unfolding interval_at contains
    in_fact v p q = ground arith

    past_fact : (v : Datetime) → f.end ≤ v → interval_at (f ∷ rest) v ≡ interval_at rest v
    unfolding interval_at contains
    past_fact v p = ground arith

    step-Walked : Walked cursor end (f ∷ rest) (plain_hole cursor f.start (add_fact f f.status c))
    step-Walked = record {
      covered_ascending = rw plain_hole-covered (
          IsAscending-later cursor f.start _ h.0
            (add_fact-IsAscending f f.status c h.1 d.covered_ascending d.gaps_ascending).0);
      gaps_ascending =
          plain_hole-gaps-IsAscending cursor f.start (add_fact f f.status c) h.0
            (add_fact-IsAscending f f.status c h.1 d.covered_ascending d.gaps_ascending).1;
      covered_at = λ v.
          rw (plain_hole-covered, add_fact-covered)
            (unfold contains same_coverage in
              ground (arith, d.covered_at v, before_fact v, in_fact v, past_fact v));
      gaps_at = λ v.
          rw (plain_hole-gaps, add_fact-gaps)
            (unfold contains same_coverage in
              ground (arith, d.gaps_at v, before_fact v, in_fact v, past_fact v));
    }

pub plain_walk-Walked :
    (cursor end : Datetime) (facts : List Interval)
    → cursor ≤ end
    → IsAscending cursor facts
    → EndsBy end facts
    → Walked cursor end facts (plain_walk cursor end facts)
unfolding plain_walk
plain_walk-Walked cursor end [] le h e = record {
  covered_ascending = rw plain_hole-covered tt;
  gaps_ascending = plain_hole-gaps-IsAscending cursor end _ le tt;
  covered_at = λ v. rw plain_hole-covered (unfold interval_at in ground arith);
  gaps_at = λ v. rw plain_hole-gaps (unfold interval_at in ground arith);
}
plain_walk-Walked cursor end (f ∷ rest) le h e =
    step-Walked cursor end f rest (plain_walk f.end end rest) h e.0
      (plain_walk-Walked f.end end rest e.0 h.2 e.1)
