-- ===== src/Observation/Exact.antt =====
-- `evaluate_observation_coverage` says of each instant what the evidence proves.
use xret.Observation.Plain.{plain_walk, plain_coalesce, walk-ok, coalesce-ok}
use xret.Coverage.Ascending.{IsAscending}
use xret.Coverage.Status.{interval_at, contains}
use xret.Observation.Walk.{plain_walk-Walked, is_gap, is_covered, Walked}
use xret.Observation.{
  validate_windows, evaluate_observation_coverage, ObservedWindow, ObservationCoverage,
}
use xret.Observation.Facts.{validate_windows-AreWindows, IsWindow}
use xret.Timeframe.Laws.{first_boundary, IsValid}
use xret.Observation.Ascending.{
  plain_coalesce-at, plain_coalesce-IsAscending, plain_coalesce-EndsBy, EndsBy-later,
}
use xret.Timeframe.{TimeBar, Datetime}
use xret.Observation.Collect.{proved_at, collect-Collected, Collected}
use xret.Prelude.{
  refl, accepted, ◌≤◌, ◌∙◌, ◌<◌, ok, none, min, max, if◌then◌else◌, arith, ap, List, All, ◌≡◌,
}

-- The coverage of a request: of each instant inside it the covered list says `available` where
-- the evidence proves it; the gaps say `unavailable` where it proves that, else `missing`.
pub record IsExact (t : TimeBar) (start end effective_end : Datetime) (present : List Datetime)
    (windows : List ObservedWindow) (c : ObservationCoverage) : Type 0 where
  pub covered_at :
      (v : Datetime)
      → interval_at c.covered v ≡ (
          if contains start end v
          then is_covered (proved_at t present effective_end windows v)
          else none)
  pub gaps_at :
      (v : Datetime)
      → interval_at c.gaps v ≡ (
          if contains start end v
          then is_gap (proved_at t present effective_end windows v)
          else none)
  pub covered_ascending : IsAscending start c.covered
  pub gaps_ascending : IsAscending start c.gaps

-- For a valid bar, a request that is not before its first boundary, and nonempty windows that
-- `_validate_windows` accepts, the evaluation returns two lists of nonempty ascending intervals
-- that do not overlap. Of an instant in the request the covered
-- list says `available` just where it lies in an observed window, before the finalizable end, in
-- a bar whose start was returned. The gaps say `unavailable` where it lies so in a bar that was
-- not returned, and `missing` everywhere else in the request.
pub evaluate_observation_coverage-IsExact :
    (t : TimeBar) (start end finalizable_end : Datetime) (timestamps : List Datetime)
    (windows : List ObservedWindow)
    → IsValid t
    → first_boundary t ≤ start
    → start < end
    → All IsWindow windows
    → validate_windows t start end windows ≡ ok tt
    → (c : ObservationCoverage) × (evaluate_observation_coverage t start end finalizable_end
          timestamps windows
        ≡ ok c)
      × IsExact t start end (min end (max start finalizable_end)) timestamps windows c
evaluate_observation_coverage-IsExact t start end finalizable_end timestamps windows valid first lt
      proper accepted =
    (
      record { covered = plain_coalesce walked.covered; gaps = plain_coalesce walked.gaps },
      unfold evaluate_observation_coverage in
          rw
            (
              k.returns,
              coalesce-ok start k.facts k.ascending,
              walk-ok start end (plain_coalesce k.facts),
              coalesce-ok start walked.covered d.covered_ascending,
              coalesce-ok start walked.gaps d.gaps_ascending,
            )
            refl,
      record {
        covered_at = λ v.
            plain_coalesce-at start walked.covered v d.covered_ascending
            ∙ d.covered_at v
            ∙ ap (λ o. if contains start end v then is_covered o else none) (facts_at v);
        gaps_at = λ v.
            plain_coalesce-at start walked.gaps v d.gaps_ascending
            ∙ d.gaps_at v
            ∙ ap (λ o. if contains start end v then is_gap o else none) (facts_at v);
        covered_ascending = plain_coalesce-IsAscending start walked.covered d.covered_ascending;
        gaps_ascending = plain_coalesce-IsAscending start walked.gaps d.gaps_ascending;
      },
    )
  where
    effective_end : Datetime
    effective_end = min end (max start finalizable_end)

    k : Collected t timestamps start effective_end start windows
    k =
        collect-Collected t valid timestamps start effective_end first end start windows
          (validate_windows-AreWindows t start end windows proper accepted)

    walked : ObservationCoverage
    walked = plain_walk start end (plain_coalesce k.facts)

    d : Walked start end (plain_coalesce k.facts) walked
    d =
        plain_walk-Walked start end (plain_coalesce k.facts) (omega arith)
          (plain_coalesce-IsAscending start k.facts k.ascending)
          (plain_coalesce-EndsBy end k.facts
            (EndsBy-later effective_end end k.facts (omega arith) k.ends_by))

    facts_at :
        (v : Datetime)
        → interval_at (plain_coalesce k.facts) v ≡ proved_at t timestamps effective_end windows v
    facts_at v = plain_coalesce-at start k.facts v k.ascending ∙ k.status v
