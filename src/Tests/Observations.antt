-- ===== src/Tests/Observations.antt =====
-- Provider evidence over four hourly bars.
use xret.Timeframe.Laws.{first_boundary}
use xret.Observation.{
  validate_windows, evaluate_observation_coverage, ObservedWindow, ObservationCoverage,
}
use xret.Observation.Exact.{evaluate_observation_coverage-IsExact, IsExact}
use xret.Timeframe.{floor_fixed, hour, floor, TimeBar, Datetime}
use xret.Prelude.{◌+◌, ◌*◌, ℕ, refl, ok, min, max, arith, [], List, ◌∷◌, ◌≡◌}

abbrev hourly : TimeBar
hourly = record { amount = 1; unit = hour }

-- 2024-03-01T00:00:00Z and the full hours after it.
abbrev at_hour : ℕ → Datetime
at_hour n = 63844848000000000 + n * 3600000000

abbrev windows : List ObservedWindow
windows = record { start = at_hour 0; end = at_hour 2 } ∷ []

windows_accepted : validate_windows hourly (at_hour 0) (at_hour 4) windows ≡ ok tt
unfolding validate_windows floor floor_fixed
windows_accepted = refl

evaluate_observation_coverage-IsExact_example :
    (c : ObservationCoverage) × (evaluate_observation_coverage hourly
        (at_hour 0)
        (at_hour 4)
        (at_hour 3)
        (at_hour 0 ∷ [])
        windows
      ≡ ok c)
    × IsExact hourly
        (at_hour 0)
        (at_hour 4)
        (min (at_hour 4) (max (at_hour 0) (at_hour 3)))
        (at_hour 0 ∷ [])
        windows
        c
evaluate_observation_coverage-IsExact_example =
    evaluate_observation_coverage-IsExact hourly (at_hour 0) (at_hour 4) (at_hour 3)
      (at_hour 0 ∷ []) windows (omega arith) (unfold first_boundary in omega arith) (omega arith)
      (omega arith) windows_accepted
