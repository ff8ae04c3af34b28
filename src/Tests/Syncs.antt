-- ===== src/Tests/Syncs.antt =====
-- Planning and bookkeeping of a sync at concrete ranges.
use xret.Sync.Finality.{finalizable_end_latest}
use xret.Timeframe.Grid.{IsBoundary}
use xret.Observation.{mem}
use xret.Timeframe.Laws.{first_boundary}
use xret.Coverage.Status.{status_at, contains}
use xret.Sync.Segments.{bar_segments_for_range-status}
use xret.Sync.{
  finalizable_end, finality_grace, FetchWindow, presence, coalesce_fetch_ranges,
  bar_segments_for_range,
}
use xret.Coverage.Normal.{IsNormal}
use xret.Sync.Windows.{coalesce_fetch_ranges-IsPlan, IsPlan}
use xret.Timeframe.{floor_fixed, hour, floor, TimeBar, Datetime}
use xret.Coverage.{interval, Segment, Interval, CoverageStatus}
use xret.Prelude.{refl, ◌≤◌, ◌+◌, ◌*◌, ℕ, some, ok, none, if◌then◌else◌, arith, [], List, ◌∷◌, ◌≡◌}

-- 2024-03-01T00:00:00Z
abbrev midnight_march : Datetime
midnight_march = 63844848000000000

abbrev hourly : TimeBar
hourly = record { amount = 1; unit = hour }

abbrev hour_us : ℕ
hour_us = 3600000000

hourly-first : first_boundary hourly ≤ midnight_march
unfolding first_boundary
hourly-first = omega arith

hours-IsBoundary : IsBoundary (floor hourly) (first_boundary hourly) (midnight_march + 4 * hour_us)
unfolding first_boundary floor floor_fixed
hours-IsBoundary = (omega arith, refl)

bar_segments_for_range-status_example :
    (segs : List Segment) × (bar_segments_for_range hourly
        (midnight_march ∷ [])
        midnight_march
        (midnight_march + 2 * hour_us)
      ≡ ok segs)
    × IsNormal segs
    × ((v : Datetime)
        → status_at segs v ≡ (
            if contains midnight_march (midnight_march + 2 * hour_us) v
            then some (presence (mem (floor hourly v) (midnight_march ∷ [])))
            else none))
bar_segments_for_range-status_example =
    bar_segments_for_range-status hourly (midnight_march ∷ []) midnight_march
      (midnight_march + 2 * hour_us) (omega arith) hourly-first (omega arith)

-- Two gaps within three bars of the first one's start, and one far behind.
abbrev three_gaps : List Interval
three_gaps =
    interval midnight_march (midnight_march + hour_us) CoverageStatus.missing
    ∷ interval (midnight_march + 2 * hour_us) (midnight_march + 3 * hour_us)
        CoverageStatus.unavailable
    ∷ interval (midnight_march + 9 * hour_us) (midnight_march + 10 * hour_us) CoverageStatus.missing
    ∷ []

coalesce_fetch_ranges-IsPlan_example :
    (windows : List FetchWindow) × (coalesce_fetch_ranges hourly 3 three_gaps ≡ ok windows)
    × IsPlan hourly 3 three_gaps windows
coalesce_fetch_ranges-IsPlan_example =
    coalesce_fetch_ranges-IsPlan hourly 3 three_gaps (omega arith) (omega arith)

-- Observed at 02:30: of four hours asked for, two are settled.
finalizable_end_latest_example :
    IsBoundary
      (floor hourly)
      (first_boundary hourly)
      (finalizable_end hourly (midnight_march + 4 * hour_us) (midnight_march + 9000000000))
    × (finalizable_end hourly (midnight_march + 4 * hour_us) (midnight_march + 9000000000)
        ≤ midnight_march + 4 * hour_us)
    × (finalizable_end hourly (midnight_march + 4 * hour_us) (midnight_march + 9000000000)
          + finality_grace
        ≤ midnight_march + 9000000000)
    × (IsBoundary (floor hourly) (first_boundary hourly) (midnight_march + 2 * hour_us)
        → midnight_march + 2 * hour_us ≤ midnight_march + 4 * hour_us
        → midnight_march + 2 * hour_us + finality_grace ≤ midnight_march + 9000000000
        → midnight_march + 2 * hour_us
          ≤ finalizable_end hourly (midnight_march + 4 * hour_us) (midnight_march + 9000000000))
finalizable_end_latest_example =
    finalizable_end_latest hourly (midnight_march + 4 * hour_us) (midnight_march + 9000000000)
      (midnight_march + 2 * hour_us) (omega arith) hours-IsBoundary
      (unfold first_boundary in omega arith)
