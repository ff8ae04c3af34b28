-- ===== src/Tests/Paginations.antt =====
-- Page sizes at concrete requests.
use xret.Timeframe.Grid.{IsBoundary}
use xret.Timeframe.Laws.{next_boundary_lem, first_boundary}
use xret.Pagination.{bounded_bar_count, advance}
use xret.Pagination.Progress.{advance-IsPage, IsPage}
use xret.Pagination.Count.{bounded_bar_count-IsCount, IsCount}
use xret.Timeframe.{next_boundary, floor_fixed, floor, minute, TimeBar, Datetime}
use xret.Prelude.{◌≤◌, ◌-◌, refl, ◌+◌, some, arith}

-- 2024-03-01T00:00:00Z
abbrev request_start : Datetime
request_start = 63844848000000000

abbrev half_hours : TimeBar
half_hours = record { amount = 30; unit = minute }

half_past-IsBoundary :
    IsBoundary (floor half_hours) (first_boundary half_hours) (request_start + 1800000000)
unfolding first_boundary floor floor_fixed
half_past-IsBoundary = (omega arith, refl)

first_fits : next_boundary half_hours request_start - request_start ≤ 3600000000
first_fits = omega (
  arith,
  (next_boundary_lem half_hours request_start (request_start + 1800000000) (omega arith)
        (unfold first_boundary in omega arith)).2
      half_past-IsBoundary (omega arith),
)

-- Pages of at most five bars and an hour, in a request of ten hours.
advance-IsPage_example :
    IsPage half_hours
      (request_start + 1)
      request_start
      5
      (request_start + 36000000000)
      (some 3600000000)
      (advance half_hours request_start 5 (request_start + 36000000000) (some 3600000000))
advance-IsPage_example =
    advance-IsPage half_hours request_start (request_start + 36000000000) 5 (some 3600000000)
      (omega arith) (unfold first_boundary in omega arith) (omega arith) (omega arith) first_fits

bounded_bar_count-IsCount_example :
    IsCount half_hours request_start
      (request_start + 36000000000)
      7
      (bounded_bar_count half_hours request_start (request_start + 36000000000) 7)
bounded_bar_count-IsCount_example =
    bounded_bar_count-IsCount half_hours request_start (request_start + 36000000000) 7
