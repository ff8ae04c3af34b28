-- ===== src/Tests/Times.antt =====
-- Time bars at concrete dates.
use xret.Timeframe.Text.{parse-IsValid, to_text, parse_newline, parse-to_text, parse}
use xret.Timeframe.Laws.{IsValid, next_boundary_lem, first_boundary, TimeBar-IsGrid}
use xret.Timeframe.Grid.{IsGrid, IsBoundary}
use xret.Timeframe.{step, next_boundary, month, hour, floor_march, floor, TimeBar, Datetime}
use xret.Timeframe.Intervals.{
  InPairs, iter_intervals_complete, iter_intervals-Bars, iter_intervals, Bars,
}
use xret.Prelude.{◌≤◌, ◌<◌, ◌+◌, ◌++◌, refl, ok, arith, [], List, ◌∷◌, ◌≡◌}

abbrev four_hours : TimeBar
four_hours = record { amount = 4; unit = hour }

abbrev one_month : TimeBar
one_month = record { amount = 1; unit = month }

-- 2024-02-29T07:30:00Z and 2024-03-01T00:00:00Z
abbrev leap_morning : Datetime
leap_morning = 63844788600000000

abbrev march : Datetime
march = 63844848000000000

TimeBar-IsGrid_example : IsGrid (floor one_month) (step one_month) (first_boundary one_month)
TimeBar-IsGrid_example = TimeBar-IsGrid one_month refl

month_first : first_boundary one_month ≤ march
unfolding first_boundary
month_first = omega arith

next_boundary_lem_example :
    (leap_morning < next_boundary one_month leap_morning)
    × IsBoundary (floor one_month) (first_boundary one_month) (next_boundary one_month leap_morning)
    × (IsBoundary (floor one_month) (first_boundary one_month) march
        → leap_morning < march
        → next_boundary one_month leap_morning ≤ march)
next_boundary_lem_example =
    next_boundary_lem one_month leap_morning march refl (unfold first_boundary in omega arith)

march-IsBoundary : IsBoundary (floor one_month) (first_boundary one_month) march
march-IsBoundary = (month_first, floor_march)

iter_intervals-Bars_example :
    (bars : List (Datetime × Datetime)) × (iter_intervals one_month march (march + 1) ≡ ok bars)
    × Bars one_month (march + 1) march bars
iter_intervals-Bars_example =
    iter_intervals-Bars one_month march (march + 1) refl march-IsBoundary (omega arith)

parse-to_text_example : parse (to_text four_hours) ≡ ok four_hours
parse-to_text_example = parse-to_text four_hours (omega arith)

parse_newline_example : parse (to_text four_hours ++ 10 ∷ []) ≡ ok four_hours
parse_newline_example = parse_newline four_hours (omega arith)

iter_intervals_complete_example :
    InPairs
      (floor one_month march)
      (next_boundary one_month march)
      (iter_intervals-Bars one_month march (march + 1) refl march-IsBoundary (omega arith)).0
iter_intervals_complete_example =
    iter_intervals_complete one_month march (march + 1) march
      (iter_intervals-Bars one_month march (march + 1) refl march-IsBoundary (omega arith)).0 refl
      march-IsBoundary (omega arith) (omega arith)
      (iter_intervals-Bars one_month march (march + 1) refl march-IsBoundary (omega arith)).1

parse-IsValid_example : IsValid four_hours
parse-IsValid_example =
    parse-IsValid (to_text four_hours) four_hours (parse-to_text four_hours (omega arith))
