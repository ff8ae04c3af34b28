-- ===== src/Timeframe/Laws.antt =====
-- Every `TimeBar` that can be constructed has a grid of boundaries.
use xret.Timeframe.Months.{month-IsGrid}
use xret.Timeframe.Fixed.{week-IsGrid, fixed-IsGrid}
use native.Mathlib.Decide.{dec_lt}
use xret.Timeframe.Grid.{IsGrid, IsBoundary}
use xret.Timeframe.{
  week, time_bar, step_by, step, second, next_boundary, month, minute, is_calendar, hour, floor_by,
  floor, fixed_unit_seconds, fixed_step, epoch, day, TimeBar, Datetime, BarUnit,
}
use xret.Prelude.{◌≤◌, ◌↔◌, ◌<◌, ◌%◌, ℕ, ok, arith, ◌≡◌}

-- What `__post_init__` accepts.
abbrev pub IsAmount : ℕ → BarUnit → Type 0
IsAmount amount week = amount ≡ 1
IsAmount amount month = amount ≡ 1
IsAmount amount unit = 0 < amount

abbrev pub IsValid : TimeBar → Type 0
IsValid t = IsAmount t.amount t.unit

unfoldable pub first_by : ℕ → BarUnit → Datetime
first_by amount week = 0
first_by amount month = 0
first_by amount unit = epoch % fixed_step amount unit

-- The earliest boundary that a `datetime` can hold; `floor` of anything earlier overflows.
unfoldable pub first_boundary : TimeBar → Datetime
unfolding first_by
first_boundary t = first_by t.amount t.unit

-- The constructor accepts just the valid bars, and keeps what it is given.
pub time_bar-IsValid :
    (amount : ℕ) (unit : BarUnit) (t : TimeBar)
    → (time_bar amount unit ≡ ok t)
      ↔ (IsAmount amount unit × (t ≡ record { amount = amount; unit = unit }))
unfolding time_bar is_calendar fixed_unit_seconds
time_bar-IsValid amount second t = (λ e. ground arith, λ h. ground arith)
time_bar-IsValid amount minute t = (λ e. ground arith, λ h. ground arith)
time_bar-IsValid amount hour t = (λ e. ground arith, λ h. ground arith)
time_bar-IsValid amount day t = (λ e. ground arith, λ h. ground arith)
time_bar-IsValid amount week t = (λ e. ground arith, λ h. ground arith)
time_bar-IsValid amount month t = (λ e. ground arith, λ h. ground arith)

module _ (amount : ℕ) where
  by_unit-IsGrid :
      (unit : BarUnit)
      → IsAmount amount unit
      → IsGrid (floor_by amount unit) (step_by amount unit) (first_by amount unit)
  unfolding floor_by step_by first_by
  by_unit-IsGrid second h = fixed-IsGrid (fixed_step amount second) (omega arith)
  by_unit-IsGrid minute h = fixed-IsGrid (fixed_step amount minute) (omega arith)
  by_unit-IsGrid hour h = fixed-IsGrid (fixed_step amount hour) (omega arith)
  by_unit-IsGrid day h = fixed-IsGrid (fixed_step amount day) (omega arith)
  by_unit-IsGrid week h = week-IsGrid
  by_unit-IsGrid month h = month-IsGrid

-- For a valid bar and an instant that is not before the first representable boundary: `floor`
-- gives a boundary at or before the instant, the step from there passes the instant, a step
-- from a boundary gives a boundary, and the instants within one bar all floor to its start.
pub TimeBar-IsGrid : (t : TimeBar) → IsValid t → IsGrid (floor t) (step t) (first_boundary t)
unfolding floor step first_boundary
TimeBar-IsGrid t h = by_unit-IsGrid t.amount t.unit h

-- For a valid bar and an instant that is not before its first boundary, `next_boundary` gives a
-- boundary strictly after the instant, and no boundary after the instant is earlier.
pub next_boundary_lem :
    (t : TimeBar) (v b : Datetime)
    → IsValid t
    → first_boundary t ≤ v
    → (v < next_boundary t v)
      × IsBoundary (floor t) (first_boundary t) (next_boundary t v)
      × (IsBoundary (floor t) (first_boundary t) b → v < b → next_boundary t v ≤ b)
unfolding next_boundary
next_boundary_lem t v b h f = (
  g.lt-step-floor v f,
  g.step-IsBoundary (floor t v) (g.floor-IsBoundary v f),
  λ hb lt. not_between hb lt,
)
  where
    g : IsGrid (floor t) (step t) (first_boundary t)
    g = TimeBar-IsGrid t h

    not_between : IsBoundary (floor t) (first_boundary t) b → v < b → step t (floor t v) ≤ b
    not_between hb lt = elim (dec_lt b (step t (floor t v))) [
      | yes p ↦ absurd (
          omega (
            arith,
            g.floor-le v f,
            hb.1,
            g.floor_within (floor t v) b (g.floor-IsBoundary v f) (omega (arith, g.floor-le v f)) p,
          ))
      | no p ↦ omega arith
    ]
