-- ===== src/Timeframe.antt =====
-- timeframe.py: instants, the civil calendar that `datetime` gives, and `TimeBar`.
-- An instant is its number of microseconds since 0001-01-01T00:00:00Z (`datetime.min`).
pub mod Calendar
pub mod Grid
pub mod Fixed
pub mod Months
pub mod Text
pub mod Laws
pub mod Intervals
use mathlib.Core.Option
use xret.Prelude.{
  ◌≡◌, ◌||◌, ◌==◌, ◌/◌, ◌-◌, ◌+◌, ◌*◌, ◌&&◌, ◌%◌, ℕ, zero, true, suc, some, refl, ok, not, none,
  leb, invalid_request, if◌then◌else◌, false, err, Result, Option, Bool, ◌∷◌,
}

abbrev pub Datetime : Type 0
Datetime = ℕ

abbrev pub second_us : ℕ
second_us = 1000000

abbrev pub day_us : ℕ
day_us = 86400000000

-- `_EPOCH`: 719162 days lie before 1970-01-01.
abbrev pub epoch : Datetime
epoch = 62135596800000000

pub is_leap : ℕ → Bool
is_leap y = y % 4 == 0 && (not (y % 100 == 0) || y % 400 == 0)

-- Days from 0001-01-01 to the first of January of year `y`.
pub days_before_year : ℕ → ℕ
days_before_year y = (y - 1) * 365 + (y - 1) / 4 - (y - 1) / 100 + (y - 1) / 400

-- Days of a year before its month `m`; month 13 stands for the whole year.
pub days_before_month : Bool → ℕ → ℕ
days_before_month leap m =
    let l : ℕ = if leap then 1 else 0 in
    if leb m 1
    then 0
    else if m == 2
    then 31
    else (if m == 3
        then 59
        else if m == 4
        then 90
        else if m == 5
        then 120
        else if m == 6
        then 151
        else if m == 7
        then 181
        else if m == 8
        then 212
        else if m == 9
        then 243
        else if m == 10
        then 273
        else if m == 11
        then 304
        else if m == 12
        then 334
        else 365)
      + l

pub record Civil : Type 0 where
  pub year : ℕ
  pub month : ℕ
  pub day : ℕ

-- The year that holds day `d`, counted from 0001-01-01.
pub year_of : ℕ → ℕ
unfolding days_before_year
year_of d = let y = 400 * d / 146097 + 1 in if leb (days_before_year (y + 1)) d then y + 1 else y

-- The last month up to `m` that has begun by day `n` of the year.
pub month_by : Bool → ℕ → ℕ → ℕ
month_by leap n zero = 0
month_by leap n (suc m) =
    let earlier = month_by leap n m in
    if leb (days_before_month leap (suc m)) n then suc m else earlier

pub civil : ℕ → Civil
civil d =
    let y = year_of d in
    let n = d - days_before_year y in
    let m = month_by (is_leap y) n 12 in
    record { year = y; month = m; day = n - days_before_month (is_leap y) m + 1 }

-- `datetime(year, month, day, tzinfo=UTC)`.
pub midnight : ℕ → ℕ → ℕ → Datetime
midnight y m d = (days_before_year y + days_before_month (is_leap y) m + (d - 1)) * day_us

-- The letters of `_VALID_UNITS`: s, m, h, d, w, M.
pub data BarUnit : Type 0 where
  second minute hour day week month : BarUnit

pub record TimeBar : Type 0 where
  pub amount : ℕ
  pub unit : BarUnit

-- `_FIXED_UNIT_SECONDS`; a calendar unit has no entry.
pub fixed_unit_seconds : BarUnit → Option ℕ
fixed_unit_seconds second = some 1
fixed_unit_seconds minute = some 60
fixed_unit_seconds hour = some 3600
fixed_unit_seconds day = some 86400
fixed_unit_seconds week = none
fixed_unit_seconds month = none

pub is_calendar : TimeBar → Bool
unfolding fixed_unit_seconds
is_calendar t = elim (fixed_unit_seconds t.unit) [ none ↦ true | some s ↦ false ]

pub fixed_step_ms : TimeBar → Option ℕ
unfolding fixed_unit_seconds
fixed_step_ms t = Option.map (λ s. t.amount * s * 1000) (fixed_unit_seconds t.unit)

-- `__post_init__`: the unit is a `BarUnit` already.
unfoldable pub time_bar : ℕ → BarUnit → Result TimeBar
unfolding is_calendar
time_bar amount unit =
    let t : TimeBar = record { amount = amount; unit = unit } in
    if amount == 0
    then err invalid_request
    else if is_calendar t && not (amount == 1)
    then err invalid_request
    else ok t

-- `_EPOCH + (value - _EPOCH) // step * step`; the quotient rounds down also before the epoch.
unfoldable pub floor_fixed : ℕ → Datetime → Datetime
floor_fixed step value =
    if leb epoch value
    then epoch + (value - epoch) / step * step
    else epoch - (epoch - value + (step - 1)) / step * step

-- `midnight - timedelta(days=midnight.weekday())`; 0001-01-01 is a Monday.
pub floor_week : Datetime → Datetime
floor_week value = let d = value / day_us in d * day_us - d % 7 * day_us

-- `value.replace(day=1, hour=0, minute=0, second=0, microsecond=0)`
pub floor_month : Datetime → Datetime
floor_month value = let c = civil (value / day_us) in midnight c.year c.month 1

-- The microseconds of one bar of a fixed unit.
unfoldable pub fixed_step : ℕ → BarUnit → ℕ
fixed_step amount second = amount * second_us
fixed_step amount minute = amount * 60 * second_us
fixed_step amount hour = amount * 3600 * second_us
fixed_step amount day = amount * 86400 * second_us
fixed_step amount week = 7 * day_us
fixed_step amount month = 0

floor_by : ℕ → BarUnit → Datetime → Datetime
unfolding fixed_step
floor_by amount month value = floor_month value
floor_by amount week value = floor_week value
floor_by amount unit value = floor_fixed (fixed_step amount unit) value

unfoldable pub floor : TimeBar → Datetime → Datetime
unfolding floor_by
floor t value = floor_by t.amount t.unit value

-- `boundary.replace(year=..., month=...)` keeps the day and the time of day.
pub step_month : Datetime → Datetime
step_month boundary =
    let c = civil (boundary / day_us) in
    let time = boundary % day_us in
    if c.month == 12
    then midnight (c.year + 1) 1 c.day + time
    else midnight c.year (c.month + 1) c.day + time

step_by : ℕ → BarUnit → Datetime → Datetime
unfolding fixed_step
step_by amount month boundary = step_month boundary
step_by amount unit boundary = boundary + fixed_step amount unit

-- `_step`
pub step : TimeBar → Datetime → Datetime
unfolding step_by
step t boundary = step_by t.amount t.unit boundary

pub next_boundary : TimeBar → Datetime → Datetime
unfolding floor step
next_boundary t value = step t (floor t value)

test_dates :
    (floor (record { amount = 1; unit = month }) (midnight 2024 2 29 + 5) ≡ midnight 2024 2 1)
    × (next_boundary (record { amount = 1; unit = month }) (midnight 2023 12 31)
        ≡ midnight 2024 1 1)
    × (floor (record { amount = 1; unit = week }) (midnight 2024 2 1) ≡ midnight 2024 1 29)
    × (midnight 1970 1 1 ≡ epoch)
    × (floor (record { amount = 7; unit = day }) (midnight 1969 12 31) ≡ midnight 1969 12 25)
unfolding next_boundary floor step midnight floor_month floor_week floor_fixed civil step_month
    year_of month_by is_leap days_before_month days_before_year
test_dates = (refl, refl, refl, refl, refl)

-- The first of March 2024 is a month's boundary.
pub floor_march : floor (record { amount = 1; unit = month }) 63844848000000000 ≡ 63844848000000000
unfolding floor floor_month civil midnight year_of month_by is_leap days_before_month
    days_before_year
floor_march = refl
