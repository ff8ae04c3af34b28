-- ===== src/Timeframe/Calendar.antt =====
-- The civil calendar: years and months divide the days.
use xret.Timeframe.{
  midnight, day_us, civil, Civil, year_of, month_by, is_leap, days_before_year, days_before_month,
}
use xret.Prelude.{◌-◌, ◌*◌, refl, ◌≤◌, ◌<◌, ◌+◌, ℕ, zero, suc, if◌then◌else◌, arith, Bool, ◌≡◌}

pub days_before_year-suc :
    (y : ℕ)
    → 1 ≤ y
    → days_before_year (y + 1) ≡ days_before_year y + (if is_leap y then 366 else 365)
unfolding days_before_year is_leap
days_before_year-suc y h = ground arith

pub year_of-pos : (d : ℕ) → 1 ≤ year_of d
unfolding year_of
year_of-pos d = ground arith

-- `year_of` finds the year whose days hold day `d`.
pub year_of-le : (d : ℕ) → days_before_year (year_of d) ≤ d
unfolding year_of
year_of-le d = ground arith

pub lt-year_of : (d : ℕ) → d < days_before_year (year_of d + 1)
unfolding year_of
lt-year_of d = ground arith

pub days_before_month-suc :
    (leap : Bool) (m : ℕ)
    → 1 ≤ m
    → m ≤ 12
    → days_before_month leap m < days_before_month leap (suc m)
unfolding days_before_month
days_before_month-suc leap m lo hi = ground arith

month_by-le : (leap : Bool) (n m : ℕ) → days_before_month leap (month_by leap n m) ≤ n
unfolding month_by
month_by-le leap n zero = unfold days_before_month in omega arith
month_by-le leap n (suc m) = ground (arith, month_by-le leap n m)

lt-month_by :
    (leap : Bool) (n m : ℕ)
    → n < days_before_month leap (suc m)
    → n < days_before_month leap (suc (month_by leap n m))
unfolding month_by
lt-month_by leap n zero h = h
lt-month_by leap n (suc m) h = ground (arith, lt-month_by leap n m)

-- The first day of month `m` of year `y`; month 13 is the next January.
unfoldable pub month_day : ℕ → ℕ → ℕ
month_day y m = days_before_year y + days_before_month (is_leap y) m

pub days_before_month-end : (leap : Bool) → days_before_month leap 13 ≡ (if leap then 366 else 365)
unfolding days_before_month
days_before_month-end leap = ground arith

pub days_before_month-start : (leap : Bool) → days_before_month leap 1 ≡ 0
unfolding days_before_month
days_before_month-start leap = refl

pub month_day-suc : (y m : ℕ) → 1 ≤ m → m ≤ 12 → month_day y m < month_day y (suc m)
unfolding month_day
month_day-suc y m lo hi = omega (arith, days_before_month-suc (is_leap y) m lo hi)

pub month_day-year : (y : ℕ) → 1 ≤ y → month_day (y + 1) 1 ≡ month_day y 13
unfolding month_day
month_day-year y h =
    rw (days_before_month-start, days_before_month-end, days_before_year-suc y h) (omega arith)

pub month_day-january : (y : ℕ) → month_day y 1 ≡ days_before_year y
unfolding month_day
month_day-january y = rw days_before_month-start (omega arith)

pub midnight-month_day : (y m : ℕ) → midnight y m 1 ≡ month_day y m * day_us
unfolding midnight month_day
midnight-month_day y m = omega arith

-- The date of a day lies in its month.
pub record IsDateOf (d : ℕ) (c : Civil) : Type 0 where
  pub year_pos : 1 ≤ c.year
  pub month_in : (1 ≤ c.month) × (c.month ≤ 12)
  pub began : month_day c.year c.month ≤ d
  pub not_over : d < month_day c.year (suc c.month)
  pub day_is : month_day c.year c.month + c.day ≡ d + 1

month_by-pos : (leap : Bool) (n m : ℕ) → 1 ≤ m → 1 ≤ month_by leap n m
unfolding month_by
month_by-pos leap n zero h = absurd (omega arith)
month_by-pos leap n (suc zero) h = rw days_before_month-start (ground arith)
month_by-pos leap n (suc (suc m)) h = ground (arith, month_by-pos leap n (suc m))

month_by-le_bound : (leap : Bool) (n m : ℕ) → month_by leap n m ≤ m
unfolding month_by
month_by-le_bound leap n zero = omega arith
month_by-le_bound leap n (suc m) = ground (arith, month_by-le_bound leap n m)

in_year : (d : ℕ) → d - days_before_year (year_of d) < days_before_month (is_leap (year_of d)) 13
in_year d =
    rw days_before_month-end
      (omega (arith, year_of-le d, lt-year_of d, days_before_year-suc (year_of d) (year_of-pos d)))

pub civil-IsDateOf : (d : ℕ) → IsDateOf d (civil d)
unfolding civil month_day
civil-IsDateOf d = record {
  year_pos = year_of-pos d;
  month_in = (month_by-pos leap n 12 (omega arith), month_by-le_bound leap n 12);
  began = omega (arith, year_of-le d, month_by-le leap n 12);
  not_over = omega (arith, year_of-le d, lt-month_by leap n 12 (in_year d));
  day_is = omega (arith, year_of-le d, month_by-le leap n 12);
}
  where
    leap : Bool
    leap = is_leap (year_of d)

    n : ℕ
    n = d - days_before_year (year_of d)
