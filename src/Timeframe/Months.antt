-- ===== src/Timeframe/Months.antt =====
-- The boundaries of calendar months.
use native.Mathlib.Decide.{dec_lt}
use mathlib.Core.Path.{subst, ap₂}
use xret.Timeframe.Calendar.{
  month_day-year, month_day-suc, month_day-january, month_day, midnight-month_day, civil-IsDateOf,
  IsDateOf,
}
use xret.Timeframe.Grid.{IsGrid, Enumerates-IsGrid, Enumerates}
use xret.Timeframe.{
  is_leap, days_before_month, step_month, floor_month, days_before_year, day_us, civil, Datetime,
}
use native.Mathlib.Numerals.{add-one}
use native.Mathlib.Nat.{add-zero, add-suc}
use xret.Prelude.{refl, ◌≤◌, ◌∙◌, ◌<◌, ◌/◌, ◌-◌, ◌+◌, ◌*◌, ◌%◌, ℕ, zero, sym, suc, arith, ap, ◌≡◌}

days_before_year_mono : (y z : ℕ) → y ≤ z → days_before_year y ≤ days_before_year z
unfolding days_before_year
days_before_year_mono y z h = omega arith

month_day_mono : (y m n : ℕ) → 1 ≤ m → m + n ≤ 13 → month_day y m ≤ month_day y (m + n)
month_day_mono y m zero lo hi = rw add-zero (omega arith)
month_day_mono y m (suc n) lo hi = rw add-suc (
    omega (
      arith,
      month_day_mono y m n lo (omega arith),
      month_day-suc y (m + n) (omega arith) (omega arith),
    ))

month_day-le : (y m n : ℕ) → 1 ≤ m → m ≤ n → n ≤ 13 → month_day y m ≤ month_day y n
month_day-le y m n lo h hi =
    subst (λ k. month_day y m ≤ month_day y k) (omega arith)
      (month_day_mono y m (n - m) lo (omega arith))

-- Within its year a month's days lie between the two first of January.
month_day_in_year :
    (y m : ℕ)
    → 1 ≤ y
    → 1 ≤ m
    → m ≤ 13
    → (days_before_year y ≤ month_day y m) × (month_day y m ≤ days_before_year (y + 1))
month_day_in_year y m h lo hi = (
  unfold month_day in omega arith,
  omega (
    arith,
    month_day-le y m 13 lo hi (omega arith),
    month_day-year y h,
    month_day-january (y + 1),
  ),
)

-- A month that holds day `d` is the only one.
same_month :
    (d y m z n : ℕ)
    → 1 ≤ y
    → 1 ≤ z
    → (1 ≤ m) × (m ≤ 12)
    → (1 ≤ n) × (n ≤ 12)
    → month_day y m ≤ d
    → d < month_day y (suc m)
    → month_day z n ≤ d
    → d < month_day z (suc n)
    → (y ≤ z) × (y ≡ z → m ≤ n)
same_month d y m z n hy hz hm hn a b c e = (
  elim (dec_lt z y) [
    | yes p ↦ absurd (
        omega (
          arith,
          days_before_year_mono (z + 1) y (omega arith),
          (month_day_in_year y m hy hm.0 (omega arith)).0,
          (month_day_in_year z (suc n) hz (omega arith) (omega arith)).1,
        ))
    | no p ↦ omega arith
  ],
  λ same. elim (dec_lt n m) [
    | yes p ↦ absurd (
        omega (
          arith,
          month_day-le y (suc n) m (omega arith) p (omega arith),
          ap (λ w. month_day w (suc n)) same,
        ))
    | no p ↦ omega arith
  ],
)

module _ (y m : ℕ) (hy : 1 ≤ y) (hm : (1 ≤ m) × (m ≤ 12)) where
  found : IsDateOf (month_day y m) (civil (month_day y m))
  found = civil-IsDateOf (month_day y m)

  no_later :
      (y ≤ (civil (month_day y m)).year)
      × (y ≡ (civil (month_day y m)).year → m ≤ (civil (month_day y m)).month)
  no_later =
      same_month (month_day y m) y m _ _ hy found.year_pos hm found.month_in (omega arith)
        (month_day-suc y m hm.0 hm.1) found.began found.not_over

  no_earlier :
      ((civil (month_day y m)).year ≤ y)
      × ((civil (month_day y m)).year ≡ y → (civil (month_day y m)).month ≤ m)
  no_earlier =
      same_month (month_day y m) _ _ y m found.year_pos hy found.month_in hm found.began
        found.not_over (omega arith) (month_day-suc y m hm.0 hm.1)

  civil-year : (civil (month_day y m)).year ≡ y
  civil-year = omega (arith, no_later.0, no_earlier.0)

  civil-month : (civil (month_day y m)).month ≡ m
  civil-month = omega (arith, no_later.1 (sym civil-year), no_earlier.1 civil-year)

  civil-day : (civil (month_day y m)).day ≡ 1
  civil-day = omega (arith, found.day_is, ap₂ (λ a b. month_day a b) civil-year civil-month)

-- Month `k` counted from January of year 1.
pub month_start : ℕ → Datetime
month_start k = month_day (k / 12 + 1) (k % 12 + 1) * day_us

month_start-suc : (k : ℕ) → month_start (suc k) ≡ month_day (k / 12 + 1) (suc (k % 12 + 1)) * day_us
unfolding month_start
month_start-suc k = elim (dec_lt (k % 12) 11) [
  | yes p ↦ ap₂ (λ y m. month_day y m * day_us) (omega arith) (omega arith)
  | no p ↦
      ap₂ (λ y m. month_day y m * day_us) (omega arith) (omega arith)
      ∙ ap (λ n. n * day_us) (month_day-year (k / 12 + 1) (omega arith))
      ∙ ap (λ m. month_day (k / 12 + 1) m * day_us) (omega arith)
]

month_start-at :
    (y m : ℕ)
    → 1 ≤ y
    → (1 ≤ m) × (m ≤ 12)
    → month_start ((y - 1) * 12 + (m - 1)) ≡ month_day y m * day_us
unfolding month_start
month_start-at y m hy hm = ap₂ (λ a b. month_day a b * day_us) (omega arith) (omega arith)

month_index : Datetime → ℕ
month_index v = let c = civil (v / day_us) in (c.year - 1) * 12 + (c.month - 1)

module _ (v : ℕ) where
  date : IsDateOf (v / day_us) (civil (v / day_us))
  date = civil-IsDateOf (v / day_us)

  month_start-index :
      month_start (month_index v)
      ≡ month_day (civil (v / day_us)).year (civil (v / day_us)).month * day_us
  unfolding month_index
  month_start-index = month_start-at _ _ date.year_pos date.month_in

  month_start-index-suc :
      month_start (suc (month_index v))
      ≡ month_day (civil (v / day_us)).year (suc (civil (v / day_us)).month) * day_us
  unfolding month_index
  month_start-index-suc =
      month_start-suc _
      ∙ ap₂ (λ a b. month_day a (suc b) * day_us) (omega (arith, date.year_pos, date.month_in))
          (omega (arith, date.year_pos, date.month_in))

  floor_month-index : floor_month v ≡ month_start (month_index v)
  unfolding floor_month
  floor_month-index = midnight-month_day _ _ ∙ sym month_start-index

month_start-grows : (k : ℕ) → month_start k < month_start (suc k)
month_start-grows k = rw (month_start-suc k) (
    unfold month_start in
    omega (arith, month_day-suc (k / 12 + 1) (k % 12 + 1) (omega arith) (omega arith)))

-- A first of the month, and the first of the next one.
step_month-start :
    (y m : ℕ)
    → 1 ≤ y
    → (1 ≤ m) × (m ≤ 12)
    → step_month (month_day y m * day_us) ≡ month_day y (suc m) * day_us
unfolding step_month
step_month-start y m hy hm =
    rw (whole_days, no_time, civil-year y m hy hm, civil-month y m hy hm, civil-day y m hy hm)
      (elim (dec_lt m 12) [
        | yes p ↦ ground (arith, midnight-month_day y (m + 1), ap (month_day y) (add-one m))
        | no p ↦ ground (
          arith,
          midnight-month_day (y + 1) 1,
          month_day-year y hy,
          ap (month_day y) (last_month p),
        )
      ])
  where
    whole_days : month_day y m * day_us / day_us ≡ month_day y m
    whole_days = omega arith

    last_month : ¬ (m < 12) → suc m ≡ 13
    last_month p = omega arith

    no_time : month_day y m * day_us % day_us ≡ 0
    no_time = omega arith

pub month_Enumerates : Enumerates floor_month step_month
month_Enumerates = record {
  bound = month_start;
  index = month_index;
  grows = month_start-grows;
  below = λ v h. rw month_start-index (omega (arith, (date v).began));
  above = λ v h. rw month_start-index-suc (omega (arith, (date v).not_over));
  floor_at = λ v h. floor_month-index v;
  step_at = λ k.
      unfold month_start in
      (step_month-start (k / 12 + 1) (k % 12 + 1) (omega arith) (omega arith, omega arith)
        ∙ sym (month_start-suc k));
}

month_start-zero : month_start 0 ≡ 0
unfolding month_start month_day days_before_year days_before_month is_leap
month_start-zero = refl

pub month-IsGrid : IsGrid floor_month step_month 0
unfolding month_Enumerates
month-IsGrid =
    subst (IsGrid floor_month step_month) month_start-zero (Enumerates-IsGrid month_Enumerates)
