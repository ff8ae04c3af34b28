-- ===== src/Observation/Facts.antt =====
-- The facts that `evaluate_observation_coverage` draws from validated windows.
use xret.Observation.Plain.{plain_facts}
use xret.Coverage.Ascending.{IsAscending-later, IsAscending}
use xret.Timeframe.Grid.{IsBoundary-lt-step}
use native.Mathlib.Decide.{dec_lt}
use xret.Coverage.Status.{interval_at, contains}
use xret.Observation.{windows_from, validate_windows, mem, bar_status, ObservedWindow}
use xret.Timeframe.Laws.{TimeBar-IsGrid, IsValid}
use xret.Observation.Ascending.{interval_at-before, EndsBy}
use xret.Timeframe.{floor, TimeBar, Datetime}
use xret.Coverage.{CoverageStatus}
use xret.Timeframe.Intervals.{Bars}
use xret.Prelude.{
  min, ap, ◌≤◌, ◌<◌, some, ok, none, if◌then◌else◌, arith, [], Option, List, All, ◌∷◌, ◌≡◌,
}

-- What `_validate_windows` accepts, with `p` the end of the window before.
abbrev pub AreWindows : TimeBar → Datetime → Datetime → Datetime → List ObservedWindow → Type 0
AreWindows t start end p [] = Unit
AreWindows t start end p (w ∷ rest) =
    (p ≤ w.start)
    × (start ≤ w.start)
    × (w.end ≤ end)
    × (w.start < w.end)
    × (floor t w.start ≡ w.start)
    × AreWindows t start end w.end rest

-- Nonempty, as `ObservedWindow.__post_init__` demands.
abbrev pub IsWindow : ObservedWindow → Type 0
IsWindow w = w.start < w.end

windows_from-AreWindows :
    (p : Datetime) (t : TimeBar) (start end : Datetime) (windows : List ObservedWindow)
    → All IsWindow windows
    → windows_from (some p) t start end windows ≡ ok tt
    → AreWindows t start end p windows
unfolding windows_from
windows_from-AreWindows p t start end [] h e = tt
windows_from-AreWindows p t start end (w ∷ rest) h e = (
  ground arith,
  ground arith,
  ground arith,
  h.0,
  ground arith,
  windows_from-AreWindows w.end t start end rest h.1 (ground arith),
)

pub validate_windows-AreWindows :
    (t : TimeBar) (start end : Datetime) (windows : List ObservedWindow)
    → All IsWindow windows
    → validate_windows t start end windows ≡ ok tt
    → AreWindows t start end start windows
unfolding validate_windows
validate_windows-AreWindows t start end [] h e = tt
validate_windows-AreWindows t start end (w ∷ rest) h e = (
  ground arith,
  ground arith,
  ground arith,
  h.0,
  ground arith,
  windows_from-AreWindows w.end t start end rest h.1 (ground arith),
)

module _ (t : TimeBar) (valid : IsValid t) (present : List Datetime) where
  -- The status that a bar's presence gives to each of its instants.
  unfoldable pub bar_at : Datetime → Option CoverageStatus
  bar_at v = some (bar_status (mem (floor t v) present))

  bar-lt-end :
      (b cursor c d : Datetime) (rest : List (Datetime × Datetime))
      → Bars t b cursor ((c, d) ∷ rest)
      → c < d
  bar-lt-end b cursor c d rest h =
      omega (arith, h.3, IsBoundary-lt-step (TimeBar-IsGrid t valid) c h.2)

  pub plain_facts-IsAscending :
      (a b cursor : Datetime) (bars : List (Datetime × Datetime))
      → a ≤ cursor
      → Bars t b cursor bars
      → IsAscending cursor (plain_facts present a b bars)
  unfolding plain_facts
  plain_facts-IsAscending a b cursor [] le h = tt
  plain_facts-IsAscending a b cursor ((c, d) ∷ rest) le h =
      let lt : c < d = bar-lt-end b cursor c d rest h in
      (
        omega arith,
        omega arith,
        IsAscending-later (min b d) d (plain_facts present a b rest) (omega arith)
            (plain_facts-IsAscending a b d rest (omega arith) h.4),
      )

  pub plain_facts-EndsBy :
      (a b : Datetime) (bars : List (Datetime × Datetime)) → EndsBy b (plain_facts present a b bars)
  unfolding plain_facts
  plain_facts-EndsBy a b [] = tt
  plain_facts-EndsBy a b ((c, d) ∷ rest) = (omega arith, plain_facts-EndsBy a b rest)

  pub plain_facts-at :
      (a b cursor : Datetime) (bars : List (Datetime × Datetime)) (v : Datetime)
      → a ≤ cursor
      → Bars t b cursor bars
      → interval_at (plain_facts present a b bars) v
        ≡ (if contains cursor b v then bar_at v else none)
  unfolding plain_facts interval_at contains
  plain_facts-at a b cursor [] v le h = ground arith
  plain_facts-at a b cursor ((c, d) ∷ rest) v le h = elim (dec_lt v d) [
    | yes p ↦ elim (dec_lt v cursor) [
      | yes q ↦ ground (arith, nothing_later p)
      | no q ↦ ground (arith, nothing_later p, in_this_bar q p)
    ]
    | no p ↦ ground (
      arith,
      bar-lt-end b cursor c d rest h,
      plain_facts-at a b d rest v (omega (arith, bar-lt-end b cursor c d rest h)) h.4,
    )
  ]
    where
      nothing_later : v < d → interval_at (plain_facts present a b rest) v ≡ none
      nothing_later p =
          interval_at-before d v (plain_facts present a b rest)
            (plain_facts-IsAscending a b d rest (omega (arith, bar-lt-end b cursor c d rest h)) h.4)
            p

      in_this_bar : ¬ (v < cursor) → v < d → bar_at v ≡ some (bar_status (mem c present))
      in_this_bar q p =
          unfold bar_at in
          ap (λ f. some (bar_status (mem f present)))
            ((TimeBar-IsGrid t valid).floor_within c v h.2 (omega arith) (omega (arith, h.3)))
