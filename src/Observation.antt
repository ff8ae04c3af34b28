-- ===== src/Observation.antt =====
-- observation_coverage.py, with the windows of providers/contracts.py and their validation in
-- providers/runtime.py.
use xret.Timeframe.Intervals.{iter_intervals}
use xret.Timeframe.{floor, TimeBar, Datetime}
use xret.Coverage.{coverage_interval, interval, Interval, CoverageStatus}
pub mod Ascending
pub mod Facts
pub mod Plain
pub mod Collect
pub mod Walk
pub mod Exact
use xret.Prelude.{
  ◌||◌, ◌>>=◌, ◌==◌, ◌++◌, ◌&&◌, ℕ, true, some, provider_error, ok, not, none, min, max, ltb, leb,
  if◌then◌else◌, false, err, [], Result, Option, List, Bool, ◌∷◌, ◌≡◌,
}

pub record ObservedWindow : Type 0 where
  pub start : Datetime
  pub end : Datetime

pub record ObservationCoverage : Type 0 where
  pub covered : List Interval
  pub gaps : List Interval

-- `bar_start in present`
pub mem : ℕ → List ℕ → Bool
mem a [] = false
mem a (x ∷ xs) = a == x || mem a xs

-- `_validate_windows` of the historical runtime; `previous` is `previous_end`.
after : Option Datetime → Datetime → Bool
after none a = true
after (some previous) a = leb previous a

windows_from :
    Option Datetime → TimeBar → Datetime → Datetime → List ObservedWindow → Result (Unit {0})
unfolding after
windows_from previous t start end [] = ok tt
windows_from previous t start end (w ∷ rest) =
    let later = windows_from (some w.end) t start end rest in
    if ltb w.start start || ltb end w.end
    then err provider_error
    else if not (floor t w.start == w.start) || not (floor t w.end == w.end)
    then err provider_error
    else if after previous w.start
    then later
    else err provider_error

unfoldable pub validate_windows :
    TimeBar → Datetime → Datetime → List ObservedWindow → Result (Unit {0})
unfolding windows_from
validate_windows t start end windows = windows_from none t start end windows

abbrev pub bar_status : Bool → CoverageStatus
bar_status true = CoverageStatus.available
bar_status false = CoverageStatus.unavailable

-- The facts of one window: one for each bar, clipped to the window.
pub bar_facts :
    List Datetime → Datetime → Datetime → List (Datetime × Datetime) → Result (List Interval)
unfolding coverage_interval
bar_facts present a b [] = ok []
bar_facts present a b ((bar_start, bar_end) ∷ rest) = do
  fact ← coverage_interval (max a bar_start) (min b bar_end) (bar_status (mem bar_start present))
  others ← bar_facts present a b rest
  ok (fact ∷ others)

window_facts : TimeBar → List Datetime → Datetime → Datetime → Result (List Interval)
unfolding bar_facts
window_facts t present a b =
    if leb b a then ok [] else do bars ← iter_intervals t a b; bar_facts present a b bars

-- The loop over the observed windows.
pub collect :
    TimeBar → List Datetime → Datetime → Datetime → List ObservedWindow → Result (List Interval)
unfolding window_facts
collect t present start effective_end [] = ok []
collect t present start effective_end (w ∷ rest) = do
  facts ← window_facts t present (max start w.start) (min effective_end w.end)
  others ← collect t present start effective_end rest
  ok (facts ++ others)

same_coverage : CoverageStatus → CoverageStatus → Bool
same_coverage CoverageStatus.available CoverageStatus.available = true
same_coverage CoverageStatus.unavailable CoverageStatus.unavailable = true
same_coverage CoverageStatus.missing CoverageStatus.missing = true
same_coverage _ _ = false

pub joins : Interval → Interval → Bool
unfolding same_coverage
joins l i = l.end == i.start && same_coverage l.status i.status

-- `_coalesce`; `last` is `merged[-1]`.
join_from : Interval → List Interval → Result (List Interval)
unfolding coverage_interval
join_from last [] = ok (last ∷ [])
join_from last (i ∷ rest) =
    let joined = coverage_interval last.start i.end last.status >>= λ both. join_from both rest in
    let kept = join_from i rest >>= λ merged. ok (last ∷ merged) in
    if joins last i then joined else kept

pub coalesce : List Interval → Result (List Interval)
unfolding join_from
coalesce [] = ok []
coalesce (i ∷ rest) = join_from i rest

-- The walk over the facts, with the tail that no fact reaches.
hole : Datetime → Datetime → Result ObservationCoverage → Result ObservationCoverage
unfolding coverage_interval
hole cursor to rest =
    if ltb cursor to
    then (coverage_interval cursor to CoverageStatus.missing >>= λ gap.
        rest >>= λ c. ok (record c { gaps = gap ∷ c.gaps }))
    else rest

unfoldable pub add_fact : Interval → CoverageStatus → ObservationCoverage → ObservationCoverage
add_fact f CoverageStatus.available c = record c { covered = f ∷ c.covered }
add_fact f status c = record c { gaps = f ∷ c.gaps }

pub walk : Datetime → Datetime → List Interval → Result ObservationCoverage
unfolding hole add_fact
walk cursor end [] = hole cursor end (ok (record { covered = []; gaps = [] }))
walk cursor end (f ∷ rest) =
    hole cursor f.start (walk f.end end rest >>= λ c. ok (add_fact f f.status c))

pub evaluate_observation_coverage :
    TimeBar
    → Datetime
    → Datetime
    → Datetime
    → List Datetime
    → List ObservedWindow
    → Result ObservationCoverage
unfolding collect coalesce walk
evaluate_observation_coverage t start end finalizable_end timestamps observed = do
  facts ← collect t timestamps start (min end (max start finalizable_end)) observed
  joined ← coalesce facts
  c ← walk start end joined
  covered ← coalesce c.covered
  gaps ← coalesce c.gaps
  ok (record { covered = covered; gaps = gaps })
