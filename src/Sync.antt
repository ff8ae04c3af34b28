-- ===== src/Sync.antt =====
-- The planning and bookkeeping of `BarDataset.sync` in dataset.py.
use xret.Live.{closed}
use xret.Observation.{mem}
use xret.Timeframe.Intervals.{iter_intervals}
use xret.Coverage.{seg, same_status, StoredStatus, Segment, Interval}
use xret.Timeframe.{second_us, next_boundary, floor, TimeBar, Datetime}
pub mod Segments
pub mod Windows
pub mod Finality
use xret.Prelude.{
  value_error, ◌||◌, ◌>>=◌, ◌==◌, ◌-◌, ◌++◌, ◌*◌, ◌&&◌, ℕ, zero, true, suc, some, ok, not, none,
  min, max, ltb, leb, invalid_request, if◌then◌else◌, false, err, [], Result, Option, List, Bool,
  ◌∷◌, ◌≡◌,
}

-- `DEFAULT_FINALITY_GRACE` of providers/runtime.py: five seconds.
abbrev pub finality_grace : ℕ
finality_grace = 5 * second_us

-- `_finalizable_end`
pub finalizable_end : TimeBar → Datetime → Datetime → Datetime
finalizable_end t request_end observed_at = min request_end (floor t (observed_at - finality_grace))

-- `_validate_aligned_range`
pub validate_aligned_range : TimeBar → Datetime → Datetime → Result (Unit {0})
validate_aligned_range t start end =
    if not (floor t start == start) || not (floor t end == end) then err invalid_request else ok tt

abbrev pub presence : Bool → StoredStatus
presence true = StoredStatus.available
presence false = StoredStatus.unavailable

-- `boundaries` with the status of each: the bars clipped to the range.
clipped : Datetime → Datetime → Datetime → Datetime → StoredStatus → List Segment → List Segment
clipped start end bar_start bar_end status rest =
    if ltb (max start bar_start) (min end bar_end)
    then seg (max start bar_start) (min end bar_end) status ∷ rest
    else rest

boundaries : List Datetime → Datetime → Datetime → List (Datetime × Datetime) → List Segment
boundaries present start end [] = []
boundaries present start end ((a, b) ∷ rest) =
    clipped start end a b (presence (mem a present)) (boundaries present start end rest)

-- The grouping loop; `current` is none before the first boundary.
grouped : Option Segment → List Segment → List Segment
grouped none [] = []
grouped (some c) [] = c ∷ []
grouped none (s ∷ rest) = grouped (some s) rest
grouped (some c) (s ∷ rest) =
    let extended = grouped (some (seg c.start s.end c.status)) rest in
    let closed = c ∷ grouped (some s) rest in
    if same_status s.status c.status && c.end == s.start then extended else closed

-- `_bar_segments_for_range`
pub bar_segments_for_range : TimeBar → List Datetime → Datetime → Datetime → Result (List Segment)
unfolding boundaries grouped
bar_segments_for_range t present start end = if leb end (floor t start) then ok [] else do
  bars ← iter_intervals t (floor t start) end
  ok (grouped none (boundaries present start end bars))

pub record FetchWindow : Type 0 where
  pub start : Datetime
  pub end : Datetime
  pub gaps : List Interval

-- `_advance_bars`
unfoldable pub advance_bars : TimeBar → Datetime → ℕ → Datetime
advance_bars t start zero = start
advance_bars t start (suc bars) = advance_bars t (next_boundary t start) bars

abbrev snoc : List Interval → Interval → List Interval
snoc xs x = xs ++ x ∷ []

-- `__post_init__`
pub fetch_window : FetchWindow → Result FetchWindow
fetch_window w = elim w.gaps [
  | [] ↦ err value_error
  | g ∷ rest ↦ if leb w.end w.start then err value_error else ok w
]

-- The loop of `_coalesce_fetch_ranges`; `w` holds `window_start`, `window_end` and `member_gaps`.
windows_from : TimeBar → ℕ → FetchWindow → Datetime → List Interval → Result (List FetchWindow)
unfolding fetch_window
windows_from t bars w limit [] = do x ← fetch_window w; ok (x ∷ [])
windows_from t bars w limit (g ∷ rest) =
    let wider =
      windows_from t bars (record { start = w.start; end = g.end; gaps = snoc w.gaps g }) limit
        rest in
    let later =
      windows_from t bars (record { start = g.start; end = g.end; gaps = g ∷ [] })
        (advance_bars t g.start bars) rest in
    let next = fetch_window w >>= λ x. later >>= λ xs. ok (x ∷ xs) in
    if leb g.end limit then wider else next

pub coalesce_fetch_ranges : TimeBar → ℕ → List Interval → Result (List FetchWindow)
unfolding windows_from
coalesce_fetch_ranges t zero gaps = err value_error
coalesce_fetch_ranges t (suc bars) [] = ok []
coalesce_fetch_ranges t (suc bars) (g ∷ rest) =
    windows_from t (suc bars) (record { start = g.start; end = g.end; gaps = g ∷ [] })
      (advance_bars t g.start (suc bars)) rest
