-- ===== src/Pagination.antt =====
-- The page sizes of providers/ccxt/pagination.py.
use xret.Timeframe.{next_boundary, TimeBar, Datetime}
use xret.Prelude.{
  ◌-◌, ℕ, zero, suc, some, none, ltb, leb, if◌then◌else◌, false, Option, Bool, ◌∷◌, ◌≡◌,
}
pub mod Progress
pub mod Count

-- `max_span is not None and next_cursor - start > max_span`
pub exceeds : Option ℕ → ℕ → Bool
exceeds none span = false
exceeds (some max_span) span = ltb max_span span

-- The loop of `_advance`: what is left of `bars`, then the cursor and the bars traversed.
advance_from : TimeBar → Datetime → ℕ → Datetime → Option ℕ → Datetime → ℕ → Datetime × ℕ
unfolding exceeds
advance_from t start zero end max_span cursor traversed = (cursor, traversed)
advance_from t start (suc bars) end max_span cursor traversed =
    let later = advance_from t start bars end max_span (next_boundary t cursor) (suc traversed) in
    if exceeds max_span (next_boundary t cursor - start)
    then (cursor, traversed)
    else if leb end (next_boundary t cursor)
    then (end, suc traversed)
    else later

-- `_advance`
pub advance : TimeBar → Datetime → ℕ → Datetime → Option ℕ → Datetime × ℕ
unfolding advance_from
advance t start bars end max_span = advance_from t start bars end max_span start 0

-- `_bounded_bar_count`; every round of its loop counts one bar, so `cap` bounds the rounds.
pub bounded_bar_count : TimeBar → Datetime → Datetime → ℕ → ℕ
bounded_bar_count t cursor end zero = 0
bounded_bar_count t cursor end (suc cap) =
    let rest = suc (bounded_bar_count t (next_boundary t cursor) end cap) in
    if ltb cursor end then rest else 0
