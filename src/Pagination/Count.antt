-- ===== src/Pagination/Count.antt =====
-- The bars of a request, counted up to a cap.
use xret.Pagination.{bounded_bar_count}
use xret.Sync.{advance_bars}
use xret.Timeframe.{next_boundary, TimeBar, Datetime}
use xret.Prelude.{◌≤◌, ◌<◌, ℕ, zero, suc, ltb→lt, ltb, inr, inl, arith, Bool-cases}

-- A count of bars from `cursor`, up to `cap`: below the cap it reaches the end, and with any fewer
-- bars the end is not reached.
abbrev pub IsCount : TimeBar → Datetime → Datetime → ℕ → ℕ → Type 0
IsCount t cursor end cap n =
    (n ≤ cap)
    × (n < cap → end ≤ advance_bars t cursor n)
    × ((k : ℕ) → k < n → advance_bars t cursor k < end)

none_counted :
    (t : TimeBar) (cursor end : Datetime) (cap : ℕ)
    → (0 < cap → end ≤ cursor)
    → IsCount t cursor end cap 0
unfolding advance_bars
none_counted t cursor end cap h = (omega arith, h, λ k lt. absurd (omega arith))

one_more :
    (t : TimeBar) (cursor end : Datetime) (cap n : ℕ)
    → cursor < end
    → IsCount t (next_boundary t cursor) end cap n
    → IsCount t cursor end (suc cap) (suc n)
one_more t cursor end cap n lt h = (omega (arith, h.0), λ p. reaches p, fewer)
  where
    reaches : suc n < suc cap → end ≤ advance_bars t cursor (suc n)
    reaches p = unfold advance_bars in h.1 (omega arith)

    fewer : (k : ℕ) → k < suc n → advance_bars t cursor k < end
    fewer zero p = unfold advance_bars in lt
    fewer (suc k) p = unfold advance_bars in h.2 k (omega arith)

-- The count never exceeds its cap. Below the cap that many bars from the start reach the end of the
-- request; with any smaller number of bars the end is not reached.
pub bounded_bar_count-IsCount :
    (t : TimeBar) (cursor end : Datetime) (cap : ℕ)
    → IsCount t cursor end cap (bounded_bar_count t cursor end cap)
unfolding bounded_bar_count
bounded_bar_count-IsCount t cursor end zero =
    none_counted t cursor end 0 (λ p. absurd (omega arith))
bounded_bar_count-IsCount t cursor end (suc cap) = elim (Bool-cases (ltb cursor end)) [
  | inl e ↦ rw e (
      one_more t cursor end cap (bounded_bar_count t (next_boundary t cursor) end cap)
        (ltb→lt cursor end e) (bounded_bar_count-IsCount t (next_boundary t cursor) end cap))
  | inr e ↦ rw e (none_counted t cursor end (suc cap) (λ p. ground (arith, e)))
]
