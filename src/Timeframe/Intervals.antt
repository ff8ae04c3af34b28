-- ===== src/Timeframe/Intervals.antt =====
-- `TimeBar.iter_intervals` and `validate_range`.
use mathlib.Core.Path.{subst}
use native.Mathlib.Decide.{dec_lt}
use xret.Timeframe.Laws.{first_boundary, TimeBar-IsGrid, IsValid}
use xret.Timeframe.Grid.{IsGrid, IsBoundary-lt-step, IsBoundary}
use xret.Timeframe.{step, next_boundary, floor, TimeBar, Datetime}
use xret.Prelude.{
  ok_injective, ◌⊎◌, ◌≤◌, ◌≢◌, ◌∙◌, ◌==◌, ◌<◌, ◌-◌, ◌+◌, ℕ, zero, sym, suc, refl, ok, ltb→lt, ltb,
  leb, invalid_request, inr, inl, if◌then◌else◌, err, arith, ap, [], Result, List, Bool-cases, ◌∷◌,
  ◌≡◌,
}

-- The loop; every round advances the cursor, so `end - start` rounds are enough.
bars_from : ℕ → TimeBar → Datetime → Datetime → List (Datetime × Datetime)
bars_from zero t cursor end = []
bars_from (suc fuel) t cursor end =
    let rest = (cursor, step t cursor) ∷ bars_from fuel t (step t cursor) end in
    if ltb cursor end then rest else []

pub iter_intervals : TimeBar → Datetime → Datetime → Result (List (Datetime × Datetime))
unfolding bars_from
iter_intervals t start end =
    if leb end start
    then err invalid_request
    else if floor t start == start
    then ok (bars_from (end - start) t start end)
    else err invalid_request

pub validate_range : Datetime → Datetime → Result (Unit {0})
validate_range start end = if leb end start then err invalid_request else ok tt

-- The bars from `cursor` on: each starts where the one before ended, the last reaches `end`.
abbrev pub Bars : TimeBar → Datetime → Datetime → List (Datetime × Datetime) → Type 0
Bars t end cursor [] = end ≤ cursor
Bars t end cursor ((a, b) ∷ rest) =
    (a ≡ cursor)
    × (cursor < end)
    × IsBoundary (floor t) (first_boundary t) a
    × (b ≡ step t a)
    × Bars t end b rest

bars_from-Bars :
    (fuel : ℕ) (t : TimeBar) (cursor end : Datetime)
    → IsValid t
    → IsBoundary (floor t) (first_boundary t) cursor
    → end ≤ cursor + fuel
    → Bars t end cursor (bars_from fuel t cursor end)
unfolding bars_from
bars_from-Bars zero t cursor end h b enough = omega arith
bars_from-Bars (suc fuel) t cursor end h b enough = elim (Bool-cases (ltb cursor end)) [
  | inl e ↦ rw e (
    refl,
    ltb→lt cursor end e,
    b,
    refl,
    bars_from-Bars fuel t (step t cursor) end h (g.step-IsBoundary cursor b)
        (omega (arith, IsBoundary-lt-step g cursor b)),
  )
  | inr e ↦ rw e (ground arith)
]
  where
    g : IsGrid (floor t) (step t) (first_boundary t)
    g = TimeBar-IsGrid t h

-- For a valid bar, from a boundary to any later `end` the loop ends with the bars that follow one another from
-- `start` until one reaches `end`; each pair is a boundary and the next one.
pub iter_intervals-Bars :
    (t : TimeBar) (start end : Datetime)
    → IsValid t
    → IsBoundary (floor t) (first_boundary t) start
    → start < end
    → (bars : List (Datetime × Datetime)) × (iter_intervals t start end ≡ ok bars)
      × Bars t end start bars
unfolding iter_intervals
iter_intervals-Bars t start end h b lt = (
  bars_from (end - start) t start end,
  ground (arith, b.1),
  bars_from-Bars (end - start) t start end h b (omega arith),
)

-- An empty range, or a start that is no boundary, is refused.
pub iter_intervals-refuses :
    (t : TimeBar) (start end : Datetime)
    → (end ≤ start) ⊎ (floor t start ≢ start)
    → iter_intervals t start end ≡ err invalid_request
unfolding iter_intervals
iter_intervals-refuses t start end h = ground arith

abbrev pub InPairs : Datetime → Datetime → List (Datetime × Datetime) → Type 0
InPairs a b [] = ⊥
InPairs a b ((c, d) ∷ rest) = ((a ≡ c) × (b ≡ d)) ⊎ InPairs a b rest

Bars-complete :
    (t : TimeBar) (cursor end v : Datetime) (bars : List (Datetime × Datetime))
    → IsValid t
    → Bars t end cursor bars
    → cursor ≤ v
    → v < end
    → InPairs (floor t v) (next_boundary t v) bars
unfolding next_boundary
Bars-complete t cursor end v [] h k lo hi = absurd (omega arith)
Bars-complete t cursor end v ((a, b) ∷ rest) h k lo hi = elim (dec_lt v b) [
  | yes p ↦
      let same : floor t v ≡ a =
        (TimeBar-IsGrid t h).floor_within a v k.2 (omega arith) (omega arith) in
      inl (same, ap (step t) same ∙ sym k.3)
  | no p ↦ inr (Bars-complete t b end v rest h k.4 (omega arith) hi)
]

-- For a valid bar and a request from a boundary to a later `end`: the list that `iter_intervals`
-- returns has, for every instant of the request, the bar from its floor to the next boundary.
pub iter_intervals_complete :
    (t : TimeBar) (start end v : Datetime) (bars : List (Datetime × Datetime))
    → IsValid t
    → IsBoundary (floor t) (first_boundary t) start
    → start ≤ v
    → v < end
    → iter_intervals t start end ≡ ok bars
    → InPairs (floor t v) (next_boundary t v) bars
iter_intervals_complete t start end v bars h b lo hi e =
    let found = iter_intervals-Bars t start end h b (omega arith) in
    subst (InPairs (floor t v) (next_boundary t v)) (ok_injective (sym found.1 ∙ e))
      (Bars-complete t start end v found.0 h found.2 lo hi)
