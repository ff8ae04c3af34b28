-- ===== src/Sync/Finality.antt =====
-- `_finalizable_end` is the latest boundary that a sync may settle.
use native.Mathlib.Decide.{dec_lt}
use xret.Sync.{finalizable_end, finality_grace}
use xret.Timeframe.Laws.{first_boundary, TimeBar-IsGrid, IsValid}
use xret.Timeframe.Grid.{floor_latest, IsGrid, IsBoundary}
use xret.Timeframe.{step, floor, TimeBar, Datetime}
use xret.Prelude.{◌⊎◌, ℕ, min, inr, inl, ◌≤◌, ◌-◌, ◌+◌, arith, ◌≡◌}

min_cases : (a b : ℕ) → (min a b ≡ a) ⊎ (min a b ≡ b)
min_cases a b = elim (dec_lt a b) [ yes p ↦ inl (omega arith) | no p ↦ inr (omega arith) ]

-- For a valid time bar, an aligned request end, and an observation that lies the grace or more
-- behind the first boundary: the finalizable end is a boundary, not behind the request, with the
-- whole grace between it and the observation, and no later boundary has all this.
pub finalizable_end_latest :
    (t : TimeBar) (request_end observed_at b : Datetime)
    → IsValid t
    → IsBoundary (floor t) (first_boundary t) request_end
    → first_boundary t + finality_grace ≤ observed_at
    → IsBoundary (floor t) (first_boundary t) (finalizable_end t request_end observed_at)
      × (finalizable_end t request_end observed_at ≤ request_end)
      × (finalizable_end t request_end observed_at + finality_grace ≤ observed_at)
      × (IsBoundary (floor t) (first_boundary t) b
          → b ≤ request_end
          → b + finality_grace ≤ observed_at
          → b ≤ finalizable_end t request_end observed_at)
unfolding finalizable_end
finalizable_end_latest t request_end observed_at b valid aligned late = (
  elim (min_cases request_end (floor t settled)) [
    | inl e ↦ rw e aligned
    | inr e ↦ rw e (grid.floor-IsBoundary settled (omega arith))
  ],
  omega arith,
  omega (arith, below),
  λ h p q. omega (arith, floor_latest grid b settled h (omega arith)),
)
  where
    settled : Datetime
    settled = observed_at - finality_grace

    grid : IsGrid (floor t) (step t) (first_boundary t)
    grid = TimeBar-IsGrid t valid

    below : floor t settled ≤ settled
    below = grid.floor-le settled (omega arith)
