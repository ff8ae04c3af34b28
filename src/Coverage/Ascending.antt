-- ===== src/Coverage/Ascending.antt =====
-- Ascending lists of intervals, as the answers to a request are.
use xret.Coverage.{Interval}
use xret.Prelude.{◌≤◌, ◌<◌, ℕ, arith, [], List, ◌∷◌}

-- Nonempty intervals from `p` on, each at or after the end of the one before.
abbrev pub IsAscending : ℕ → List Interval → Type 0
IsAscending p [] = Unit
IsAscending p (i ∷ rest) = (p ≤ i.start) × (i.start < i.end) × IsAscending i.end rest

pub IsAscending-later : (p q : ℕ) (is : List Interval) → p ≤ q → IsAscending q is → IsAscending p is
IsAscending-later p q [] le h = tt
IsAscending-later p q (i ∷ rest) le h = (omega arith, h.1, h.2)
