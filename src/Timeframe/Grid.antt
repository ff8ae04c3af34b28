-- ===== src/Timeframe/Grid.antt =====
-- What the rest of the program needs of `floor` and `_step`: the interface that a time bar fills.
use mathlib.Core.Path.{subst}
use native.Mathlib.Decide.{dec_lt}
use xret.Timeframe.{floor}
use native.Mathlib.Nat.{zero-add, suc-add}
use xret.Prelude.{◌∙◌, ◌-◌, sym, arith, ap, ◌≤◌, ◌<◌, ◌+◌, ℕ, zero, suc, ◌≡◌}

-- `floor` and `step` walk through the boundaries `bound 0 < bound 1 < …`, `index` finds them.
-- Before the first boundary that a `datetime` can hold, Python's `floor` raises OverflowError.
pub record Enumerates (floor step : ℕ → ℕ) : Type 0 where
  pub bound : ℕ → ℕ
  pub index : ℕ → ℕ
  pub grows : (k : ℕ) → bound k < bound (suc k)
  pub below : (v : ℕ) → bound 0 ≤ v → bound (index v) ≤ v
  pub above : (v : ℕ) → bound 0 ≤ v → v < bound (suc (index v))
  pub floor_at : (v : ℕ) → bound 0 ≤ v → floor v ≡ bound (index v)
  pub step_at : (k : ℕ) → step (bound k) ≡ bound (suc k)

-- A boundary, not before the first one.
abbrev pub IsBoundary : (ℕ → ℕ) → ℕ → ℕ → Type 0
IsBoundary floor first b = (first ≤ b) × (floor b ≡ b)

-- The laws of a grid of bar boundaries from `first` on.
pub record IsGrid (floor step : ℕ → ℕ) (first : ℕ) : Type 0 where
  pub floor-IsBoundary : (v : ℕ) → first ≤ v → IsBoundary floor first (floor v)
  pub floor-le : (v : ℕ) → first ≤ v → floor v ≤ v
  pub lt-step-floor : (v : ℕ) → first ≤ v → v < step (floor v)
  pub step-IsBoundary : (b : ℕ) → IsBoundary floor first b → IsBoundary floor first (step b)
  pub floor_within : (b v : ℕ) → IsBoundary floor first b → b ≤ v → v < step b → floor v ≡ b

sub_add : (j k : ℕ) → j ≤ k → k - j + j ≡ k
sub_add j k h = omega arith

module _ {floor step : ℕ → ℕ} (e : Enumerates floor step) where
  open e use {bound, index, grows, below, above, floor_at, step_at}

  bound_mono : (j d : ℕ) → bound j ≤ bound (d + j)
  bound_mono j zero = rw zero-add (omega arith)
  bound_mono j (suc d) = rw suc-add (omega (arith, bound_mono j d, grows (d + j)))

  bound-le : (j k : ℕ) → j ≤ k → bound j ≤ bound k
  bound-le j k h = subst (λ n. bound j ≤ bound n) (sub_add j k h) (bound_mono j (k - j))

  -- Only one pair of neighbours encloses an instant.
  bound_unique :
      (j k v : ℕ) → bound j ≤ v → v < bound (suc j) → bound k ≤ v → v < bound (suc k) → j ≡ k
  bound_unique j k v a b c d = elim (dec_lt j k) [
    | yes p ↦ absurd (omega (arith, bound-le (suc j) k p))
    | no p ↦ elim (dec_lt k j) [
      | yes q ↦ absurd (omega (arith, bound-le (suc k) j q))
      | no q ↦ omega arith
    ]
  ]

  floor_between : (k v : ℕ) → bound k ≤ v → v < bound (suc k) → floor v ≡ bound k
  floor_between k v a b =
      let from_first : bound 0 ≤ v = omega (arith, bound-le 0 k (omega arith)) in
      floor_at v from_first
      ∙ ap bound (bound_unique (index v) k v (below v from_first) (above v from_first) a b)

  bound-IsBoundary : (k : ℕ) → IsBoundary floor (bound 0) (bound k)
  bound-IsBoundary k =
      (bound-le 0 k (omega arith), floor_between k (bound k) (omega arith) (grows k))

  -- Every boundary is a `bound`.
  IsBoundary-bound : (b : ℕ) → IsBoundary floor (bound 0) b → bound (index b) ≡ b
  IsBoundary-bound b h = sym (floor_at b h.0) ∙ h.1

  pub Enumerates-IsGrid : IsGrid floor step (bound 0)
  Enumerates-IsGrid = record {
    floor-IsBoundary = λ v h. rw (floor_at v h) (bound-IsBoundary (index v));
    floor-le = λ v h. rw (floor_at v h) (below v h);
    lt-step-floor = λ v h. rw (floor_at v h, step_at) (above v h);
    step-IsBoundary = λ b h.
        subst (λ c. IsBoundary floor (bound 0) (step c)) (IsBoundary-bound b h)
          (rw step_at (bound-IsBoundary (suc (index b))));
    floor_within = λ b v h p q.
        floor_between (index b) v (rw (IsBoundary-bound b h) p)
          (rw (← step_at (index b), IsBoundary-bound b h) q)
        ∙ IsBoundary-bound b h;
  }

-- What follows from the laws alone.
module _ {floor step : ℕ → ℕ} {first : ℕ} (g : IsGrid floor step first) where
  -- A boundary's bar is not empty.
  pub IsBoundary-lt-step : (b : ℕ) → IsBoundary floor first b → b < step b
  IsBoundary-lt-step b h = subst (λ c. b < step c) h.1 (g.lt-step-floor b h.0)

  -- `floor v` is the latest boundary at or before `v`.
  pub floor_latest : (b v : ℕ) → IsBoundary floor first b → b ≤ v → b ≤ floor v
  floor_latest b v h p = elim (dec_lt (floor v) b) [
    | yes q ↦
        absurd (omega (arith, g.lt-step-floor v (omega arith), later_step v b (omega arith) h q p))
    | no q ↦ omega arith
  ]
    where
      later_step :
          (v b : ℕ)
          → first ≤ v
          → IsBoundary floor first b
          → floor v < b
          → b ≤ v
          → b < step (floor v)
          → ⊥
      later_step v b f h lt le inside =
          omega
            (arith, g.floor_within (floor v) b (g.floor-IsBoundary v f) (omega arith) inside, h.1)
