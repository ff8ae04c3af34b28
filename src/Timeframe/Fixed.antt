-- ===== src/Timeframe/Fixed.antt =====
-- The boundaries of fixed units and of weeks.
use mathlib.Core.Path.{subst}
use native.Mathlib.Decide.{dec_lt}
use xret.Timeframe.{floor_week, floor_fixed, epoch, day_us}
use xret.Timeframe.Grid.{IsGrid, Enumerates-IsGrid, Enumerates}
use native.Mathlib.Nat.{add-mul-div_right, div-add-mod', mod-lt}
use xret.Prelude.{
  ◌∙◌, sym, leb→le, leb, inr, inl, ap, Bool-cases, ◌≤◌, ◌<◌, ◌/◌, ◌-◌, ◌+◌, ◌*◌, ◌%◌, ℕ, arith, ◌≡◌,
}

mul_mono : (s a b : ℕ) → a ≤ b → a * s ≤ b * s
mul_mono s a b h = grind arith

right_distrib : (a b s : ℕ) → (a + b) * s ≡ a * s + b * s
right_distrib a b s = omega arith

div_unique : (x k s : ℕ) → k * s ≤ x → x < (k + 1) * s → x / s ≡ k
div_unique x k s lo hi = grind arith

epoch_split : (s : ℕ) → epoch / s * s + epoch % s ≡ epoch
epoch_split s = grind arith

-- At or after the epoch the quotient is the plain one.
floor_after_epoch :
    (s v : ℕ)
    → 0 < s
    → epoch ≤ v
    → epoch + (v - epoch) / s * s ≡ epoch % s + (v - epoch % s) / s * s
floor_after_epoch s v pos h =
    let moved : v - epoch % s ≡ v - epoch + epoch / s * s = omega (arith, epoch_split s) in
    rw (moved, add-mul-div_right (v - epoch) (epoch / s) pos) (omega (arith, epoch_split s))

-- Before it the quotient is negative: `c` bars back, with `c` rounded up.
bars_back : (s w : ℕ) → 0 < s → (w ≤ (w + (s - 1)) / s * s) × ((w + (s - 1)) / s * s < w + s)
bars_back s w pos = omega (arith, div-add-mod' (w + (s - 1)) s, mod-lt (w + (s - 1)) pos)

module _ (s v : ℕ) (pos : 0 < s) (first : epoch % s ≤ v) (h : v < epoch) (c q : ℕ)
    (lo : epoch - v ≤ c * s) (hi : c * s < epoch - v + s)
    (q_split : q * s + epoch % s ≡ epoch) where
  back-le : c ≤ q
  back-le = elim (dec_lt q c) [
    | yes p ↦ absurd (omega (arith, mul_mono s (q + 1) c (omega arith)))
    | no p ↦ omega arith
  ]

  back_split : (q - c) * s + c * s ≡ q * s
  back_split = sym (right_distrib (q - c) c s) ∙ ap (λ n. n * s) (omega (arith, back-le))

  back_quotient : (v - epoch % s) / s ≡ q - c
  back_quotient =
      div_unique (v - epoch % s) (q - c) s (omega (arith, back_split)) (omega (arith, back_split))

  floor_back : epoch - c * s ≡ epoch % s + (v - epoch % s) / s * s
  floor_back = rw back_quotient (omega (arith, back_split))

fixed_floor_at :
    (s v : ℕ) → 0 < s → epoch % s ≤ v → floor_fixed s v ≡ epoch % s + (v - epoch % s) / s * s
unfolding floor_fixed
fixed_floor_at s v pos h = elim (Bool-cases (leb epoch v)) [
  | inl e ↦ rw e (floor_after_epoch s v pos (leb→le epoch v e))
  | inr e ↦ rw e (
      floor_back s v pos h (ground arith) ((epoch - v + (s - 1)) / s) (epoch / s)
        (bars_back s (epoch - v) pos).0 (bars_back s (epoch - v) pos).1 (epoch_split s))
]

pub fixed_Enumerates : (s : ℕ) → 0 < s → Enumerates (floor_fixed s) (λ b. b + s)
fixed_Enumerates s pos = record {
  bound = λ k. epoch % s + k * s;
  index = λ v. (v - epoch % s) / s;
  grows = λ k. grind arith;
  below = λ v h. grind arith;
  above = λ v h. grind arith;
  floor_at = λ v h. fixed_floor_at s v pos (grind arith);
  step_at = λ k. grind arith;
}

pub week_Enumerates : Enumerates floor_week (λ b. b + 7 * day_us)
unfolding floor_week
week_Enumerates = record {
  bound = λ k. k * (7 * day_us);
  index = λ v. v / (7 * day_us);
  grows = λ k. omega arith;
  below = λ v h. omega arith;
  above = λ v h. omega arith;
  floor_at = λ v h. omega arith;
  step_at = λ k. omega arith;
}

pub fixed-IsGrid : (s : ℕ) → 0 < s → IsGrid (floor_fixed s) (λ b. b + s) (epoch % s)
unfolding fixed_Enumerates
fixed-IsGrid s pos =
    subst (IsGrid (floor_fixed s) (λ b. b + s)) no_steps
      (Enumerates-IsGrid (fixed_Enumerates s pos))
  where
    no_steps : epoch % s + 0 * s ≡ epoch % s
    no_steps = omega arith

pub week-IsGrid : IsGrid floor_week (λ b. b + 7 * day_us) 0
unfolding week_Enumerates
week-IsGrid = Enumerates-IsGrid week_Enumerates
