-- ===== src/Prelude/Errors.antt =====
-- errors.py: the error classes as values (`value_error` and `assertion_error` are Python's own), and
-- the results of code that may raise one.
use mathlib.Core.Bool.{Bool, true, false}
use xret.Prelude.Tests.{if◌then◌else◌}
use mathlib.Core.Path.{◌≡◌, ap, refl, subst}

pub data Error : Type 0 where
  configuration_error invalid_request unsupported_market provider_error : Error
  coverage_error sync_error catalog_error value_error : Error
  assertion_error : Error

pub data Result {ℓ} (A : Type ℓ) : Type ℓ where
  ok : A → Result A
  err : Error → Result A

infixl 5 ◌>>=◌ ◌>>◌
abbrev pub ◌>>=◌ {ℓ κ} : {A : Type ℓ} {B : Type κ} → Result A → (A → Result B) → Result B
ok a >>= f = f a
err e >>= f = err e

abbrev pub ◌>>◌ {ℓ κ} : {A : Type ℓ} {B : Type κ} → Result A → Result B → Result B
m >> k = m >>= λ _. k

or_else {ℓ} : {A : Type ℓ} → A → Result A → A
or_else a (ok b) = b
or_else a (err e) = a

pub ok_injective {ℓ} : {A : Type ℓ} {a b : A} → ok a ≡ ok b → a ≡ b
unfolding or_else
ok_injective {a} e = ap (or_else a) e

abbrev IsErr {ℓ} : {A : Type ℓ} → Result A → Type 0
IsErr (ok a) = ⊥
IsErr (err e) = Unit

pub err-ne-ok {ℓ} : {A : Type ℓ} {e : Error} {a : A} → err e ≡ ok a → ⊥
err-ne-ok h = subst IsErr h tt

-- What a guard in front of a result gives.
pub accepted {ℓ} :
    {A : Type ℓ} (e : Error) (b : Bool) (x y : A) → (if b then ok x else err e) ≡ ok y → x ≡ y
accepted e true x y h = ok_injective h
accepted e false x y h = absurd (err-ne-ok h)

pub not_refused {ℓ} :
    {A : Type ℓ} (e : Error) (b : Bool) (x y : A) → (if b then err e else ok x) ≡ ok y → x ≡ y
not_refused e true x y h = absurd (err-ne-ok h)
not_refused e false x y h = ok_injective h

-- `if not …: raise …`
abbrev pub guard : Bool → Error → Result (Unit {0})
guard holds e = if holds then ok tt else err e

-- What the first part of a chain gave, where the whole chain raised nothing.
pub after_ok {ℓ κ} :
    {X : Type ℓ} {Y : Type κ} (first : Result X) (rest : X → Result Y) {y : Y}
    → first >>= rest ≡ ok y
    → (x : X) × (first ≡ ok x) × (rest x ≡ ok y)
after_ok (err raised) rest h = absurd (err-ne-ok h)
after_ok (ok x) rest h = (x, refl, h)

-- Inversion of a guard.
pub guarded {ℓ} :
    {A : Type ℓ} (e : Error) (b : Bool) (x y : A)
    → (if b then ok x else err e) ≡ ok y
    → (b ≡ true) × (x ≡ y)
guarded e true x y h = (refl, ok_injective h)
guarded e false x y h = absurd (err-ne-ok h)

pub past_guard {ℓ} :
    {A : Type ℓ} (e : Error) (b : Bool) (x : Result A) (y : A)
    → (if b then err e else x) ≡ ok y
    → x ≡ ok y
past_guard e true x y h = absurd (err-ne-ok h)
past_guard e false x y h = h
