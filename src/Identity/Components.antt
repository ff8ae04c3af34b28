-- ===== src/Identity/Components.antt =====
-- The checks on the parts of an identity.
use mathlib.Core.Path.{subst}
use xret.Prelude.{
  same_text, past_guard, ◌≡◌, refl, guarded, after_ok, ◌||◌, ◌>>=◌, ◌==◌, ◌&&◌, ℕ, true, ok, not,
  ltb, leb, invalid_request, if◌then◌else◌, false, err, [], Text, Result, Bool, ◌∷◌,
}

-- `_EXCHANGE_PATTERN.match`; `$` also matches before a newline that ends the text.
is_lower : ℕ → Bool
is_lower c = leb b'a' c && leb c b'z'

is_slug : ℕ → Bool
unfolding is_lower
is_slug c = is_lower c || (leb b'0' c && leb c b'9')

slug_rest : Text → Bool
unfolding is_slug
slug_rest [] = true
slug_rest (c ∷ []) = is_slug c || c == 10
slug_rest (c ∷ d ∷ rest) = is_slug c && slug_rest (d ∷ rest)

is_exchange : Text → Bool
unfolding slug_rest
is_exchange [] = false
is_exchange (c ∷ rest) = is_lower c && slug_rest rest

-- `_validate_exchange`
unfoldable pub validate_exchange : Text → Result Text
unfolding is_exchange
validate_exchange t = if is_exchange t then ok t else err invalid_request

-- `_SETTLE_PATTERN.fullmatch`: nonempty, without a slash.
no_slash : Text → Bool
no_slash [] = true
no_slash (c ∷ rest) = not (c == b'/') && no_slash rest

is_component : Text → Bool
unfolding no_slash
is_component [] = false
is_component (c ∷ rest) = no_slash (c ∷ rest)

-- `_SYMBOL_PATTERN.fullmatch`; behind the first character of the base, up to its slash.
symbol_rest : Text → Bool
unfolding is_component
symbol_rest [] = false
symbol_rest (c ∷ rest) = if c == b'/' then is_component rest else symbol_rest rest

is_symbol : Text → Bool
unfolding symbol_rest
is_symbol [] = false
is_symbol (c ∷ rest) = not (c == b'/') && symbol_rest rest

-- What `encode("utf-8")` accepts: every code point but the surrogates.
is_representable : Text → Bool
is_representable [] = true
is_representable (c ∷ rest) = (ltb c 0xD800 || ltb 0xDFFF c) && is_representable rest

abbrev is_empty : Text → Bool
is_empty [] = true
is_empty (c ∷ rest) = false

module _ (nfc : Text → Text) where
  -- `_normalize_representable`
  normalize_representable : Text → Result Text
  unfolding is_representable
  normalize_representable t =
      if is_empty t
      then err invalid_request
      else if is_representable (nfc t)
      then ok (nfc t)
      else err invalid_request

  -- `_validate_symbol`
  unfoldable pub validate_symbol : Text → Result Text
  unfolding normalize_representable is_symbol
  validate_symbol t = do
    n ← normalize_representable t
    if is_symbol n then ok n else err invalid_request

  -- `_validate_settle`
  unfoldable pub validate_settle : Text → Result Text
  unfolding normalize_representable is_component
  validate_settle t = do
    n ← normalize_representable t
    if is_component n then ok n else err invalid_request

pub validate_exchange-fixed : (t u : Text) → validate_exchange t ≡ ok u → t ≡ u
unfolding validate_exchange
validate_exchange-fixed t u h = (guarded invalid_request (is_exchange t) t u h).1

nonempty_symbol : (t : Text) → is_symbol t ≡ true → is_empty t ≡ false
unfolding is_symbol
nonempty_symbol [] h = cc
nonempty_symbol (c ∷ t) h = refl

nonempty_component : (t : Text) → is_component t ≡ true → is_empty t ≡ false
unfolding is_component
nonempty_component [] h = cc
nonempty_component (c ∷ t) h = refl

-- NFC is idempotent.
abbrev pub IsIdempotent : (Text → Text) → Type 0
IsIdempotent nfc = (t : Text) → nfc (nfc t) ≡ nfc t

module _ (nfc : Text → Text) (idempotent : IsIdempotent nfc) where
  normalized :
      (t n : Text)
      → normalize_representable nfc t ≡ ok n
      → (nfc n ≡ n) × (is_representable n ≡ true)
  unfolding normalize_representable
  normalized t n h =
      let g = guarded invalid_request (is_representable (nfc t)) (nfc t) n (
        past_guard invalid_request (is_empty t)
          (if is_representable (nfc t) then ok (nfc t) else err invalid_request) n h) in
      (subst (λ x. nfc x ≡ x) g.1 (idempotent t), subst (λ x. is_representable x ≡ true) g.1 g.0)

  normalize_again :
      (t n : Text)
      → normalize_representable nfc t ≡ ok n
      → is_empty n ≡ false
      → normalize_representable nfc n ≡ ok n
  unfolding normalize_representable
  normalize_again t n h nonempty = let g = normalized t n h in rw (nonempty, g.0, g.1) refl

  -- A check behind the normalization accepts its own result, unchanged.
  checked_again :
      (accepts : Text → Bool) (t n : Text)
      → ((u : Text) → accepts u ≡ true → is_empty u ≡ false)
      → (normalize_representable nfc t >>= λ m. if accepts m then ok m else err invalid_request)
        ≡ ok n
      → (normalize_representable nfc n >>= λ m. if accepts m then ok m else err invalid_request)
        ≡ ok n
  checked_again accepts t n nonempty h =
      let b =
        after_ok (normalize_representable nfc t)
          (λ m. if accepts m then ok m else err invalid_request) h in
      let g = guarded invalid_request (accepts b.0) b.0 n b.2 in
      subst
        (λ x.
          (normalize_representable nfc x >>= λ m. if accepts m then ok m else err invalid_request)
          ≡ ok x)
        g.1 (rw (normalize_again t b.0 b.1 (nonempty b.0 g.0), g.0) refl)

  pub validate_symbol-again :
      (t n : Text) → validate_symbol nfc t ≡ ok n → validate_symbol nfc n ≡ ok n
  unfolding validate_symbol
  validate_symbol-again t n h = checked_again is_symbol t n nonempty_symbol h

  pub validate_settle-again :
      (t n : Text) → validate_settle nfc t ≡ ok n → validate_settle nfc n ≡ ok n
  unfolding validate_settle
  validate_settle-again t n h = checked_again is_component t n nonempty_component h

  pub validate_settle-nonempty :
      (t n : Text) → validate_settle nfc t ≡ ok n → same_text n [] ≡ false
  unfolding validate_settle
  validate_settle-nonempty t n h =
      let b =
        after_ok (normalize_representable nfc t)
          (λ m. if is_component m then ok m else err invalid_request) h in
      let g = guarded invalid_request (is_component b.0) b.0 n b.2 in
      subst (λ x. same_text x [] ≡ false) g.1 (component_nonblank b.0 g.0)
    where
      component_nonblank : (x : Text) → is_component x ≡ true → same_text x [] ≡ false
      component_nonblank [] e = cc
      component_nonblank (c ∷ x) e = unfold same_text in refl
