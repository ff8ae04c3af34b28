-- ===== src/Identity/Accepted.antt =====
-- What the constructors accept, they accept again unchanged.
use mathlib.Core.Path.{subst}
use xret.Timeframe.Text.{parse}
use xret.Timeframe.{TimeBar}
use xret.Identity.{no_settle, key_settle, dataset_key, DatasetKey, market_identity, MarketIdentity}
use xret.Identity.Vocabulary.{same_market, is_operable, Market}
use xret.Identity.Components.{
  validate_settle-nonempty, validate_symbol-again, validate_settle-again, validate_exchange-fixed,
  validate_symbol, validate_settle, validate_exchange, IsIdempotent,
}
use xret.Prelude.{
  same_text, past_guard, inr, inl, guarded, Bool-cases, ◌>>=◌, ◌&&◌, unsupported_market, sym, refl,
  ok_injective, not, is_some, invalid_request, guard, err-ne-ok, err, arith, Result, Error, Bool,
  after_ok, true, some, ok, none, false, Text, Option, ◌≡◌,
}

-- The parts that every identity shares, as they are after their checks.
pub record IsIdentity (nfc : Text → Text) (exchange symbol : Text) (market : Market) : Type 0 where
  pub exchange_ok : validate_exchange exchange ≡ ok exchange
  pub symbol_ok : validate_symbol nfc symbol ≡ ok symbol
  pub operable : is_operable market ≡ true

-- A settlement after its checks.
abbrev pub IsSettle : (Text → Text) → Market → Option Text → Type 0
IsSettle nfc market none = Unit
IsSettle nfc market (some s) =
    (same_market market Market.spot ≡ false) × (validate_settle nfc s ≡ ok s)

-- Inversion of five steps in a row.
five_steps :
    {A B C D E F : Type 0} (a : Result A) (b : Result B) (c : Result C) (d : Result D)
    (e : B → Result E) (f : B → E → F) (r : F)
    → (do x ← a; y ← b; _ ← c; _ ← d; z ← e y; ok (f y z)) ≡ ok r
    → (x : A) × (y : B) × (u : C) × (v : D) × (z : E) × (a ≡ ok x)
      × (b ≡ ok y)
      × (c ≡ ok u)
      × (d ≡ ok v)
      × (e y ≡ ok z)
      × (f y z ≡ r)
five_steps (err _) b c d e f r h = absurd (err-ne-ok h)
five_steps (ok x) (err _) c d e f r h = absurd (err-ne-ok h)
five_steps (ok x) (ok y) (err _) d e f r h = absurd (err-ne-ok h)
five_steps (ok x) (ok y) (ok u) (err _) e f r h = absurd (err-ne-ok h)
five_steps (ok x) (ok y) (ok u) (ok v) e f r h =
    let g = after_ok (e y) (λ z. ok (f y z)) h in
    (x, y, u, v, g.0, refl, refl, refl, refl, g.1, ok_injective g.2)

guard-ok : (b : Bool) (e : Error) (u : Unit {0}) → guard b e ≡ ok u → b ≡ true
guard-ok true e u h = refl
guard-ok false e u h = absurd (err-ne-ok h)

module _ (nfc : Text → Text) (idempotent : IsIdempotent nfc) where
  exchange_again : (t u : Text) → validate_exchange t ≡ ok u → validate_exchange t ≡ ok t
  exchange_again t u h =
      subst (λ x. validate_exchange t ≡ ok x) (sym (validate_exchange-fixed t u h)) h

  -- The settlement of an identity.
  checked_settle : Option Text → Result (Option Text)
  checked_settle settle = elim settle [
    | none ↦ ok none
    | some t ↦ (do u ← validate_settle nfc t; ok (some u))
  ]

  checked_settle-IsSettle :
      (market : Market) (settle s : Option Text)
      → not (same_market market Market.spot && is_some settle) ≡ true
      → checked_settle settle ≡ ok s
      → IsSettle nfc market s
  unfolding checked_settle
  checked_settle-IsSettle market none s g h = subst (IsSettle nfc market) (ok_injective h) tt
  checked_settle-IsSettle market (some t) s g h =
      let b = after_ok (validate_settle nfc t) (λ u. ok (some u)) h in
      subst (IsSettle nfc market) (ok_injective b.2)
        (ground arith, validate_settle-again nfc idempotent t b.0 b.1)

  pub market_identity-IsIdentity :
      (exchange symbol : Text) (market : Market) (settle : Option Text) (i : MarketIdentity)
      → market_identity nfc exchange symbol market settle ≡ ok i
      → IsIdentity nfc i.exchange i.symbol i.market × IsSettle nfc i.market i.settle
  unfolding market_identity checked_settle
  market_identity-IsIdentity exchange symbol market settle i h =
      let g =
        five_steps (validate_exchange exchange) (validate_symbol nfc symbol)
          (guard (is_operable market) unsupported_market)
          (guard (not (same_market market Market.spot && is_some settle)) invalid_request)
          (λ _. checked_settle settle)
          (λ c s. record { exchange = exchange; symbol = c; market = market; settle = s }) i h in
      subst (λ j. IsIdentity nfc j.exchange j.symbol j.market × IsSettle nfc j.market j.settle) g.10
        (
          record {
            exchange_ok = exchange_again exchange g.0 g.5;
            symbol_ok = validate_symbol-again nfc idempotent symbol g.1 g.6;
            operable = guard-ok (is_operable market) unsupported_market g.2 g.7;
          },
          checked_settle-IsSettle market settle g.4
              (guard-ok (not (same_market market Market.spot && is_some settle)) invalid_request g.3
                g.8)
              g.9,
        )

  pub IsIdentity-market_identity :
      (exchange symbol : Text) (market : Market) (settle : Option Text)
      → IsIdentity nfc exchange symbol market
      → IsSettle nfc market settle
      → market_identity nfc exchange symbol market settle
        ≡ ok (record { exchange = exchange; symbol = symbol; market = market; settle = settle })
  unfolding market_identity
  IsIdentity-market_identity exchange symbol market none h k =
      rw (h.exchange_ok, h.symbol_ok, h.operable) (ground arith)
  IsIdentity-market_identity exchange symbol market (some s) h k =
      rw (h.exchange_ok, h.symbol_ok, h.operable, k.0, k.1) refl

  key_settle-again :
      (market : Market) (settle s : Text)
      → key_settle nfc market settle ≡ ok s
      → key_settle nfc market s ≡ ok s
  unfolding key_settle
  key_settle-again market settle s h = elim (Bool-cases (same_market market Market.spot)) [
    | inl c ↦
        let same : settle ≡ s =
          (guarded invalid_request (same_text settle no_settle) settle s (rw c at h)).1 in
        subst (λ x. key_settle nfc market x ≡ ok s) same h
    | inr c ↦
        let v : validate_settle nfc settle ≡ ok s =
          past_guard invalid_request (same_text settle no_settle) (validate_settle nfc settle) s
            (rw c at h) in
        rw (c, validate_settle-nonempty nfc idempotent settle s v)
          (validate_settle-again nfc idempotent settle s v)
  ]

  pub dataset_key-IsIdentity :
      (exchange symbol : Text) (market : Market) (settle timeframe : Text) (k : DatasetKey)
      → dataset_key nfc exchange symbol market settle timeframe ≡ ok k
      → IsIdentity nfc k.exchange k.symbol k.market
        × ((t : TimeBar) × (parse k.timeframe ≡ ok t))
        × (key_settle nfc k.market k.settle ≡ ok k.settle)
  unfolding dataset_key
  dataset_key-IsIdentity exchange symbol market settle timeframe k h =
      let g =
        five_steps (validate_exchange exchange) (validate_symbol nfc symbol) (parse timeframe)
          (guard (is_operable market) unsupported_market) (λ _. key_settle nfc market settle)
          (λ c s. record {
            exchange = exchange;
            symbol = c;
            market = market;
            settle = s;
            timeframe = timeframe;
          })
          k h in
      subst
        (λ j.
          IsIdentity nfc j.exchange j.symbol j.market
          × ((t : TimeBar) × (parse j.timeframe ≡ ok t))
          × (key_settle nfc j.market j.settle ≡ ok j.settle))
        g.10
        (
          record {
            exchange_ok = exchange_again exchange g.0 g.5;
            symbol_ok = validate_symbol-again nfc idempotent symbol g.1 g.6;
            operable = guard-ok (is_operable market) unsupported_market g.3 g.8;
          },
          (g.2, g.7),
          key_settle-again market settle g.4 g.9,
        )
