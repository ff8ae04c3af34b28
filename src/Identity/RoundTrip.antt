-- ===== src/Identity/RoundTrip.antt =====
-- A key that was constructed comes back from its storage identity and from its catalog row.
use mathlib.Core.Path.{subst}
use xret.Timeframe.Text.{parse}
use xret.Identity.Keys.{
  build_reference_bar, build_open_interest, key_from_storage_identity, build_settled_funding,
}
use xret.Timeframe.{TimeBar}
use xret.Identity.Accepted.{
  dataset_key-IsIdentity, IsIdentity, market_identity-IsIdentity, IsIdentity-market_identity,
}
use xret.Identity.Components.{validate_settle, IsIdempotent}
use xret.Identity.{
  no_settle, key_settle, from_identity, trade_bars_key, storage_identity, settled_funding_key,
  require_resolved_perpetual, reference_bar_key, open_interest_key, market_identity, dataset_key,
  StorageKey, StorageIdentity, MarketIdentity, DatasetKey,
}
use xret.Identity.Vocabulary.{
  reference_price_kind-value, kind_value, same_market, ReferencePriceKind, Market, DatasetFamily,
}
use xret.Prelude.{
  same_text→eq, same_text, past_guard, none, invalid_request, guarded, true, some, refl, ok, inr,
  inl, false, err-ne-ok, [], Text, Option-cases, Option, Bool-cases, ◌≡◌,
}

-- The keys that the constructors of models.py can give.
pub data Built (nfc : Text → Text) : StorageKey → Type 0 where
  built_trade_bars :
      (exchange symbol : Text) (market : Market) (settle timeframe : Text) {k : DatasetKey}
      → dataset_key nfc exchange symbol market settle timeframe ≡ ok k
      → Built nfc (trade_bars_key k)
  built_settled_funding :
      (exchange symbol : Text) (market : Market) (settle : Option Text) (i : MarketIdentity)
      {k : StorageKey}
      → market_identity nfc exchange symbol market settle ≡ ok i
      → build_settled_funding i ≡ ok k
      → Built nfc k
  built_reference_bar :
      (exchange symbol : Text) (market : Market) (settle : Option Text) (i : MarketIdentity)
      (kind timeframe : Text) {k : StorageKey}
      → market_identity nfc exchange symbol market settle ≡ ok i
      → build_reference_bar i kind timeframe ≡ ok k
      → Built nfc k
  built_open_interest :
      (exchange symbol : Text) (market : Market) (settle : Option Text) (i : MarketIdentity)
      (timeframe : Text) {k : StorageKey}
      → market_identity nfc exchange symbol market settle ≡ ok i
      → build_open_interest i timeframe ≡ ok k
      → Built nfc k

-- What the round trip says of a key.
abbrev pub ComesBack : (Text → Text) → StorageKey → Type 0
ComesBack nfc k =
    (d : StorageIdentity) × (storage_identity k ≡ ok d) × (key_from_storage_identity nfc d ≡ ok k)

not_spot : (m : Market) → same_market m Market.perpetual ≡ true → same_market m Market.spot ≡ false
not_spot Market.spot h = cc
not_spot Market.perpetual h = refl
not_spot Market.future h = refl
not_spot Market.option h = refl

resolved :
    (i : MarketIdentity)
    → require_resolved_perpetual i ≡ ok tt
    → (same_market i.market Market.spot ≡ false) × ((s : Text) × (i.settle ≡ some s))
unfolding require_resolved_perpetual
resolved i h = elim (Bool-cases (same_market i.market Market.perpetual)) [
  | inr c ↦ absurd (err-ne-ok (rw c at h))
  | inl c ↦ elim (Option-cases i.settle) [
    | inl e ↦ absurd (err-ne-ok (rw (c, e) at h))
    | inr (s, e) ↦ (not_spot i.market c, (s, e))
  ]
]

module _ (nfc : Text → Text) (idempotent : IsIdempotent nfc) where
  -- An identity with a settlement is rebuilt from its parts.
  rebuilt :
      (exchange symbol : Text) (market : Market) (settle : Option Text) (i : MarketIdentity)
      (s : Text)
      → market_identity nfc exchange symbol market settle ≡ ok i
      → i.settle ≡ some s
      → market_identity nfc i.exchange i.symbol i.market (some s) ≡ ok i
  rebuilt exchange symbol market settle i s h e =
      let g = market_identity-IsIdentity nfc idempotent exchange symbol market settle i h in
      subst (λ o. market_identity nfc i.exchange i.symbol i.market o ≡ ok i) e
        (IsIdentity-market_identity nfc idempotent i.exchange i.symbol i.market i.settle g.0 g.1)

  dataset_again :
      (exchange symbol : Text) (market : Market) (settle timeframe : Text) (k : DatasetKey)
      → dataset_key nfc exchange symbol market settle timeframe ≡ ok k
      → dataset_key nfc k.exchange k.symbol k.market k.settle k.timeframe ≡ ok k
  unfolding dataset_key
  dataset_again exchange symbol market settle timeframe k h =
      let g = dataset_key-IsIdentity nfc idempotent exchange symbol market settle timeframe k h in
      rw (g.0.exchange_ok, g.0.symbol_ok, g.1.1, g.0.operable, g.2) refl

  pub trade_bars-ComesBack :
      (exchange symbol : Text) (market : Market) (settle timeframe : Text) (k : DatasetKey)
      → dataset_key nfc exchange symbol market settle timeframe ≡ ok k
      → ComesBack nfc (trade_bars_key k)
  unfolding storage_identity key_from_storage_identity from_identity key_settle same_text
  trade_bars-ComesBack exchange symbol market settle timeframe k h = (
    record {
      family = DatasetFamily.trade_bars;
      variant = [];
      exchange = k.exchange;
      symbol = k.symbol;
      market = k.market;
      settle = k.settle;
      timeframe = k.timeframe;
    },
    refl,
    elim (Bool-cases (same_market k.market Market.spot)) [
      | inl c ↦
          let e : k.settle ≡ [] =
            same_text→eq k.settle []
              (guarded invalid_request (same_text k.settle no_settle) k.settle k.settle
                (rw c at g.2)).0 in
          rw
            (
              c,
              IsIdentity-market_identity nfc idempotent k.exchange k.symbol k.market none g.0 tt,
              subst (λ x. dataset_key nfc k.exchange k.symbol k.market x k.timeframe ≡ ok k) e
                  again,
            )
            refl
      | inr c ↦
          let v : validate_settle nfc k.settle ≡ ok k.settle =
            past_guard invalid_request (same_text k.settle no_settle) (validate_settle nfc k.settle)
              k.settle (rw c at g.2) in
          rw
            (
              c,
              IsIdentity-market_identity nfc idempotent k.exchange k.symbol k.market (some k.settle)
                  g.0 (c, v),
              again,
            )
            refl
    ],
  )
    where
      g :
          IsIdentity nfc k.exchange k.symbol k.market
          × ((t : TimeBar) × (parse k.timeframe ≡ ok t))
          × (key_settle nfc k.market k.settle ≡ ok k.settle)
      g = dataset_key-IsIdentity nfc idempotent exchange symbol market settle timeframe k h

      again : dataset_key nfc k.exchange k.symbol k.market k.settle k.timeframe ≡ ok k
      again = dataset_again exchange symbol market settle timeframe k h

  pub settled_funding-ComesBack :
      (exchange symbol : Text) (market : Market) (settle : Option Text) (i : MarketIdentity)
      → market_identity nfc exchange symbol market settle ≡ ok i
      → require_resolved_perpetual i ≡ ok tt
      → ComesBack nfc (settled_funding_key i)
  unfolding storage_identity key_from_storage_identity build_settled_funding same_text
  settled_funding-ComesBack exchange symbol market settle i h r =
      let q = resolved i r in
      (
        record {
          family = DatasetFamily.settled_funding;
          variant = [];
          exchange = i.exchange;
          symbol = i.symbol;
          market = i.market;
          settle = q.1.0;
          timeframe = [];
        },
        rw q.1.1 refl,
        rw (q.0, rebuilt exchange symbol market settle i q.1.0 h q.1.1, r) refl,
      )

  pub reference_bar-ComesBack :
      (exchange symbol : Text) (market : Market) (settle : Option Text) (i : MarketIdentity)
      (kind : ReferencePriceKind) (timeframe : Text) (t : TimeBar)
      → market_identity nfc exchange symbol market settle ≡ ok i
      → require_resolved_perpetual i ≡ ok tt
      → parse timeframe ≡ ok t
      → ComesBack nfc (reference_bar_key i kind timeframe)
  unfolding storage_identity key_from_storage_identity build_reference_bar
  reference_bar-ComesBack exchange symbol market settle i kind timeframe t h r p =
      let q = resolved i r in
      (
        record {
          family = DatasetFamily.reference_bars;
          variant = kind_value kind;
          exchange = i.exchange;
          symbol = i.symbol;
          market = i.market;
          settle = q.1.0;
          timeframe = timeframe;
        },
        rw q.1.1 refl,
        rw
            (
              q.0,
              rebuilt exchange symbol market settle i q.1.0 h q.1.1,
              reference_price_kind-value kind,
              r,
              reference_price_kind-value kind,
              p,
            )
            refl,
      )

  pub open_interest-ComesBack :
      (exchange symbol : Text) (market : Market) (settle : Option Text) (i : MarketIdentity)
      (timeframe : Text) (t : TimeBar)
      → market_identity nfc exchange symbol market settle ≡ ok i
      → require_resolved_perpetual i ≡ ok tt
      → parse timeframe ≡ ok t
      → ComesBack nfc (open_interest_key i timeframe)
  unfolding storage_identity key_from_storage_identity build_open_interest same_text
  open_interest-ComesBack exchange symbol market settle i timeframe t h r p =
      let q = resolved i r in
      (
        record {
          family = DatasetFamily.open_interest;
          variant = [];
          exchange = i.exchange;
          symbol = i.symbol;
          market = i.market;
          settle = q.1.0;
          timeframe = timeframe;
        },
        rw q.1.1 refl,
        rw (q.0, rebuilt exchange symbol market settle i q.1.0 h q.1.1, r, p) refl,
      )
