-- ===== src/Identity/Rows.antt =====
-- Keys and the rows of the catalog's `datasets` table determine one another.
use xret.Identity.RoundTrip.{
  trade_bars-ComesBack, settled_funding-ComesBack, reference_bar-ComesBack, open_interest-ComesBack,
  built_trade_bars, built_settled_funding, built_reference_bar, built_open_interest, ComesBack,
  Built,
}
use mathlib.Core.Path.{subst}
use xret.Timeframe.Text.{parse}
use xret.Timeframe.{TimeBar}
use xret.Identity.Vocabulary.{
  reference_price_kind, market_value, market_by_value-value, family_value, dataset_family-value,
  ReferencePriceKind,
}
use xret.Identity.{
  settled_funding_key, require_resolved_perpetual, reference_bar_key, open_interest_key, StorageKey,
  MarketIdentity,
}
use xret.Identity.Components.{IsIdempotent}
use xret.Identity.Keys.{
  key_from_row, identity_values, build_settled_funding, build_reference_bar, build_open_interest,
  IdentityRow,
}
use xret.Prelude.{
  ◌∙◌, ◌>>=◌, sym, refl, ok_injective, ok, invalid_request, err, ap, Text, after_ok, ◌≡◌,
}

module _ (nfc : Text → Text) (idempotent : IsIdempotent nfc) where
  reference_built :
      (i : MarketIdentity) (kind timeframe : Text) (k : StorageKey)
      → build_reference_bar i kind timeframe ≡ ok k
      → (require_resolved_perpetual i ≡ ok tt)
        × ((price : ReferencePriceKind) × (t : TimeBar) × (parse timeframe ≡ ok t)
            × (reference_bar_key i price timeframe ≡ k))
  unfolding build_reference_bar
  reference_built i kind timeframe k h =
      let a =
        after_ok (require_resolved_perpetual i)
          (λ _.
            (elim (reference_price_kind kind) [ ok p ↦ ok p | err _ ↦ err invalid_request ])
            >>= λ p. parse timeframe >>= λ _. ok (reference_bar_key i p timeframe))
          h in
      let b =
        after_ok (elim (reference_price_kind kind) [ ok p ↦ ok p | err _ ↦ err invalid_request ])
          (λ p. parse timeframe >>= λ _. ok (reference_bar_key i p timeframe)) a.2 in
      let c = after_ok (parse timeframe) (λ _. ok (reference_bar_key i b.0 timeframe)) b.2 in
      (a.1, (b.0, c.0, c.1, ok_injective c.2))

  open_interest_built :
      (i : MarketIdentity) (timeframe : Text) (k : StorageKey)
      → build_open_interest i timeframe ≡ ok k
      → (require_resolved_perpetual i ≡ ok tt)
        × ((t : TimeBar) × (parse timeframe ≡ ok t) × (open_interest_key i timeframe ≡ k))
  unfolding build_open_interest
  open_interest_built i timeframe k h =
      let a =
        after_ok (require_resolved_perpetual i)
          (λ _. parse timeframe >>= λ _. ok (open_interest_key i timeframe)) h in
      let c = after_ok (parse timeframe) (λ _. ok (open_interest_key i timeframe)) a.2 in
      (a.1, (c.0, c.1, ok_injective c.2))

  -- Every key that its constructor accepts has a storage identity, from which `_key_from_storage_identity`
  -- gives the key back. Of NFC it is used that a second normalization changes nothing.
  pub Built-ComesBack : (k : StorageKey) → Built nfc k → ComesBack nfc k
  unfolding build_settled_funding
  Built-ComesBack k (built_trade_bars exchange symbol market settle timeframe {k = d} h) =
      trade_bars-ComesBack nfc idempotent exchange symbol market settle timeframe d h
  Built-ComesBack k (built_settled_funding exchange symbol market settle i h b) =
      let a = after_ok (require_resolved_perpetual i) (λ _. ok (settled_funding_key i)) b in
      subst (ComesBack nfc) (ok_injective a.2)
        (settled_funding-ComesBack nfc idempotent exchange symbol market settle i h a.1)
  Built-ComesBack k (built_reference_bar exchange symbol market settle i kind timeframe h b) =
      let a = reference_built i kind timeframe k b in
      subst (ComesBack nfc) a.1.3 (
        reference_bar-ComesBack nfc idempotent exchange symbol market settle i a.1.0 timeframe a.1.1
          h a.0 a.1.2)
  Built-ComesBack k (built_open_interest exchange symbol market settle i timeframe h b) =
      let a = open_interest_built i timeframe k b in
      subst (ComesBack nfc) a.1.2 (
        open_interest-ComesBack nfc idempotent exchange symbol market settle i timeframe a.1.0 h a.0
          a.1.1)

  -- Every key that its constructor accepts has the identity columns of a catalog row, and reading that
  -- row gives the key back.
  pub key_from_row-identity_values :
      (k : StorageKey)
      → Built nfc k
      → (r : IdentityRow) × (identity_values k ≡ ok r) × (key_from_row nfc r ≡ ok k)
  unfolding identity_values key_from_row
  key_from_row-identity_values k b =
      let c = Built-ComesBack k b in
      (
        record {
          family = family_value c.0.family;
          variant = c.0.variant;
          exchange = c.0.exchange;
          symbol = c.0.symbol;
          market = market_value c.0.market;
          settle = c.0.settle;
          timeframe = c.0.timeframe;
        },
        rw c.1 refl,
        rw (dataset_family-value c.0.family, market_by_value-value c.0.market, c.2) refl,
      )

  -- Two keys that their constructors accept have the same identity columns only if they are one key.
  pub identity_values_injective :
      (k l : StorageKey) → Built nfc k → Built nfc l → identity_values k ≡ identity_values l → k ≡ l
  identity_values_injective k l b c same =
      let p = key_from_row-identity_values k b in
      let q = key_from_row-identity_values l c in
      let rows : p.0 ≡ q.0 = ok_injective (sym p.1 ∙ same ∙ q.1) in
      ok_injective (sym p.2 ∙ ap (key_from_row nfc) rows ∙ q.2)
