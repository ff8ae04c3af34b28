-- ===== src/Identity/Keys.antt =====
-- The keys' constructors, and the way back from a storage identity and from a catalog row.
use xret.Timeframe.Text.{parse}
use xret.Identity.{
  trade_bars_key, storage_identity, settled_funding_key, require_resolved_perpetual,
  reference_bar_key, open_interest_key, market_identity, from_identity, StorageKey, StorageIdentity,
  MarketIdentity,
}
use xret.Identity.Vocabulary.{
  same_market, reference_price_kind, market_value, market_by_value, kind_value, family_value,
  dataset_family, Market, DatasetFamily,
}
use xret.Prelude.{
  ◌≡◌, true, same_text→eq, same_text_self, arith, ◌>>=◌, ◌&&◌, some, same_text, ok, none,
  invalid_request, if◌then◌else◌, guard, err, catalog_error, [], Text, Result, Bool,
}

-- `SettledFundingKey.__post_init__`
unfoldable pub build_settled_funding : MarketIdentity → Result StorageKey
build_settled_funding i = do _ ← require_resolved_perpetual i; ok (settled_funding_key i)

-- `ReferenceBarKey.__post_init__`; the kind is given by its text.
unfoldable pub build_reference_bar : MarketIdentity → Text → Text → Result StorageKey
build_reference_bar i kind timeframe = do
  _ ← require_resolved_perpetual i
  k ← elim (reference_price_kind kind) [ ok k ↦ ok k | err _ ↦ err invalid_request ]
  _ ← parse timeframe
  ok (reference_bar_key i k timeframe)

-- `OpenInterestKey.__post_init__`
unfoldable pub build_open_interest : MarketIdentity → Text → Result StorageKey
build_open_interest i timeframe = do
  _ ← require_resolved_perpetual i
  _ ← parse timeframe
  ok (open_interest_key i timeframe)

abbrev pub is_blank : Text → Bool
is_blank t = same_text t []

module _ (nfc : Text → Text) where
  by_family : DatasetFamily → MarketIdentity → Text → Text → Result StorageKey
  unfolding build_settled_funding build_reference_bar build_open_interest
  by_family DatasetFamily.trade_bars i variant timeframe = do
    _ ← guard (is_blank variant) invalid_request
    k ← from_identity nfc i timeframe
    ok (trade_bars_key k)
  by_family DatasetFamily.settled_funding i variant timeframe = do
    _ ← guard (is_blank variant && is_blank timeframe) invalid_request
    build_settled_funding i
  by_family DatasetFamily.reference_bars i variant timeframe = do
    k ← reference_price_kind variant
    build_reference_bar i (kind_value k) timeframe
  by_family DatasetFamily.open_interest i variant timeframe = do
    _ ← guard (is_blank variant) invalid_request
    build_open_interest i timeframe

  -- `_key_from_storage_identity`
  unfoldable pub key_from_storage_identity : StorageIdentity → Result StorageKey
  unfolding by_family
  key_from_storage_identity d = do
    i ←
        market_identity nfc d.exchange d.symbol d.market
          (if same_market d.market Market.spot then none else some d.settle)
    by_family d.family i d.variant d.timeframe

-- The identity columns of a row of `datasets`.
pub record IdentityRow : Type 0 where
  pub family : Text
  pub variant : Text
  pub exchange : Text
  pub symbol : Text
  pub market : Text
  pub settle : Text
  pub timeframe : Text

-- `_identity_values` of catalog.py
unfoldable pub identity_values : StorageKey → Result IdentityRow
identity_values k = do
  d ← storage_identity k
  ok (record {
    family = family_value d.family;
    variant = d.variant;
    exchange = d.exchange;
    symbol = d.symbol;
    market = market_value d.market;
    settle = d.settle;
    timeframe = d.timeframe;
  })

-- Any exception becomes a CatalogError.
abbrev pub as_catalog_error {ℓ} : {A : Type ℓ} → Result A → Result A
as_catalog_error (ok a) = ok a
as_catalog_error (err e) = err catalog_error

-- `_key_from_row` of catalog.py
unfoldable pub key_from_row : (Text → Text) → IdentityRow → Result StorageKey
key_from_row nfc r = as_catalog_error (do
  family ← dataset_family r.family
  market ← market_by_value r.market
  key_from_storage_identity nfc (record {
    family = family;
    variant = r.variant;
    exchange = r.exchange;
    symbol = r.symbol;
    market = market;
    settle = r.settle;
    timeframe = r.timeframe;
  }))

unfoldable pub same_row : IdentityRow → IdentityRow → Bool
same_row a b =
    same_text a.family b.family
    && same_text a.variant b.variant
    && same_text a.exchange b.exchange
    && same_text a.symbol b.symbol
    && same_text a.market b.market
    && same_text a.settle b.settle
    && same_text a.timeframe b.timeframe

pub same_row→eq : (a b : IdentityRow) → same_row a b ≡ true → a ≡ b
unfolding same_row
same_row→eq a b h = ground (
  arith,
  same_text→eq a.family b.family,
  same_text→eq a.variant b.variant,
  same_text→eq a.exchange b.exchange,
  same_text→eq a.symbol b.symbol,
  same_text→eq a.market b.market,
  same_text→eq a.settle b.settle,
  same_text→eq a.timeframe b.timeframe,
)

pub same_row_self : (a : IdentityRow) → same_row a a ≡ true
unfolding same_row
same_row_self a = simp same_text_self
