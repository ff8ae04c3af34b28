-- ===== src/Identity.antt =====
-- The identities of models.py: markets, data set keys, and the storage identity that the catalog
-- and the paths are made from. `nfc` is `unicodedata.normalize("NFC", …)`.
use xret.Identity.Components.{validate_symbol, validate_settle, validate_exchange}
use xret.Timeframe.Text.{parse}
use xret.Identity.Vocabulary.{
  same_market, kind_value, is_operable, ReferencePriceKind, Market, DatasetFamily,
}
use xret.Prelude.{
  ◌>>=◌, ◌&&◌, unsupported_market, some, same_text, ok, not, none, is_some, invalid_request,
  if◌then◌else◌, guard, err, assertion_error, [], Text, Result, Option, ◌∷◌, ◌≡◌,
}
pub mod Vocabulary
pub mod Components
pub mod Keys
pub mod Accepted
pub mod RoundTrip
pub mod Rows

-- `MarketIdentity`; `none` is an absent settlement.
pub record MarketIdentity : Type 0 where
  pub exchange : Text
  pub symbol : Text
  pub market : Market
  pub settle : Option Text

-- `DatasetKey`; an empty settlement is `NONE_SETTLE_SENTINEL`.
pub record DatasetKey : Type 0 where
  pub exchange : Text
  pub symbol : Text
  pub market : Market
  pub settle : Text
  pub timeframe : Text

-- `StorageKey`, the union of the four kinds of keys.
pub data StorageKey : Type 0 where
  trade_bars_key : DatasetKey → StorageKey
  settled_funding_key : MarketIdentity → StorageKey
  reference_bar_key : MarketIdentity → ReferencePriceKind → Text → StorageKey
  open_interest_key : MarketIdentity → Text → StorageKey

-- `_StorageIdentity`
pub record StorageIdentity : Type 0 where
  pub family : DatasetFamily
  pub variant : Text
  pub exchange : Text
  pub symbol : Text
  pub market : Market
  pub settle : Text
  pub timeframe : Text

-- `NONE_SETTLE_SENTINEL`
abbrev pub no_settle : Text
no_settle = []

abbrev pub or_sentinel : Option Text → Text
or_sentinel none = no_settle
or_sentinel (some s) = s

-- `_require_resolved_perpetual`
unfoldable pub require_resolved_perpetual : MarketIdentity → Result (Unit {0})
require_resolved_perpetual i =
    if not (same_market i.market Market.perpetual)
    then err invalid_request
    else elim i.settle [ none ↦ err invalid_request | some s ↦ ok tt ]

-- `storage_identity`; the assertion that a settlement is there stands before the other families.
unfoldable pub storage_identity : StorageKey → Result StorageIdentity
storage_identity (trade_bars_key k) = ok (record {
  family = DatasetFamily.trade_bars;
  variant = [];
  exchange = k.exchange;
  symbol = k.symbol;
  market = k.market;
  settle = k.settle;
  timeframe = k.timeframe;
})
storage_identity (settled_funding_key i) = elim i.settle [
  | none ↦ err assertion_error
  | some s ↦ ok (record {
    family = DatasetFamily.settled_funding;
    variant = [];
    exchange = i.exchange;
    symbol = i.symbol;
    market = i.market;
    settle = s;
    timeframe = [];
  })
]
storage_identity (reference_bar_key i kind timeframe) = elim i.settle [
  | none ↦ err assertion_error
  | some s ↦ ok (record {
    family = DatasetFamily.reference_bars;
    variant = kind_value kind;
    exchange = i.exchange;
    symbol = i.symbol;
    market = i.market;
    settle = s;
    timeframe = timeframe;
  })
]
storage_identity (open_interest_key i timeframe) = elim i.settle [
  | none ↦ err assertion_error
  | some s ↦ ok (record {
    family = DatasetFamily.open_interest;
    variant = [];
    exchange = i.exchange;
    symbol = i.symbol;
    market = i.market;
    settle = s;
    timeframe = timeframe;
  })
]

module _ (nfc : Text → Text) where
  -- `MarketIdentity.__post_init__`
  unfoldable pub market_identity : Text → Text → Market → Option Text → Result MarketIdentity
  market_identity exchange symbol market settle = do
    _ ← validate_exchange exchange
    canonical ← validate_symbol nfc symbol
    _ ← guard (is_operable market) unsupported_market
    _ ← guard (not (same_market market Market.spot && is_some settle)) invalid_request
    s ← elim settle [ none ↦ ok none | some t ↦ (do u ← validate_settle nfc t; ok (some u)) ]
    ok (record { exchange = exchange; symbol = canonical; market = market; settle = s })

  -- The settlement of a key: the sentinel just for spot.
  unfoldable pub key_settle : Market → Text → Result Text
  key_settle market settle =
      if same_market market Market.spot
      then (if same_text settle no_settle then ok settle else err invalid_request)
      else if same_text settle no_settle
      then err invalid_request
      else validate_settle nfc settle

  -- `DatasetKey.__post_init__`
  unfoldable pub dataset_key : Text → Text → Market → Text → Text → Result DatasetKey
  unfolding key_settle
  dataset_key exchange symbol market settle timeframe = do
    _ ← validate_exchange exchange
    canonical ← validate_symbol nfc symbol
    _ ← parse timeframe
    _ ← guard (is_operable market) unsupported_market
    s ← key_settle market settle
    ok (record {
      exchange = exchange;
      symbol = canonical;
      market = market;
      settle = s;
      timeframe = timeframe;
    })

  -- `DatasetKey.from_identity`
  unfoldable pub from_identity : MarketIdentity → Text → Result DatasetKey
  from_identity i timeframe =
      dataset_key i.exchange i.symbol i.market (or_sentinel i.settle) timeframe
