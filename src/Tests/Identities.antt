-- ===== src/Tests/Identities.antt =====
-- Keys and their catalog rows at concrete texts; `nfc` is the identity, as on ASCII.
use xret.Timeframe.{time_bar}
use xret.Timeframe.Text.{parse}
use xret.Identity.Components.{validate_symbol, validate_settle, validate_exchange}
use xret.Identity.Rows.{key_from_row-identity_values, identity_values_injective}
use xret.Identity.{
  require_resolved_perpetual, reference_bar_key, market_identity, StorageKey, MarketIdentity,
}
use xret.Identity.Vocabulary.{reference_price_kind, ReferencePriceKind, Market}
use xret.Identity.Keys.{key_from_row, identity_values, build_reference_bar, IdentityRow}
use xret.Identity.RoundTrip.{built_reference_bar, Built}
use xret.Prelude.{some, same_text, refl, ok, invalid_request, err, codes, Text, ◌≡◌}

abbrev pub ascii : Text → Text
ascii t = t

abbrev pub okx_swap : MarketIdentity
okx_swap = record {
  exchange = codes "okx";
  symbol = codes "BTC/USDT";
  market = Market.perpetual;
  settle = some (codes "USDT");
}

abbrev pub okx_mark : StorageKey
okx_mark = reference_bar_key okx_swap ReferencePriceKind.mark (codes "1h")

swap_identity :
    market_identity ascii (codes "okx") (codes "BTC/USDT") Market.perpetual (some (codes "USDT"))
    ≡ ok okx_swap
unfolding market_identity validate_exchange validate_symbol validate_settle
swap_identity = refl

pub okx_mark-Built : Built ascii okx_mark
unfolding build_reference_bar require_resolved_perpetual reference_price_kind same_text parse
    time_bar
okx_mark-Built =
    built_reference_bar (codes "okx") (codes "BTC/USDT") Market.perpetual (some (codes "USDT"))
      okx_swap (codes "mark") (codes "1h") swap_identity refl

spot_with_settle :
    market_identity ascii (codes "okx") (codes "BTC/USDT") Market.spot (some (codes "USDT"))
    ≡ err invalid_request
unfolding market_identity validate_exchange validate_symbol
spot_with_settle = refl

key_from_row-identity_values_example :
    (r : IdentityRow) × (identity_values okx_mark ≡ ok r) × (key_from_row ascii r ≡ ok okx_mark)
key_from_row-identity_values_example =
    key_from_row-identity_values ascii (λ t. refl) okx_mark okx_mark-Built

identity_values_injective_example : okx_mark ≡ okx_mark
identity_values_injective_example =
    identity_values_injective ascii (λ t. refl) okx_mark okx_mark okx_mark-Built okx_mark-Built refl
