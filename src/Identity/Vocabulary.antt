-- ===== src/Identity/Vocabulary.antt =====
-- The closed vocabularies of models.py and the texts of their values.
use xret.Prelude.{
  value_error, true, some, same_text, refl, ok, none, invalid_request, if◌then◌else◌, false, err,
  codes, Text, Result, Option, Bool, ◌≡◌,
}

pub data Market : Type 0 where
  spot perpetual future option : Market

pub data DatasetFamily : Type 0 where
  trade_bars settled_funding reference_bars open_interest : DatasetFamily

pub data ReferencePriceKind : Type 0 where
  mark index premium_index : ReferencePriceKind

abbrev pub same_market : Market → Market → Bool
same_market Market.spot Market.spot = true
same_market Market.perpetual Market.perpetual = true
same_market Market.future Market.future = true
same_market Market.option Market.option = true
same_market _ _ = false

-- `_OPERABLE_MARKETS`
abbrev pub is_operable : Market → Bool
is_operable Market.spot = true
is_operable Market.perpetual = true
is_operable _ = false

abbrev pub market_value : Market → Text
market_value Market.spot = codes "spot"
market_value Market.perpetual = codes "perpetual"
market_value Market.future = codes "future"
market_value Market.option = codes "option"

abbrev pub family_value : DatasetFamily → Text
family_value DatasetFamily.trade_bars = codes "trade_bars"
family_value DatasetFamily.settled_funding = codes "settled_funding"
family_value DatasetFamily.reference_bars = codes "reference_bars"
family_value DatasetFamily.open_interest = codes "open_interest"

abbrev pub kind_value : ReferencePriceKind → Text
kind_value ReferencePriceKind.mark = codes "mark"
kind_value ReferencePriceKind.index = codes "index"
kind_value ReferencePriceKind.premium_index = codes "premium_index"

-- `_MARKET_BY_VALUE`, and `_coerce_market` of a text.
unfoldable pub market_of : Text → Option Market
market_of t =
    if same_text t (market_value Market.spot)
    then some Market.spot
    else if same_text t (market_value Market.perpetual)
    then some Market.perpetual
    else if same_text t (market_value Market.future)
    then some Market.future
    else if same_text t (market_value Market.option)
    then some Market.option
    else none

unfoldable pub coerce_market : Text → Result Market
unfolding market_of
coerce_market t = elim (market_of t) [ none ↦ err invalid_request | some m ↦ ok m ]

-- `DatasetFamily(…)` and `ReferencePriceKind(…)` raise ValueError.
unfoldable pub dataset_family : Text → Result DatasetFamily
dataset_family t =
    if same_text t (family_value DatasetFamily.trade_bars)
    then ok DatasetFamily.trade_bars
    else if same_text t (family_value DatasetFamily.settled_funding)
    then ok DatasetFamily.settled_funding
    else if same_text t (family_value DatasetFamily.reference_bars)
    then ok DatasetFamily.reference_bars
    else if same_text t (family_value DatasetFamily.open_interest)
    then ok DatasetFamily.open_interest
    else err value_error

unfoldable pub reference_price_kind : Text → Result ReferencePriceKind
reference_price_kind t =
    if same_text t (kind_value ReferencePriceKind.mark)
    then ok ReferencePriceKind.mark
    else if same_text t (kind_value ReferencePriceKind.index)
    then ok ReferencePriceKind.index
    else if same_text t (kind_value ReferencePriceKind.premium_index)
    then ok ReferencePriceKind.premium_index
    else err value_error

-- `Market(…)`
unfoldable pub market_by_value : Text → Result Market
unfolding market_of
market_by_value t = elim (market_of t) [ none ↦ err value_error | some m ↦ ok m ]

pub market_by_value-value : (m : Market) → market_by_value (market_value m) ≡ ok m
unfolding market_by_value same_text
market_by_value-value Market.spot = refl
market_by_value-value Market.perpetual = refl
market_by_value-value Market.future = refl
market_by_value-value Market.option = refl

pub dataset_family-value : (f : DatasetFamily) → dataset_family (family_value f) ≡ ok f
unfolding dataset_family same_text
dataset_family-value DatasetFamily.trade_bars = refl
dataset_family-value DatasetFamily.settled_funding = refl
dataset_family-value DatasetFamily.reference_bars = refl
dataset_family-value DatasetFamily.open_interest = refl

pub reference_price_kind-value :
    (k : ReferencePriceKind) → reference_price_kind (kind_value k) ≡ ok k
unfolding reference_price_kind same_text
reference_price_kind-value ReferencePriceKind.mark = refl
reference_price_kind-value ReferencePriceKind.index = refl
reference_price_kind-value ReferencePriceKind.premium_index = refl
