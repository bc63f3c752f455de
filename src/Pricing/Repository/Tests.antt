-- ===== src/Pricing/Repository/Tests.antt =====
-- Instances on a small table of prices.
use zk_api.Common.{◌≡◌, refl, none, some, List, [], ◌∷◌, arith}
use zk_api.Common.Text.{codes}
use zk_api.Pricing.Oracle.{PricingModel, per_call}
use zk_api.Pricing.Repository.{PricingModelRow, given, get_pricing, upsert_pricing, latest}
use zk_api.Pricing.Repository.Lookup.{IsRightPrice, get_pricing-IsRightPrice}
use zk_api.Pricing.Repository.Upsert.{upsert_pricing-get_pricing, future_price_leaves_gap}

abbrev general : PricingModel
general = record {
  provider_id = codes "claude";
  endpoint = none;
  currency = codes "USD";
  pricing_type = per_call;
  rates = [];
  effective_from = 10;
  effective_until = none;
}

abbrev rows : List PricingModelRow
rows = record { id = 1; model = general; created_at = 10; updated_at = 10 } ∷ []

get_pricing-IsRightPrice_example :
    IsRightPrice 20
      (codes "claude")
      (given (some (codes "chat")))
      rows
      (get_pricing 20 (codes "claude") (some (codes "chat")) rows)
get_pricing-IsRightPrice_example =
    get_pricing-IsRightPrice 20 (codes "claude") (some (codes "chat")) rows

found-general : get_pricing 20 (codes "claude") (some (codes "chat")) rows ≡ some general
unfolding get_pricing latest
found-general = refl

upsert_pricing-get_pricing_test :
    get_pricing 20
      (codes "claude")
      none
      (upsert_pricing 20 (record general { effective_from = 20 }) rows)
    ≡ some (record general { effective_from = 20 })
upsert_pricing-get_pricing_test =
    upsert_pricing-get_pricing 20 (record general { effective_from = 20 }) rows refl refl tt

future_price_leaves_gap_example :
    get_pricing 25
      (codes "claude")
      none
      (upsert_pricing 20 (record general { effective_from = 30 }) rows)
    ≡ none
unfolding get_pricing latest
future_price_leaves_gap_example =
    future_price_leaves_gap 20 25 (record general { effective_from = 30 }) rows (omega arith)
      (omega arith) refl refl refl
