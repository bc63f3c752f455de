-- ===== src/Pricing/Service.antt =====
-- The lookup of prices with its cache, and their update (`PricingOracleService` of
-- src/pricing/pricing-oracle.service.ts).
mod Tests
pub mod Updates
use zk_api.Common.{
  ℕ, ◌+◌, Bool, true, false, Option, none, some, List, [], ◌∷◌, ◌++◌, ltb, if◌then◌else◌, or_else,
}
use zk_api.Common.Dict.{Dict, lookup, insert, erase}
use zk_api.Common.Eq.{text_eq}
use zk_api.Common.Exec.{Result, ok, err, Exec}
use zk_api.Common.Text.{Text}
use zk_api.Pricing.Oracle.{
  PricingModel, PricingRate, PricingError, UsageMetrics, calculate_cost_usd, validate_pricing_model,
}
use zk_api.Pricing.Repository.{
  PricingTables, PricingHistory, get_pricing, upsert_pricing, add_history, get_history,
}

-- `CACHE_TTL_MS`
abbrev pub cache_ttl_ms : ℕ
cache_ttl_ms = 3600000

pub record CachedModel : Type 0 where
  pub model : PricingModel
  pub expiry : ℕ

pub record PricingOracle : Type 0 where
  pub tables : PricingTables
  pub pricing_cache : Dict Text CachedModel

pub data OracleError : Type 0 where
  not_found : OracleError
  invalid : PricingError → OracleError

abbrev pub cache_key : Text → Option Text → Text
cache_key provider_id endpoint = provider_id ++ b':' ∷ or_else endpoint []

-- `getPricing` past a fresh entry of the cache.
unfoldable pub fetch_pricing : ℕ → Text → Option Text → Exec OracleError PricingOracle PricingModel
fetch_pricing now provider_id endpoint s =
    elim (get_pricing now provider_id endpoint s.tables.pricing_models) [
      | none ↦ (err not_found, s)
      | some model ↦ (
        ok model,
        record s {
          pricing_cache =
              insert (cache_key provider_id endpoint)
                (record { model = model; expiry = now + cache_ttl_ms }) s.pricing_cache;
        },
      )
    ]

-- `getPricing`
unfoldable pub get_pricing_cached :
    ℕ → Text → Option Text → Exec OracleError PricingOracle PricingModel
unfolding fetch_pricing
get_pricing_cached now provider_id endpoint s =
    elim (lookup (cache_key provider_id endpoint) s.pricing_cache) [
      | none ↦ fetch_pricing now provider_id endpoint s
      | some cached ↦
          let fetched = fetch_pricing now provider_id endpoint s in
          if ltb now cached.expiry then (ok cached.model, s) else fetched
    ]

abbrev pub priced : Result PricingError ℕ → Result OracleError ℕ
priced (ok cost) = ok cost
priced (err e) = err (invalid e)

-- `calculateCostUSD`
unfoldable pub calculate_cost :
    ℕ → UsageMetrics → Text → Option Text → Exec OracleError PricingOracle ℕ
unfolding get_pricing_cached calculate_cost_usd
calculate_cost now usage provider_id endpoint s =
    let (r, s') = get_pricing_cached now provider_id endpoint s in
    elim r [ err e ↦ (err e, s') | ok model ↦ (priced (calculate_cost_usd usage model), s') ]

abbrev pub old_rates_of : Option PricingModel → Option (List PricingRate)
old_rates_of none = none
old_rates_of (some m) = some m.rates

-- `updatePricing` past the validation.
unfoldable pub store_pricing : ℕ → PricingModel → Text → Text → PricingOracle → PricingOracle
store_pricing now m changed_by reason s =
    let old_model = get_pricing now m.provider_id m.endpoint s.tables.pricing_models in
    record s {
      tables = record {
        pricing_models = upsert_pricing now m s.tables.pricing_models;
        pricing_history =
            add_history now m.provider_id m.endpoint (old_rates_of old_model) m.rates changed_by
              reason s.tables.pricing_history;
      };
      pricing_cache = erase (cache_key m.provider_id m.endpoint) s.pricing_cache;
    }

-- `updatePricing`
unfoldable pub update_pricing :
    ℕ → PricingModel → Text → Text → Exec OracleError PricingOracle (Unit {0})
unfolding store_pricing validate_pricing_model
update_pricing now m changed_by reason s = elim (validate_pricing_model now m) [
  | err e ↦ (err (invalid e), s)
  | ok done ↦ (ok tt, store_pricing now m changed_by reason s)
]

-- `getPricingHistory`, with the default limit.
unfoldable pub get_pricing_history : Text → PricingOracle → List PricingHistory
unfolding get_history
get_pricing_history provider_id s = get_history provider_id 50 s.tables.pricing_history
