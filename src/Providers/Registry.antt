-- ===== src/Providers/Registry.antt =====
-- The registry of providers (src/providers/registry/provider-registry.service.ts), with the pricing oracle
-- that it seeds.
use zk_api.Common.{ℕ, ◌≡◌, Bool, true, false, Option, none, some, List, ◌++◌, map, All, filter}
use zk_api.Common.Dict.{Dict, lookup, insert, erase, has}
use zk_api.Common.Eq.{text_eq}
use zk_api.Common.Exec.{ok, Exec}
use zk_api.Common.Text.{Text, codes}
use zk_api.Pricing.Oracle.{PricingModel, validate_pricing_model}
use zk_api.Pricing.Repository.{given, is_active}
use zk_api.Pricing.Repository.Upsert.{StartsBefore, bounds}
use zk_api.Pricing.Service.{PricingOracle, OracleError, update_pricing, get_pricing_cached}
use zk_api.Pricing.Service.Updates.{update_pricing-get_pricing_cached}

-- `ApiProvider`: `health` is what healthCheck answers, `none` where it rejects.
pub record ApiProvider : Type 0 where
  pub id : Text
  pub version : Text
  pub pricing_config : PricingModel
  pub health : Option Bool

pub record ProviderRegistry : Type 0 where
  pub providers : Dict Text ApiProvider
  pub pricing_oracle : PricingOracle

-- `{ ...pricingConfig, effectiveFrom: new Date() }`
abbrev pub seeded : ℕ → ApiProvider → PricingModel
seeded now p = record p.pricing_config { effective_from = now }

abbrev pub seed_reason : ApiProvider → Text
seed_reason p = codes "Auto-seeded from provider " ++ p.id ++ codes " v" ++ p.version

-- `seedProviderPricing`
unfoldable pub seed_provider_pricing :
    ℕ → ApiProvider → Exec OracleError ProviderRegistry (Unit {0})
unfolding update_pricing
seed_provider_pricing now p s =
    let (r, oracle) =
      update_pricing now (seeded now p) (codes "system") (seed_reason p) s.pricing_oracle in
    (r, record s { pricing_oracle = oracle })

-- `register`
unfoldable pub register_provider : ℕ → ApiProvider → Exec OracleError ProviderRegistry (Unit {0})
unfolding seed_provider_pricing
register_provider now p s =
    seed_provider_pricing now p (record s { providers = insert p.id p s.providers })

-- `get`; `none` is the NotFoundException.
unfoldable pub get_provider : Text → ProviderRegistry → Option ApiProvider
get_provider provider_id s = lookup provider_id s.providers

-- `has`
unfoldable pub has_provider : Text → ProviderRegistry → Bool
has_provider provider_id s = has provider_id s.providers

-- `list` and `getProviderIds`
abbrev pub list : ProviderRegistry → List ApiProvider
list s = map (λ entry. entry.1) s.providers

abbrev pub get_provider_ids : ProviderRegistry → List Text
get_provider_ids s = map (λ entry. entry.0) s.providers

-- `unregister`: whether there was one.
unfoldable pub unregister : Text → ProviderRegistry → ProviderRegistry × Bool
unregister provider_id s =
    (record s { providers = erase provider_id s.providers }, has provider_id s.providers)

-- The status that `healthCheckAll` reports: a check that rejects is a provider that is down.
abbrev pub is_healthy : ApiProvider → Bool
is_healthy p = elim p.health [ none ↦ false | some healthy ↦ healthy ]

unfoldable pub health_check_all : ProviderRegistry → Dict Text Bool
health_check_all s = map (λ entry. (entry.0, is_healthy entry.1)) s.providers

-- Once a provider is registered, the pricing oracle serves the provider's own prices from that instant, whatever
-- was stored or cached before, provided that the prices are valid and without an end, and that no active price
-- of the provider's endpoint that has an end starts as late.
pub register_provider-get_pricing_cached :
    (now : ℕ) (p : ApiProvider) (s : ProviderRegistry)
    → validate_pricing_model now (seeded now p) ≡ ok tt
    → is_active now (seeded now p) ≡ true
    → given p.pricing_config.endpoint ≡ p.pricing_config.endpoint
    → All (StartsBefore (seeded now p)) (
        filter
          (bounds now p.pricing_config.provider_id (given p.pricing_config.endpoint))
          s.pricing_oracle.tables.pricing_models)
    → (get_pricing_cached now p.pricing_config.provider_id p.pricing_config.endpoint
        (register_provider now p s).1.pricing_oracle).0
      ≡ ok (seeded now p)
unfolding register_provider
register_provider-get_pricing_cached now p s valid active same h =
    update_pricing-get_pricing_cached now (seeded now p) (codes "system") (seed_reason p)
      s.pricing_oracle valid active same h
