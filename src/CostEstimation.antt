-- ===== src/CostEstimation.antt =====
-- Cost estimates and their cache (src/longjing/cost-estimation.service.ts). The provider's own estimate
-- and its pricing are parameters. An amount in USD is in micro-dollars; the safety margin in USD, a fifth
-- of it, is a floating-point number for display and left out, as is the timestamp.
mod Tests
pub mod Cache
use zk_api.Common.{
  ℕ, ◌+◌, ◌*◌, ◌/◌, Bool, true, false, not, ◌&&◌, Option, none, some, List, [], ◌∷◌, ◌++◌, ltb,
  if◌then◌else◌, or_else, length,
}
use zk_api.Common.Dict.{Dict, lookup, erase}
use zk_api.Common.Eq.{◌===◌, text_eq}
use zk_api.Common.Exec.{Exec, Result, ok, err, ◌>>=◌}
use zk_api.Common.Text.{Text}
use zk_api.EthRate.{EthRateOracle, Feeds, get_eth_usd_rate, usd_to_wei}
use zk_api.Exceptions.{Exception, internal}
use zk_api.Signal.{to_string}

-- `metadata` stands for the hints, which only the provider reads.
pub record EstimateRequest : Type 0 where
  pub provider : Text
  pub endpoint : Option Text
  pub estimated_units : ℕ
  pub unit_type : Option Text
  pub metadata : Text

pub record ProviderEstimate : Type 0 where
  pub estimated_cost_usd : ℕ
  pub confidence : ℕ

pub record Estimate : Type 0 where
  pub provider : Text
  pub endpoint : Option Text
  pub estimated_cost_usd : ℕ
  pub estimated_cost_wei : Text
  pub recommended_deposit_wei : Text
  pub current_eth_rate_usd : ℕ
  pub confidence : ℕ
  pub pricing_model : Text

pub record CachedEstimate : Type 0 where
  pub estimate : Estimate
  pub expiry : ℕ

abbrev pub EstimateCache : Type 0
EstimateCache = Dict Text CachedEstimate

abbrev pub estimate_ttl_ms : ℕ
estimate_ttl_ms = 300000

abbrev pub max_cache_entries : ℕ
max_cache_entries = 1000

-- `getCacheKey`
unfoldable pub get_cache_key : EstimateRequest → Text
get_cache_key r =
    r.provider
    ++ b':' ∷ or_else r.endpoint []
    ++ b':' ∷ to_string r.estimated_units
    ++ b':' ∷ or_else r.unit_type []

-- The loop of `cacheEstimate`: entries are deleted from the oldest on, up to the first that is live and
-- fits.
pub evict : ℕ → EstimateCache → EstimateCache
evict now [] = []
evict now ((k, v) ∷ m) =
    let rest = evict now m in
    if ltb now v.expiry && ltb (length ((k, v) ∷ m)) max_cache_entries then (k, v) ∷ m else rest

-- `cacheEstimate`
unfoldable pub cache_estimate : ℕ → Text → Estimate → EstimateCache → EstimateCache
unfolding evict
cache_estimate now key estimate m =
    evict now (erase key m)
    ++ (key, record { estimate = estimate; expiry = now + estimate_ttl_ms }) ∷ []

-- `provider_estimate` is the registry's lookup and the provider's `estimateCost`, `pricing_type` that of
-- the pricing oracle. Each step has its own reading of the clock.
pub record EstimateEnv : Type 0 where
  pub provider_estimate : EstimateRequest → Result Exception ProviderEstimate
  pub pricing_type : Text → Option Text → Result Exception Text
  pub looked_up_at : ℕ
  pub cost_feeds : Feeds
  pub rate_feeds : Feeds
  pub cached_at : ℕ

pub record Estimator : Type 0 where
  pub estimate_cache : EstimateCache
  pub oracle : EthRateOracle

abbrev no_rate : Option ℕ → Result Exception ℕ
no_rate none =
    err (internal "Unable to fetch ETH/USD rate from any source (Kraken, DB cache, or Chainlink)")
no_rate (some n) = ok n

module _ (env : EstimateEnv) where
  pub wei_for : ℕ → Exec Exception Estimator ℕ
  wei_for usd s =
      let (wei, o) = usd_to_wei env.cost_feeds usd s.oracle in
      (no_rate wei, record s { oracle = o })

  pub current_rate : Exec Exception Estimator ℕ
  current_rate s =
      let (rate, o) = get_eth_usd_rate env.rate_feeds s.oracle in
      (no_rate rate, record s { oracle = o })

  -- `estimateCost` after a miss.
  pub compute_estimate : EstimateRequest → Exec Exception Estimator Estimate
  unfolding wei_for current_rate cache_estimate get_cache_key
  compute_estimate r = do
    from_provider ← (λ s. (env.provider_estimate r, s))
    pricing ← (λ s. (env.pricing_type r.provider r.endpoint, s))
    wei ← wei_for from_provider.estimated_cost_usd
    rate ← current_rate
    λ s.
        let estimate : Estimate = record {
          provider = r.provider;
          endpoint = r.endpoint;
          estimated_cost_usd = from_provider.estimated_cost_usd;
          estimated_cost_wei = to_string wei;
          recommended_deposit_wei = to_string (wei * 120 / 100);
          current_eth_rate_usd = rate;
          confidence = from_provider.confidence;
          pricing_model = pricing;
        } in
        (
          ok estimate,
          record s {
            estimate_cache =
                cache_estimate env.cached_at (get_cache_key r) estimate s.estimate_cache;
          },
        )

  -- What the lookup of `estimateCost` finds.
  abbrev pub live_estimate : Option CachedEstimate → Option Estimate
  live_estimate none = none
  live_estimate (some c) = if ltb env.looked_up_at c.expiry then some c.estimate else none

  -- `estimateCost`
  unfoldable pub estimate_cost : EstimateRequest → Exec Exception Estimator Estimate
  unfolding compute_estimate get_cache_key
  estimate_cost r s = elim (live_estimate (lookup (get_cache_key r) s.estimate_cache)) [
    | some estimate ↦ (ok estimate, s)
    | none ↦ compute_estimate r s
  ]
