-- ===== src/CostEstimation/Tests.antt =====
-- Instances of the estimate cache.
use zk_api.Common.{◌+◌, ◌≤◌, ◌≡◌, refl, none, some, [], ◌∷◌, arith, length}
use zk_api.Common.Exec.{ok}
use zk_api.Common.Int.{pos}
use zk_api.Common.Text.{codes}
use zk_api.CostEstimation.{
  EstimateRequest, Estimate, EstimateCache, max_cache_entries, estimate_ttl_ms, get_cache_key,
  cache_estimate, EstimateEnv, Estimator, estimate_cost, compute_estimate, wei_for, current_rate,
}
use zk_api.CostEstimation.Cache.{
  IsBetween, length-cache_estimate, cache_estimate-IsBetween, estimate_cost_again,
}
use zk_api.Signal.{to_string}
use zk_api.EthRate.{failed, Feeds, usd_to_wei, get_eth_usd_rate}

abbrev ask : EstimateRequest
ask = record {
  provider = codes "claude";
  endpoint = none;
  estimated_units = 1000;
  unit_type = none;
  metadata = codes "{}";
}

abbrev sample : Estimate
sample = record {
  provider = codes "claude";
  endpoint = none;
  estimated_cost_usd = 35;
  estimated_cost_wei = codes "14000000000";
  recommended_deposit_wei = codes "16800000000";
  current_eth_rate_usd = 250000000000;
  confidence = 90;
  pricing_model = codes "per-token";
}

abbrev old_cache : EstimateCache
old_cache =
    (codes "a", record { estimate = sample; expiry = 100 })
    ∷ (codes "b", record { estimate = sample; expiry = 400000 })
    ∷ []

length-cache_estimate_test :
    length (cache_estimate 200000 (codes "c") sample old_cache) ≤ max_cache_entries
length-cache_estimate_test = length-cache_estimate 200000 (codes "c") sample old_cache

cache_estimate-IsBetween_test :
    IsBetween
      (200000 + 1)
      (cache_estimate 200000 (codes "c") sample old_cache)
      (200000 + estimate_ttl_ms)
cache_estimate-IsBetween_test =
    cache_estimate-IsBetween 50 150000 200000 (codes "c") sample old_cache (omega arith)
      (omega arith, (omega arith, omega arith))

abbrev estimate_feeds : Feeds
estimate_feeds = record {
  now = 1000;
  saved_at = 1001;
  kraken = failed;
  chainlink = some (pos 250000000000);
}

abbrev estimate_env : EstimateEnv
estimate_env = record {
  provider_estimate = λ r. ok (record { estimated_cost_usd = 35; confidence = 90 });
  pricing_type = λ provider endpoint. ok (codes "per-token");
  looked_up_at = 999;
  cost_feeds = estimate_feeds;
  rate_feeds = estimate_feeds;
  cached_at = 1002;
}

abbrev new_estimator : Estimator
new_estimator = record { estimate_cache = []; oracle = record { cache = none; eth_rates = [] } }

abbrev first_estimator : Estimator
first_estimator = (estimate_cost estimate_env ask new_estimator).1

abbrev asked_again : EstimateRequest
asked_again = record ask { metadata = codes "{\"model\":\"claude-opus-4-6\"}" }

asked_again-get_cache_key : get_cache_key asked_again ≡ get_cache_key ask
unfolding get_cache_key
asked_again-get_cache_key = refl

first-estimate_cost : estimate_cost estimate_env ask new_estimator ≡ (ok sample, first_estimator)
unfolding estimate_cost compute_estimate wei_for current_rate usd_to_wei get_eth_usd_rate to_string
first-estimate_cost = refl

estimate_cost_again_test :
    estimate_cost (record estimate_env { looked_up_at = 2000 }) asked_again first_estimator
    ≡ (ok sample, first_estimator)
estimate_cost_again_test =
    estimate_cost_again estimate_env (record estimate_env { looked_up_at = 2000 }) ask asked_again
      new_estimator first_estimator sample refl first-estimate_cost asked_again-get_cache_key
      (omega arith)
