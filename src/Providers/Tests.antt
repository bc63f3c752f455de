-- ===== src/Providers/Tests.antt =====
-- Instances for the Claude provider and the registry.
use zk_api.Common.{◌+◌, ◌*◌, ◌≤◌, ◌<◌, ◌≡◌, refl, true, none, some, [], ◌∷◌, arith, or_else}
use zk_api.Common.Dict.{Dict, lookup}
use zk_api.Common.Eq.{text_eq}
use zk_api.Common.Exec.{ok}
use zk_api.Common.Text.{Text, codes}
use zk_api.Pricing.Claude.{claude_model, opus_4_6, input_price, output_price, claude_cost_usd}
use zk_api.Pricing.Oracle.{calculate_cost_usd, validate_pricing_model, check_rates}
use zk_api.Pricing.Service.{get_pricing_cached}
use zk_api.Providers.{
  ClaudeBody, ProviderRequest, text, sanitize_headers, is_sensitive, calculate_retry_delay,
}
use zk_api.Providers.Claude.{
  ClaudeUsage, get_pricing_config, extract_usage, estimate_for, estimate_token_count,
}
use zk_api.Providers.Execution.{execute}
use zk_api.Providers.Estimates.{extract_usage-estimate_for, unlimited_answer_exceeds_estimate}
use zk_api.Providers.Costs.{extract_usage-calculate_cost_usd, extract_usage-claude_cost_usd}
use zk_api.Providers.Registry.{
  ApiProvider, ProviderRegistry, seeded, register_provider, register_provider-get_pricing_cached,
}
use zk_api.Providers.Requests.{logged, lookup-sanitize_headers, calculate_retry_delay_bounds}

abbrev usage : ClaudeUsage
usage = record {
  input_tokens = 1000;
  output_tokens = 20;
  cache_creation_input_tokens = some 500;
  cache_read_input_tokens = some 300;
}

extract_usage-calculate_cost_usd_example :
    let (cost, metrics) = extract_usage usage opus_4_6 in
    let oracle_cost = 1000 * (100 * input_price opus_4_6) + 20 * (100 * output_price opus_4_6) in
    (calculate_cost_usd metrics (get_pricing_config opus_4_6) ≡ ok oracle_cost)
    × (cost
        ≡ oracle_cost
          + or_else (some 500) 0 * (125 * input_price opus_4_6)
          + or_else (some 300) 0 * (10 * input_price opus_4_6))
extract_usage-calculate_cost_usd_example = extract_usage-calculate_cost_usd usage opus_4_6

abbrev uncached : ClaudeUsage
uncached = record usage { cache_creation_input_tokens = none; cache_read_input_tokens = none }

extract_usage-claude_cost_usd_test :
    (extract_usage uncached opus_4_6).0 ≡ 100 * claude_cost_usd opus_4_6 1000 20
extract_usage-claude_cost_usd_test = extract_usage-claude_cost_usd uncached opus_4_6 refl refl

abbrev body : ClaudeBody
body = record {
  messages = some (some (text (codes "ping")) ∷ []);
  model = some "claude-opus-4-6";
  max_tokens = none;
}

abbrev short_answer : ClaudeUsage
short_answer = record uncached { input_tokens = 1; output_tokens = 900 }

extract_usage-estimate_for_test :
    (extract_usage short_answer opus_4_6).0 ≤ (estimate_for opus_4_6 body).estimated_cost_usd
unfolding estimate_token_count
extract_usage-estimate_for_test =
    extract_usage-estimate_for short_answer opus_4_6 body refl refl (omega arith) (omega arith)

abbrev long_answer : ClaudeUsage
long_answer = record uncached { input_tokens = 1; output_tokens = 8192 }

unlimited_answer_exceeds_estimate_example :
    (estimate_for opus_4_6 body).max_cost_tenths < 10 * (extract_usage long_answer opus_4_6).0
unfolding estimate_token_count
unlimited_answer_exceeds_estimate_example =
    unlimited_answer_exceeds_estimate long_answer opus_4_6 body refl refl refl (omega arith)

-- The request that is run: it asks for the answer of 8192 tokens.
abbrev request : ProviderRequest
request = record {
  endpoint = codes "/v1/messages";
  method = codes "POST";
  headers = [];
  body = some body;
  metadata = none;
}

long_answer_executed :
    execute (some (λ c. ok (record long_answer { output_tokens = c.max_tokens }))) request
    ≡ ok (extract_usage long_answer opus_4_6)
unfolding execute claude_model
long_answer_executed = refl

abbrev headers : Dict Text Text
headers = (codes "X-Api-Key", codes "secret") ∷ (codes "accept", codes "text/html") ∷ []

lookup-sanitize_headers_test :
    lookup (codes "X-Api-Key") (sanitize_headers headers)
    ≡ logged (is_sensitive (codes "X-Api-Key")) (lookup (codes "X-Api-Key") headers)
lookup-sanitize_headers_test = lookup-sanitize_headers (codes "X-Api-Key") headers

api_key_redacted :
    logged (is_sensitive (codes "X-Api-Key")) (some (codes "secret")) ≡ some (codes "[REDACTED]")
api_key_redacted = refl

calculate_retry_delay_bounds_test :
    (calculate_retry_delay 2 1000 ≤ calculate_retry_delay 5 1000)
    × (calculate_retry_delay 5 1000 ≤ 10000)
calculate_retry_delay_bounds_test = calculate_retry_delay_bounds 2 5 1000 (omega arith)

abbrev claude : ApiProvider
claude = record {
  id = codes "claude";
  version = codes "1.0.0";
  pricing_config = get_pricing_config opus_4_6;
  health = some true;
}

abbrev registry : ProviderRegistry
registry = record {
  providers = [];
  pricing_oracle = record {
    tables = record { pricing_models = []; pricing_history = [] };
    pricing_cache = [];
  };
}

claude_valid : validate_pricing_model 5 (seeded 5 claude) ≡ ok tt
unfolding validate_pricing_model check_rates get_pricing_config
claude_valid = refl

register_provider-get_pricing_cached_test :
    (get_pricing_cached 5
      (codes "claude")
      (some (codes "/v1/messages"))
      (register_provider 5 claude registry).1.pricing_oracle).0
    ≡ ok (seeded 5 claude)
unfolding get_pricing_config
register_provider-get_pricing_cached_test =
    register_provider-get_pricing_cached 5 claude registry claude_valid refl refl tt
