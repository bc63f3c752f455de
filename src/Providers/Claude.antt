-- ===== src/Providers/Claude.antt =====
-- The Claude provider (src/providers/claude/claude.provider.ts): its prices, and the cost of a request before and
-- after it is run. Rates are in 1e-5 dollars for a thousand tokens, so a number of tokens times a rate is in 1e-8
-- dollars. Text that is measured is the list of its UTF-16 code units; a number of tokens that is not a natural
-- number is not modelled.
use zk_api.Common.{
  ℕ, ◌+◌, ◌*◌, ◌/◌, Bool, true, false, Option, none, some, List, [], ◌∷◌, ◌++◌, String, ltb,
  or_else, find, length,
}
use zk_api.Common.Eq.{◌===◌, string_eq}
use zk_api.Common.Text.{codes}
use zk_api.Pricing.Claude.{
  ClaudeModel, input_price, output_price, default_claude_model, claude_model,
}
use zk_api.Pricing.Oracle.{PricingRate, PricingModel, UsageMetrics, per_token}
use zk_api.Providers.{
  Part, plain, object, text, parts, other, Message, ClaudeBody, ProviderRequest, ValidationError,
  messages_required, unknown_model, bad_max_tokens, body_required, list_unless, base_errors,
}

abbrev pub has_messages : Option (List Message) → Bool
has_messages none = false
has_messages (some []) = false
has_messages (some (m ∷ ms)) = true

abbrev pub is_known_model : Option String → Bool
is_known_model none = true
is_known_model (some m) = elim (claude_model m) [ none ↦ false | some c ↦ true ]

abbrev pub is_positive : Option ℕ → Bool
is_positive none = true
is_positive (some n) = ltb 0 n

abbrev pub body_errors : Option ClaudeBody → List ValidationError
body_errors none = body_required ∷ []
body_errors (some b) =
    list_unless (has_messages b.messages) messages_required
    ++ list_unless (is_known_model b.model) unknown_model
    ++ list_unless (is_positive b.max_tokens) bad_max_tokens

-- `ClaudeProvider.validateRequest`
unfoldable pub validate_request : ProviderRequest → List ValidationError
unfolding base_errors claude_model
validate_request r = elim (base_errors r) [ [] ↦ body_errors r.body | e ∷ es ↦ e ∷ es ]

abbrev pub token_rate : String → ℕ → PricingRate
token_rate unit rate = record { type_of = per_token; rate = rate; unit = some unit; tiers = none }

-- `getPricingConfig`; the instant 2025-01-01 in milliseconds.
unfoldable pub get_pricing_config : ClaudeModel → PricingModel
get_pricing_config model = record {
  provider_id = codes "claude";
  endpoint = some (codes "/v1/messages");
  currency = codes "USD";
  pricing_type = per_token;
  rates =
      token_rate "input_token" (100 * input_price model)
      ∷ token_rate "output_token" (100 * output_price model)
      ∷ token_rate "cache_creation_input_token" (125 * input_price model)
      ∷ token_rate "cache_read_input_token" (10 * input_price model)
      ∷ [];
  effective_from = 1735689600000;
  effective_until = none;
}

abbrev pub is_unit : String → PricingRate → Bool
is_unit unit r = elim r.unit [ none ↦ false | some u ↦ u === unit ]

-- `tokenCostUSD`
unfoldable pub token_cost_usd : PricingModel → String → ℕ → ℕ
token_cost_usd pricing unit tokens = elim (find (is_unit unit) pricing.rates) [
  | none ↦ 0
  | some r ↦ tokens * r.rate
]

abbrev pub part_length : Part → ℕ
part_length (plain s) = length s
part_length (object none) = 0
part_length (object (some s)) = length s

abbrev pub parts_length : List Part → ℕ
parts_length [] = 0
parts_length (p ∷ ps) = part_length p + parts_length ps

abbrev pub content_length : Message → ℕ
content_length none = 0
content_length (some (text s)) = length s
content_length (some (parts ps)) = parts_length ps
content_length (some other) = 0

abbrev pub total_chars : List Message → ℕ
total_chars [] = 0
total_chars (m ∷ ms) = content_length m + total_chars ms

-- `estimateTokenCount`
unfoldable pub estimate_token_count : List Message → ℕ
estimate_token_count messages = (total_chars messages + 3) / 4

-- `CostEstimate`; the least and the most in tenths of the unit.
pub record CostEstimate : Type 0 where
  pub min_cost_tenths : ℕ
  pub max_cost_tenths : ℕ
  pub estimated_cost_usd : ℕ
  pub input : ℕ
  pub output : ℕ

abbrev pub no_params : ClaudeBody
no_params = record { messages = none; model = none; max_tokens = none }

-- `request.metadata || request.body || {}`
abbrev pub params_of : ProviderRequest → ClaudeBody
params_of r = or_else r.metadata (or_else r.body no_params)

abbrev pub model_of : Option String → Option ClaudeModel
model_of none = some default_claude_model
model_of (some m) = claude_model m

unfoldable pub estimate_for : ClaudeModel → ClaudeBody → CostEstimate
unfolding estimate_token_count get_pricing_config token_cost_usd
estimate_for model params =
    let pricing = get_pricing_config model in
    let input_cost =
      token_cost_usd pricing "input_token" (estimate_token_count (or_else params.messages [])) in
    let output_cost = token_cost_usd pricing "output_token" (or_else params.max_tokens 1024) in
    let estimated = input_cost + output_cost in
    record {
      min_cost_tenths = estimated * 7;
      max_cost_tenths = estimated * 15;
      estimated_cost_usd = estimated;
      input = input_cost;
      output = output_cost;
    }

-- `estimateCost`; `none` is the BadRequestException.
unfoldable pub estimate_request_cost : ProviderRequest → Option CostEstimate
unfolding estimate_for claude_model
estimate_request_cost r = elim (model_of (params_of r).model) [
  | none ↦ none
  | some model ↦ some (estimate_for model (params_of r))
]

-- Anthropic's `usage`.
pub record ClaudeUsage : Type 0 where
  pub input_tokens : ℕ
  pub output_tokens : ℕ
  pub cache_creation_input_tokens : Option ℕ
  pub cache_read_input_tokens : Option ℕ

-- `extractUsage`: the cost, and the other metrics.
unfoldable pub extract_usage : ClaudeUsage → ClaudeModel → ℕ × UsageMetrics
unfolding get_pricing_config token_cost_usd
extract_usage u model =
    let pricing = get_pricing_config model in
    let written = or_else u.cache_creation_input_tokens 0 in
    let read = or_else u.cache_read_input_tokens 0 in
    (
      token_cost_usd pricing "input_token" u.input_tokens
          + token_cost_usd pricing "output_token" u.output_tokens
          + token_cost_usd pricing "cache_creation_input_token" written
          + token_cost_usd pricing "cache_read_input_token" read,
      record {
        units = u.input_tokens + u.output_tokens + written + read;
        breakdown =
            ("input", u.input_tokens)
            ∷ ("output", u.output_tokens)
            ∷ ("cacheWrite", written)
            ∷ ("cacheRead", read)
            ∷ [];
      },
    )
