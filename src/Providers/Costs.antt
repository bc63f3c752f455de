-- ===== src/Providers/Costs.antt =====
-- The cost of a usage, as the Claude provider counts it and as the pricing oracle does under the prices that
-- the provider registers (src/providers/claude/claude.provider.ts, src/pricing/pricing-oracle.service.ts).
use zk_api.Common.{ℕ, ◌+◌, ◌*◌, ◌≡◌, none, arith, or_else}
use zk_api.Common.Exec.{ok}
use zk_api.Pricing.Claude.{ClaudeModel, input_price, output_price, claude_cost_usd}
use zk_api.Pricing.Oracle.{calculate_cost_usd, calculate_token_cost, cost_under}
use zk_api.Providers.Claude.{ClaudeUsage, get_pricing_config, token_cost_usd, extract_usage}

-- The tokens that write and read the prompt cache cost what their rates say in the provider's count, and
-- nothing in the pricing oracle's, under the prices that the provider registers.
pub extract_usage-calculate_cost_usd :
    (u : ClaudeUsage) (model : ClaudeModel)
    → let (cost, usage) = extract_usage u model in
      let oracle_cost =
        u.input_tokens * (100 * input_price model) + u.output_tokens * (100 * output_price model) in
      (calculate_cost_usd usage (get_pricing_config model) ≡ ok oracle_cost)
      × (cost
          ≡ oracle_cost
            + or_else u.cache_creation_input_tokens 0 * (125 * input_price model)
            + or_else u.cache_read_input_tokens 0 * (10 * input_price model))
unfolding extract_usage calculate_cost_usd get_pricing_config token_cost_usd cost_under
    calculate_token_cost
extract_usage-calculate_cost_usd u model = (ground arith, ground arith)

distribute :
    (i o p q : ℕ)
    → i * (100 * p) + o * (100 * q) + 0 * (125 * p) + 0 * (10 * p) ≡ 100 * (i * p + o * q)
distribute i o p q = omega arith

-- Without cached tokens the provider's cost is that of the price table, a micro-dollar being 100 of its units.
pub extract_usage-claude_cost_usd :
    (u : ClaudeUsage) (model : ClaudeModel)
    → u.cache_creation_input_tokens ≡ none
    → u.cache_read_input_tokens ≡ none
    → (extract_usage u model).0 ≡ 100 * claude_cost_usd model u.input_tokens u.output_tokens
unfolding extract_usage get_pricing_config token_cost_usd claude_cost_usd
extract_usage-claude_cost_usd u model h k =
    rw (h, k) (distribute u.input_tokens u.output_tokens (input_price model) (output_price model))
