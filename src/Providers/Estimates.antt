-- ===== src/Providers/Estimates.antt =====
-- The estimate of a request's cost beside the cost of its answer (src/providers/claude/claude.provider.ts).
use native.Mathlib.Nat.{mul-le-mul_right}
use zk_api.Common.{ℕ, ◌+◌, ◌*◌, ◌≤◌, ◌<◌, ◌≡◌, refl, none, [], arith, or_else}
use zk_api.Pricing.Claude.{
  ClaudeModel, fable_5_1, opus_4_6, sonnet_4_6, haiku_4_5, input_price, output_price,
}
use zk_api.Providers.{ClaudeBody}
use zk_api.Providers.Claude.{
  ClaudeUsage, get_pricing_config, token_cost_usd, estimate_token_count, estimate_for,
  extract_usage,
}
use zk_api.Providers.Execution.{call_of}

-- An answer that uses no more tokens than were estimated, and none of the prompt cache, costs no more than the
-- estimate.
pub extract_usage-estimate_for :
    (u : ClaudeUsage) (model : ClaudeModel) (params : ClaudeBody)
    → u.cache_creation_input_tokens ≡ none
    → u.cache_read_input_tokens ≡ none
    → u.input_tokens ≤ estimate_token_count (or_else params.messages [])
    → u.output_tokens ≤ or_else params.max_tokens 1024
    → (extract_usage u model).0 ≤ (estimate_for model params).estimated_cost_usd
unfolding extract_usage estimate_for get_pricing_config token_cost_usd
extract_usage-estimate_for u model params h k i o =
    let input = mul-le-mul_right (100 * input_price model) i in
    let output = mul-le-mul_right (100 * output_price model) o in
    rw (h, k) (omega (arith, input, output))

answer_exceeds_estimate :
    (model : ClaudeModel) (n written read : ℕ)
    → n ≤ 10000
    → (n * (100 * input_price model) + 1024 * (100 * output_price model)) * 15
      < 10
        * (n * (100 * input_price model)
            + 8192 * (100 * output_price model)
            + written * (125 * input_price model)
            + read * (10 * input_price model))
answer_exceeds_estimate fable_5_1 n written read h = omega arith
answer_exceeds_estimate opus_4_6 n written read h = omega arith
answer_exceeds_estimate sonnet_4_6 n written read h = omega arith
answer_exceeds_estimate haiku_4_5 n written read h = omega arith

-- A request that does not limit the answer is estimated for 1024 tokens of it and run with a limit of 8192. Where
-- the answer has that length and the messages at most ten thousand tokens, as estimated, it costs more than the
-- greatest cost of the estimate.
pub unlimited_answer_exceeds_estimate :
    (u : ClaudeUsage) (model : ClaudeModel) (params : ClaudeBody)
    → params.max_tokens ≡ none
    → u.output_tokens ≡ (call_of params).max_tokens
    → u.input_tokens ≡ estimate_token_count (or_else params.messages [])
    → u.input_tokens ≤ 10000
    → (estimate_for model params).max_cost_tenths < 10 * (extract_usage u model).0
unfolding extract_usage estimate_for get_pricing_config token_cost_usd
unlimited_answer_exceeds_estimate u model params h o i b =
    let limit : or_else params.max_tokens 8192 ≡ 8192 = rw (h) refl in
    let written = or_else u.cache_creation_input_tokens 0 in
    let read = or_else u.cache_read_input_tokens 0 in
    rw (o, limit, ← i, h) (answer_exceeds_estimate model u.input_tokens written read b)
