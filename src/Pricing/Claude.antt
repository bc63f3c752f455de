-- ===== src/Pricing/Claude.antt =====
-- Claude prices (src/pricing/claude-pricing.ts). A cost is in whole micro-dollars: a price is in
-- dollars for a million tokens, so tokens times price is exact in that unit.
use zk_api.Common.{ℕ, ◌+◌, ◌*◌, String, Option, none, some, if◌then◌else◌}
use zk_api.Common.Eq.{◌===◌, string_eq}

-- The keys of `CLAUDE_PRICING`.
pub data ClaudeModel : Type 0 where
  fable_5_1 opus_4_6 sonnet_4_6 haiku_4_5 : ClaudeModel

abbrev pub input_price : ClaudeModel → ℕ
input_price fable_5_1 = 10
input_price opus_4_6 = 5
input_price sonnet_4_6 = 3
input_price haiku_4_5 = 1

abbrev pub output_price : ClaudeModel → ℕ
output_price fable_5_1 = 50
output_price opus_4_6 = 25
output_price sonnet_4_6 = 15
output_price haiku_4_5 = 5

abbrev pub default_claude_model : ClaudeModel
default_claude_model = fable_5_1

abbrev pub max_output_tokens : ℕ
max_output_tokens = 4096

-- `isClaudeModel`: the key that the text names, if it is one.
unfoldable pub claude_model : String → Option ClaudeModel
claude_model model =
    if model === "claude-fable-5-1"
    then some fable_5_1
    else if model === "claude-opus-4-6"
    then some opus_4_6
    else if model === "claude-sonnet-4-6"
    then some sonnet_4_6
    else if model === "claude-haiku-4-5"
    then some haiku_4_5
    else none

unfoldable pub claude_cost_usd : ClaudeModel → (input_tokens output_tokens : ℕ) → ℕ
claude_cost_usd model input_tokens output_tokens =
    input_tokens * input_price model + output_tokens * output_price model
