-- ===== src/Providers/Execution.antt =====
-- The life of the Claude provider (src/providers/claude/claude.provider.ts): it is initialized once, and then runs
-- requests. Anthropic's client is a parameter.
use zk_api.Common.{
  ℕ, ◌==◌, Bool, true, false, Option, none, some, List, [], ◌∷◌, if◌then◌else◌, or_else,
}
use zk_api.Common.Exec.{Result, ok, err}
use zk_api.Common.Text.{Text, codes}
use zk_api.Pricing.Claude.{ClaudeModel, default_claude_model, claude_model}
use zk_api.Pricing.Oracle.{UsageMetrics}
use zk_api.Providers.{
  ApiError, ClaudeBody, Message, ProviderRequest, ValidationError, text, is_retryable_error,
}
use zk_api.Providers.Claude.{ClaudeUsage, model_of, no_params, validate_request, extract_usage}

-- `ProviderConfig`, the members that the provider reads.
pub record ProviderConfig : Type 0 where
  pub api_key : Option Text
  pub timeout : Option ℕ
  pub retries : Option ℕ

-- The options of Anthropic's client.
pub record ClientOptions : Type 0 where
  pub api_key : Text
  pub timeout : ℕ
  pub max_retries : ℕ

-- `x || d` on numbers and on texts that may be missing.
abbrev pub number_or : Option ℕ → ℕ → ℕ
number_or none d = d
number_or (some n) d = if n == 0 then d else n

abbrev pub text_or : Option Text → Text → Text
text_or none d = d
text_or (some []) d = d
text_or (some (c ∷ cs)) d = c ∷ cs

-- `initialize`
unfoldable pub initialize : ProviderConfig → ClientOptions
initialize config = record {
  api_key = text_or config.api_key (codes "mock-key");
  timeout = number_or config.timeout 120000;
  max_retries = number_or config.retries 2;
}

pub data ExecuteError : Type 0 where
  not_initialized : ExecuteError
  invalid_request : List ValidationError → ExecuteError
  retryable_error api_error : ExecuteError

-- What the client is asked: the model and the most tokens of the answer.
pub record Call : Type 0 where
  pub model : ClaudeModel
  pub messages : List Message
  pub max_tokens : ℕ

-- The call of a valid body.
abbrev pub call_of : ClaudeBody → Call
call_of b = record {
  model = or_else (model_of b.model) default_claude_model;
  messages = or_else b.messages [];
  max_tokens = or_else b.max_tokens 8192;
}

-- `execute`, as the usage of the answer. The client is `none` before `initialize`; it answers with a usage or
-- throws an error.
unfoldable pub execute :
    Option (Call → Result (Option ApiError) ClaudeUsage)
    → ProviderRequest
    → Result ExecuteError (ℕ × UsageMetrics)
unfolding validate_request extract_usage is_retryable_error claude_model
execute none r = err not_initialized
execute (some create) r = elim (validate_request r) [
  | e ∷ es ↦ err (invalid_request (e ∷ es))
  | [] ↦
      let call = call_of (or_else r.body no_params) in
      elim (create call) [
        | err e ↦ err (if is_retryable_error e then retryable_error else api_error)
        | ok usage ↦ ok (extract_usage usage call.model)
      ]
]

abbrev pub ping : Call
ping = record {
  model = default_claude_model;
  messages = some (text (codes "ping")) ∷ [];
  max_tokens = 10;
}

-- `healthCheck`: `none` is the error of a provider that is not initialized, and the status is true where it is
-- healthy.
unfoldable pub health_check : Option (Call → Result (Option ApiError) ClaudeUsage) → Option Bool
health_check none = none
health_check (some create) = elim (create ping) [ err e ↦ some false | ok usage ↦ some true ]
