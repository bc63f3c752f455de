-- ===== src/Providers.antt =====
-- What the providers share (src/providers/core/base.provider.ts), and the requests that they take.
mod Tests
pub mod Claude
pub mod Execution
pub mod Estimates
pub mod Costs
pub mod Requests
pub mod Registry
use zk_api.Common.{
  ℕ, ◌+◌, ◌-◌, ◌*◌, ◌/◌, ◌^◌, min, Bool, true, false, not, ◌&&◌, ◌||◌, Option, none, some, List, [],
  ◌∷◌, ◌++◌, map, String, ltb, leb, ◌==◌, if◌then◌else◌, or_else, any, find, length,
}
use zk_api.Common.Dict.{Dict}
use zk_api.Common.Eq.{◌===◌, string_eq, text_eq}
use zk_api.Common.Exec.{Result, ok, err}
use zk_api.Common.Text.{Text, codes}
use zk_api.Config.{to_lower}
use zk_api.Pricing.Claude.{
  ClaudeModel, input_price, output_price, default_claude_model, claude_model,
}
use zk_api.Pricing.Oracle.{PricingRate, PricingModel, UsageMetrics, per_token}
use zk_api.Signal.{is_nil}

-- A message's content: a text, or parts, of which one that is not a text may have one.
pub data Part : Type 0 where
  plain : Text → Part
  object : Option Text → Part

pub data Content : Type 0 where
  text : Text → Content
  parts : List Part → Content
  other : Content

-- A message, `none` where it or its content is missing.
abbrev pub Message : Type 0
Message = Option Content

pub record ClaudeBody : Type 0 where
  pub messages : Option (List Message)
  pub model : Option String
  pub max_tokens : Option ℕ

pub record ProviderRequest : Type 0 where
  pub endpoint : Text
  pub method : Text
  pub headers : Dict Text Text
  pub body : Option ClaudeBody
  pub metadata : Option ClaudeBody

pub data ValidationError : Type 0 where
  endpoint_required method_required unknown_method : ValidationError
  body_required messages_required unknown_model bad_max_tokens : ValidationError

abbrev pub list_unless {ℓ} : {A : Type ℓ} → Bool → A → List A
list_unless true a = []
list_unless false a = a ∷ []

abbrev pub methods : List Text
methods = codes "GET" ∷ codes "POST" ∷ codes "PUT" ∷ codes "DELETE" ∷ []

-- `BaseProvider.validateRequest`, as the errors that it finds.
unfoldable pub base_errors : ProviderRequest → List ValidationError
base_errors r =
    list_unless (not (is_nil r.endpoint)) endpoint_required
    ++ list_unless (not (is_nil r.method)) method_required
    ++ list_unless (any (λ m. m === r.method) methods) unknown_method

abbrev pub sensitive_keys : List Text
sensitive_keys =
    codes "authorization" ∷ codes "api-key" ∷ codes "x-api-key" ∷ codes "x-auth-token" ∷ []

abbrev pub is_sensitive : Text → Bool
is_sensitive key = any (λ k. k === map to_lower key) sensitive_keys

-- `sanitizeHeaders`
unfoldable pub sanitize_headers : Dict Text Text → Dict Text Text
sanitize_headers [] = []
sanitize_headers ((key, value) ∷ headers) =
    (key, if is_sensitive key then codes "[REDACTED]" else value) ∷ sanitize_headers headers

-- `calculateRetryDelay`
unfoldable pub calculate_retry_delay : (attempt base_delay : ℕ) → ℕ
calculate_retry_delay attempt base_delay = min (base_delay * 2 ^ attempt) 10000

-- An error that is an object, the members that are read.
pub record ApiError : Type 0 where
  pub code : Option String
  pub status : Option ℕ

abbrev pub is_network_code : Option String → Bool
is_network_code none = false
is_network_code (some c) = c === "ECONNRESET" || c === "ETIMEDOUT"

abbrev pub is_retryable_status : Option ℕ → Bool
is_retryable_status none = false
is_retryable_status (some s) = leb 500 s && ltb s 600 || s == 429

-- `isRetryableError`; `none` is a value that is not an object.
unfoldable pub is_retryable_error : Option ApiError → Bool
is_retryable_error none = false
is_retryable_error (some e) = is_network_code e.code || is_retryable_status e.status
