-- ===== src/Longjing.antt =====
-- The request handler (src/longjing/longjing.service.ts). One call runs without another between its
-- parts; the clock, the chain, the provider, the signer and the hash functions are in `Env`. The values
-- that the source interpolates into a message are left out of it.
mod Tests
pub mod Serve
pub mod Checks
pub mod Spending
pub mod Endings
pub mod Refunds
pub mod Server
pub mod Retries
pub mod Fixtures
use zk_api.Common.{
  ℕ, ◌+◌, ◌-◌, ◌*◌, Bool, true, false, not, Option, none, some, List, [], ◌∷◌, ◌++◌, String, ltb,
  leb, if◌then◌else◌,
}
use zk_api.Common.Eq.{◌===◌, text_eq}
use zk_api.Common.Ensures.{◌>>=◌, ◌>>◌}
use zk_api.Common.Exec.{Exec, Result, ok, err, pure, throw, or_throw, throw_unless, update}
use zk_api.Common.Text.{Text}
use zk_api.Accumulator
use zk_api.Accumulator.{Generators, apply_refund}
use zk_api.EthRate.{EthRateOracle, Feeds, usd_to_wei}
use zk_api.Exceptions.{Exception, http, bad_gateway, internal, SignedAccumulator, Signature}
use zk_api.Nullifiers.{
  NullifierStore, StoredSignal, check_rate_limit, check_and_set, recall_response, remember_response,
}
use zk_api.Padding.{byte_length, pad_response}
use zk_api.Pricing.Claude.{
  ClaudeModel, claude_model, claude_cost_usd, default_claude_model, max_output_tokens,
}
use zk_api.Quantization.{CostClass, UnitClass, quantize_cost, quantize_units}
use zk_api.Signal.{bn254_scalar_field, parse_field_element, to_string, signal_x_matches_request}
use zk_api.Signal.Canonical.{canonical}
use zk_api.Slashing.{Chain, Sent, slash_revealed}
use zk_api.Verifier.{ProofVerifier, VerifierEnv, RequestPublicInputs, verify}

pub record LongjingRequest : Type 0 where
  pub payload : Text
  pub nonce : Text
  pub nullifier : Text
  pub signal_x : Text
  pub signal_y : Text
  pub proof : Text
  pub merkle_root : Text
  pub accumulator_x : Text
  pub accumulator_y : Text
  pub model : Option String

-- What is left of the usage for the client; the unit type is always tokens.
pub record Usage : Type 0 where
  pub unit_class : UnitClass
  pub cost_class : CostClass

-- The provider's message: its text, and the tokens that are billed.
pub record Answer : Type 0 where
  pub content : Text
  pub input_tokens : ℕ
  pub output_tokens : ℕ

pub record Response : Type 0 where
  pub response : Text
  pub refund : Text
  pub accumulator : SignedAccumulator
  pub usage : Usage

-- What is kept for a retry: a response, or the BadGatewayException of a failed provider call.
pub data Kept : Type 0 where
  served : Response → Kept
  failed : Exception → Kept

-- `provider` is the Anthropic client, or the mock without an API key; `none` is its exception. So it
-- is for `sign`. `c_max` is `none` where the contract cannot be read. The feeds and the clock of each
-- later step are given apart, since time passes between them.
pub record Env : Type 0 where
  pub sha256 : Text → ℕ
  pub poseidon : ℕ → ℕ → ℕ
  pub c_max : Option ℕ
  pub verifier_env : VerifierEnv
  pub worst_case_feeds : Feeds
  pub actual_feeds : Feeds
  pub provider : Text → ClaudeModel → Option Answer
  pub sign : Accumulator.Point → Option Signature
  pub generators : Generators
  pub chain : Chain
  pub rate_limit_at : ℕ
  pub recalled_at : ℕ
  pub kept_at : ℕ

-- The state of the services that a request changes. `provider_calls` counts the calls of the
-- provider, and `sent` holds the keys of the slashing transactions.
pub record World : Type 0 where
  pub store : NullifierStore Kept
  pub verifier : ProofVerifier
  pub oracle : EthRateOracle
  pub sent : Sent
  pub provider_calls : ℕ

abbrev pub Handler : Type 0 → Type 0
Handler A = Exec Exception World A

abbrev pub with_store : {A : Type 0} → (NullifierStore Kept → NullifierStore Kept × A) → Handler A
with_store f w = let (s, a) = f w.store in (ok a, record w { store = s })

abbrev pub message_overhead_tokens : ℕ
message_overhead_tokens = 32

abbrev pub chosen_model : Option String → Option ClaudeModel
chosen_model none = some default_claude_model
chosen_model (some model) = claude_model model

abbrev pub rate_or_throw : Option ℕ → Result Exception ℕ
rate_or_throw none =
    err (internal "Unable to fetch ETH/USD rate from any source (Kraken, DB cache, or Chainlink)")
rate_or_throw (some wei) = ok wei

-- `calculateCostInETH`
pub calculate_cost_in_eth : Feeds → (input_tokens output_tokens : ℕ) → ClaudeModel → Handler ℕ
calculate_cost_in_eth feeds input_tokens output_tokens model w =
    let (wei, o) = usd_to_wei feeds (claude_cost_usd model input_tokens output_tokens) w.oracle in
    (rate_or_throw wei, record w { oracle = o })

-- `worstCaseCostInETH`
pub worst_case_cost_in_eth : Feeds → Text → ClaudeModel → Handler ℕ
unfolding calculate_cost_in_eth
worst_case_cost_in_eth feeds payload model =
    calculate_cost_in_eth feeds (byte_length payload + message_overhead_tokens) max_output_tokens
      model

-- `executeClaudeRequest`: one call of the provider; the classes are those of its tokens and cost.
pub execute_claude_request : Env → Text → ClaudeModel → World → World × Option (Answer × Usage)
execute_claude_request env payload model w =
    let w' = record w { provider_calls = w.provider_calls + 1 } in
    elim (env.provider payload model) [
      | none ↦ (w', none)
      | some answer ↦ (
        w',
        some (
          answer,
          record {
            unit_class = (quantize_units (answer.input_tokens + answer.output_tokens)).0;
            cost_class =
                (quantize_cost (claude_cost_usd model answer.input_tokens answer.output_tokens)).0;
          },
        ),
      )
    ]

abbrev pub signed : Accumulator.Point → Option Signature → Result Exception SignedAccumulator
signed next none = err (internal "The accumulator could not be signed")
signed next (some signature) =
    ok (record { x = to_string next.x; y = to_string next.y; signature = signature })

-- `nextAccumulator`
pub next_accumulator : Env → Accumulator.Point → ℕ → Result Exception SignedAccumulator
next_accumulator env published refund =
    let next = apply_refund bn254_scalar_field env.generators published refund in
    signed next (env.sign next)

-- Verification against the state of the verifier.
pub verify_proof : Env → LongjingRequest → ℕ → Handler Bool
verify_proof env req c_max w =
    let (r, v) =
      verify env.verifier_env req.proof
        (record {
          nullifier = req.nullifier;
          signal_y = req.signal_y;
          accumulator_x = req.accumulator_x;
          accumulator_y = req.accumulator_y;
          merkle_root = req.merkle_root;
          max_cost = c_max;
          signal_x = req.signal_x;
        })
        w.verifier in
    (r, record w { verifier = v })

-- What the checks hand on: the model, the canonical nullifier and C_MAX.
pub record Checked : Type 0 where
  pub model : ClaudeModel
  pub nullifier : Text
  pub c_max : ℕ

-- The first part of `handleRequest`, up to step 4: nothing is consumed.
pub check_request : Env → LongjingRequest → Handler Checked
unfolding verify_proof worst_case_cost_in_eth
check_request env req = do
  model ← or_throw (chosen_model req.model) (http 400 "Unsupported model")
  nullifier ← or_throw (canonical req.nullifier) (internal "Cannot convert to a BigInt")
  within ← with_store (check_rate_limit env.rate_limit_at nullifier)
  throw_unless within
      (http 403 "Rate limit exceeded for this nullifier. Maximum 3 requests per minute.")
  throw_unless (signal_x_matches_request env.sha256 env.poseidon req.signal_x req.payload req.nonce)
      (http 400 "Signal x does not match the payload and nonce")
  c_max ← or_throw env.c_max (http 503 "Cannot read C_MAX from the contract")
  worst ← worst_case_cost_in_eth env.worst_case_feeds req.payload model
  throw_unless (leb worst c_max) (http 400 "The worst-case cost exceeds C_MAX")
  valid ← verify_proof env req c_max
  throw_unless valid (http 401 "Invalid ZK proof")
  pure (record { model = model; nullifier = nullifier; c_max = c_max })
