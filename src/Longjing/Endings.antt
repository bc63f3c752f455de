-- ===== src/Longjing/Endings.antt =====
-- Each way in which steps 6 to 8 of `handleRequest` end, as an equation (src/longjing/longjing.service.ts).
use zk_api.Common.{ℕ, ◌+◌, ◌≡◌, refl, Option, none, some, arith}
use zk_api.Common.Ensures.{◌>>=◌}
use zk_api.Common.Exec.{ok, err}
use zk_api.Common.Text.{Text}
use zk_api.Accumulator
use zk_api.Accumulator.{apply_refund}
use zk_api.EthRate.{EthRateOracle, usd_to_wei}
use zk_api.Exceptions.{Exception, bad_gateway, internal, Signature, SignedAccumulator}
use zk_api.Longjing.{
  LongjingRequest, Usage, Answer, Response, served, failed, Env, World, Checked,
  calculate_cost_in_eth, execute_claude_request, next_accumulator,
}
use zk_api.Longjing.Serve.{
  published_accumulator, refund_of, remember, refund_everything, respond, serve,
}
use zk_api.Nullifiers.{StoredSignal}
use zk_api.Padding.{pad_response}
use zk_api.Pricing.Claude.{ClaudeModel, claude_cost_usd}
use zk_api.Quantization.{quantize_cost, quantize_units}
use zk_api.Signal.{bn254_scalar_field, to_string}

abbrev pub next_of : Env → Accumulator.Point → ℕ → Accumulator.Point
next_of env published v = apply_refund bn254_scalar_field env.generators published v

abbrev pub printed_point : Accumulator.Point → Signature → SignedAccumulator
printed_point p s = record { x = to_string p.x; y = to_string p.y; signature = s }

abbrev pub failure_of : ℕ → SignedAccumulator → Exception
failure_of c_max next =
    bad_gateway "The provider call failed. The whole of C_MAX is refunded." (to_string c_max) next

-- Each way in which steps 6 to 8 end, as an equation.
module _ (env : Env) (c : Checked) (signal : StoredSignal) (published : Accumulator.Point)
    (w : World) where
  pub next-signed :
      (v : ℕ) (s : Signature)
      → env.sign (next_of env published v) ≡ some s
      → next_accumulator env published v ≡ ok (printed_point (next_of env published v) s)
  unfolding next_accumulator
  next-signed v s e = rw e refl

  pub next-unsigned :
      (v : ℕ)
      → env.sign (next_of env published v) ≡ none
      → next_accumulator env published v ≡ err (internal "The accumulator could not be signed")
  unfolding next_accumulator
  next-unsigned v e = rw e refl

  pub refund_everything-ok :
      (next : SignedAccumulator)
      → next_accumulator env published c.c_max ≡ ok next
      → refund_everything env c signal published w ≡ (
        err (failure_of c.c_max next),
        remember env c signal (failed (failure_of c.c_max next)) w,
      )
  unfolding refund_everything
  refund_everything-ok next e = rw (e, refund_everything) refl

  pub refund_everything-err :
      (x : Exception)
      → next_accumulator env published c.c_max ≡ err x
      → refund_everything env c signal published w ≡ (err x, w)
  unfolding refund_everything
  refund_everything-err x e = rw (e, refund_everything) refl

  module _ (answer : Answer) (usage : Usage) where
    abbrev pub priced : Option ℕ × EthRateOracle
    priced =
        usd_to_wei env.actual_feeds
          (claude_cost_usd c.model answer.input_tokens answer.output_tokens) w.oracle

    abbrev pub response_of : ℕ → SignedAccumulator → Response
    response_of cost next = record {
      response = pad_response answer.content;
      refund = to_string (refund_of c.c_max cost);
      accumulator = next;
      usage = usage;
    }

    pub respond-unpriced :
        (o : EthRateOracle)
        → priced ≡ (none, o)
        → (respond env c signal published answer usage w) ≡ (
          err (
              internal
                "Unable to fetch ETH/USD rate from any source (Kraken, DB cache, or Chainlink)"),
          record w { oracle = o },
        )
    unfolding respond calculate_cost_in_eth ◌>>=◌
    respond-unpriced o e = ground arith

    pub respond-ok :
        (cost : ℕ) (o : EthRateOracle) (next : SignedAccumulator)
        → priced ≡ (some cost, o)
        → next_accumulator env published (refund_of c.c_max cost) ≡ ok next
        → respond env c signal published answer usage w ≡ (
          ok (response_of cost next),
          remember env c signal (served (response_of cost next)) (record w { oracle = o }),
        )
    unfolding respond calculate_cost_in_eth ◌>>=◌
    respond-ok cost o next e e2 = ground arith

    pub respond-err :
        (cost : ℕ) (o : EthRateOracle) (x : Exception)
        → priced ≡ (some cost, o)
        → next_accumulator env published (refund_of c.c_max cost) ≡ err x
        → respond env c signal published answer usage w ≡ (err x, record w { oracle = o })
    unfolding respond calculate_cost_in_eth ◌>>=◌
    respond-err cost o x e e2 = ground arith

abbrev pub called : World → World
called w = record w { provider_calls = w.provider_calls + 1 }

abbrev pub usage_of : ClaudeModel → Answer → Usage
usage_of model answer = record {
  unit_class = (quantize_units (answer.input_tokens + answer.output_tokens)).0;
  cost_class = (quantize_cost (claude_cost_usd model answer.input_tokens answer.output_tokens)).0;
}

pub execute-none :
    (env : Env) (payload : Text) (model : ClaudeModel) (w : World)
    → env.provider payload model ≡ none
    → execute_claude_request env payload model w ≡ (called w, none)
unfolding execute_claude_request
execute-none env payload model w e = rw (e, execute_claude_request) refl

pub execute-some :
    (env : Env) (payload : Text) (model : ClaudeModel) (w : World) (answer : Answer)
    → env.provider payload model ≡ some answer
    → execute_claude_request env payload model w ≡ (called w, some (answer, usage_of model answer))
unfolding execute_claude_request
execute-some env payload model w answer e = rw (e, execute_claude_request) refl

pub serve-unparsed :
    (env : Env) (req : LongjingRequest) (c : Checked) (signal : StoredSignal) (w : World)
    → published_accumulator req ≡ none
    → serve env req c signal w ≡ (err (internal "Cannot parse the accumulator"), w)
unfolding serve ◌>>=◌
serve-unparsed env req c signal w e = ground arith

module _ (env : Env) (req : LongjingRequest) (c : Checked) (signal : StoredSignal) (w : World)
    (published : Accumulator.Point) where
  pub serve-failed :
      published_accumulator req ≡ some published
      → execute_claude_request env req.payload c.model w ≡ (called w, none)
      → serve env req c signal w ≡ refund_everything env c signal published (called w)
  unfolding serve ◌>>=◌
  serve-failed e e2 = ground arith

  pub serve-answered :
      (answer : Answer) (usage : Usage)
      → published_accumulator req ≡ some published
      → execute_claude_request env req.payload c.model w ≡ (called w, some (answer, usage))
      → serve env req c signal w ≡ respond env c signal published answer usage (called w)
  unfolding serve ◌>>=◌
  serve-answered answer usage e e2 = ground arith
