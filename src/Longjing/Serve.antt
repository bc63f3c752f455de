-- ===== src/Longjing/Serve.antt =====
-- What `handleRequest` does once a request is checked (src/longjing/longjing.service.ts): the nullifier
-- is recorded, and then the request is served, slashed, or answered as a retry.
use zk_api.Common.{ℕ, ◌-◌, Option, none, some, ltb, if◌then◌else◌}
use zk_api.Common.Eq.{◌===◌, text_eq}
use zk_api.Common.Ensures.{◌>>=◌}
use zk_api.Common.Exec.{Result, ok, err, or_throw}
use zk_api.Accumulator
use zk_api.Exceptions.{Exception, http, bad_gateway, internal}
use zk_api.Longjing.{
  LongjingRequest, Usage, Answer, Response, Kept, served, failed, Env, World, Handler, Checked,
  with_store, calculate_cost_in_eth, execute_claude_request, next_accumulator, check_request,
}
use zk_api.Nullifiers.{StoredSignal, check_and_set, recall_response, remember_response}
use zk_api.Padding.{pad_response}
use zk_api.Signal.{parse_field_element, to_string}
use zk_api.Signal.Canonical.{canonical}
use zk_api.Slashing.{slash_revealed}

-- The signal in canonical form.
abbrev pub canonical_signal : LongjingRequest → Option StoredSignal
canonical_signal req = elim (canonical req.signal_x) [
  | none ↦ none
  | some x ↦ elim (canonical req.signal_y) [ none ↦ none | some y ↦ some (record { x = x; y = y }) ]
]

abbrev pub published_accumulator : LongjingRequest → Option Accumulator.Point
published_accumulator req = elim (parse_field_element req.accumulator_x) [
  | none ↦ none
  | some x ↦ elim (parse_field_element req.accumulator_y) [
    | none ↦ none
    | some y ↦ some (record { x = x; y = y })
  ]
]

-- `actualCost < cMax ? cMax - actualCost : 0n`
unfoldable pub refund_of : (c_max actual_cost : ℕ) → ℕ
refund_of c_max actual_cost = if ltb actual_cost c_max then c_max - actual_cost else 0

abbrev pub remember : Env → Checked → StoredSignal → Kept → World → World
remember env c signal kept w = record w {
  store = remember_response env.kept_at c.nullifier signal kept w.store;
}

-- The `catch` of step 6.
unfoldable pub refund_everything :
    Env → Checked → StoredSignal → Accumulator.Point → Handler Response
refund_everything env c signal published w = elim (next_accumulator env published c.c_max) [
  | err e ↦ (err e, w)
  | ok next ↦
      let failure =
        bad_gateway "The provider call failed. The whole of C_MAX is refunded." (to_string c.c_max)
          next in
      (err failure, remember env c signal (failed failure) w)
]

-- Steps 7 and 8, from the provider's answer.
unfoldable pub respond :
    Env → Checked → StoredSignal → Accumulator.Point → Answer → Usage → Handler Response
unfolding calculate_cost_in_eth
respond env c signal published answer usage = do
  actual_cost ←
      calculate_cost_in_eth env.actual_feeds answer.input_tokens answer.output_tokens c.model
  let refund = refund_of c.c_max actual_cost
  next ← (λ w. (next_accumulator env published refund, w))
  let result =
      let r : Response = record {
        response = pad_response answer.content;
        refund = to_string refund;
        accumulator = next;
        usage = usage;
      } in
      r
  λ w. (ok result, remember env c signal (served result) w)

-- Steps 6 to 8, once the nullifier is recorded.
unfoldable pub serve : Env → LongjingRequest → Checked → StoredSignal → Handler Response
unfolding execute_claude_request refund_everything respond
serve env req c signal = do
  published ← or_throw (published_accumulator req) (internal "Cannot parse the accumulator")
  λ w.
      let (w', answered) = execute_claude_request env req.payload c.model w in
      elim answered [
        | none ↦ refund_everything env c signal published w'
        | some (answer, usage) ↦ respond env c signal published answer usage w'
      ]

-- What a retry is told: a kept failure is thrown again.
abbrev pub replay : Option Kept → Result Exception Response
replay none = err (http 403 "Nullifier already used")
replay (some (served r)) = ok r
replay (some (failed e)) = err e

-- The branch of step 5 for a nullifier that was recorded with `existing`.
unfoldable pub settle_used : Env → Checked → (existing signal : StoredSignal) → Handler Response
settle_used env c existing signal w =
    if existing.x === signal.x
    then (replay (recall_response env.recalled_at c.nullifier signal w.store), w)
    else (
      err (
          http 403
            "Double-spend detected. Your secret key has been extracted and you will be slashed."),
      record w { sent = slash_revealed env.chain existing signal w.sent },
    )

-- Step 5 and all that follows it.
unfoldable pub settle : Env → LongjingRequest → Checked → StoredSignal → Handler Response
unfolding serve settle_used
settle env req c signal = do
  existing ← with_store (check_and_set c.nullifier signal)
  elim existing [ none ↦ serve env req c signal | some old ↦ settle_used env c old signal ]

-- `handleRequest`
unfoldable pub handle_request : Env → LongjingRequest → Handler Response
unfolding settle
handle_request env req = do
  c ← check_request env req
  signal ← or_throw (canonical_signal req) (internal "Cannot convert to a BigInt")
  settle env req c signal
