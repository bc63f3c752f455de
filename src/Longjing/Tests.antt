-- ===== src/Longjing/Tests.antt =====
-- Instances of the request handler: a request that is served, a failed provider, a double spend and
-- an accumulator that does not parse.
use zk_api.Common.{arith, ℕ, ◌+◌, ◌≤◌, ◌≡◌, ◌⊎◌, refl, ◌∙◌, none, some, List, [], ◌∷◌, ◌++◌, length}
use zk_api.Common.Ensures.{Ensures}
use zk_api.Common.Exec.{ok, err}
use zk_api.Common.Text.{codes}
use zk_api.Accumulator
use zk_api.EthRate.{EthRateOracle, usd_to_wei}
use zk_api.Exceptions.{Exception, http, internal, SignedAccumulator}
use zk_api.Common.Int.{◌-ℤ◌, ◌*ℤ◌}
use zk_api.Field.{to_field, power}
use zk_api.Longjing.{LongjingRequest, Response, Kept, served, Env, World, Checked}
use zk_api.Longjing.Refunds.{IsRefunded, IsFailure, serve_refunds}
use zk_api.Longjing.Endings.{
  priced, next_of, printed_point, failure_of, response_of, called, usage_of, next-signed,
  refund_everything-ok, respond-ok, execute-none, execute-some, serve-failed, serve-answered,
}
use zk_api.Longjing.Retries.{
  told, retry_served, retry_failed, double_spend_slashed, IsDoubleSpend,
  slashed_only_for-IsDoubleSpend, unparsed_accumulator_burns,
}
use zk_api.Longjing.Server.{ServerEvent, requested, exit_seen, cleaned, recorded, run_server}
use zk_api.Longjing.Serve.{
  published_accumulator, refund_of, remember, serve, settle, handle_request,
}
use zk_api.Longjing.Spending.{
  IsPaid, provider_call-IsPaid, handle_all, calls_within_nullifiers, settle-fresh,
}
use zk_api.Nullifiers.{StoredSignal}
use zk_api.Pricing.Claude.{haiku_4_5, claude_cost_usd}
use zk_api.Signal.{bn254_scalar_field, parse_field_element, to_string, trim}
use zk_api.Slashing.{stored_point, recover_secret_key}
use zk_api.Longjing.Fixtures.{
  point, some_signature, short_answer, request, signal, checked, world, serving, down,
}

provider_call-IsPaid_example :
    let w' = (handle_request serving request world).1 in
    (w'.provider_calls ≡ 0) ⊎ IsPaid serving request world w'
provider_call-IsPaid_example = provider_call-IsPaid serving request world

abbrev both_requests : List (Env × LongjingRequest)
both_requests = (serving, request) ∷ (down, request) ∷ []

calls_within_nullifiers_example :
    let w' = handle_all both_requests world in
    w'.provider_calls + length world.store.nullifiers
    ≤ world.provider_calls + length w'.store.nullifiers
calls_within_nullifiers_example = calls_within_nullifiers both_requests world

serve_refunds_example :
    Ensures
      (IsRefunded serving request checked signal world)
      (IsFailure serving request checked signal world)
      (serve serving request checked signal world)
serve_refunds_example = serve_refunds serving request checked signal world

abbrev published : Accumulator.Point
published = point 0 1

request-published : published_accumulator request ≡ some published
unfolding parse_field_element trim
request-published = refl

abbrev world1 : World
world1 = recorded checked signal world

-- The cost of the short answer, 35 micro-dollars at 2500 dollars, in wei.
abbrev short_cost : ℕ
short_cost = 14000000000

abbrev priced_oracle : EthRateOracle
priced_oracle =
    (priced serving checked signal published (called world1) short_answer
      (usage_of haiku_4_5 short_answer)).1

short-priced :
    priced serving checked signal published
      (called world1)
      short_answer
      (usage_of haiku_4_5 short_answer)
    ≡ (some short_cost, priced_oracle)
unfolding usd_to_wei claude_cost_usd
short-priced = refl

abbrev next_after : ℕ → SignedAccumulator
next_after v = printed_point (next_of serving published v) some_signature

abbrev first_response : Response
first_response =
    response_of serving checked signal published (called world1) short_answer
      (usage_of haiku_4_5 short_answer) short_cost (next_after (refund_of checked.c_max short_cost))

abbrev after_first : World
after_first =
    remember serving checked signal (served first_response)
      (record (called world1) { oracle = priced_oracle })

first-settle : settle serving request checked signal world ≡ (ok first_response, after_first)
first-settle =
    settle-fresh serving request checked signal world refl
    ∙ serve-answered serving request checked signal world1 published short_answer
        (usage_of haiku_4_5 short_answer) request-published
        (execute-some serving request.payload haiku_4_5 world1 short_answer refl)
    ∙ respond-ok serving checked signal published (called world1) short_answer
        (usage_of haiku_4_5 short_answer) short_cost priced_oracle
        (next_after (refund_of checked.c_max short_cost)) short-priced
        (next-signed serving checked signal published world1 (refund_of checked.c_max short_cost)
          some_signature refl)

-- A request with another nullifier, an exit and a cleanup come in between, and the retry asks for another model.
abbrev meanwhile : List ServerEvent
meanwhile =
    requested serving (record request { nullifier = codes "18"; signal_x = codes "3" })
    ∷ exit_seen serving.chain (record { nullifier = 19; signal_x = 2; signal_y = 7 })
    ∷ cleaned 1800
    ∷ []

abbrev retried_request : LongjingRequest
retried_request = record request { model = none }

abbrev cheap_checked : Checked
cheap_checked = record checked { c_max = 50000000000000000 }

retry_served_example :
    settle down retried_request cheap_checked signal (run_server meanwhile after_first)
    ≡ (told serving down (ok first_response), run_server meanwhile after_first)
retry_served_example =
    retry_served serving down request retried_request checked cheap_checked signal world after_first
      meanwhile refl refl (tt, (tt, (omega arith, tt))) first_response first-settle

abbrev failure : Exception
failure = failure_of checked.c_max (next_after checked.c_max)

abbrev after_failure : World
after_failure = remember down checked signal (Kept.failed failure) (called world1)

failed-settle : settle down request checked signal world ≡ (err failure, after_failure)
failed-settle =
    settle-fresh down request checked signal world refl
    ∙ serve-failed down request checked signal world1 published request-published
        (execute-none down request.payload haiku_4_5 world1 refl)
    ∙ refund_everything-ok down checked signal published (called world1) (next_after checked.c_max)
        (next-signed down checked signal published world1 checked.c_max some_signature refl)

retry_failed_test :
    settle serving request checked signal (run_server meanwhile after_failure)
    ≡ (told down serving (err failure), run_server meanwhile after_failure)
retry_failed_test =
    retry_failed down serving request request checked checked signal world after_failure meanwhile
      refl refl (tt, (tt, (omega arith, tt)))
      "The provider call failed. The whole of C_MAX is refunded." (to_string checked.c_max)
      (next_after checked.c_max) failed-settle

abbrev spent_world : World
spent_world = recorded checked (record { x = codes "1"; y = codes "5" }) world

abbrev second_signal : StoredSignal
second_signal = record { x = codes "2"; y = codes "7" }

first-stored_point :
    stored_point (record { x = codes "1"; y = codes "5" }) ≡ some (record { x = 1; y = 5 })
unfolding stored_point
first-stored_point = refl

second-stored_point : stored_point second_signal ≡ some (record { x = 2; y = 7 })
unfolding stored_point
second-stored_point = refl

key-recovered :
    recover_secret_key bn254_scalar_field (record { x = 1; y = 5 }) (record { x = 2; y = 7 })
    ≡ some 3
unfolding recover_secret_key to_field ◌-ℤ◌ ◌*ℤ◌ power
key-recovered = refl

double_spend_slashed_example : settle serving request checked second_signal spent_world ≡ (
  err (
      http 403
        "Double-spend detected. Your secret key has been extracted and you will be slashed."),
  record spent_world { sent = spent_world.sent ++ 3 ∷ [] },
)
double_spend_slashed_example =
    double_spend_slashed serving request checked second_signal spent_world
      (record { x = codes "1"; y = codes "5" }) (record { x = 1; y = 5 }) (record { x = 2; y = 7 })
      3 refl refl refl first-stored_point second-stored_point key-recovered

slashed_only_for-IsDoubleSpend_example :
    ((handle_request serving request spent_world).1.sent ≡ spent_world.sent)
    ⊎ IsDoubleSpend serving request spent_world
slashed_only_for-IsDoubleSpend_example = slashed_only_for-IsDoubleSpend serving request spent_world

abbrev negative_request : LongjingRequest
negative_request = record request { accumulator_x = codes "-5" }

negative-published : published_accumulator negative_request ≡ none
unfolding parse_field_element trim
negative-published = refl

unparsed_accumulator_burns_example :
    (settle serving negative_request checked signal world
      ≡ (err (internal "Cannot parse the accumulator"), recorded checked signal world))
    × (settle serving request checked signal (recorded checked signal world)
        ≡ (err (http 403 "Nullifier already used"), recorded checked signal world))
unparsed_accumulator_burns_example =
    unparsed_accumulator_burns serving serving negative_request request checked signal world
      negative-published refl refl
