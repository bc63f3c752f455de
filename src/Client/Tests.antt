-- ===== src/Client/Tests.antt =====
-- Instances of the note: it receives the answer of the small server, and proves its next request.
use mathlib.Core.Path.{subst}
use zk_api.Exceptions.{SignedAccumulator}
use zk_api.Slashing.{stored_number}
use zk_api.Common.{ℕ, ap, sym, or_else, ◌+◌, ◌≡◌, refl, ◌∙◌, true, none, some, arith}
use zk_api.Common.Exec.{ok}
use zk_api.Common.Text.{codes}
use zk_api.Accumulator
use zk_api.Accumulator.{Opening, commit, rerandomize}
use zk_api.Client.{
  ClientEnv, Note, Pending, published_by, prove_request, prove_next, new_note, body_of, inputs_for,
}
use zk_api.Client.Folding.{IsFolded, IsSigner, receive-serve, published-printed, NumbersOf}
use zk_api.Client.Requests.{prove_request-matches, prove_request_again}
use zk_api.Longjing.{LongjingRequest, Response, World}
use zk_api.Longjing.Fixtures.{
  serving, request, signal, checked, world, short_answer, some_signature,
}
use zk_api.Longjing.Endings.{
  next_of, printed_point, priced, response_of, called, usage_of, next-signed, respond-ok,
  execute-some, serve-answered,
}
use zk_api.Longjing.Serve.{published_accumulator, refund_of, remember, serve}
use zk_api.Longjing.{served}
use zk_api.EthRate.{EthRateOracle, usd_to_wei}
use zk_api.Pricing.Claude.{haiku_4_5, claude_cost_usd}
use zk_api.Signal.{bn254_scalar_field, to_string, signal_x_matches_request, payload_signal_x}

abbrev client : ClientEnv
client = record {
  sha256 = λ text. 5;
  poseidon = λ a b. a + b;
  commitment_of = λ key. key + 1;
  generators = serving.generators;
  deposit_of = λ commitment. some 1000;
  merkle_root = 255;
  c_max = 100000000000000000;
  server_key = record { x = 3; y = 4 };
  full_prove = λ inputs. record {
    wire = codes "{\"pi_a\":[]}";
    nullifier = codes "17";
    signal_y = codes "9";
    accumulator_x = codes "0";
    accumulator_y = codes "1";
  };
  verify_poseidon = λ next s key. true;
}

abbrev opening : Opening
opening = record { refunds = 5; index = 1; commitment = 8; blinding = 9 }

-- The accumulator of the opening, rerandomised by 4.
abbrev shown : Accumulator.Point
shown =
    rerandomize bn254_scalar_field serving.generators
      (commit bn254_scalar_field serving.generators opening) 4

abbrev shown_request : LongjingRequest
shown_request = record request {
  accumulator_x = to_string shown.x;
  accumulator_y = to_string shown.y;
}

abbrev pending : Pending
pending = record { rerandomizer = 4; body = shown_request }

abbrev note : Note
note = record {
  secret_key = 7;
  opening = record { refunds = 5; index = 1; blinding = 9 };
  signature = none;
  signed_by = none;
  pending = some pending;
}

note-published_by : published_by client note 4 ≡ shown
unfolding published_by
note-published_by = refl

shown-published : published_accumulator shown_request ≡ some (published_by client note 4)
shown-published = published-printed request shown ∙ ap some (sym note-published_by)

some_signature-NumbersOf : NumbersOf some_signature (record { r8x = 2; r8y = 3; s = 4 })
unfolding stored_number
some_signature-NumbersOf = (refl, refl, refl)

serving-IsSigner : IsSigner serving client
serving-IsSigner next sg e =
    let same : sg ≡ some_signature = ap (λ o. or_else o some_signature) (sym e) in
    (
      record { r8x = 2; r8y = 3; s = 4 },
      subst (λ g. NumbersOf g (record { r8x = 2; r8y = 3; s = 4 })) (sym same)
          some_signature-NumbersOf,
      refl,
    )

abbrev short_cost : ℕ
short_cost = 14000000000

abbrev priced_oracle : EthRateOracle
priced_oracle =
    (priced serving checked signal shown (called world) short_answer
      (usage_of haiku_4_5 short_answer)).1

short-priced :
    priced serving checked signal shown
      (called world)
      short_answer
      (usage_of haiku_4_5 short_answer)
    ≡ (some short_cost, priced_oracle)
unfolding usd_to_wei claude_cost_usd
short-priced = refl

abbrev next_answer : SignedAccumulator
next_answer =
    printed_point (next_of serving shown (refund_of checked.c_max short_cost)) some_signature

abbrev response : Response
response =
    response_of serving checked signal shown (called world) short_answer
      (usage_of haiku_4_5 short_answer) short_cost next_answer

abbrev after : World
after =
    remember serving checked signal (served response)
      (record (called world) { oracle = priced_oracle })

response-serve : serve serving shown_request checked signal world ≡ (ok response, after)
response-serve =
    serve-answered serving shown_request checked signal world shown short_answer
      (usage_of haiku_4_5 short_answer) (published-printed request shown)
      (execute-some serving shown_request.payload haiku_4_5 world short_answer refl)
    ∙ respond-ok serving checked signal shown (called world) short_answer
        (usage_of haiku_4_5 short_answer) short_cost priced_oracle next_answer short-priced
        (next-signed serving checked signal shown world (refund_of checked.c_max short_cost)
          some_signature refl)

receive-serve_example : IsFolded client note pending checked response
receive-serve_example =
    receive-serve client serving note pending checked signal world after response refl refl
      serving-IsSigner shown-published response-serve

abbrev young_note : Note
young_note = new_note 7

abbrev fresh_body : LongjingRequest
fresh_body =
    body_of client (codes "hi") 12 (payload_signal_x client.sha256 client.poseidon (codes "hi") 12)
      none
      (client.full_prove (
        inputs_for client young_note 1000 4
          (payload_signal_x client.sha256 client.poseidon (codes "hi") 12)))

abbrev proved_note : Note
proved_note = record young_note { pending = some (record { rerandomizer = 4; body = fresh_body }) }

young_note-prove_request :
    prove_request client young_note (codes "hi") none 12 4 ≡ ok (fresh_body, proved_note)
unfolding prove_request prove_next new_note
young_note-prove_request = refl

young_note-idle : young_note.pending ≡ none
unfolding new_note
young_note-idle = refl

prove_request-matches_test :
    (signal_x_matches_request client.sha256 client.poseidon fresh_body.signal_x fresh_body.payload
        fresh_body.nonce
      ≡ true)
    × (proved_note.pending ≡ some (record { rerandomizer = 4; body = fresh_body }))
prove_request-matches_test =
    prove_request-matches client young_note (codes "hi") none 12 4 fresh_body proved_note
      young_note-prove_request young_note-idle (omega arith)

prove_request_again_test :
    prove_request client proved_note (codes "other") none 13 5 ≡ ok (fresh_body, proved_note)
prove_request_again_test =
    prove_request_again client young_note (codes "hi") none 12 4 fresh_body proved_note
      young_note-prove_request (codes "other") none 13 5
