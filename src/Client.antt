-- ===== src/Client.antt =====
-- The client's side of a note (scripts/client/note.ts): the opening of the accumulator, the proof of
-- the next request and the server's answer. The decimal strings of a note's file are numbers here. The
-- contract, the prover and EdDSA are in `ClientEnv`, and random numbers are arguments.
mod Tests
pub mod Receive
pub mod Folding
pub mod Acceptance
pub mod Requests
use zk_api.Common.{
  ℕ, ◌+◌, ◌%◌, Bool, true, false, not, ◌&&◌, Option, none, some, List, [], ◌∷◌, String, ◌==◌, ltb,
  if◌then◌else◌, or_else,
}
use zk_api.Common.Exec.{Result, ok, err}
use zk_api.Common.Text.{Text}
use zk_api.Accumulator
use zk_api.Accumulator.{Generators, Opening, commit, rerandomize, apply_refund, subgroup_order}
use zk_api.Exceptions.{Signature, SignedAccumulator}
use zk_api.Longjing.{LongjingRequest}
use zk_api.Signal.{bn254_scalar_field, to_string, payload_signal_x}
use zk_api.Slashing.{stored_number}

pub record ServerKey : Type 0 where
  pub x : ℕ
  pub y : ℕ

pub record NoteSignature : Type 0 where
  pub r8x : ℕ
  pub r8y : ℕ
  pub s : ℕ

-- The opening that the file keeps, without the commitment.
pub record NoteOpening : Type 0 where
  pub refunds : ℕ
  pub index : ℕ
  pub blinding : ℕ

pub record Pending : Type 0 where
  pub rerandomizer : ℕ
  pub body : LongjingRequest

-- `NoteFile`, without the addresses of the chain.
pub record Note : Type 0 where
  pub secret_key : ℕ
  pub opening : NoteOpening
  pub signature : Option NoteSignature
  pub signed_by : Option ServerKey
  pub pending : Option Pending

-- The inputs of the request circuit that differ from one request to the next.
pub record ProofInputs : Type 0 where
  pub secret_key : ℕ
  pub deposit : ℕ
  pub opening : NoteOpening
  pub signature : Option NoteSignature
  pub rerandomizer : ℕ
  pub merkle_root : ℕ
  pub max_cost : ℕ
  pub signal_x : ℕ
  pub server_key : ServerKey

-- The prover's answer: the proof as the client writes it, and the four outputs.
pub record Proved : Type 0 where
  pub wire : Text
  pub nullifier : Text
  pub signal_y : Text
  pub accumulator_x : Text
  pub accumulator_y : Text

-- `deposit_of` is `none` for a note that is not active; `commitment_of` is Poseidon of the key. The
-- calls of the contract answer.
pub record ClientEnv : Type 0 where
  pub sha256 : Text → ℕ
  pub poseidon : ℕ → ℕ → ℕ
  pub commitment_of : ℕ → ℕ
  pub generators : Generators
  pub deposit_of : ℕ → Option ℕ
  pub merkle_root : ℕ
  pub c_max : ℕ
  pub server_key : ServerKey
  pub full_prove : ProofInputs → Proved
  pub verify_poseidon : Accumulator.Point → NoteSignature → ServerKey → Bool

pub data NoteError : Type 0 where
  not_active no_request_pending not_a_number wrong_accumulator wrong_signature claim_too_low :
      NoteError

-- `newNote`
pub new_note : ℕ → Note
new_note secret_key = record {
  secret_key = secret_key;
  opening = record { refunds = 0; index = 0; blinding = 0 };
  signature = none;
  signed_by = none;
  pending = none;
}

module _ (env : ClientEnv) where
  -- `openingOf`
  abbrev pub opening_of : Note → Opening
  opening_of note = record {
    refunds = note.opening.refunds;
    index = note.opening.index;
    commitment = env.commitment_of note.secret_key;
    blinding = note.opening.blinding;
  }

  -- The accumulator that the note would publish with this rerandomizer.
  unfoldable pub published_by : Note → ℕ → Accumulator.Point
  published_by note rerandomizer =
      rerandomize bn254_scalar_field env.generators
        (commit bn254_scalar_field env.generators (opening_of note)) rerandomizer

  -- `...(model && { model })`: an empty model is left out.
  abbrev pub given_model : Option String → Option String
  given_model none = none
  given_model (some String.[]) = none
  given_model (some model) = some model

  -- The body of a new request, from what the prover answers.
  pub body_of :
      (payload : Text) (nonce signal_x : ℕ) (model : Option String) → Proved → LongjingRequest
  body_of payload nonce signal_x model proved = record {
    payload = payload;
    nonce = to_string nonce;
    nullifier = proved.nullifier;
    signal_x = to_string signal_x;
    signal_y = proved.signal_y;
    proof = proved.wire;
    merkle_root = to_string env.merkle_root;
    accumulator_x = proved.accumulator_x;
    accumulator_y = proved.accumulator_y;
    model = given_model model;
  }

  abbrev pub inputs_for : Note → (deposit rerandomizer signal_x : ℕ) → ProofInputs
  inputs_for note deposit rerandomizer signal_x = record {
    secret_key = note.secret_key;
    deposit = deposit;
    opening = note.opening;
    signature = note.signature;
    rerandomizer = rerandomizer;
    merkle_root = env.merkle_root;
    max_cost = env.c_max;
    signal_x = signal_x;
    server_key = env.server_key;
  }

  -- `proveRequest` for a note without a pending request.
  pub prove_next :
      Note
      → (payload : Text) (model : Option String) (nonce rerandomizer : ℕ)
      → Result NoteError (LongjingRequest × Note)
  unfolding body_of
  prove_next note payload model nonce rerandomizer =
      elim (env.deposit_of (env.commitment_of note.secret_key)) [
        | none ↦ err not_active
        | some deposit ↦
            let signal_x = payload_signal_x env.sha256 env.poseidon payload nonce in
            let body =
              body_of payload nonce signal_x model
                (env.full_prove (inputs_for note deposit rerandomizer signal_x)) in
            ok (
              body,
              record note { pending = some (record { rerandomizer = rerandomizer; body = body }) },
            )
      ]

  -- `proveRequest`
  pub prove_request :
      Note
      → (payload : Text) (model : Option String) (nonce rerandomizer : ℕ)
      → Result NoteError (LongjingRequest × Note)
  unfolding prove_next
  prove_request note payload model nonce rerandomizer = elim note.pending [
    | some p ↦ ok (p.body, note)
    | none ↦ prove_next note payload model nonce rerandomizer
  ]
