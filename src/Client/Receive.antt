-- ===== src/Client/Receive.antt =====
-- The server's answer and the exit of a note (receive and proveWithdrawal of scripts/client/note.ts).
use zk_api.Common.{ℕ, ◌+◌, ◌%◌, Bool, ◌&&◌, Option, none, some, ◌==◌, ltb, if◌then◌else◌}
use zk_api.Common.Exec.{Result, ok, err}
use zk_api.Common.Text.{Text}
use zk_api.Accumulator
use zk_api.Accumulator.{apply_refund, subgroup_order}
use zk_api.Client.{
  ClientEnv, Note, NoteSignature, ServerKey, NoteError, not_active, no_request_pending,
  not_a_number, wrong_accumulator, wrong_signature, claim_too_low, published_by,
}
use zk_api.Exceptions.{SignedAccumulator}
use zk_api.Signal.{bn254_scalar_field}
use zk_api.Slashing.{stored_number}

-- `RequestResponse`
pub record RequestResponse : Type 0 where
  pub refund : Text
  pub accumulator : SignedAccumulator

-- The numbers of an answer, without its signature.
pub record ReadAnswer : Type 0 where
  pub refund : ℕ
  pub received : Accumulator.Point

abbrev read_signature : Option ℕ → Option ℕ → Option ℕ → Option NoteSignature
read_signature (some r8x) (some r8y) (some s) = some (record { r8x = r8x; r8y = r8y; s = s })
read_signature _ _ _ = none

abbrev read_fields : Option ℕ → Option ℕ → Option ℕ → Option ReadAnswer
read_fields (some v) (some x) (some y) =
    some (record { refund = v; received = record { x = x; y = y } })
read_fields _ _ _ = none

-- The calls of `BigInt` on an answer; the server prints decimal numbers, and any other text is an error
-- here.
unfoldable pub read_answer : RequestResponse → Option ReadAnswer
unfolding stored_number
read_answer r =
    read_fields (stored_number r.refund) (stored_number r.accumulator.x)
      (stored_number r.accumulator.y)

-- Those on its signature, which come later.
unfoldable pub read_signed : RequestResponse → Option NoteSignature
unfolding stored_number
read_signed r =
    read_signature (stored_number r.accumulator.signature.r8x)
      (stored_number r.accumulator.signature.r8y) (stored_number r.accumulator.signature.s)

-- `expected.join() === received.join()`
abbrev pub same_point : Accumulator.Point → Accumulator.Point → Bool
same_point a b = a.x == b.x && a.y == b.y

module _ (env : ClientEnv) where
  -- The accumulator that a refund must give.
  unfoldable pub expected_next : Note → (rerandomizer refund : ℕ) → Accumulator.Point
  expected_next note rerandomizer refund =
      apply_refund bn254_scalar_field env.generators (published_by env note rerandomizer) refund

  -- The note after an accepted answer.
  unfoldable pub folded : Note → (rerandomizer refund : ℕ) → NoteSignature → Note
  folded note rerandomizer refund signature = record note {
    opening = record {
      refunds = note.opening.refunds + refund;
      index = note.opening.index + 1;
      blinding = (note.opening.blinding + rerandomizer) % subgroup_order;
    };
    signature = some signature;
    signed_by = some env.server_key;
    pending = none;
  }

  -- The end of `receive`, from the signature.
  unfoldable pub receive_signed :
      Note → ℕ → ReadAnswer → Option NoteSignature → Result NoteError Note
  unfolding folded
  receive_signed note rerandomizer a none = err not_a_number
  receive_signed note rerandomizer a (some s) =
      if env.verify_poseidon a.received s env.server_key
      then ok (folded note rerandomizer a.refund s)
      else err wrong_signature

  -- `receive`, once the answer's numbers are read.
  unfoldable pub receive_read :
      Note → ℕ → Option ReadAnswer → Option NoteSignature → Result NoteError Note
  unfolding expected_next receive_signed
  receive_read note rerandomizer none signature = err not_a_number
  receive_read note rerandomizer (some a) signature =
      if same_point (expected_next note rerandomizer a.refund) a.received
      then receive_signed note rerandomizer a signature
      else err wrong_accumulator

  -- `receive`
  unfoldable pub receive : Note → RequestResponse → Result NoteError Note
  unfolding receive_read read_answer read_signed
  receive note response = elim note.pending [
    | none ↦ err no_request_pending
    | some p ↦ receive_read note p.rerandomizer (read_answer response) (read_signed response)
  ]

  abbrev pub used_indices : Note → ℕ
  used_indices note = note.opening.index + (elim note.pending [ none ↦ 0 | some p ↦ 1 ])

  abbrev pub claim_of : Note → Option ℕ → ℕ
  claim_of note none = used_indices note
  claim_of note (some n) = n

  -- The guards of `proveWithdrawal`: the index that is claimed, and the key that the proof is for.
  unfoldable pub withdrawal_claim : Note → Option ℕ → Result NoteError (ℕ × ServerKey)
  withdrawal_claim note claimed = elim (env.deposit_of (env.commitment_of note.secret_key)) [
    | none ↦ err not_active
    | some deposit ↦
        if ltb (claim_of note claimed) note.opening.index
        then err claim_too_low
        else ok
            (claim_of note claimed, elim note.signed_by [ none ↦ env.server_key | some key ↦ key ])
  ]
