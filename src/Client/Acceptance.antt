-- ===== src/Client/Acceptance.antt =====
-- What an accepted answer guarantees to the note (receive of scripts/client/note.ts).
use zk_api.Accumulator
use zk_api.Accumulator.{add_points, mul_point, commit, rerandomize, apply_refund, subgroup_order}
use zk_api.Signal.{bn254_scalar_field}
use zk_api.Slashing.{stored_number}
use zk_api.Common.{◌+◌, ◌%◌, ℕ, ◌≡◌, refl, true, none, some}
use zk_api.Client.{ClientEnv, Note, NoteSignature, Pending, published_by}
use zk_api.Client.Receive.{RequestResponse, ReadAnswer, expected_next, folded}

-- The accumulator that the note's opening, the rerandomizer and a refund give: the commitment to the opening,
-- rerandomized, with the refund times G and one J added.
abbrev pub next_for : ClientEnv → Note → (rerandomizer refund : ℕ) → Accumulator.Point
next_for client note rerandomizer refund =
    let gs = client.generators in
    let add = add_points bn254_scalar_field in
    let mul = mul_point bn254_scalar_field in
    let refunds = mul gs.g note.opening.refunds in
    let spent = add refunds (mul gs.j note.opening.index) in
    let owned = add spent (mul gs.k (client.commitment_of note.secret_key)) in
    let committed = add owned (mul gs.h note.opening.blinding) in
    let published = add committed (mul gs.h rerandomizer) in
    add (add published (mul gs.g refund)) gs.j

-- A note into which a refund is folded.
pub record IsAfterRefund (client : ClientEnv) (note : Note) (rerandomizer refund : ℕ)
    (signature : NoteSignature) (note' : Note) : Type 0 where
  pub same_secret_key : note'.secret_key ≡ note.secret_key
  pub refunds : note'.opening.refunds ≡ note.opening.refunds + refund
  pub index : note'.opening.index ≡ note.opening.index + 1
  pub blinding : note'.opening.blinding ≡ (note.opening.blinding + rerandomizer) % subgroup_order
  pub signed : note'.signature ≡ some signature
  pub signed_by : note'.signed_by ≡ some client.server_key
  pub nothing_pending : note'.pending ≡ none

pub folded-IsAfterRefund :
    (client : ClientEnv) (note : Note) (rerandomizer refund : ℕ) (signature : NoteSignature)
    → IsAfterRefund client note rerandomizer refund signature
        (folded client note rerandomizer refund signature)
unfolding folded
folded-IsAfterRefund client note rerandomizer refund signature = record {
  same_secret_key = refl;
  refunds = refl;
  index = refl;
  blinding = refl;
  signed = refl;
  signed_by = refl;
  nothing_pending = refl;
}

-- The numbers that an answer is written with.
pub record IsReadAs (r : RequestResponse) (answer : ReadAnswer) (signature : NoteSignature)
    : Type 0 where
  pub refund : stored_number r.refund ≡ some answer.refund
  pub x : stored_number r.accumulator.x ≡ some answer.received.x
  pub y : stored_number r.accumulator.y ≡ some answer.received.y
  pub r8x : stored_number r.accumulator.signature.r8x ≡ some signature.r8x
  pub r8y : stored_number r.accumulator.signature.r8y ≡ some signature.r8y
  pub s : stored_number r.accumulator.signature.s ≡ some signature.s

pub expected_next-next_for :
    (client : ClientEnv) (note : Note) (rerandomizer refund : ℕ)
    → expected_next client note rerandomizer refund ≡ next_for client note rerandomizer refund
unfolding expected_next published_by commit rerandomize apply_refund
expected_next-next_for client note rerandomizer refund = refl

-- What stands behind an accepted answer.
pub record IsAccepted (client : ClientEnv) (note : Note) (r : RequestResponse) (note' : Note)
    : Type 0 where
  pub pending : Pending
  pub answer : ReadAnswer
  pub was_pending : note.pending ≡ some pending
  pub signature : NoteSignature
  pub read : IsReadAs r answer signature
  pub adds_up : answer.received ≡ next_for client note pending.rerandomizer answer.refund
  pub valid : client.verify_poseidon answer.received signature client.server_key ≡ true
  pub folds : IsAfterRefund client note pending.rerandomizer answer.refund signature note'
