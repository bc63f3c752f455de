-- ===== src/Client/Requests.antt =====
-- What a note sends: the signal of a new request, and the same body for a retry (proveRequest).
use zk_api.Common.{
  ℕ, ◌<◌, ◌≡◌, ◌⊎◌, ◌∙◌, ap, sym, refl, true, Option, none, some, arith, inl, inr, Option-cases,
  String,
}
use zk_api.Common.Exec.{ok}
use zk_api.Common.Text.{Text}
use zk_api.Client.{ClientEnv, Note, Pending, body_of, inputs_for, Proved, prove_next, prove_request}
use zk_api.Longjing.{LongjingRequest}
use zk_api.Signal.{bn254_scalar_field, payload_signal_x, check_signal, signal_x_matches_request}
use zk_api.Signal.Canonical.{parse_field_element-to_string}

module _ (client : ClientEnv) where
  body_of-matches :
      (payload : Text) (nonce : ℕ) (model : Option String) (proved : Proved)
      → nonce < bn254_scalar_field
      → let body =
          body_of client payload nonce
            (payload_signal_x client.sha256 client.poseidon payload nonce)
            model
            proved in
        signal_x_matches_request client.sha256 client.poseidon body.signal_x body.payload body.nonce
        ≡ true
  unfolding body_of signal_x_matches_request check_signal
  body_of-matches payload nonce model proved h =
      rw
        (
          parse_field_element-to_string nonce,
          parse_field_element-to_string
              (payload_signal_x client.sha256 client.poseidon payload nonce),
        )
        (ground arith)

  prove_request-pending :
      (note : Note) (p : Pending) (payload : Text) (model : Option String) (nonce rerandomizer : ℕ)
      → note.pending ≡ some p
      → prove_request client note payload model nonce rerandomizer ≡ ok (p.body, note)
  unfolding prove_request
  prove_request-pending note p payload model nonce rerandomizer h = ground arith

  module _ (note : Note) (payload : Text) (model : Option String) (nonce rerandomizer : ℕ)
      (body : LongjingRequest) (note' : Note)
      (e : prove_request client note payload model nonce rerandomizer ≡ ok (body, note')) where
    abbrev new_body : ℕ → LongjingRequest
    new_body deposit =
        let signal_x = payload_signal_x client.sha256 client.poseidon payload nonce in
        body_of client payload nonce signal_x model
          (client.full_prove (inputs_for client note deposit rerandomizer signal_x))

    cases_of :
        ((p : Pending) × (note.pending ≡ some p) × (body ≡ p.body) × (note' ≡ note))
        ⊎ ((note.pending ≡ none)
            × ((deposit : ℕ) × (body ≡ new_body deposit)
                × (note' ≡ record note {
                  pending = some (record { rerandomizer = rerandomizer; body = body });
                })))
    unfolding prove_request prove_next
    cases_of = elim (Option-cases note.pending) [
      | inr (p, pending) ↦ inl (p, pending, ground arith, ground arith)
      | inl idle ↦ elim (Option-cases (client.deposit_of (client.commitment_of note.secret_key))) [
        | inl inactive ↦ ground arith
        | inr (deposit, active) ↦ inr (idle, (deposit, ground arith, ground arith))
      ]
    ]

    -- A request that a note without a pending one proves carries a signal x that the server's check
    -- accepts for its payload and nonce, with the same hash functions and a nonce in the field; and it
    -- is pending afterwards.
    pub prove_request-matches :
        note.pending ≡ none
        → nonce < bn254_scalar_field
        → (signal_x_matches_request client.sha256 client.poseidon body.signal_x body.payload
              body.nonce
            ≡ true)
          × (note'.pending ≡ some (record { rerandomizer = rerandomizer; body = body }))
    prove_request-matches idle h = elim cases_of [
      | inl (p, pending, same_body, same_note) ↦ cc
      | inr (none_pending, (deposit, new, next)) ↦
          (rw new (body_of-matches payload nonce model _ h), rw next refl)
    ]

    -- Until an answer is received, every later call returns the same body, whatever it is asked to
    -- prove, and the same note.
    pub prove_request_again :
        (payload' : Text) (model' : Option String) (nonce' rerandomizer' : ℕ)
        → prove_request client note' payload' model' nonce' rerandomizer' ≡ ok (body, note')
    prove_request_again payload' model' nonce' rerandomizer' = elim cases_of [
      | inl (p, pending, same_body, same_note) ↦
          prove_request-pending note' p payload' model' nonce' rerandomizer' (rw same_note pending)
          ∙ ap (λ b. ok (b, note')) (sym same_body)
      | inr (none_pending, (deposit, new, next)) ↦
          prove_request-pending note' (record { rerandomizer = rerandomizer; body = body }) payload'
            model' nonce' rerandomizer' (ap (λ n. n.pending) next)
    ]
