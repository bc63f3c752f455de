-- ===== src/Client/Folding.antt =====
-- The note and the server together: what the server answers, the client folds into its opening.
use zk_api.Common.{ℕ, ◌≤◌, ◌≡◌, refl, ap, sym, ◌∙◌, true, some, arith, inl, inr, Option-cases}
use zk_api.Common.Ensures.{Ensures}
use zk_api.Common.Exec.{ok}
use zk_api.Common.Text.{Text}
use zk_api.Accumulator
use zk_api.Accumulator.{subgroup_order, apply_refund}
use zk_api.Client.{ClientEnv, Note, NoteSignature, Pending, published_by}
use zk_api.Client.Receive.{
  RequestResponse, ReadAnswer, read_answer, read_signed, receive_signed, expected_next, folded,
  receive_read, receive,
}
use zk_api.Client.Acceptance.{next_for, IsAfterRefund, folded-IsAfterRefund, expected_next-next_for}
use zk_api.Exceptions.{Signature, SignedAccumulator}
use zk_api.Longjing.{LongjingRequest, Response, Env, World, Checked, next_accumulator}
use zk_api.Longjing.Refunds.{IsRefunded, IsFailure, serve_refunds}
use zk_api.Longjing.Endings.{next_of, printed_point, next-signed, next-unsigned}
use zk_api.Longjing.Serve.{published_accumulator, serve}
use zk_api.Nullifiers.{StoredSignal}
use zk_api.Signal.{bn254_scalar_field, to_string}
use zk_api.Signal.Canonical.{parse_field_element-to_string}
use zk_api.Slashing.Stored.{stored_number-to_string}
use zk_api.Slashing.{stored_number}

abbrev pub NumbersOf : Signature → NoteSignature → Type 0
NumbersOf sg s =
    (stored_number sg.r8x ≡ some s.r8x)
    × (stored_number sg.r8y ≡ some s.r8y)
    × (stored_number sg.s ≡ some s.s)

-- EdDSA, as far as the protocol relies on it: what the server signs is accepted under the key that is
-- registered onchain, and its signature is written in decimal.
abbrev pub IsSigner : Env → ClientEnv → Type 0
IsSigner env client =
    (next : Accumulator.Point) (sg : Signature)
    → env.sign next ≡ some sg
    → (s : NoteSignature) × NumbersOf sg s
      × (client.verify_poseidon next s client.server_key ≡ true)

next_accumulator-ok :
    (env : Env) (c : Checked) (signal : StoredSignal) (w : World) (published : Accumulator.Point)
    (v : ℕ) (a : SignedAccumulator)
    → next_accumulator env published v ≡ ok a
    → (sg : Signature) × (env.sign (next_of env published v) ≡ some sg)
      × (a ≡ printed_point (next_of env published v) sg)
next_accumulator-ok env c signal w published v a e =
    elim (Option-cases (env.sign (next_of env published v))) [
      | inl unsigned ↦ cc (e, next-unsigned env c signal published w v unsigned)
      | inr (sg, es) ↦ (sg, es, cc (e, next-signed env c signal published w v sg es))
    ]

read_printed :
    (v : ℕ) (p : Accumulator.Point) (sg : Signature)
    → read_answer (record { refund = to_string v; accumulator = printed_point p sg })
      ≡ some (record { refund = v; received = p })
unfolding read_answer
read_printed v p sg =
    rw (stored_number-to_string v, stored_number-to_string p.x, stored_number-to_string p.y) refl

read_signed-numbers :
    (t : Text) (p : Accumulator.Point) (sg : Signature) (s : NoteSignature)
    → NumbersOf sg s
    → read_signed (record { refund = t; accumulator = printed_point p sg }) ≡ some s
unfolding read_signed
read_signed-numbers t p sg s (e1, e2, e3) = rw (e1, e2, e3) refl

receive_read-expected :
    (client : ClientEnv) (note : Note) (rerandomizer v : ℕ) (p : Accumulator.Point)
    (s : NoteSignature)
    → expected_next client note rerandomizer v ≡ p
    → client.verify_poseidon p s client.server_key ≡ true
    → receive_read client note rerandomizer (some (record { refund = v; received = p })) (some s)
      ≡ ok (folded client note rerandomizer v s)
unfolding receive_read receive_signed
receive_read-expected client note rerandomizer v p s e h = ground arith

-- What the client reads from a response: `RequestResponse` names two of its members.
abbrev pub answer_of : Response → RequestResponse
answer_of r = record { refund = r.refund; accumulator = r.accumulator }

-- What a client has after a served request: the refund that the response states, within C_MAX, is folded into
-- its opening, and the response's accumulator is the one of the note's opening and this refund.
pub record IsFolded (client : ClientEnv) (note : Note) (p : Pending) (c : Checked) (r : Response)
    : Type 0 where
  pub refund : ℕ
  pub signature : NoteSignature
  pub note_after : Note
  pub received : receive client note (answer_of r) ≡ ok note_after
  pub folds : IsAfterRefund client note p.rerandomizer refund signature note_after
  pub stated : r.refund ≡ to_string refund
  pub x : r.accumulator.x ≡ to_string (next_for client note p.rerandomizer refund).x
  pub y : r.accumulator.y ≡ to_string (next_for client note p.rerandomizer refund).y
  pub within : refund ≤ c.c_max

receive-pending :
    (client : ClientEnv) (note : Note) (p : Pending) (r : RequestResponse) (a : ReadAnswer)
    (s : NoteSignature)
    → note.pending ≡ some p
    → read_answer r ≡ some a
    → read_signed r ≡ some s
    → receive client note r ≡ receive_read client note p.rerandomizer (some a) (some s)
unfolding receive
receive-pending client note p r a s e1 e2 e3 = rw (e1, e2, e3) refl

module _ (client : ClientEnv) (env : Env) (note : Note) (p : Pending) (c : Checked)
    (signal : StoredSignal) (w w' : World) (r : Response) where
  pub folded_from :
      note.pending ≡ some p
      → env.generators ≡ client.generators
      → IsSigner env client
      → published_accumulator p.body ≡ some (published_by client note p.rerandomizer)
      → IsRefunded env p.body c signal w r w'
      → IsFolded client note p c r
  unfolding expected_next
  folded_from pending same signer published facts =
      let at_note : facts.published ≡ published_by client note p.rerandomizer =
        cc (facts.parsed, published) in
      let (sg, es, ea) =
        next_accumulator-ok env c signal w facts.published facts.refund r.accumulator
          facts.advanced in
      let next = next_of env facts.published facts.refund in
      let (s, numbers, valid) = signer next sg es in
      let read : read_answer (answer_of r)
          ≡ some (record { refund = facts.refund; received = next }) =
        ap (λ (t : Text). read_answer (record { refund = t; accumulator = r.accumulator }))
          facts.printed
        ∙ ap
            (λ (a : SignedAccumulator).
              read_answer (record { refund = to_string facts.refund; accumulator = a }))
            ea
        ∙ read_printed facts.refund next sg in
      let signed : read_signed (answer_of r) ≡ some s =
        ap (λ (a : SignedAccumulator). read_signed (record { refund = r.refund; accumulator = a }))
          ea
        ∙ read_signed-numbers r.refund next sg s numbers in
      let expected : expected_next client note p.rerandomizer facts.refund ≡ next =
        ap
          (λ g.
            apply_refund bn254_scalar_field g (published_by client note p.rerandomizer)
              facts.refund)
          (sym same)
        ∙ ap (λ q. apply_refund bn254_scalar_field env.generators q facts.refund) (sym at_note) in
      let at_next = expected_next-next_for client note p.rerandomizer facts.refund in
      record {
        refund = facts.refund;
        signature = s;
        received =
            receive-pending client note p (answer_of r) _ s pending read signed
            ∙ receive_read-expected client note p.rerandomizer facts.refund next s expected valid;
        note_after = folded client note p.rerandomizer facts.refund s;
        folds = folded-IsAfterRefund client note p.rerandomizer facts.refund s;
        stated = facts.printed;
        x =
            ap (λ (a : SignedAccumulator). a.x) ea
            ∙ ap (λ q. to_string q.x) (sym expected ∙ at_next);
        y =
            ap (λ (a : SignedAccumulator). a.y) ea
            ∙ ap (λ q. to_string q.y) (sym expected ∙ at_next);
        within = omega (arith, facts.balanced);
      }

  -- A response that the server gives to a note's pending request is accepted by the note: if the request
  -- publishes the accumulator of the note's opening and rerandomizer, as its proof shows, the two sides
  -- have the same generators, and what the server signs is valid under the registered key, then
  -- `receive` returns the note with the refund that the response states, of at most C_MAX, added, the index
  -- advanced by one, the rerandomizer added to the blinding, and no pending request. The accumulator of the
  -- response is the commitment to the note's opening, rerandomized, with this refund times G and one J added.
  pub receive-serve :
      note.pending ≡ some p
      → env.generators ≡ client.generators
      → IsSigner env client
      → published_accumulator p.body ≡ some (published_by client note p.rerandomizer)
      → serve env p.body c signal w ≡ (ok r, w')
      → IsFolded client note p c r
  receive-serve pending same signer published e =
      let facts : Ensures (IsRefunded env p.body c signal w) (IsFailure env p.body c signal w)
          (ok r, w') =
        rw e at (serve_refunds env p.body c signal w) in
      folded_from pending same signer published facts

-- A printed accumulator is parsed back by the server.
pub published-printed :
    (req : LongjingRequest) (q : Accumulator.Point)
    → published_accumulator
        (record req { accumulator_x = to_string q.x; accumulator_y = to_string q.y })
      ≡ some q
published-printed req q =
    ground (arith, parse_field_element-to_string q.x, parse_field_element-to_string q.y)
