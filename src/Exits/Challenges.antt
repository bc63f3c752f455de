-- ===== src/Exits/Challenges.antt =====
-- What the watcher achieves: an index that an exit claims is closed, and a used one is challenged.
use zk_api.Common.{
  ℕ, ◌≡◌, refl, ap, sym, ◌∙◌, List, true, false, Option, none, some, [], ◌∷◌, ◌++◌, arith, inl, inr,
  Option-cases,
}
use zk_api.Common.Dict.{Dict, lookup, insert, lookup-insert}
use zk_api.Common.Eq.{◌===◌, text_eq, text_beq_iff}
use zk_api.Common.Text.{Text}
use zk_api.Exits.{WithdrawalInitiated, exit_signal, challenge, ingest}
use zk_api.Longjing.{LongjingRequest, Env, World}
use zk_api.Longjing.Serve.{handle_request}
use zk_api.Longjing.Server.{ServerEvent, run_server, run_server-HasRow}
use zk_api.Signal.Canonical.{canonical}
use zk_api.Longjing.Spending.{provider_call-IsPaid, check_and_set-fresh, check_and_set-used}
use zk_api.Nullifiers.{StoredSignal}
use zk_api.Signal.{bn254_scalar_field, to_string}
use zk_api.Slashing.Stored.{stored_number-to_string}
use zk_api.Slashing.{
  Point, Chain, stored_point, recover_secret_key, slash, slash_points, slash_revealed,
}

pub challenge-store :
    (chain : Chain) (exit : WithdrawalInitiated) (o : Option StoredSignal) (w : World)
    → ((challenge chain exit o w).store ≡ w.store)
      × ((challenge chain exit o w).provider_calls ≡ w.provider_calls)
challenge-store chain exit none w = (refl, refl)
challenge-store chain exit (some existing) w = ground arith

pub ingest-fresh :
    (chain : Chain) (exit : WithdrawalInitiated) (w : World)
    → lookup (to_string exit.nullifier) w.store.nullifiers ≡ none
    → ingest chain exit w ≡ record w {
      store = record w.store {
        nullifiers = insert (to_string exit.nullifier) (exit_signal exit) w.store.nullifiers;
      };
    }
unfolding ingest
ingest-fresh chain exit w h =
    rw (check_and_set-fresh (to_string exit.nullifier) (exit_signal exit) w.store h, ingest) refl

pub ingest-used :
    (chain : Chain) (exit : WithdrawalInitiated) (old : StoredSignal) (w : World)
    → lookup (to_string exit.nullifier) w.store.nullifiers ≡ some old
    → ingest chain exit w ≡ challenge chain exit (some old) w
unfolding ingest
ingest-used chain exit old w h =
    rw (check_and_set-used (to_string exit.nullifier) (exit_signal exit) old w.store h, ingest) refl

-- After an exit the nullifier has a row, and the provider was not called.
record IsClosed (n : Text) (w w' : World) : Type 0 where
  old : StoredSignal
  row : lookup n w'.store.nullifiers ≡ some old
  same_calls : w'.provider_calls ≡ w.provider_calls

inserted :
    (n : Text) (signal : StoredSignal) (m : Dict Text StoredSignal)
    → lookup n (insert n signal m) ≡ some signal
inserted n signal m = ground (arith, lookup-insert n n signal m, text_beq_iff n n)

ingest-IsClosed :
    (chain : Chain) (exit : WithdrawalInitiated) (w : World)
    → IsClosed (to_string exit.nullifier) w (ingest chain exit w)
ingest-IsClosed chain exit w =
    elim (Option-cases (lookup (to_string exit.nullifier) w.store.nullifiers)) [
      | inl fresh ↦ rw (ingest-fresh chain exit w fresh) record {
        old = exit_signal exit;
        row = inserted (to_string exit.nullifier) (exit_signal exit) w.store.nullifiers;
        same_calls = refl;
      }
      | inr (old, used) ↦
          let (same_store, same_calls) = challenge-store chain exit (some old) w in
          rw (ingest-used chain exit old w used) record {
            old = old;
            row = ap (λ s. lookup (to_string exit.nullifier) s.nullifiers) same_store ∙ used;
            same_calls = same_calls;
          }
    ]

-- A request whose nullifier has a row does not call the provider.
row_closes :
    (n : Text) (old : StoredSignal) (env : Env) (req : LongjingRequest) (w : World)
    → canonical req.nullifier ≡ some n
    → lookup n w.store.nullifiers ≡ some old
    → (handle_request env req w).1.provider_calls ≡ w.provider_calls
row_closes n old env req w named row = elim (provider_call-IsPaid env req w) [
  | inl free ↦ free
  | inr paid ↦
      let same : some paid.checked.nullifier ≡ some n = sym paid.passed.named ∙ named in
      ground (arith, same, paid.fresh, row)
]

-- Once an exit is ingested, its index is closed: after any requests, exits and cleanups, a request with the exit's
-- nullifier does not call the provider.
pub exit_closes_index :
    (chain : Chain) (exit : WithdrawalInitiated) (events : List ServerEvent) (w : World) (env : Env)
    (req : LongjingRequest)
    → canonical req.nullifier ≡ some (to_string exit.nullifier)
    → let w' = run_server events (ingest chain exit w) in
      (handle_request env req w').1.provider_calls ≡ w'.provider_calls
exit_closes_index chain exit events w env req named =
    let closed = ingest-IsClosed chain exit w in
    row_closes (to_string exit.nullifier) closed.old env req
      (run_server events (ingest chain exit w)) named
      (run_server-HasRow (to_string exit.nullifier) closed.old events (ingest chain exit w)
        closed.row)

exit_signal-stored_point :
    (exit : WithdrawalInitiated)
    → stored_point (exit_signal exit) ≡ some (record { x = exit.signal_x; y = exit.signal_y })
unfolding stored_point
exit_signal-stored_point exit =
    ground (arith, stored_number-to_string exit.signal_x, stored_number-to_string exit.signal_y)

-- An exit that claims an index which a request has used, with another signal x, is challenged: where
-- slashing is configured and a key can be computed from the two signals, one transaction with that key
-- is sent, and nothing else changes.
pub used_index_challenged :
    (chain : Chain) (exit : WithdrawalInitiated) (w : World) (old : StoredSignal) (p1 : Point)
    (k : ℕ)
    → lookup (to_string exit.nullifier) w.store.nullifiers ≡ some old
    → (old.x === to_string exit.signal_x) ≡ false
    → chain.enabled ≡ true
    → stored_point old ≡ some p1
    → recover_secret_key bn254_scalar_field p1 (record { x = exit.signal_x; y = exit.signal_y })
      ≡ some k
    → ingest chain exit w ≡ record w { sent = w.sent ++ k ∷ [] }
unfolding slash_revealed slash_points slash
used_index_challenged chain exit w old p1 k used other on e1 e3 =
    ingest-used chain exit old w used ∙ ground (arith, exit_signal-stored_point exit)
