-- ===== src/Longjing/Server.antt =====
-- The server as it runs on: requests, exits and cleanups after one another (handleRequest of
-- src/longjing/longjing.service.ts, ingest of exit-watcher.service.ts, and the timer of
-- nullifier-store.service.ts). What was recorded of a nullifier stays.
use zk_api.Common.{
  ℕ, ◌<◌, ◌≡◌, refl, ap, ◌∙◌, false, some, List, [], ◌∷◌, arith, inl, inr, Option-cases, All,
}
use zk_api.Common.Dict.{Dict, lookup, insert, lookup-insert}
use zk_api.Common.Ensures.{Ensures}
use zk_api.Common.Eq.{◌===◌, text_eq, text_beq_iff}
use zk_api.Common.Exec.{Result, ok, err}
use zk_api.Common.Text.{Text}
use zk_api.Exceptions.{Exception, http, bad_gateway, internal}
use zk_api.Exits.{WithdrawalInitiated, exit_signal, ingest}
use zk_api.Longjing.{LongjingRequest, Response, Kept, Env, World, Checked}
use zk_api.Longjing.Refunds.{IsRefunded, IsFailure, serve_refunds}
use zk_api.Longjing.Serve.{serve, settle, handle_request}
use zk_api.Longjing.Spending.{
  settle-fresh, settle-used, settle_used-keeps, serve-IsServed, handle_request_rule,
}
use zk_api.Nullifiers.{
  NullifierStore, StoredSignal, CachedResponse, get, check_and_set, remember_response,
  cleanup_responses, cleanup_rate_limit_map,
}
use zk_api.Nullifiers.Responses.{live_responses_keep}
use zk_api.Signal.{to_string}
use zk_api.Slashing.{Chain}

-- A request, an exit that is ingested, or a tick of the timer that cleans up.
pub data ServerEvent : Type 0 where
  requested : Env → LongjingRequest → ServerEvent
  exit_seen : Chain → WithdrawalInitiated → ServerEvent
  cleaned : ℕ → ServerEvent

-- The state in which step 5 leaves a fresh nullifier.
abbrev pub recorded : Checked → StoredSignal → World → World
recorded c signal w = record w {
  store = record w.store { nullifiers = insert c.nullifier signal w.store.nullifiers };
}

pub apply_event : ServerEvent → World → World
apply_event (requested env req) w = (handle_request env req w).1
apply_event (exit_seen chain exit) w = ingest chain exit w
apply_event (cleaned now) w = record w {
  store = cleanup_responses now (cleanup_rate_limit_map now w.store);
}

unfoldable pub run_server : List ServerEvent → World → World
unfolding apply_event
run_server [] w = w
run_server (e ∷ es) w = run_server es (apply_event e w)

-- A cleanup comes before this time.
abbrev pub CleansBefore : ℕ → ServerEvent → Type 0
CleansBefore t (requested env req) = Unit
CleansBefore t (exit_seen chain exit) = Unit
CleansBefore t (cleaned now) = now < t

insert_other :
    {V : Type 0} (m n : Text) (v : V) (d : Dict Text V)
    → (m === n) ≡ false
    → lookup n (insert m v d) ≡ lookup n d
insert_other m n v d h = lookup-insert m n v d ∙ rw (h) refl

remember-other :
    (now : ℕ) (m n : Text) (signal : StoredSignal) (kept : Kept) (s s' : NullifierStore Kept)
    → (m === n) ≡ false
    → s' ≡ remember_response now m signal kept s
    → lookup n s'.responses ≡ lookup n s.responses
unfolding remember_response
remember-other now m n signal kept s s' h e =
    ap (λ (t : NullifierStore Kept). lookup n t.responses) e ∙ insert_other m n _ s.responses h

-- What is recorded under a nullifier: its signal, and the response that is kept, if there is one.
module _ (n : Text) (signal : StoredSignal) where
  abbrev pub HasRow : World → Type 0
  HasRow w = lookup n w.store.nullifiers ≡ some signal

  abbrev KeepsEntry : (w w' : World) → Type 0
  KeepsEntry w w' = HasRow w' × (lookup n w'.store.responses ≡ lookup n w.store.responses)

  serve-responses :
      (env : Env) (req : LongjingRequest) (c : Checked) (other : StoredSignal) (w : World)
      (p : Result Exception Response × World)
      → (c.nullifier === n) ≡ false
      → Ensures (IsRefunded env req c other w) (IsFailure env req c other w) p
      → lookup n p.1.store.responses ≡ lookup n w.store.responses
  serve-responses env req c other w (ok r, w') differ facts =
      remember-other env.kept_at c.nullifier n other _ w.store w'.store differ facts.kept
  serve-responses env req c other w (err (http status m), w') differ same =
      ap (λ (t : NullifierStore Kept). lookup n t.responses) same
  serve-responses env req c other w (err (internal m), w') differ same =
      ap (λ (t : NullifierStore Kept). lookup n t.responses) same
  serve-responses env req c other w (err (bad_gateway m refund a), w') differ facts =
      let (_, _, _, _, _, kept) = facts in
      remember-other env.kept_at c.nullifier n other _ w.store w'.store differ kept

  settle-KeepsEntry :
      (env : Env) (req : LongjingRequest) (c : Checked) (other : StoredSignal) (w : World)
      → HasRow w
      → KeepsEntry w (settle env req c other w).1
  settle-KeepsEntry env req c other w row =
      elim (Option-cases (lookup c.nullifier w.store.nullifiers)) [
        | inr (old, used) ↦ rw (settle-used env req c other old w used) (
            let store = (settle_used-keeps env c old other w).0 in
            (
              ap (λ (t : NullifierStore Kept). lookup n t.nullifiers) store ∙ row,
              ap (λ (t : NullifierStore Kept). lookup n t.responses) store,
            ))
        | inl fresh ↦
            let differ : (c.nullifier === n) ≡ false =
              ground (arith, fresh, row, text_beq_iff c.nullifier n) in
            let w1 = recorded c other w in
            rw (settle-fresh env req c other w fresh) (
              ap (lookup n) (serve-IsServed env req c other w1).same_nullifiers
                  ∙ insert_other c.nullifier n other w.store.nullifiers differ
                  ∙ row,
              serve-responses env req c other w1 (serve env req c other w1) differ
                  (serve_refunds env req c other w1),
            )
      ]

  handle_request-KeepsEntry :
      (env : Env) (req : LongjingRequest) (w : World)
      → HasRow w
      → KeepsEntry w (handle_request env req w).1
  handle_request-KeepsEntry env req w row =
      handle_request_rule env req w (KeepsEntry w)
        (λ w' same. (ap (lookup n) same.same_nullifiers ∙ row, ap (lookup n) same.same_responses))
        λ c other w1 passed same e.
          let row1 = ap (lookup n) same.same_nullifiers ∙ row in
          let (row2, responses) = settle-KeepsEntry env req c other w1 row1 in
          (row2, responses ∙ ap (lookup n) same.same_responses)

  ingest-KeepsEntry :
      (chain : Chain) (exit : WithdrawalInitiated) (w : World)
      → HasRow w
      → KeepsEntry w (ingest chain exit w)
  unfolding ingest check_and_set get
  ingest-KeepsEntry chain exit w row = ground (
    arith,
    insert_other (to_string exit.nullifier) n (exit_signal exit) w.store.nullifiers,
    text_beq_iff (to_string exit.nullifier) n,
  )

  apply_event-HasRow : (e : ServerEvent) (w : World) → HasRow w → HasRow (apply_event e w)
  unfolding apply_event cleanup_responses cleanup_rate_limit_map
  apply_event-HasRow (requested env req) w row = (handle_request-KeepsEntry env req w row).0
  apply_event-HasRow (exit_seen chain exit) w row = (ingest-KeepsEntry chain exit w row).0
  apply_event-HasRow (cleaned now) w row = row

  -- A row of the table stays, whatever the server handles.
  pub run_server-HasRow : (es : List ServerEvent) (w : World) → HasRow w → HasRow (run_server es w)
  unfolding run_server
  run_server-HasRow [] w row = row
  run_server-HasRow (e ∷ es) w row =
      run_server-HasRow es (apply_event e w) (apply_event-HasRow e w row)

  module _ (entry : CachedResponse Kept) where
    abbrev pub HasEntry : World → Type 0
    HasEntry w = lookup n w.store.responses ≡ some entry

    apply_event-HasEntry :
        (e : ServerEvent) (w : World)
        → HasRow w
        → HasEntry w
        → CleansBefore entry.expires_at e
        → HasEntry (apply_event e w)
    unfolding apply_event cleanup_responses cleanup_rate_limit_map
    apply_event-HasEntry (requested env req) w row kept b =
        (handle_request-KeepsEntry env req w row).1 ∙ kept
    apply_event-HasEntry (exit_seen chain exit) w row kept b =
        (ingest-KeepsEntry chain exit w row).1 ∙ kept
    apply_event-HasEntry (cleaned now) w row kept b =
        live_responses_keep now n entry w.store.responses b kept

    -- The response that is kept stays until it expires, whatever the server handles.
    pub run_server-HasEntry :
        (es : List ServerEvent) (w : World)
        → HasRow w
        → HasEntry w
        → All (CleansBefore entry.expires_at) es
        → HasEntry (run_server es w)
    unfolding run_server
    run_server-HasEntry [] w row kept b = kept
    run_server-HasEntry (e ∷ es) w row kept b =
        run_server-HasEntry es (apply_event e w) (apply_event-HasRow e w row)
          (apply_event-HasEntry e w row kept b.0) b.1
