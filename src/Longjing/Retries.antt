-- ===== src/Longjing/Retries.antt =====
-- Requests whose nullifier is spent: retries of a lost response, and double spends (step 5).
use zk_api.Common.{
  ℕ, ◌+◌, ◌≡◌, ◌⊎◌, inl, inr, refl, ap, sym, ◌∙◌, true, false, none, some, List, [], ◌∷◌, All, ◌++◌,
  arith, ltb, String, if◌then◌else◌, Bool-cases, Option-cases,
}
use zk_api.Common.Dict.{Dict, lookup, insert, lookup-insert}
use zk_api.Common.Ensures.{Ensures}
use zk_api.Common.Eq.{◌===◌, text_eq, text_beq_iff}
use zk_api.Common.Exec.{Result, ok, err}
use zk_api.Common.Text.{Text}
use zk_api.Exceptions.{Exception, http, bad_gateway, internal, SignedAccumulator}
use zk_api.Longjing.{LongjingRequest, Response, Kept, served, failed, Env, World, Checked}
use zk_api.Longjing.Refunds.{IsRefunded, IsFailure, serve_refunds}
use zk_api.Longjing.Endings.{serve-unparsed}
use zk_api.Longjing.Serve.{
  published_accumulator, replay, serve, settle_used, settle, canonical_signal, handle_request,
}
use zk_api.Longjing.Spending.{serve-IsServed, settle-fresh, settle-used, handle_request_rule}
use zk_api.Longjing.Checks.{IsChecked}
use zk_api.Longjing.Server.{
  ServerEvent, CleansBefore, recorded, run_server, run_server-HasRow, run_server-HasEntry,
}
use zk_api.Nullifiers.{
  NullifierStore, StoredSignal, CachedResponse, recall_cached, recall_response, remember_response,
  response_ttl_ms,
}
use zk_api.Signal.{bn254_scalar_field}
use zk_api.Slashing.{Point, stored_point, recover_secret_key, slash, slash_points, slash_revealed}

text_beq_refl : (s : Text) → (s === s) ≡ true
text_beq_refl s = (text_beq_iff s s).1 refl

abbrev pub ten_minutes_ms : ℕ
ten_minutes_ms = 600000

-- What a retry is told: what the request was told, for ten minutes.
abbrev pub told : Env → Env → Result Exception Response → Result Exception Response
told env later result =
    if ltb later.recalled_at (env.kept_at + ten_minutes_ms)
    then result
    else err (http 403 "Nullifier already used")

abbrev entry_of : Env → StoredSignal → Kept → CachedResponse Kept
entry_of env signal kept = record {
  signal = signal;
  response = kept;
  expires_at = env.kept_at + response_ttl_ms;
}

retry_entry :
    (env later : Env) (c : Checked) (signal : StoredSignal) (kept : Kept) (w : World)
    → lookup c.nullifier w.store.responses ≡ some (entry_of env signal kept)
    → settle_used later c signal signal w ≡ (told env later (replay (some kept)), w)
unfolding settle_used recall_response recall_cached
retry_entry env later c signal kept w e =
    ground (arith, e, text_beq_refl signal.x, text_beq_refl signal.y)

inserted : {V : Type 0} (n : Text) (v : V) (m : Dict Text V) → lookup n (insert n v m) ≡ some v
inserted n v m = lookup-insert n n v m ∙ rw (text_beq_refl n) refl

module _ (env later : Env) (req again : LongjingRequest) (c c' : Checked) (signal : StoredSignal)
    (w w' : World) (events : List ServerEvent)
    (fresh : lookup c.nullifier w.store.nullifiers ≡ none)
    (same_nullifier : c'.nullifier ≡ c.nullifier)
    (cleaned_before : All (CleansBefore (env.kept_at + ten_minutes_ms)) events) where
  -- What was kept for the request is told after all these events.
  retry-told :
      (kept : Kept)
      → w'.store ≡ remember_response env.kept_at c.nullifier signal kept (recorded c signal w).store
      → settle later again c' signal (run_server events w')
        ≡ (told env later (replay (some kept)), run_server events w')
  unfolding remember_response
  retry-told kept e =
      let row : lookup c.nullifier w'.store.nullifiers ≡ some signal =
        ap (λ (s : NullifierStore Kept). lookup c.nullifier s.nullifiers) e
        ∙ inserted c.nullifier signal w.store.nullifiers in
      let entry : lookup c.nullifier w'.store.responses ≡ some (entry_of env signal kept) =
        ap (λ (s : NullifierStore Kept). lookup c.nullifier s.responses) e
        ∙ inserted c.nullifier (entry_of env signal kept) w.store.responses in
      let spent : lookup c'.nullifier (run_server events w').store.nullifiers ≡ some signal =
        rw same_nullifier (run_server-HasRow c.nullifier signal events w' row) in
      settle-used later again c' signal signal (run_server events w') spent
      ∙ retry_entry env later c' signal kept (run_server events w') (
          rw same_nullifier (
            run_server-HasEntry c.nullifier signal (entry_of env signal kept) events w' row entry
              cleaned_before))

  -- A request that was served is answered again, if a verified request with the same nullifier and signal comes
  -- less than ten minutes later: with the same response, and nothing changes; later, it is refused. In between the
  -- server may handle any requests, exits and cleanups, provided that no cleanup comes when the ten minutes are
  -- over.
  pub retry_served :
      (r : Response)
      → settle env req c signal w ≡ (ok r, w')
      → settle later again c' signal (run_server events w')
        ≡ (told env later (ok r), run_server events w')
  retry_served r e =
      let done : serve env req c signal (recorded c signal w) ≡ (ok r, w') =
        sym (settle-fresh env req c signal w fresh) ∙ e in
      let facts : Ensures (IsRefunded env req c signal (recorded c signal w))
          (IsFailure env req c signal (recorded c signal w)) (ok r, w') =
        rw done at (serve_refunds env req c signal (recorded c signal w)) in
      retry-told (served r) facts.kept

  -- A request whose provider call failed is answered again, if a verified request with the same
  -- nullifier and signal comes less than ten minutes later: with the same 502, its refund and its signed
  -- accumulator, and nothing changes; later, it is refused. The server may handle the same events in between.
  pub retry_failed :
      (m : String) (refund : Text) (a : SignedAccumulator)
      → settle env req c signal w ≡ (err (bad_gateway m refund a), w')
      → settle later again c' signal (run_server events w')
        ≡ (told env later (err (bad_gateway m refund a)), run_server events w')
  retry_failed m refund a e =
      let done : serve env req c signal (recorded c signal w) ≡ (err (bad_gateway m refund a), w') =
        sym (settle-fresh env req c signal w fresh) ∙ e in
      let facts : Ensures (IsRefunded env req c signal (recorded c signal w))
          (IsFailure env req c signal (recorded c signal w)) (err (bad_gateway m refund a), w') =
        rw done at (serve_refunds env req c signal (recorded c signal w)) in
      let (_, _, _, _, _, kept) = facts in retry-told (failed (bad_gateway m refund a)) kept

module _ (env : Env) (req : LongjingRequest) (c : Checked) (signal : StoredSignal) (w : World) where
  -- A verified request for a spent nullifier, with another signal x, is refused as a double spend. Where
  -- slashing is configured and a key can be computed from the two signals, exactly one transaction
  -- is sent, with that key; the table, the kept responses and the provider are left alone.
  pub double_spend_slashed :
      (old : StoredSignal) (p1 p2 : Point) (k : ℕ)
      → lookup c.nullifier w.store.nullifiers ≡ some old
      → (old.x === signal.x) ≡ false
      → env.chain.enabled ≡ true
      → stored_point old ≡ some p1
      → stored_point signal ≡ some p2
      → recover_secret_key bn254_scalar_field p1 p2 ≡ some k
      → settle env req c signal w ≡ (
        err (
            http 403
              "Double-spend detected. Your secret key has been extracted and you will be slashed."),
        record w { sent = w.sent ++ k ∷ [] },
      )
  unfolding settle_used slash_revealed slash_points slash
  double_spend_slashed old p1 p2 k used other on e1 e2 e3 =
      settle-used env req c signal old w used ∙ ground arith

  settle-sent :
      ((settle env req c signal w).1.sent ≡ w.sent)
      ⊎ ((old : StoredSignal) × (lookup c.nullifier w.store.nullifiers ≡ some old)
          × ((old.x === signal.x) ≡ false))
  unfolding settle_used
  settle-sent = elim (Option-cases (lookup c.nullifier w.store.nullifiers)) [
    | inl fresh ↦ inl (
        rw (settle-fresh env req c signal w fresh)
          (serve-IsServed env req c signal (recorded c signal w)).same_sent)
    | inr (old, used) ↦ elim (Bool-cases (old.x === signal.x)) [
      | inl same ↦ inl (rw (settle-used env req c signal old w used) (ground arith))
      | inr other ↦ inr (old, used, other)
    ]
  ]

-- Two different signals x for one nullifier: the first is in the table, the second is in a request that
-- passed every check.
pub record IsDoubleSpend (env : Env) (req : LongjingRequest) (w : World) : Type 0 where
  pub checked : Checked
  pub first : StoredSignal
  pub second : StoredSignal
  pub passed : IsChecked env req w checked
  pub stored : lookup checked.nullifier w.store.nullifiers ≡ some first
  pub signalled : canonical_signal req ≡ some second
  pub differ : (first.x === second.x) ≡ false

-- A request sends a slashing transaction only if it is a double spend: no retry, no failed check and
-- no first use of a nullifier ever does.
pub slashed_only_for-IsDoubleSpend :
    (env : Env) (req : LongjingRequest) (w : World)
    → ((handle_request env req w).1.sent ≡ w.sent) ⊎ IsDoubleSpend env req w
slashed_only_for-IsDoubleSpend env req w =
    handle_request_rule env req w (λ w'. (w'.sent ≡ w.sent) ⊎ IsDoubleSpend env req w)
      (λ w' same. inl same.same_sent)
      λ c signal w1 passed same e. elim (settle-sent env req c signal w1) [
        | inl kept ↦ inl (kept ∙ same.same_sent)
        | inr (old, used, other) ↦ inr (record {
          checked = c;
          first = old;
          second = signal;
          passed = passed;
          stored = ap (lookup c.nullifier) (sym same.same_nullifiers) ∙ used;
          signalled = e;
          differ = other;
        })
      ]

-- A verified request whose accumulator does not parse spends its nullifier and is then answered by an
-- error; the provider is not called and nothing is kept, so that a retry is refused.
pub unparsed_accumulator_burns :
    (env later : Env) (req again : LongjingRequest) (c : Checked) (signal : StoredSignal)
    (w : World)
    → published_accumulator req ≡ none
    → lookup c.nullifier w.store.nullifiers ≡ none
    → lookup c.nullifier w.store.responses ≡ none
    → (settle env req c signal w
        ≡ (err (internal "Cannot parse the accumulator"), recorded c signal w))
      × (settle later again c signal (recorded c signal w)
          ≡ (err (http 403 "Nullifier already used"), recorded c signal w))
unfolding settle_used recall_response recall_cached
unparsed_accumulator_burns env later req again c signal w bad fresh nothing = (
  settle-fresh env req c signal w fresh ∙ serve-unparsed env req c signal (recorded c signal w) bad,
  settle-used later again c signal signal (recorded c signal w)
        (inserted c.nullifier signal w.store.nullifiers)
      ∙ ground (arith, text_beq_refl signal.x),
)
