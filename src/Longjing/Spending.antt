-- ===== src/Longjing/Spending.antt =====
-- A provider call costs a nullifier, over one request and over any sequence of requests.
use zk_api.Common.{
  ◌+◌, ◌≤◌, ◌≡◌, ◌⊎◌, inl, inr, refl, none, some, List, [], ◌∷◌, arith, length, Option-cases, ◌∙◌,
  ap,
}
use zk_api.Common.Dict.{lookup, insert}
use zk_api.Common.Ensures.{
  Ensures, Ensures-bind, Ensures-or_throw, ensures_state, Ensures-always, ◌>>=◌,
}
use zk_api.Common.Eq.{text_eq}
use zk_api.Common.Exec.{Result, ok, err, or_throw}
use zk_api.Common.Text.{Text}
use zk_api.Exceptions.{Exception, internal}
use zk_api.Longjing.{
  LongjingRequest, Env, World, Checked, check_request, execute_claude_request,
  calculate_cost_in_eth, next_accumulator,
}
use zk_api.Longjing.Checks.{IsUnconsumed, IsChecked, check_request-Ensures}
use zk_api.Longjing.Serve.{
  canonical_signal, refund_everything, respond, serve, settle_used, settle, handle_request,
}
use zk_api.Nullifiers.Spent.{insert_new}
use zk_api.Nullifiers.{NullifierStore, StoredSignal, get, check_and_set, remember_response}

-- The table and the transactions are as they were, and the provider was called at most once.
pub record IsServed (w w' : World) : Type 0 where
  pub same_nullifiers : w'.store.nullifiers ≡ w.store.nullifiers
  pub same_sent : w'.sent ≡ w.sent
  pub calls : (w'.provider_calls ≡ w.provider_calls) ⊎ (w'.provider_calls ≡ w.provider_calls + 1)

pub serve-IsServed :
    (env : Env) (req : LongjingRequest) (c : Checked) (signal : StoredSignal) (w : World)
    → IsServed w (serve env req c signal w).1
unfolding serve execute_claude_request refund_everything respond calculate_cost_in_eth
    next_accumulator remember_response ◌>>=◌
serve-IsServed env req c signal w = ground arith

-- What was paid for a call of the provider.
pub record IsPaid (env : Env) (req : LongjingRequest) (w w' : World) : Type 0 where
  pub checked : Checked
  pub signal : StoredSignal
  pub passed : IsChecked env req w checked
  pub signalled : canonical_signal req ≡ some signal
  pub fresh : lookup checked.nullifier w.store.nullifiers ≡ none
  pub spent : w'.store.nullifiers ≡ insert checked.nullifier signal w.store.nullifiers
  pub once : w'.provider_calls ≡ w.provider_calls + 1

pub check_and_set-fresh :
    {T : Type 0} (n : Text) (signal : StoredSignal) (s : NullifierStore T)
    → lookup n s.nullifiers ≡ none
    → check_and_set n signal s ≡ (record s { nullifiers = insert n signal s.nullifiers }, none)
unfolding check_and_set get
check_and_set-fresh n signal s h = ground arith

pub check_and_set-used :
    {T : Type 0} (n : Text) (signal old : StoredSignal) (s : NullifierStore T)
    → lookup n s.nullifiers ≡ some old
    → check_and_set n signal s ≡ (s, some old)
unfolding check_and_set get
check_and_set-used n signal old s h = ground arith

-- The state after step 5, for a nullifier that was fresh and for one that was not.
pub settle-fresh :
    (env : Env) (req : LongjingRequest) (c : Checked) (signal : StoredSignal) (w : World)
    → lookup c.nullifier w.store.nullifiers ≡ none
    → settle env req c signal w
      ≡ serve env req c signal (record w {
        store = record w.store { nullifiers = insert c.nullifier signal w.store.nullifiers };
      })
unfolding settle ◌>>=◌
settle-fresh env req c signal w h =
    rw (check_and_set-fresh c.nullifier signal w.store h, settle, ◌>>=◌) refl

pub settle-used :
    (env : Env) (req : LongjingRequest) (c : Checked) (signal old : StoredSignal) (w : World)
    → lookup c.nullifier w.store.nullifiers ≡ some old
    → settle env req c signal w ≡ settle_used env c old signal w
unfolding settle ◌>>=◌
settle-used env req c signal old w h =
    rw (check_and_set-used c.nullifier signal old w.store h, settle, ◌>>=◌) refl

pub settle_used-keeps :
    (env : Env) (c : Checked) (old signal : StoredSignal) (w : World)
    → let w' = (settle_used env c old signal w).1 in
      (w'.store ≡ w.store) × (w'.provider_calls ≡ w.provider_calls)
unfolding settle_used
settle_used-keeps env c old signal w = ground arith

-- No row of the table is lost.
abbrev KeepsRows : (w w' : World) → Type 0
KeepsRows w w' = length w.store.nullifiers ≤ length w'.store.nullifiers

abbrev IsPaidOrFree : Env → LongjingRequest → (w w' : World) → Type 0
IsPaidOrFree env req w w' =
    ((w'.provider_calls ≡ w.provider_calls) × KeepsRows w w') ⊎ IsPaid env req w w'

settle-IsPaid :
    (env : Env) (req : LongjingRequest) (w w1 : World) (c : Checked) (signal : StoredSignal)
    → IsChecked env req w c
    → IsUnconsumed w w1
    → canonical_signal req ≡ some signal
    → IsPaidOrFree env req w (settle env req c signal w1).1
settle-IsPaid env req w w1 c signal passed same e =
    elim (Option-cases (lookup c.nullifier w.store.nullifiers)) [
      | inl fresh ↦
          let s = serve-IsServed env req c signal (record w1 {
            store = record w1.store { nullifiers = insert c.nullifier signal w1.store.nullifiers };
          }) in
          rw (settle-fresh env req c signal w1 (rw same.same_nullifiers fresh)) (elim s.calls [
            | inl free ↦ inl (
              free ∙ same.same_calls,
              rw (s.same_nullifiers, same.same_nullifiers)
                  (omega (arith, insert_new c.nullifier signal w.store.nullifiers fresh)),
            )
            | inr one ↦ inr (record {
              checked = c;
              signal = signal;
              passed = passed;
              signalled = e;
              fresh = fresh;
              spent = rw (s.same_nullifiers, same.same_nullifiers) refl;
              once = one ∙ ap (λ k. k + 1) same.same_calls;
            })
          ])
      | inr (old, used) ↦ rw (settle-used env req c signal old w1 (rw same.same_nullifiers used)) (
          inl (
            (settle_used-keeps env c old signal w1).1 ∙ same.same_calls,
            rw ((settle_used-keeps env c old signal w1).0, same.same_nullifiers) (omega arith),
          ))
    ]

-- What holds however a request ends: it is enough that it holds where the checks throw, and after
-- step 5 where they pass.
module _ (env : Env) (req : LongjingRequest) (w : World) (P : World → Type 0) where
  weaken_checked :
      (p : Result Exception Checked × World)
      → ((w' : World) → IsUnconsumed w w' → P w')
      → Ensures (λ c w'. IsChecked env req w c × IsUnconsumed w w') (λ _. IsUnconsumed w) p
      → Ensures (λ c w'. IsChecked env req w c × IsUnconsumed w w') (λ _. P) p
  weaken_checked (ok c, w') free h = h
  weaken_checked (err x, w') free h = free w' h

  pub handle_request_rule :
      ((w' : World) → IsUnconsumed w w' → P w')
      → ((c : Checked) (signal : StoredSignal) (w1 : World)
          → IsChecked env req w c
          → IsUnconsumed w w1
          → canonical_signal req ≡ some signal
          → P (settle env req c signal w1).1)
      → P (handle_request env req w).1
  unfolding handle_request
  handle_request_rule free settled = ensures_state P _ (
      Ensures-bind (λ c w'. IsChecked env req w c × IsUnconsumed w w') (λ _. P) (λ _. P)
        (check_request env req) _ w (weaken_checked _ free (check_request-Ensures env req w))
        λ c w1 (passed, same).
          Ensures-bind (λ s w'. (canonical_signal req ≡ some s) × (w' ≡ w1)) (λ _. P) (λ _. P)
            (or_throw (canonical_signal req) (internal "Cannot convert to a BigInt")) _ w1
            (Ensures-or_throw _ (λ _. P) (canonical_signal req) _ w1 (λ s e. (e, refl))
              (λ _. free w1 same))
            λ signal w2 (e, e2). Ensures-always P _ (rw e2 (settled c signal w1 passed same e)))

handle_request-IsPaidOrFree :
    (env : Env) (req : LongjingRequest) (w : World)
    → IsPaidOrFree env req w (handle_request env req w).1
handle_request-IsPaidOrFree env req w =
    handle_request_rule env req w (IsPaidOrFree env req w)
      (λ w' same. inl (same.same_calls, rw same.same_nullifiers (omega arith)))
      (λ c signal w1. settle-IsPaid env req w w1 c signal)

-- A request calls the provider at most once. If it does, its model is supported, the rate limit has fewer than
-- three calls for its nullifier in the minute before, its signal x is the
-- one of its payload and nonce, C_MAX is known and covers the worst-case cost that was computed for
-- it, and its proof is verified for these inputs; and its nullifier was in no row of the table before
-- and is stored with its signal after.
pub provider_call-IsPaid :
    (env : Env) (req : LongjingRequest) (w : World)
    → let w' = (handle_request env req w).1 in
      (w'.provider_calls ≡ w.provider_calls) ⊎ IsPaid env req w w'
provider_call-IsPaid env req w = elim (handle_request-IsPaidOrFree env req w) [
  | inl (free, rows) ↦ inl free
  | inr paid ↦ inr paid
]

-- Requests that are handled one after another, each with the environment of its time.
pub handle_all : List (Env × LongjingRequest) → World → World
handle_all [] w = w
handle_all ((env, req) ∷ requests) w = handle_all requests (handle_request env req w).1

one_request :
    (env : Env) (req : LongjingRequest) (w : World)
    → let w' = (handle_request env req w).1 in
      w'.provider_calls + length w.store.nullifiers ≤ w.provider_calls + length w'.store.nullifiers
one_request env req w = elim (handle_request-IsPaidOrFree env req w) [
  | inl (free, rows) ↦ omega (arith, free, rows)
  | inr paid ↦ omega (
    arith,
    paid.once,
    ap length paid.spent,
    insert_new paid.checked.nullifier paid.signal w.store.nullifiers paid.fresh,
  )
]

-- Over any sequence of requests, of any clients and with any retries and double spends, the provider
-- is called at most as often as the table of nullifiers has grown.
pub calls_within_nullifiers :
    (requests : List (Env × LongjingRequest)) (w : World)
    → let w' = handle_all requests w in
      w'.provider_calls + length w.store.nullifiers ≤ w.provider_calls + length w'.store.nullifiers
unfolding handle_all
calls_within_nullifiers [] w = omega arith
calls_within_nullifiers ((env, req) ∷ requests) w =
    omega
      (arith, one_request env req w, calls_within_nullifiers requests (handle_request env req w).1)
