-- ===== src/Exits/Watching.antt =====
-- What the watcher has done once it has watched a chain (src/longjing/exit-watcher.service.ts with
-- `watchWithdrawals` of src/longjing/blockchain.service.ts).
use zk_api.Common.{
  ℕ, ◌≤◌, ◌≡◌, refl, ◌∙◌, Bool, true, false, ◌&&◌, ◌||◌, some, List, [], ◌∷◌, ◌++◌, arith, inl, inr,
  Option-cases, ltb, leb, filter, is_some, All, Bool-cases, filter-append, filtered_head,
  filtered_rest, All-filtered,
}
use zk_api.Common.Dict.{lookup, lookup-insert}
use zk_api.Common.Eq.{◌===◌, text_eq, text_beq_iff}
use zk_api.Common.Exec.{ok}
use zk_api.Common.Text.{Text}
use zk_api.Blockchain.{Blockchain}
use zk_api.Blockchain.Watch.{from_block, watched, handle_all, watch_withdrawals}
use zk_api.Exits.{WithdrawalInitiated, exit_signal, ingest}
use zk_api.Exits.Challenges.{challenge-store, ingest-fresh, ingest-used}
use zk_api.Longjing.{World}
use zk_api.Signal.{to_string}
use zk_api.Slashing.{Chain}

abbrev pub is_recorded : World → WithdrawalInitiated → Bool
is_recorded w exit = is_some (lookup (to_string exit.nullifier) w.store.nullifiers)

module _ (chain : Chain) where
  ingest-recorded :
      (exit other : WithdrawalInitiated) (w : World)
      → is_recorded (ingest chain exit w) other
        ≡ (to_string exit.nullifier === to_string other.nullifier || is_recorded w other)
  ingest-recorded exit other w =
      elim (Option-cases (lookup (to_string exit.nullifier) w.store.nullifiers)) [
        | inl fresh ↦ rw (ingest-fresh chain exit w fresh) (
            ground (
              arith,
              lookup-insert (to_string exit.nullifier) (to_string other.nullifier)
                  (exit_signal exit) w.store.nullifiers,
            ))
        | inr (old, used) ↦
            let (same_store, same_calls) = challenge-store chain exit (some old) w in
            rw (ingest-used chain exit old w used) (
              rw (same_store) (
                ground (
                  arith,
                  used,
                  text_beq_iff (to_string exit.nullifier) (to_string other.nullifier),
                )))
      ]

  kept :
      (es : List (ℕ × WithdrawalInitiated)) (other : WithdrawalInitiated) (w : World)
      → is_recorded w other ≡ true
      → is_recorded (handle_all (ingest chain) es w) other ≡ true
  unfolding handle_all
  kept [] other w h = h
  kept (e ∷ es) other w h =
      kept es other (ingest chain e.1 w) (ground (arith, h, ingest-recorded e.1 other w))

  All-recorded :
      (es : List (ℕ × WithdrawalInitiated)) (w : World)
      → All (λ e. is_recorded (handle_all (ingest chain) es w) e.1 ≡ true) es
  unfolding handle_all
  All-recorded [] w = tt
  All-recorded (e ∷ es) w = (
    kept es e.1 (ingest chain e.1 w) (
        ground (
          arith,
          ingest-recorded e.1 e.1 w,
          text_beq_iff (to_string e.1.nullifier) (to_string e.1.nullifier),
        )),
    All-recorded es (ingest chain e.1 w),
  )

module _ {X : Type 0} (P : ℕ × X → Type 0) where
  All-unappend : (xs ys : List (ℕ × X)) → All P (xs ++ ys) → All P xs × All P ys
  All-unappend [] ys h = (tt, h)
  All-unappend (x ∷ xs) ys h = let (a, b) = All-unappend xs ys h.1 in ((h.0, a), b)

  -- With no block between the query and the subscription, every exit from the first block on is watched.
  All-recent :
      (from head subscribed : ℕ) (log : List (ℕ × X))
      → subscribed ≤ head
      → All P (filter (λ e. leb from e.0 && leb e.0 head) log)
      → All P (filter (λ e. ltb subscribed e.0) log)
      → All P (filter (λ e. leb from e.0) log)
  All-recent from head subscribed [] h a b = tt
  All-recent from head subscribed (e ∷ log) h a b =
      All-filtered P e (filter (λ e. leb from e.0) log) (leb from e.0)
        (λ late. elim (Bool-cases (leb e.0 head)) [
          | inl early ↦ filtered_head P e _ (leb from e.0 && leb e.0 head) (ground arith) a
          | inr later ↦ filtered_head P e _ (ltb subscribed e.0) (ground arith) b
        ])
        (All-recent from head subscribed log h
          (filtered_rest P e _ (leb from e.0 && leb e.0 head) a)
          (filtered_rest P e _ (ltb subscribed e.0) b))

-- Once the watcher is connected, and if no block is mined between its query and its subscription, every exit of
-- the last 25,000 blocks and every later one has its nullifier recorded.
pub recent_exits_recorded :
    (chain : Chain) (s : Blockchain) (address : Text) (latest head subscribed : ℕ)
    (log : List (ℕ × WithdrawalInitiated)) (w : World)
    → s.contract ≡ some address
    → subscribed ≤ head
    → (w' : World) × (watch_withdrawals s (ingest chain) latest head subscribed log w ≡ ok w')
      × All (λ e. is_recorded w' e.1 ≡ true) (filter (λ e. leb (from_block latest) e.0) log)
unfolding watch_withdrawals watched
recent_exits_recorded chain s address latest head subscribed log w h k =
    let w' = handle_all (ingest chain) (watched latest head subscribed log) w in
    let (a, b) =
      All-unappend (λ e. is_recorded w' e.1 ≡ true) _ _
        (All-recorded chain (watched latest head subscribed log) w) in
    (
      w',
      rw (h) refl,
      All-recent (λ e. is_recorded w' e.1 ≡ true) (from_block latest) head subscribed log k a b,
    )

filter_between :
    {X : Type 0} (p q : X → Bool) (xs : List X)
    → ((x : X) → q x ≡ true → p x ≡ false)
    → filter p (filter q xs) ≡ []
filter_between p q [] h = refl
filter_between p q (x ∷ xs) h = ground (arith, h x, filter_between p q xs h)

-- An exit of a block mined after the query and before the listener's first is not handled.
pub exits_between_missed :
    (latest head subscribed : ℕ) (log : List (ℕ × WithdrawalInitiated))
    → filter (λ e. ltb head e.0 && leb e.0 subscribed) (watched latest head subscribed log) ≡ []
unfolding watched
exits_between_missed latest head subscribed log =
    filter-append between (filter queried log) (filter reported log)
    ∙ rw (filter_between between queried log (λ x h. ground arith))
        (filter_between between reported log (λ x h. ground arith))
  where
    between : ℕ × WithdrawalInitiated → Bool
    between e = ltb head e.0 && leb e.0 subscribed

    queried : ℕ × WithdrawalInitiated → Bool
    queried e = leb (from_block latest) e.0 && leb e.0 head

    reported : ℕ × WithdrawalInitiated → Bool
    reported e = ltb subscribed e.0
