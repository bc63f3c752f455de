-- ===== src/Nullifiers/Responses.antt =====
-- The kept responses (rememberResponse, recallResponse, cleanupResponses).
use zk_api.Common.{
  ℕ, ◌+◌, ◌≤◌, ◌<◌, ◌≡◌, refl, Bool, none, some, [], ◌∷◌, arith, ltb, if◌then◌else◌, ◌&&◌,
}
use zk_api.Common.Dict.{Dict, lookup, lookup-insert, IsDistinct}
use zk_api.Common.Eq.{◌===◌, text_eq, text_beq_iff}
use zk_api.Common.Text.{Text}
use zk_api.Nullifiers.{
  NullifierStore, StoredSignal, CachedResponse, remember_response, recall_cached, recall_response,
  cleanup_responses, live_responses, response_ttl_ms,
}

abbrev pub same_signal : StoredSignal → StoredSignal → Bool
same_signal a b = a.x === b.x && a.y === b.y

lookup-live_absent :
    {T : Type 0} (now : ℕ) (k : Text) (m : Dict Text (CachedResponse T))
    → lookup k m ≡ none
    → lookup k (live_responses now m) ≡ none
unfolding live_responses
lookup-live_absent now k [] h = refl
lookup-live_absent now k ((j, c) ∷ m) h = ground (arith, lookup-live_absent now k m)

recall-live :
    {T : Type 0} (now later : ℕ) (k : Text) (signal : StoredSignal)
    (m : Dict Text (CachedResponse T))
    → now ≤ later
    → IsDistinct m
    → recall_cached later signal (lookup k (live_responses now m))
      ≡ recall_cached later signal (lookup k m)
unfolding live_responses recall_cached
recall-live now later k signal [] h d = refl
recall-live now later k signal ((j, c) ∷ m) h d = ground (
  arith,
  recall-live now later k signal m h d.1,
  lookup-live_absent now j m d.0,
  text_beq_iff j k,
)

-- An entry that has not expired outlives a cleanup.
pub live_responses_keep :
    {T : Type 0} (now : ℕ) (n : Text) (entry : CachedResponse T) (m : Dict Text (CachedResponse T))
    → now < entry.expires_at
    → lookup n m ≡ some entry
    → lookup n (live_responses now m) ≡ some entry
unfolding live_responses
live_responses_keep now n entry [] h e = e
live_responses_keep now n entry ((k, cached) ∷ m) h e =
    ground (arith, live_responses_keep now n entry m h, text_beq_iff k n)

module _ {T : Type 0} where
  -- After a response is kept, a recall of the same nullifier answers it exactly when it carries the
  -- same signal and comes less than ten minutes later; recalls of other nullifiers are unchanged.
  pub recall-remember :
      (kept_at now : ℕ) (n m : Text) (signal asked : StoredSignal) (r : T) (s : NullifierStore T)
      → recall_response now m asked (remember_response kept_at n signal r s) ≡ (
          if n === m
          then (if ltb now (kept_at + response_ttl_ms) && same_signal signal asked
              then some r
              else none)
          else recall_response now m asked s)
  unfolding recall_response remember_response
  recall-remember kept_at now n m signal asked r s = ground (
    arith,
    lookup-insert n m
        (record { signal = signal; response = r; expires_at = kept_at + response_ttl_ms })
        s.responses,
  )

  -- The timer's cleanup of the responses changes no later answer, if no nullifier is kept twice.
  pub recall-cleanup :
      (now later : ℕ) (n : Text) (signal : StoredSignal) (s : NullifierStore T)
      → now ≤ later
      → IsDistinct s.responses
      → recall_response later n signal (cleanup_responses now s) ≡ recall_response later n signal s
  unfolding recall_response cleanup_responses
  recall-cleanup now later n signal s h d = recall-live now later n signal s.responses h d
