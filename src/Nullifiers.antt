-- ===== src/Nullifiers.antt =====
-- The store of spent nullifiers (src/longjing/nullifier-store.service.ts): the SQLite table, the
-- in-memory rate limit and the kept responses. `Date.now()` is an argument of each operation.
mod Tests
pub mod RateLimit
pub mod Spent
pub mod Responses
use zk_api.Common.{
  ℕ, ◌+◌, ◌-◌, Bool, true, false, not, ◌&&◌, Option, none, some, List, [], ◌∷◌, ◌++◌, ltb, leb,
  ◌==◌, if◌then◌else◌, or_else, length, filter,
}
use zk_api.Common.Dict.{Dict, lookup, has, insert, erase}
use zk_api.Common.Eq.{◌===◌, text_eq}
use zk_api.Common.Text.{Text}

pub record StoredSignal : Type 0 where
  pub x : Text
  pub y : Text

pub record CachedResponse (T : Type 0) : Type 0 where
  pub signal : StoredSignal
  pub response : T
  pub expires_at : ℕ

abbrev pub rate_limit_window_ms : ℕ
rate_limit_window_ms = 60000

abbrev pub rate_limit_max_attempts : ℕ
rate_limit_max_attempts = 3

abbrev pub response_ttl_ms : ℕ
response_ttl_ms = 600000

-- `nullifiers` is the SQL table of the same name, with its primary key.
pub record NullifierStore (T : Type 0) : Type 0 where
  pub nullifiers : Dict Text StoredSignal
  pub nullifier_attempts : Dict Text (List ℕ)
  pub responses : Dict Text (CachedResponse T)

-- `now - timestamp < RATE_LIMIT_WINDOW_MS`; a timestamp after `now` gives a negative difference in
-- the source and 0 here, and both pass the test.
abbrev pub in_window : ℕ → ℕ → Bool
in_window now timestamp = ltb (now - timestamp) rate_limit_window_ms

-- The loop of `cleanupRateLimitMap` over the entries.
pub cleanup_attempts : ℕ → Dict Text (List ℕ) → Dict Text (List ℕ)
cleanup_attempts now [] = []
cleanup_attempts now ((nullifier, attempts) ∷ m) =
    let rest = cleanup_attempts now m in
    let recent_attempts = filter (in_window now) attempts in
    if length recent_attempts == 0
    then rest
    else if ltb (length recent_attempts) (length attempts)
    then (nullifier, recent_attempts) ∷ rest
    else (nullifier, attempts) ∷ rest

-- The loop of `cleanupResponses` over the entries.
pub live_responses : {T : Type 0} → ℕ → Dict Text (CachedResponse T) → Dict Text (CachedResponse T)
live_responses now [] = []
live_responses now ((nullifier, cached) ∷ m) =
    let rest = live_responses now m in
    if leb cached.expires_at now then rest else (nullifier, cached) ∷ rest

module _ {T : Type 0} where
  unfoldable pub get : Text → NullifierStore T → Option StoredSignal
  get nullifier s = lookup nullifier s.nullifiers

  pub exists : Text → NullifierStore T → Bool
  exists nullifier s = has nullifier s.nullifiers

  -- The whole transaction: nothing else touches the table between the read and the write.
  unfoldable pub check_and_set :
      Text → StoredSignal → NullifierStore T → NullifierStore T × Option StoredSignal
  unfolding get
  check_and_set nullifier signal s = elim (get nullifier s) [
    | some existing ↦ (s, some existing)
    | none ↦ (record s { nullifiers = insert nullifier signal s.nullifiers }, none)
  ]

  unfoldable pub remember_response :
      ℕ → Text → StoredSignal → T → NullifierStore T → NullifierStore T
  remember_response now nullifier signal response s = record s {
    responses =
        insert nullifier
          (record { signal = signal; response = response; expires_at = now + response_ttl_ms })
          s.responses;
  }

  -- What `recallResponse` answers for an entry that was found.
  unfoldable pub recall_cached : ℕ → StoredSignal → Option (CachedResponse T) → Option T
  recall_cached now signal none = none
  recall_cached now signal (some cached) =
      if leb cached.expires_at now
      then none
      else if not (cached.signal.x === signal.x && cached.signal.y === signal.y)
      then none
      else some cached.response

  unfoldable pub recall_response : ℕ → Text → StoredSignal → NullifierStore T → Option T
  unfolding recall_cached
  recall_response now nullifier signal s = recall_cached now signal (lookup nullifier s.responses)

  pub clear : NullifierStore T → NullifierStore T
  clear s = record s { nullifiers = []; responses = [] }

  pub count : NullifierStore T → ℕ
  count s = length s.nullifiers

  unfoldable pub cleanup_rate_limit_map : ℕ → NullifierStore T → NullifierStore T
  cleanup_rate_limit_map now s = record s {
    nullifier_attempts = cleanup_attempts now s.nullifier_attempts;
  }

  unfoldable pub cleanup_responses : ℕ → NullifierStore T → NullifierStore T
  cleanup_responses now s = record s { responses = live_responses now s.responses }

  -- The timestamps kept for a nullifier that lie in the last minute.
  abbrev pub recent : ℕ → Text → NullifierStore T → List ℕ
  recent now nullifier s =
      filter (in_window now) (or_else (lookup nullifier s.nullifier_attempts) [])

  unfoldable pub check_rate_limit : ℕ → Text → NullifierStore T → NullifierStore T × Bool
  unfolding cleanup_rate_limit_map
  check_rate_limit now nullifier s =
      let recent_attempts = recent now nullifier s in
      if leb rate_limit_max_attempts (length recent_attempts)
      then (s, false)
      else let s' = record s {
        nullifier_attempts = insert nullifier (recent_attempts ++ now ∷ []) s.nullifier_attempts;
      } in
        (
          if ltb 1000 (length s'.nullifier_attempts) then cleanup_rate_limit_map now s' else s',
          true,
        )

  pub get_remaining_attempts : ℕ → Text → NullifierStore T → ℕ
  get_remaining_attempts now nullifier s = rate_limit_max_attempts - length (recent now nullifier s)

abbrev pub empty_store : {T : Type 0} → NullifierStore T
empty_store = record { nullifiers = []; nullifier_attempts = []; responses = [] }
