-- ===== src/Nullifiers/Tests.antt =====
-- Instances of the nullifier store, on short runs.
use zk_api.Common.{
  ℕ, ◌≤◌, ◌≡◌, refl, some, List, [], ◌∷◌, arith, length, ltb, ◌&&◌, none, if◌then◌else◌, ◌+◌,
}
use zk_api.Common.Eq.{◌===◌, text_eq}
use zk_api.Common.Text.{Text, codes}
use zk_api.Nullifiers.{
  NullifierStore, StoredSignal, empty_store, get, exists, count, remember_response, recall_response,
  cleanup_responses, response_ttl_ms, rate_limit_max_attempts,
}
use zk_api.Nullifiers.RateLimit.{accepted_in_window}
use zk_api.Nullifiers.RateLimit.Window.{
  RateEvent, IsAscending, attempt, cleanup, run, spec_run, rate_limit_refines_history,
  rate_limit_bound,
}
use zk_api.Nullifiers.Responses.{same_signal, recall-remember, recall-cleanup}
use zk_api.Nullifiers.Spent.{
  StoreOp, spend, apply_ops, occurrences, to_number, first_signal_stays, recorded_once,
}

abbrev n1 : Text
n1 = codes "17"

abbrev first_signal : StoredSignal
first_signal = record { x = codes "1"; y = codes "2" }

abbrev other_signal : StoredSignal
other_signal = record { x = codes "3"; y = codes "4" }

abbrev one_spent : NullifierStore ℕ
one_spent = record { nullifiers = (n1, first_signal) ∷ []; nullifier_attempts = []; responses = [] }

abbrev two_spends : List (StoreOp ℕ)
two_spends = spend n1 other_signal ∷ spend n1 first_signal ∷ StoreOp.cleanup 70000 ∷ []

one_spent-get : get n1 one_spent ≡ some first_signal
unfolding get
one_spent-get = refl

first_signal_stays_example : get n1 (apply_ops two_spends one_spent).0 ≡ some first_signal
first_signal_stays_example = first_signal_stays two_spends one_spent n1 first_signal one_spent-get

recorded_once_test :
    let (s, recorded) = apply_ops two_spends empty_store in
    (occurrences n1 recorded ≡ to_number (exists n1 s))
    × (occurrences n1 recorded ≤ 1)
    × (count s ≡ length recorded)
recorded_once_test = recorded_once ℕ two_spends n1

abbrev burst : List RateEvent
burst =
    attempt 0 n1
    ∷ attempt 10 n1
    ∷ attempt 20 n1
    ∷ attempt 30 n1
    ∷ cleanup 40000
    ∷ attempt 60015 n1
    ∷ []

burst-IsAscending : IsAscending 0 burst
burst-IsAscending =
    (omega arith, (omega arith, (omega arith, (omega arith, (omega arith, (omega arith, tt))))))

rate_limit_refines_history_example : (run burst (empty_store {T = ℕ})).0 ≡ spec_run burst []
rate_limit_refines_history_example = rate_limit_refines_history ℕ burst burst-IsAscending

rate_limit_bound_example :
    accepted_in_window 60015 n1 (run burst (empty_store {T = ℕ})).0 ≤ rate_limit_max_attempts
rate_limit_bound_example = rate_limit_bound ℕ burst n1 60015 burst-IsAscending (omega arith)

recall-remember_test :
    recall_response 500 n1 first_signal (remember_response 400 n1 first_signal 99 one_spent) ≡ (
      if n1 === n1
      then (if ltb 500 (400 + response_ttl_ms) && same_signal first_signal first_signal
          then some 99
          else none)
      else recall_response 500 n1 first_signal one_spent)
recall-remember_test = recall-remember 400 500 n1 n1 first_signal first_signal 99 one_spent

abbrev two_kept : NullifierStore ℕ
two_kept = record one_spent {
  responses =
      (n1, record { signal = first_signal; response = 5; expires_at = 100 })
      ∷ (codes "18", record { signal = other_signal; response = 6; expires_at = 900 })
      ∷ [];
}

recall-cleanup_test :
    recall_response 300 (codes "18") other_signal (cleanup_responses 200 two_kept)
    ≡ recall_response 300 (codes "18") other_signal two_kept
recall-cleanup_test =
    recall-cleanup 200 300 (codes "18") other_signal two_kept (omega arith) (refl, (refl, tt))
