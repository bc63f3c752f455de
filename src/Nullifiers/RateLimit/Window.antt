-- ===== src/Nullifiers/RateLimit/Window.antt =====
-- Runs of the rate limiter: requests and the five-minute cleanup in any order, under a clock that
-- does not go back.
use mathlib.Core.Path.{subst}
use zk_api.Common.{
  sym, ℕ, ◌≤◌, ◌≡◌, refl, true, false, List, [], ◌∷◌, ◌++◌, arith, length-filter_mono,
  length-filter-le, append-nil, append_assoc, filter-append, length-append, Bool-cases, inl, inr,
}
use zk_api.Common.Eq.{text_beq, text_beq_iff}
use zk_api.Common.Text.{Text}
use zk_api.Nullifiers.{
  NullifierStore, empty_store, in_window, check_rate_limit, cleanup_rate_limit_map,
  rate_limit_max_attempts,
}
use zk_api.Nullifiers.RateLimit.{
  History, times_of, times_of-append, accepted_in_window, is_allowed, in_window_mono, Tracks,
  check_rate_limit-Tracks, cleanup-Tracks, later-Tracks,
}

-- A call of `checkRateLimit`, or a tick of the cleanup interval, with its time.
pub data RateEvent : Type 0 where
  attempt : ℕ → Text → RateEvent
  cleanup : ℕ → RateEvent

abbrev pub time_of : RateEvent → ℕ
time_of (attempt t n) = t
time_of (cleanup t) = t

-- The clock does not go back.
abbrev pub IsAscending : ℕ → List RateEvent → Type 0
IsAscending last [] = Unit
IsAscending last (ev ∷ evs) = (last ≤ time_of ev) × IsAscending (time_of ev) evs

abbrev pub end_time : ℕ → List RateEvent → ℕ
end_time last [] = last
end_time last (ev ∷ evs) = end_time (time_of ev) evs

module _ {T : Type 0} where
  -- The accepted calls of a run of the store, with their times, and the final store.
  pub run : List RateEvent → NullifierStore T → History × NullifierStore T
  run [] s = ([], s)
  run (cleanup t ∷ evs) s = run evs (cleanup_rate_limit_map t s)
  run (attempt t n ∷ evs) s =
      let rest = run evs (check_rate_limit t n s).0 in
      elim (check_rate_limit t n s).1 [ true ↦ ((t, n) ∷ rest.0, rest.1) | false ↦ rest ]

-- What the specification accepts: fewer than three acceptances of that nullifier in the last minute.
abbrev pub spec_run : List RateEvent → History → History
spec_run [] h = []
spec_run (cleanup t ∷ evs) h = spec_run evs h
spec_run (attempt t n ∷ evs) h =
    let more = spec_run evs (h ++ (t, n) ∷ []) in
    let same = spec_run evs h in elim (is_allowed t n h) [ true ↦ (t, n) ∷ more | false ↦ same ]

module _ {T : Type 0} where
  run-eq-spec :
      (evs : List RateEvent) (h : History) (last : ℕ) (s : NullifierStore T)
      → IsAscending last evs
      → Tracks h last s
      → (run evs s).0 ≡ spec_run evs h
  unfolding run
  run-eq-spec [] h last s asc tr = refl
  run-eq-spec (cleanup t ∷ evs) h last s asc tr =
      run-eq-spec evs h t _ asc.1 (cleanup-Tracks h t s (later-Tracks h last t s asc.0 tr))
  run-eq-spec (attempt t n ∷ evs) h last s asc tr =
      let (verdict, tr') = check_rate_limit-Tracks h last t n s asc.0 tr in
      let s' = (check_rate_limit t n s).0 in
      elim (Bool-cases (is_allowed t n h)) [
        | inl granted ↦
            let tr'' : Tracks (h ++ (t, n) ∷ []) t s' = rw granted at tr' in
            ground (arith, verdict, run-eq-spec evs (h ++ (t, n) ∷ []) t s' asc.1 tr'')
        | inr refused ↦
            let tr'' : Tracks h t s' = rw refused at tr' in
            ground (arith, verdict, run-eq-spec evs h t s' asc.1 tr'')
      ]

spec_run-granted :
    (t : ℕ) (k : Text) (evs : List RateEvent) (h : History)
    → is_allowed t k h ≡ true
    → spec_run (attempt t k ∷ evs) h ≡ (t, k) ∷ spec_run evs (h ++ (t, k) ∷ [])
spec_run-granted t k evs h e = rw (e, spec_run)

spec_run-refused :
    (t : ℕ) (k : Text) (evs : List RateEvent) (h : History)
    → is_allowed t k h ≡ false
    → spec_run (attempt t k ∷ evs) h ≡ spec_run evs h
spec_run-refused t k evs h e = rw (e, spec_run)

-- The accepted calls of a specification run never fill a window past the limit.
module _ (n : Text) where
  abbrev IsWithinLimit : ℕ → History → Type 0
  IsWithinLimit last h =
      (now : ℕ) → last ≤ now → accepted_in_window now n h ≤ rate_limit_max_attempts

  later-IsWithinLimit :
      (h : History) (last now : ℕ) → last ≤ now → IsWithinLimit last h → IsWithinLimit now h
  later-IsWithinLimit h last now le w later le' = w later (omega arith)

  extend-IsWithinLimit :
      (h : History) (last t : ℕ) (k : Text)
      → last ≤ t
      → is_allowed t k h ≡ true
      → IsWithinLimit last h
      → IsWithinLimit t (h ++ (t, k) ∷ [])
  extend-IsWithinLimit h last t k le granted w now le' =
      rw (times_of-append n h ((t, k) ∷ []), filter-append)
        (elim (Bool-cases (text_beq k n)) [
          | inl same ↦
              let older : accepted_in_window now k h ≤ accepted_in_window t k h =
                length-filter_mono (in_window now) (in_window t)
                  (λ a e. in_window_mono t now a le' e) (times_of k h) in
              rw (same, ← (text_beq_iff k n).0 same, length-append)
                (let one = length-filter-le (in_window now) (t ∷ []) in ground arith)
          | inr other ↦ rw (other, append-nil) (w now (omega arith))
        ])

  spec_run-IsWithinLimit :
      (evs : List RateEvent) (h : History) (last : ℕ)
      → IsAscending last evs
      → IsWithinLimit last h
      → IsWithinLimit (end_time last evs) (h ++ spec_run evs h)
  spec_run-IsWithinLimit [] h last asc w = rw append-nil w
  spec_run-IsWithinLimit (cleanup t ∷ evs) h last asc w =
      spec_run-IsWithinLimit evs h t asc.1 (later-IsWithinLimit h last t asc.0 w)
  spec_run-IsWithinLimit (attempt t k ∷ evs) h last asc w = elim (Bool-cases (is_allowed t k h)) [
    | inl granted ↦
        let g = spec_run evs (h ++ (t, k) ∷ []) in
        subst (λ e. IsWithinLimit (end_time t evs) (h ++ e))
          (sym (spec_run-granted t k evs h granted))
          (rw (← append_assoc h ((t, k) ∷ []) g) (
            spec_run-IsWithinLimit evs (h ++ (t, k) ∷ []) t asc.1
              (extend-IsWithinLimit h last t k asc.0 granted w)))
    | inr refused ↦
        subst (λ e. IsWithinLimit (end_time t evs) (h ++ e))
          (sym (spec_run-refused t k evs h refused))
          (spec_run-IsWithinLimit evs h t asc.1 (later-IsWithinLimit h last t asc.0 w))
  ]

module _ (T : Type 0) where
  empty-Tracks : Tracks [] 0 (empty_store {T = T})
  empty-Tracks = record { distinct = tt; counts = λ now k le. refl }

  -- On a fresh store, whatever requests and cleanups come and however the cleanups (of the timer, or
  -- of a map of more than 1000 entries) fall between them, as long as the clock does not go back,
  -- the calls of `checkRateLimit` that return true are exactly those before which fewer than three
  -- calls for the same nullifier were accepted in the last minute.
  pub rate_limit_refines_history :
      (evs : List RateEvent)
      → IsAscending 0 evs
      → (run evs (empty_store {T = T})).0 ≡ spec_run evs []
  rate_limit_refines_history evs asc = run-eq-spec evs [] 0 empty_store asc empty-Tracks

  -- On a fresh store, after any requests and cleanups under a clock that does not go back, no minute
  -- that ends at or after the last event holds more than three accepted calls for one nullifier.
  pub rate_limit_bound :
      (evs : List RateEvent) (n : Text) (now : ℕ)
      → IsAscending 0 evs
      → end_time 0 evs ≤ now
      → accepted_in_window now n (run evs (empty_store {T = T})).0 ≤ rate_limit_max_attempts
  rate_limit_bound evs n now asc le =
      rw (rate_limit_refines_history evs asc)
        (spec_run-IsWithinLimit n evs [] 0 asc (λ later h. omega arith) now le)
