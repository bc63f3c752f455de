-- ===== src/Nullifiers/RateLimit.antt =====
-- The rate limit of the nullifier store (checkRateLimit, cleanupRateLimitMap) against a history of
-- the accepted calls.
pub mod Window
use zk_api.Common.{
  ℕ, ◌-◌, ◌≤◌, ◌<◌, ◌≡◌, refl, ap, ◌∙◌, sym, Bool, true, false, ◌&&◌, Option, none, some, List, [],
  ◌∷◌, ◌++◌, map, arith, ltb, leb, if◌then◌else◌, or_else, length, filter, append-nil,
  filter-append, filter-filter, Bool-cases, inl, inr,
}
use zk_api.Common.Dict.{Dict, lookup, insert, lookup-insert, IsDistinct, insert-IsDistinct}
use zk_api.Common.Eq.{text_beq, ◌===◌, text_eq, text_beq_iff}
use zk_api.Common.Text.{Text}
use zk_api.Nullifiers.{
  NullifierStore, in_window, cleanup_attempts, cleanup_rate_limit_map, recent, check_rate_limit,
  rate_limit_max_attempts,
}

-- What is out of the window stays out of it.
pub in_window_mono :
    (now later t : ℕ) → now ≤ later → in_window later t ≡ true → in_window now t ≡ true
in_window_mono now later t h e = ground arith

filter-in_window :
    (now later : ℕ) (ts : List ℕ)
    → now ≤ later
    → filter (in_window later) (filter (in_window now) ts) ≡ filter (in_window later) ts
filter-in_window now later ts h =
    filter-filter (in_window later) (in_window now) (λ t e. in_window_mono now later t h e) ts

lookup-cleanup_absent :
    (now : ℕ) (k : Text) (m : Dict Text (List ℕ))
    → lookup k m ≡ none
    → lookup k (cleanup_attempts now m) ≡ none
unfolding cleanup_attempts
lookup-cleanup_absent now k [] h = refl
lookup-cleanup_absent now k ((j, ts) ∷ m) h = ground (arith, lookup-cleanup_absent now k m)

cleanup-IsDistinct :
    (now : ℕ) (m : Dict Text (List ℕ)) → IsDistinct m → IsDistinct (cleanup_attempts now m)
unfolding cleanup_attempts
cleanup-IsDistinct now [] h = tt
cleanup-IsDistinct now ((j, ts) ∷ m) h =
    ground (arith, cleanup-IsDistinct now m h.1, lookup-cleanup_absent now j m h.0)

abbrev kept : ℕ → Option (List ℕ) → List ℕ
kept now o = filter (in_window now) (or_else o [])

nil_of_length : {A : Type 0} (xs : List A) → length xs ≡ 0 → xs ≡ []
nil_of_length [] h = refl
nil_of_length (x ∷ xs) h = absurd (omega arith)

-- A cleanup drops no timestamp that a later check would count.
kept-cleanup :
    (now later : ℕ) (k : Text) (m : Dict Text (List ℕ))
    → now ≤ later
    → IsDistinct m
    → kept later (lookup k (cleanup_attempts now m)) ≡ kept later (lookup k m)
unfolding cleanup_attempts
kept-cleanup now later k [] h d = refl
kept-cleanup now later k ((j, ts) ∷ m) h d = ground (
  arith,
  kept-cleanup now later k m h d.1,
  lookup-cleanup_absent now j m d.0,
  text_beq_iff j k,
  filter-in_window now later ts h,
  nil_of_length (filter (in_window now) ts),
)

-- The specification: a history of the accepted calls, oldest first, each with its time.
abbrev pub History : Type 0
History = List (ℕ × Text)

abbrev pub times_of : Text → History → List ℕ
times_of n [] = []
times_of n ((t, k) ∷ h) = let rest = times_of n h in if k === n then t ∷ rest else rest

-- How many calls for this nullifier were accepted in the minute that ends now.
abbrev pub accepted_in_window : ℕ → Text → History → ℕ
accepted_in_window now n h = length (filter (in_window now) (times_of n h))

abbrev pub is_allowed : ℕ → Text → History → Bool
is_allowed now n h = ltb (accepted_in_window now n h) rate_limit_max_attempts

abbrev pub extend : ℕ → Text → History → History
extend now n h = if is_allowed now n h then h ++ (now, n) ∷ [] else h

pub times_of-append :
    (n : Text) (h g : History) → times_of n (h ++ g) ≡ times_of n h ++ times_of n g
times_of-append n [] g = refl
times_of-append n ((t, k) ∷ h) g = ground (arith, times_of-append n h g)

module _ {T : Type 0} where
  -- From `last` on, the store counts for each nullifier what the history counts.
  pub record Tracks (h : History) (last : ℕ) (s : NullifierStore T) : Type 0 where
    pub distinct : IsDistinct s.nullifier_attempts
    pub counts :
        (now : ℕ) (k : Text) → last ≤ now → recent now k s ≡ filter (in_window now) (times_of k h)

  pub cleanup-Tracks :
      (h : History) (now : ℕ) (s : NullifierStore T)
      → Tracks h now s
      → Tracks h now (cleanup_rate_limit_map now s)
  unfolding cleanup_rate_limit_map
  cleanup-Tracks h now s tr = record {
    distinct = cleanup-IsDistinct now s.nullifier_attempts tr.distinct;
    counts = λ later k le.
        kept-cleanup now later k s.nullifier_attempts le tr.distinct ∙ tr.counts later k le;
  }

  pushed :
      (h : History) (last now later : ℕ) (n : Text) (s : NullifierStore T)
      → last ≤ now
      → now ≤ later
      → Tracks h last s
      → filter (in_window later) (recent now n s ++ now ∷ [])
        ≡ filter (in_window later) (times_of n h ++ now ∷ [])
  pushed h last now later n s le le' tr = simp filter-append (
      cc (
        filter-in_window now later (or_else (lookup n s.nullifier_attempts) []) le',
        tr.counts later n (omega arith),
      ))

  -- The accepted call is appended to what was recent.
  push-Tracks :
      (h : History) (last now : ℕ) (n : Text) (s : NullifierStore T)
      → last ≤ now
      → Tracks h last s
      → Tracks (h ++ (now, n) ∷ []) now (record s {
        nullifier_attempts = insert n (recent now n s ++ now ∷ []) s.nullifier_attempts;
      })
  push-Tracks h last now n s le tr = record {
    distinct = insert-IsDistinct n (recent now n s ++ now ∷ []) s.nullifier_attempts tr.distinct;
    counts = λ later k le'.
        rw
          (
            lookup-insert n k (recent now n s ++ now ∷ []) s.nullifier_attempts,
            times_of-append k h ((now, n) ∷ []),
          )
          (elim (Bool-cases (text_beq n k)) [
            | inl same ↦
                rw (same, ← (text_beq_iff n k).0 same) (pushed h last now later n s le le' tr)
            | inr other ↦ rw (other, append-nil) (tr.counts later k (omega arith))
          ]);
  }

  pub later-Tracks :
      (h : History) (last now : ℕ) (s : NullifierStore T)
      → last ≤ now
      → Tracks h last s
      → Tracks h now s
  later-Tracks h last now s le tr = record {
    distinct = tr.distinct;
    counts = λ later k le'. tr.counts later k (omega arith);
  }

  may_clean-Tracks :
      (h : History) (now : ℕ) (large : Bool) (s : NullifierStore T)
      → Tracks h now s
      → Tracks h now (if large then cleanup_rate_limit_map now s else s)
  may_clean-Tracks h now true s tr = cleanup-Tracks h now s tr
  may_clean-Tracks h now false s tr = tr

  -- One call answers as the specification does, and keeps the correspondence.
  pub check_rate_limit-Tracks :
      (h : History) (last now : ℕ) (n : Text) (s : NullifierStore T)
      → last ≤ now
      → Tracks h last s
      → ((check_rate_limit now n s).1 ≡ is_allowed now n h)
        × Tracks (extend now n h) now (check_rate_limit now n s).0
  unfolding check_rate_limit
  check_rate_limit-Tracks h last now n s le tr =
      let size : length (recent now n s) ≡ accepted_in_window now n h =
        ap length (tr.counts now n le) in
      elim (Bool-cases (leb rate_limit_max_attempts (length (recent now n s)))) [
        | inl full ↦
            let no_more : is_allowed now n h ≡ false = ground arith in
            rw (full, no_more) (refl, later-Tracks h last now s le tr)
        | inr room ↦
            let more : is_allowed now n h ≡ true = ground arith in
            rw (room, more)
              (
                refl,
                may_clean-Tracks (h ++ (now, n) ∷ []) now _ _ (push-Tracks h last now n s le tr),
              )
      ]
