-- ===== src/Nullifiers/Spent.antt =====
-- The table of spent nullifiers (checkAndSet, get, exists, count) under every later operation.
use zk_api.Common.{
  ℕ, suc, ◌+◌, ◌≤◌, ◌≡◌, Bool, true, false, Option, none, some, List, [], ◌∷◌, ◌++◌, arith, length,
  length-append, if◌then◌else◌,
}
use zk_api.Common.Dict.{Dict, lookup, insert, lookup-insert}
use zk_api.Common.Eq.{◌===◌, text_eq, text_beq_iff}
use zk_api.Common.Text.{Text}
use zk_api.Nullifiers.{
  NullifierStore, StoredSignal, empty_store, get, exists, check_and_set, remember_response,
  cleanup_rate_limit_map, cleanup_responses, check_rate_limit, count,
}

-- The operations that the running server performs; `clear` is there for tests only.
pub data StoreOp (T : Type 0) : Type 0 where
  spend : Text → StoredSignal → StoreOp T
  remember : ℕ → Text → StoredSignal → T → StoreOp T
  attempt : ℕ → Text → StoreOp T
  cleanup : ℕ → StoreOp T

-- The nullifier that this operation recorded, if it is a `checkAndSet` that returned null.
abbrev newly : Text → Option StoredSignal → List Text
newly n none = n ∷ []
newly n (some existing) = []

module _ {T : Type 0} where
  pub apply_op : StoreOp T → NullifierStore T → NullifierStore T × List Text
  apply_op (spend n signal) s =
      let (s', existing) = check_and_set n signal s in (s', newly n existing)
  apply_op (remember now n signal r) s = (remember_response now n signal r s, [])
  apply_op (attempt now n) s = ((check_rate_limit now n s).0, [])
  apply_op (cleanup now) s = (cleanup_responses now (cleanup_rate_limit_map now s), [])

  -- The final store, and the nullifiers that were recorded on the way, in order.
  pub apply_ops : List (StoreOp T) → NullifierStore T → NullifierStore T × List Text
  apply_ops [] s = (s, [])
  apply_ops (op ∷ ops) s =
      let (s', recorded) = apply_op op s in
      let (s'', later) = apply_ops ops s' in (s'', recorded ++ later)

abbrev pub occurrences : Text → List Text → ℕ
occurrences n [] = 0
occurrences n (m ∷ ms) = if m === n then suc (occurrences n ms) else occurrences n ms

pub occurrences-append :
    (n : Text) (xs ys : List Text) → occurrences n (xs ++ ys) ≡ occurrences n xs + occurrences n ys
occurrences-append n [] ys = omega arith
occurrences-append n (x ∷ xs) ys = ground (arith, occurrences-append n xs ys)

abbrev pub to_number : Bool → ℕ
to_number true = 1
to_number false = 0

pub insert_new :
    (n : Text) (signal : StoredSignal) (m : Dict Text StoredSignal)
    → lookup n m ≡ none
    → length (insert n signal m) ≡ length m + 1
insert_new n signal [] h = omega arith
insert_new n signal ((k, v) ∷ m) h = ground (arith, insert_new n signal m)

module _ {T : Type 0} where
  pub get-apply_op :
      (op : StoreOp T) (s : NullifierStore T) (n : Text) (signal : StoredSignal)
      → get n s ≡ some signal
      → get n (apply_op op s).0 ≡ some signal
  unfolding get apply_op check_and_set remember_response check_rate_limit cleanup_responses
  get-apply_op (spend m other) s n signal h =
      ground (arith, lookup-insert m n other s.nullifiers, text_beq_iff m n)
  get-apply_op (attempt now m) s n signal h = ground arith
  get-apply_op _ s n signal h = h

  exists-apply_op :
      (op : StoreOp T) (s : NullifierStore T) (n : Text)
      → to_number (exists n (apply_op op s).0)
        ≡ to_number (exists n s) + occurrences n (apply_op op s).1
  unfolding get exists apply_op check_and_set remember_response check_rate_limit cleanup_responses
  exists-apply_op (spend m other) s n =
      ground (arith, lookup-insert m n other s.nullifiers, text_beq_iff m n)
  exists-apply_op (attempt now m) s n = ground arith
  exists-apply_op _ s n = omega arith

  -- Once a nullifier is spent, the signal stored under it is the first one, whatever operations follow.
  pub first_signal_stays :
      (ops : List (StoreOp T)) (s : NullifierStore T) (n : Text) (signal : StoredSignal)
      → get n s ≡ some signal
      → get n (apply_ops ops s).0 ≡ some signal
  unfolding apply_ops
  first_signal_stays [] s n signal h = h
  first_signal_stays (op ∷ ops) s n signal h =
      first_signal_stays ops (apply_op op s).0 n signal (get-apply_op op s n signal h)

  recorded_count :
      (ops : List (StoreOp T)) (s : NullifierStore T) (n : Text)
      → to_number (exists n (apply_ops ops s).0)
        ≡ to_number (exists n s) + occurrences n (apply_ops ops s).1
  unfolding apply_ops
  recorded_count [] s n = omega arith
  recorded_count (op ∷ ops) s n =
      let (s', recorded) = apply_op op s in
      omega (
        arith,
        recorded_count ops s' n,
        exists-apply_op op s n,
        occurrences-append n recorded (apply_ops ops s').1,
      )

  count-apply_op :
      (op : StoreOp T) (s : NullifierStore T)
      → count (apply_op op s).0 ≡ count s + length (apply_op op s).1
  unfolding get count apply_op check_and_set remember_response check_rate_limit cleanup_responses
  count-apply_op (spend m other) s = ground (arith, insert_new m other s.nullifiers)
  count-apply_op (attempt now m) s = ground arith
  count-apply_op _ s = omega arith

  count-apply_ops :
      (ops : List (StoreOp T)) (s : NullifierStore T)
      → count (apply_ops ops s).0 ≡ count s + length (apply_ops ops s).1
  unfolding apply_ops
  count-apply_ops [] s = omega arith
  count-apply_ops (op ∷ ops) s =
      let (s', recorded) = apply_op op s in
      omega (
        arith,
        count-apply_ops ops s',
        count-apply_op op s,
        length-append recorded (apply_ops ops s').1,
      )

at_most_one : {k : ℕ} (b : Bool) → k ≡ to_number b → k ≤ 1
at_most_one true h = omega arith
at_most_one false h = omega arith

counted :
    (T : Type 0) (ops : List (StoreOp T)) (n : Text)
    → occurrences n (apply_ops ops empty_store).1
      ≡ to_number (exists n (apply_ops ops empty_store).0)
unfolding exists
counted T ops n = omega (arith, recorded_count ops (empty_store {T = T}) n)

sized :
    (T : Type 0) (ops : List (StoreOp T))
    → count (apply_ops ops empty_store).0 ≡ length (apply_ops ops empty_store).1
unfolding count
sized T ops = omega (arith, count-apply_ops ops (empty_store {T = T}))

-- From an empty store, whatever operations run, a nullifier is recorded by at most one call of
-- `checkAndSet`: by one if it is in the table at the end, else by none. `count` is the number of
-- calls that recorded one.
pub recorded_once :
    (T : Type 0) (ops : List (StoreOp T)) (n : Text)
    → let (s, recorded) = apply_ops ops empty_store in
      (occurrences n recorded ≡ to_number (exists n s))
      × (occurrences n recorded ≤ 1)
      × (count s ≡ length recorded)
recorded_once T ops n = (
  counted T ops n,
  at_most_one (exists n (apply_ops ops (empty_store {T = T})).0) (counted T ops n),
  sized T ops,
)
