-- ===== src/Slashing.antt =====
-- Recovery of a revealed secret key and the slashing transaction (src/longjing/slashing.service.ts).
-- The chain is a parameter: whether a contract and a signer are configured, and whether a
-- transaction that carries a key is confirmed.
mod Tests
pub mod Recovery
pub mod Stored
use zk_api.Common.{
  ℕ, ◌+◌, ◌-◌, ◌*◌, ◌%◌, Bool, true, false, Option, none, some, List, [], ◌∷◌, ◌++◌, ◌==◌,
  if◌then◌else◌,
}
use zk_api.Common.Int.{ℤ, pos, ◌-ℤ◌, ◌*ℤ◌}
use zk_api.Common.Exec.{Exec, ok, err, pure, throw}
use zk_api.Common.Text.{Text}
use zk_api.Field.{to_field, power}
use zk_api.Nullifiers.{StoredSignal}
use zk_api.Signal.{bn254_scalar_field, is_decimal, big_int_decimal}

-- A signal as numbers.
pub record Point : Type 0 where
  pub x : ℕ
  pub y : ℕ

-- `recoverSecretKey`, over the field order p; `none` is its exception.
unfoldable pub recover_secret_key : ℕ → Point → Point → Option ℕ
recover_secret_key p signal1 signal2 =
    let denominator = to_field p (pos signal2.x -ℤ pos signal1.x) in
    if denominator == 0
    then none
    else let inverse = power p 1 denominator (p - 2) in
      some
        (to_field p ((pos (signal1.y * signal2.x) -ℤ pos (signal2.y * signal1.x)) *ℤ pos inverse))

-- `BigInt(text)` of a stored coordinate. The store holds what `bigint.toString()` printed, so only
-- decimal texts are read; any other is a SyntaxError here.
unfoldable pub stored_number : Text → Option ℕ
unfolding big_int_decimal
stored_number s = if is_decimal s then big_int_decimal s else none

unfoldable pub stored_point : StoredSignal → Option Point
unfolding stored_number
stored_point signal = elim (stored_number signal.x) [
  | none ↦ none
  | some x ↦ elim (stored_number signal.y) [ none ↦ none | some y ↦ some (record { x = x; y = y }) ]
]

pub record Chain : Type 0 where
  pub enabled : Bool
  pub confirmed : ℕ → Bool

pub data SlashError : Type 0 where
  signals_share_x bad_signal transaction_failed : SlashError

-- The secret keys that slashing transactions have carried, oldest first.
abbrev pub Sent : Type 0
Sent = List ℕ

module _ (chain : Chain) where
  -- `slash`: whether a transaction was confirmed, or false where slashing is not configured.
  unfoldable pub slash : ℕ → Exec SlashError Sent Bool
  slash secret_key sent =
      if chain.enabled
      then (
        if chain.confirmed secret_key then ok true else err transaction_failed,
        sent ++ secret_key ∷ [],
      )
      else (ok false, sent)

  -- The body of the `try` in `slashRevealed`, from the two points.
  unfoldable pub slash_points : Option Point → Option Point → Exec SlashError Sent Bool
  unfolding slash
  slash_points (some p1) (some p2) = elim (recover_secret_key bn254_scalar_field p1 p2) [
    | none ↦ throw signals_share_x
    | some secret_key ↦ slash secret_key
  ]
  slash_points _ _ = throw bad_signal

  -- `slashRevealed`: every failure is caught, so only what was sent is left.
  unfoldable pub slash_revealed : StoredSignal → StoredSignal → Sent → Sent
  unfolding slash_points stored_point
  slash_revealed signal1 signal2 sent =
      if chain.enabled
      then (slash_points (stored_point signal1) (stored_point signal2) sent).1
      else sent
