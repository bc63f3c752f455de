-- ===== src/Slashing/Stored.antt =====
-- The stored coordinates, which `bigint.toString()` printed, read back by `BigInt`.
use zk_api.Common.{ℕ, ◌≡◌, some}
use zk_api.Signal.{to_string}
use zk_api.Signal.Canonical.{is_decimal-to_string, big_int_decimal-to_string}
use zk_api.Slashing.{stored_number}

pub stored_number-to_string : (n : ℕ) → stored_number (to_string n) ≡ some n
unfolding stored_number
stored_number-to_string n = rw (is_decimal-to_string n) (big_int_decimal-to_string n)
