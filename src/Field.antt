-- ===== src/Field.antt =====
-- Arithmetic modulo a prime as the source writes it over `bigint`: the remainder brought to [0, m)
-- and the square-and-multiply loop, which src/longjing/accumulator.ts and
-- src/longjing/slashing.service.ts both contain.
mod Tests
pub mod Congruence
pub mod Power
use mathlib.Core.WellFounded.{Acc}
use mathlib.Core.Logic.{dite}
use native.Mathlib.Decide.{dec_lt}
use zk_api.Common.{ℕ, ◌+◌, ◌*◌, ◌/◌, ◌%◌, ◌<◌, arith, ◌==◌, if◌then◌else◌}
use zk_api.Common.Int.{ℤ, pos, pos_part, ◌+ℤ◌, rem}
use zk_api.Common.Order.{lt_wf}

-- `((x % m) + m) % m`, where `%` keeps the sign of `x`.
unfoldable pub to_field : ℕ → ℤ → ℕ
unfolding rem ◌+ℤ◌
to_field m x = pos_part (rem (rem x m +ℤ pos m) m)

-- `while (e > 0n) { if (e & 1n) result = (result * b) % m; b = (b * b) % m; e >>= 1n; }`
pub square_multiply : ℕ → (result b e : ℕ) → Acc ◌<◌ e → ℕ
square_multiply m result b e (Acc.intro _ smaller) =
    dite (dec_lt 0 e)
      (λ h.
        square_multiply m (if e % 2 == 1 then result * b % m else result) (b * b % m) (e / 2)
          (smaller (e / 2) (omega arith)))
      (λ _. result)

unfoldable pub power : ℕ → (result b e : ℕ) → ℕ
unfolding square_multiply lt_wf dec_lt
power m result b e = square_multiply m result b e (lt_wf.apply e)
