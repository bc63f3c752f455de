-- ===== src/Limiter.antt =====
-- The caps on concurrent work (src/longjing/utils/concurrency-limiter.ts and
-- src/longjing/compute-limiter.service.ts). `active` changes only in the synchronous parts of `run`,
-- before and after the task, so an interleaving of tasks is a sequence of `enter` and `leave`.
mod Tests
pub mod Interleavings
use zk_api.Common.{
  ℕ, zero, suc, ◌+◌, ◌-◌, Bool, true, false, Option, none, some, String, ltb, leb, if◌then◌else◌,
  ◌||◌,
}
use zk_api.Common.Exec.{Exec, Result, ok, err}

-- A JavaScript number, as far as the constructor looks at it: a natural number, or anything that
-- fails its test (a negative or fractional number, NaN, an infinity).
pub data Number : Type 0 where
  natural : ℕ → Number
  unusable : Number

pub record ConcurrencyLimiter : Type 0 where
  pub max : ℕ
  pub active : ℕ

-- The constructor; `none` is its exception.
pub create : Number → Option ConcurrencyLimiter
create (natural zero) = none
create (natural (suc n)) = some (record { max = suc n; active = 0 })
create unusable = none

-- The part of `run` before the task: `none` is the 503 `Server busy, retry later`.
pub enter : ConcurrencyLimiter → Option ConcurrencyLimiter
enter l = if leb l.max l.active then none else some (record l { active = l.active + 1 })

-- The `finally` of `run`.
pub leave : ConcurrencyLimiter → ConcurrencyLimiter
leave l = record l { active = l.active - 1 }

-- Where a limiter is held in the state of the caller.
pub record Slot (S : Type 0) : Type 0 where
  pub limiter : S → ConcurrencyLimiter
  pub set_limiter : ConcurrencyLimiter → S → S

module _ {E S A : Type 0} (slot : Slot S) (busy : E) where
  -- `run(task)` with nothing else between its parts; the task may throw.
  unfoldable pub run_task : Exec E S A → Exec E S A
  unfolding enter leave
  run_task task s = elim (enter (slot.limiter s)) [
    | none ↦ (err busy, s)
    | some l ↦
        let (r, s') = task (slot.set_limiter l s) in
        (r, slot.set_limiter (leave (slot.limiter s')) s')
  ]

abbrev pub default_max_concurrent_verifications : ℕ
default_max_concurrent_verifications = 8

abbrev pub default_max_concurrent_proofs : ℕ
default_max_concurrent_proofs = 2

-- `limitFromEnv`: an unset or empty variable gives the fallback. `to_number` is `Number`.
pub limit_from_env : (String → Number) → Option String → ℕ → Number
limit_from_env to_number none fallback = natural fallback
limit_from_env to_number (some String.[]) fallback = natural fallback
limit_from_env to_number (some value) fallback = to_number value

pub record ComputeLimiterService : Type 0 where
  pub verification : ConcurrencyLimiter
  pub proving : ConcurrencyLimiter

abbrev both : Option ConcurrencyLimiter → Option ConcurrencyLimiter → Option ComputeLimiterService
both (some v) (some p) = some (record { verification = v; proving = p })
both _ _ = none

-- The field initialisers of the service, from the two environment variables.
pub compute_limiter :
    (String → Number) → Option String → Option String → Option ComputeLimiterService
unfolding create limit_from_env
compute_limiter to_number verifications proofs =
    both (create (limit_from_env to_number verifications default_max_concurrent_verifications))
      (create (limit_from_env to_number proofs default_max_concurrent_proofs))
