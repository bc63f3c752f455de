-- ===== src/Blockchain/Watch.antt =====
-- `watchWithdrawals` (src/longjing/blockchain.service.ts). The chain's log lists each exit with its
-- block; the head of the chain at the query, and the block after which the listener reports, are
-- arguments.
use zk_api.Common.{ℕ, ◌-◌, ◌&&◌, none, some, List, [], ◌∷◌, ◌++◌, ltb, leb, filter}
use zk_api.Common.Exec.{Result, ok, err}
use zk_api.Blockchain.{Blockchain, CallError, not_initialized}

abbrev pub withdrawal_lookback_blocks : ℕ
withdrawal_lookback_blocks = 25000

-- `Math.max(0, latest - WITHDRAWAL_LOOKBACK_BLOCKS)`
abbrev pub from_block : ℕ → ℕ
from_block latest = latest - withdrawal_lookback_blocks

module _ {X : Type 0} where
  -- The exits that the query returns, and then those that the listener reports.
  unfoldable pub watched : ℕ → ℕ → ℕ → List (ℕ × X) → List (ℕ × X)
  watched latest head subscribed log =
      filter (λ e. leb (from_block latest) e.0 && leb e.0 head) log
      ++ filter (λ e. ltb subscribed e.0) log

  -- The handler on each of them in turn.
  unfoldable pub handle_all : {W : Type 0} → (X → W → W) → List (ℕ × X) → W → W
  handle_all handler [] w = w
  handle_all handler (e ∷ es) w = handle_all handler es (handler e.1 w)

  unfoldable pub watch_withdrawals :
      {W : Type 0} → Blockchain → (X → W → W) → ℕ → ℕ → ℕ → List (ℕ × X) → W → Result CallError W
  unfolding watched handle_all
  watch_withdrawals s handler latest head subscribed log w = elim s.contract [
    | none ↦ err not_initialized
    | some address ↦ ok (handle_all handler (watched latest head subscribed log) w)
  ]
