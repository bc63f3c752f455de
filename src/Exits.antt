-- ===== src/Exits.antt =====
-- The watch over exits (src/longjing/exit-watcher.service.ts).
mod Tests
pub mod Challenges
pub mod Watching
use zk_api.Common.{ℕ, Bool, Option, none, some, if◌then◌else◌}
use zk_api.Common.Eq.{◌===◌, text_eq}
use zk_api.Common.Text.{Text}
use zk_api.Longjing.{World}
use zk_api.Nullifiers.{StoredSignal, check_and_set}
use zk_api.Signal.{to_string}
use zk_api.Slashing.{Chain, slash_revealed}

-- `WithdrawalInitiated`, the members that are read.
pub record WithdrawalInitiated : Type 0 where
  pub nullifier : ℕ
  pub signal_x : ℕ
  pub signal_y : ℕ

abbrev pub exit_signal : WithdrawalInitiated → StoredSignal
exit_signal exit = record { x = to_string exit.signal_x; y = to_string exit.signal_y }

-- The end of `ingest`, from what the table held.
abbrev pub challenge : Chain → WithdrawalInitiated → Option StoredSignal → World → World
challenge chain exit none w = w
challenge chain exit (some existing) w =
    if existing.x === to_string exit.signal_x
    then w
    else record w { sent = slash_revealed chain existing (exit_signal exit) w.sent }

-- `ingest`
unfoldable pub ingest : Chain → WithdrawalInitiated → World → World
ingest chain exit w =
    let (s, existing) = check_and_set (to_string exit.nullifier) (exit_signal exit) w.store in
    challenge chain exit existing (record w { store = s })
