-- ===== src/Exits/Tests.antt =====
-- Instances of the watcher, on the small world.
use zk_api.Common.{
  ℕ, ◌≡◌, refl, true, false, ◌&&◌, some, List, [], ◌∷◌, ◌++◌, arith, leb, ltb, filter, All,
}
use zk_api.Common.Exec.{ok}
use zk_api.Blockchain.{Blockchain, new}
use zk_api.Blockchain.Watch.{from_block, watched, watch_withdrawals}
use zk_api.Exits.Watching.{is_recorded, recent_exits_recorded, exits_between_missed}
use zk_api.Common.Dict.{lookup}
use zk_api.Common.Eq.{◌===◌, text_eq}
use zk_api.Common.Text.{codes}
use zk_api.Exits.{WithdrawalInitiated, ingest}
use zk_api.Exits.Challenges.{exit_closes_index, used_index_challenged}
use zk_api.Field.{to_field, power}
use zk_api.Common.Int.{◌-ℤ◌, ◌*ℤ◌}
use zk_api.Longjing.{World}
use zk_api.Longjing.Fixtures.{serving, request, world}
use zk_api.Longjing.Serve.{handle_request}
use zk_api.Longjing.Server.{ServerEvent, requested, cleaned, run_server}
use zk_api.Signal.Canonical.{canonical}
use zk_api.Nullifiers.{StoredSignal}
use zk_api.Signal.{parse_field_element, trim, bn254_scalar_field, to_string}
use zk_api.Slashing.{stored_point, recover_secret_key}

abbrev exit : WithdrawalInitiated
exit = record { nullifier = 17; signal_x = 2; signal_y = 7 }

abbrev later_events : List ServerEvent
later_events = requested serving request ∷ cleaned 700000 ∷ []

request-named : canonical request.nullifier ≡ some (to_string exit.nullifier)
unfolding parse_field_element trim to_string
request-named = refl

exit_closes_index_example :
    let w' = run_server later_events (ingest serving.chain exit world) in
    (handle_request serving request w').1.provider_calls ≡ w'.provider_calls
exit_closes_index_example =
    exit_closes_index serving.chain exit later_events world serving request request-named

abbrev first_use : StoredSignal
first_use = record { x = codes "1"; y = codes "5" }

abbrev used_world : World
used_world = record world {
  store = record world.store { nullifiers = (codes "17", first_use) ∷ [] };
}

seventeen-lookup : lookup (to_string exit.nullifier) used_world.store.nullifiers ≡ some first_use
unfolding to_string
seventeen-lookup = refl

signals_differ : (first_use.x === to_string exit.signal_x) ≡ false
unfolding to_string
signals_differ = refl

first_use-stored_point : stored_point first_use ≡ some (record { x = 1; y = 5 })
unfolding stored_point
first_use-stored_point = refl

exit-key :
    recover_secret_key bn254_scalar_field
      (record { x = 1; y = 5 })
      (record { x = exit.signal_x; y = exit.signal_y })
    ≡ some 3
unfolding recover_secret_key to_field ◌-ℤ◌ ◌*ℤ◌ power
exit-key = refl

used_index_challenged_example :
    ingest serving.chain exit used_world ≡ record used_world { sent = used_world.sent ++ 3 ∷ [] }
used_index_challenged_example =
    used_index_challenged serving.chain exit used_world first_use (record { x = 1; y = 5 }) 3
      seventeen-lookup signals_differ refl first_use-stored_point exit-key

abbrev connected : Blockchain
connected = record new { contract = some (codes "0x01") }

abbrev log : List (ℕ × WithdrawalInitiated)
log = (4, record exit { nullifier = 5 }) ∷ (25009, exit) ∷ (25011, exit) ∷ []

recent_exits_recorded_example :
    (w' : World) × (watch_withdrawals connected (ingest serving.chain) 25010 25010 25010 log world
      ≡ ok w')
    × All (λ e. is_recorded w' e.1 ≡ true) (filter (λ e. leb (from_block 25010) e.0) log)
recent_exits_recorded_example =
    recent_exits_recorded serving.chain connected (codes "0x01") 25010 25010 25010 log world refl
      (omega arith)

exits_between_missed_test :
    filter (λ e. ltb 25010 e.0 && leb e.0 25012) (watched 25010 25010 25012 log) ≡ []
exits_between_missed_test = exits_between_missed 25010 25010 25012 log
