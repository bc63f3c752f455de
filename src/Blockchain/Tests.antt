-- ===== src/Blockchain/Tests.antt =====
-- Instances on a small deployment.
use zk_api.Common.{
  ℕ, ◌+◌, ◌≡◌, refl, true, false, none, some, List, [], ◌∷◌, ◌++◌, replicate, length,
}
use zk_api.Common.Exec.{ok, err}
use zk_api.Common.Text.{codes}
use zk_api.Config.{prod, chain_matches_profile}
use zk_api.Blockchain.{
  Deployment, PublicKey, Provider, Blockchain, new, started, awaiting_chain_id, Event, init,
  destroy, listeners_removed, timer_fired, handler_done, on_connected, chain_id_answered,
  c_max_answered, run, step, resume, on_module_init, register, is_available, build_prod, build,
  create_signer, connected_now, run_next, same_key, can_activate, get_c_max, c_max_not_read,
}
use zk_api.Blockchain.Attempts.{
  starting, Answers, attempt, outcome, connects, retries, concluded, attempt_concludes, retried,
  connected_to, retries_until_connected,
}
use zk_api.Blockchain.Closing.{
  IsClosed, destroy-IsClosed, closing_attempt_connects, unchecked_contract_available,
}
use zk_api.Blockchain.Consistency.{
  IsConsistent, new-IsConsistent, run-IsConsistent, reads_c_max, can_activate-get_c_max,
}
use zk_api.Blockchain.Handlers.{count, pending, registrations, handlers_conserved}

abbrev deployment : Deployment
deployment = record {
  profile = prod;
  rpc_url = some (codes "https://a.io");
  contract_address = some (codes "0x01");
  tx_signer = some (codes "0x02");
  private_key = none;
  wallet_of = λ key. none;
}

abbrev key : PublicKey
key = record { x = 3; y = 4 }

abbrev right : Answers
right = record {
  chain_id = some 1;
  c_max = some 1000;
  server_key = some key;
  signer_key = some key;
  server_address = some (codes "0x02");
}

abbrev silent : Answers
silent = record right { chain_id = none }

abbrev boot : List Event
boot = init ∷ on_connected 7 ∷ attempt right ++ handler_done ∷ []

run-IsConsistent_test : IsConsistent (run deployment boot new)
run-IsConsistent_test = run-IsConsistent deployment boot new refl new-IsConsistent

connected-can_activate : can_activate prod (run deployment boot new) ≡ true
unfolding can_activate is_available run new step resume on_module_init register build_prod build
    create_signer chain_matches_profile same_key connected_now run_next
connected-can_activate = refl

connected-phase : reads_c_max (run deployment boot new).phase ≡ false
unfolding run new step resume on_module_init register is_available build_prod build create_signer
    chain_matches_profile same_key connected_now run_next
connected-phase = refl

can_activate-get_c_max_example :
    ((p : Provider) × ((run deployment boot new).provider ≡ some p)
      × (chain_matches_profile prod p.chain_id ≡ true))
    × ((n : ℕ) × (get_c_max (run deployment boot new) ≡ ok n))
can_activate-get_c_max_example =
    can_activate-get_c_max deployment boot refl connected-can_activate connected-phase

handlers_conserved_example :
    count 7 (run deployment boot new).ran
      + count 7 (pending (run deployment boot new).phase)
      + count 7 (run deployment boot new).connected_handlers
    ≡ registrations 7 boot
handlers_conserved_example = handlers_conserved 7 deployment boot refl

abbrev attempting : Blockchain
attempting = record new {
  phase = awaiting_chain_id (codes "0x01") true;
  connected_handlers = 7 ∷ [];
}

attempt_concludes_example :
    run deployment (attempt right) attempting
    ≡ concluded deployment (codes "0x01") true (outcome right) attempting
attempt_concludes_example = attempt_concludes deployment (codes "0x01") true attempting right refl

right-connects : outcome right ≡ connects 1 1000
unfolding outcome chain_matches_profile same_key
right-connects = refl

silent-retries : outcome silent ≡ retries
unfolding outcome
silent-retries = refl

closing_attempt_connects_example :
    run deployment (destroy ∷ listeners_removed ∷ attempt right) attempting
    ≡ starting deployment
        (codes "0x01")
        1
        1000
        (record attempting { destroyed = true; retry = none; closing = false })
closing_attempt_connects_example =
    closing_attempt_connects deployment (codes "0x01") true attempting right 1 1000 refl
      right-connects

mainnet_matches : chain_matches_profile prod 1 ≡ true
unfolding chain_matches_profile
mainnet_matches = refl

unchecked_contract_available_example :
    (can_activate prod (run deployment (chain_id_answered (some 1) ∷ []) attempting) ≡ true)
    × (get_c_max (run deployment (chain_id_answered (some 1) ∷ []) attempting) ≡ err c_max_not_read)
    × (can_activate prod
          (run deployment (chain_id_answered (some 1) ∷ c_max_answered (some 9) ∷ []) attempting)
        ≡ true)
    × (get_c_max
          (run deployment (chain_id_answered (some 1) ∷ c_max_answered (some 9) ∷ []) attempting)
        ≡ ok 9)
unfolding new
unchecked_contract_available_example =
    unchecked_contract_available deployment (codes "0x01") true attempting 1 9 refl refl
      mainnet_matches

-- A service whose retry is armed, with two handlers that wait.
abbrev waiting : Blockchain
waiting = record new {
  phase = started;
  retry = some (codes "0x01");
  connected_handlers = 7 ∷ 8 ∷ [];
}

retries_until_connected_example :
    run deployment
      (retried (silent ∷ silent ∷ [])
        ++ timer_fired ∷ attempt right
        ++ replicate (length waiting.connected_handlers) handler_done)
      waiting
    ≡ connected_to deployment (codes "0x01") 1 1000 waiting
unfolding new
retries_until_connected_example =
    retries_until_connected deployment (codes "0x01") waiting (silent ∷ silent ∷ []) right 1 1000
      refl refl (silent-retries, (silent-retries, tt)) right-connects

destroy-IsClosed_test :
    IsClosed none none
      (run deployment (destroy ∷ listeners_removed ∷ timer_fired ∷ attempt right) waiting)
unfolding new
destroy-IsClosed_test = destroy-IsClosed deployment waiting (timer_fired ∷ attempt right) refl
