-- ===== src/Blockchain/Closing.antt =====
-- The connection while the application closes, and while an attempt is checked
-- (src/longjing/blockchain.service.ts).
use zk_api.Common.{ℕ, ◌≡◌, refl, ◌∙◌, Bool, true, false, Option, none, some, List, [], ◌∷◌, arith}
use zk_api.Common.Exec.{ok, err}
use zk_api.Common.Text.{Text}
use zk_api.Config.{prod, chain_matches_profile}
use zk_api.Blockchain.{
  Deployment, Provider, Phase, started, awaiting_chain_id, Blockchain, Event, destroy,
  listeners_removed, chain_id_answered, c_max_answered, step, run, is_available, can_activate,
  get_c_max, c_max_not_read, register, on_module_destroy, destroy_provider, fire, build_prod, build,
  create_signer, resume,
}
use zk_api.Blockchain.Attempts.{Answers, attempt, outcome, connects, starting, attempt_concludes}

-- The members that a closed service keeps.
abbrev pub IsClosed : Option Provider → Option Text → Blockchain → Type 0
IsClosed p c s =
    (s.destroyed ≡ true)
    × (s.phase ≡ started)
    × (s.retry ≡ none)
    × (s.provider ≡ p)
    × (s.contract ≡ c)

abbrev destroyed_provider : Option Provider → Option Provider
destroyed_provider none = none
destroyed_provider (some p) = some (record p { is_destroyed = true })

resume-IsClosed :
    (d : Deployment) (s : Blockchain) (p : Option Provider) (c : Option Text) (ph : Phase)
    (e : Event)
    → s.phase ≡ ph
    → IsClosed (destroyed_provider p) c s
    → IsClosed (destroyed_provider p) c (resume d ph e s)
unfolding resume fire register on_module_destroy destroy_provider
resume-IsClosed d s p c ph e hp h = ground arith

run-IsClosed :
    (d : Deployment) (es : List Event) (s : Blockchain) (p : Option Provider) (c : Option Text)
    → IsClosed (destroyed_provider p) c s
    → IsClosed (destroyed_provider p) c (run d es s)
unfolding run step
run-IsClosed d [] s p c h = h
run-IsClosed d (e ∷ es) s p c h =
    run-IsClosed d es (step d e s) p c (resume-IsClosed d s p c s.phase e refl h)

-- Where no method is suspended when the application closes, and its listeners are removed, no later event connects, fires the timer or
-- brings a provider back: the provider stays destroyed and the contract what it was.
pub destroy-IsClosed :
    (d : Deployment) (s : Blockchain) (es : List Event)
    → s.phase ≡ started
    → IsClosed
        (destroyed_provider s.provider)
        s.contract
        (run d (destroy ∷ listeners_removed ∷ es) s)
unfolding run step resume on_module_destroy destroy_provider
destroy-IsClosed d s es h =
    run-IsClosed d es (destroy_provider (on_module_destroy s)) s.provider s.contract (ground arith)

-- An attempt that is under way when the application closes is not stopped: answered rightly after the listeners are
-- removed and the provider is destroyed, it has a new
-- provider that is not destroyed, the contract, the signer and C_MAX, no handler waits any more, and the
-- first that waited is called.
pub closing_attempt_connects :
    (d : Deployment) (address : Text) (at_boot : Bool) (s : Blockchain) (a : Answers) (n c : ℕ)
    → s.phase ≡ awaiting_chain_id address at_boot
    → outcome a ≡ connects n c
    → run d (destroy ∷ listeners_removed ∷ attempt a) s
      ≡ starting d address n c (record s { destroyed = true; retry = none; closing = false })
unfolding run step resume on_module_destroy destroy_provider
closing_attempt_connects d address at_boot s a n c h o =
    attempt_concludes d address at_boot (destroy_provider (on_module_destroy s)) a h ∙ rw (o) refl

-- While a retry checks a contract, the guard already lets requests through: from the chain's answer on,
-- with C_MAX unread, and then with C_MAX read and the refund key unchecked.
pub unchecked_contract_available :
    (d : Deployment) (address : Text) (at_boot : Bool) (s : Blockchain) (n c : ℕ)
    → s.phase ≡ awaiting_chain_id address at_boot
    → s.c_max ≡ none
    → chain_matches_profile prod n ≡ true
    → (can_activate prod (run d (chain_id_answered (some n) ∷ []) s) ≡ true)
      × (get_c_max (run d (chain_id_answered (some n) ∷ []) s) ≡ err c_max_not_read)
      × (can_activate prod (run d (chain_id_answered (some n) ∷ c_max_answered (some c) ∷ []) s)
          ≡ true)
      × (get_c_max (run d (chain_id_answered (some n) ∷ c_max_answered (some c) ∷ []) s) ≡ ok c)
unfolding run step resume build_prod build create_signer can_activate is_available get_c_max
unchecked_contract_available d address at_boot s n c h m k = ground arith
