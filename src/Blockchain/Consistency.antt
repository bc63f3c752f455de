-- ===== src/Blockchain/Consistency.antt =====
-- What holds of the connection between any two events (src/longjing/blockchain.service.ts).
use zk_api.Common.{
  ℕ, ◌≡◌, refl, Bool, true, false, not, Option, none, some, List, [], ◌∷◌, ◌==◌, arith, is_some,
  inl, inr, Option-cases,
}
use zk_api.Common.Exec.{ok}
use zk_api.Common.Text.{Text}
use zk_api.Config.{prod, chain_matches_profile}
use zk_api.Blockchain.{
  Deployment, Provider, Phase, created, started, refused, awaiting_chain_id, awaiting_c_max,
  awaiting_server_key, awaiting_signer_key, awaiting_server_address, local_chain_id, local_c_max,
  running_handlers, Blockchain, new, Event, init, timer_fired, handler_done, destroy,
  listeners_removed, chain_id_answered, c_max_answered, server_key_answered, signer_key_answered,
  server_address_answered, on_connected, step, run, can_activate, is_available, unanswered,
  misconfigured, disconnect, run_next, register, on_module_destroy, destroy_provider, fire,
  on_module_init, build_prod, build, connected_now, resume, wrong_refund_key, get_c_max,
}

-- The phases before `build`, and those of production after C_MAX is read.
abbrev pub is_unbuilt : Phase → Bool
is_unbuilt created = true
is_unbuilt (refused e) = true
is_unbuilt (local_chain_id a) = true
is_unbuilt (awaiting_chain_id a b) = true
is_unbuilt _ = false

abbrev pub is_building : Phase → Bool
is_building (awaiting_c_max a b) = true
is_building (awaiting_server_key a b) = true
is_building (awaiting_signer_key a b key) = true
is_building (awaiting_server_address a b) = true
is_building (running_handlers hs) = true
is_building _ = false

abbrev pub reads_c_max : Phase → Bool
reads_c_max (awaiting_c_max a b) = true
reads_c_max local_c_max = true
reads_c_max _ = false

abbrev pub is_local : Phase → Bool
is_local (local_chain_id a) = true
is_local local_c_max = true
is_local _ = false

abbrev pub is_started : Phase → Bool
is_started started = true
is_started _ = false

abbrev pub is_right_chain : Option Provider → Bool
is_right_chain none = true
is_right_chain (some p) = not (p.chain_id == 31337)

-- In production.
pub record IsConsistent (s : Blockchain) : Type 0 where
  pub paired : is_some s.provider ≡ is_some s.contract
  pub right_chain : is_right_chain s.provider ≡ true
  pub unbuilt : is_unbuilt s.phase ≡ true → is_some s.contract ≡ false
  pub built : is_building s.phase ≡ true → is_some s.contract ≡ true
  pub read : reads_c_max s.phase ≡ false → is_some s.contract ≡ true → is_some s.c_max ≡ true
  pub not_local : is_local s.phase ≡ false
  pub idle_retry :
      is_some s.retry ≡ true
      → (is_started s.phase ≡ true) × (is_some s.contract ≡ false) × (s.destroyed ≡ false)

pub new-IsConsistent : IsConsistent new
unfolding new
new-IsConsistent = ground arith

module _ (s : Blockchain) (h : IsConsistent s) where
  unanswered-IsConsistent : (a : Text) → is_some s.retry ≡ false → IsConsistent (unanswered a s)
  unfolding unanswered disconnect
  unanswered-IsConsistent a r = ground arith

  fire-IsConsistent : (r : Option Text) → s.retry ≡ r → IsConsistent (fire r s)
  unfolding fire
  fire-IsConsistent none e = h
  fire-IsConsistent (some a) e = ground arith

  on_module_destroy-IsConsistent : IsConsistent (on_module_destroy s)
  unfolding on_module_destroy
  on_module_destroy-IsConsistent = ground arith

  destroy_provider-IsConsistent : IsConsistent (destroy_provider s)
  unfolding destroy_provider
  destroy_provider-IsConsistent = ground arith

  register-IsConsistent : (n : ℕ) → IsConsistent (register n s)
  unfolding register
  register-IsConsistent n = ground arith

  run_next-IsConsistent :
      (hs : List ℕ)
      → is_building s.phase ≡ true
      → reads_c_max s.phase ≡ false
      → IsConsistent (run_next hs s)
  unfolding run_next
  run_next-IsConsistent [] b r = ground arith
  run_next-IsConsistent (n ∷ hs) b r = ground arith

  build_prod-IsConsistent :
      (d : Deployment) (a : Text) (b : Bool) (n : ℕ)
      → is_some s.contract ≡ false
      → is_some s.retry ≡ false
      → IsConsistent (build_prod d a b n s)
  unfolding build_prod build misconfigured disconnect
  build_prod-IsConsistent d a b n u r = ground arith

  misconfigured-IsConsistent :
      (b : Bool) → is_some s.retry ≡ false → IsConsistent (misconfigured wrong_refund_key b s)
  unfolding misconfigured disconnect
  misconfigured-IsConsistent b r = ground arith

  on_module_init-IsConsistent :
      (d : Deployment) → d.profile ≡ prod → s.phase ≡ created → IsConsistent (on_module_init d s)
  unfolding on_module_init
  on_module_init-IsConsistent d p e = ground arith

  forget : IsConsistent (record s { connected_handlers = [] })
  forget = ground arith

-- An event in each phase.
pub resume-IsConsistent :
    (s : Blockchain) (h : IsConsistent s) (d : Deployment) (p : Phase) (e : Event)
    → d.profile ≡ prod
    → s.phase ≡ p
    → IsConsistent (resume d p e s)
unfolding resume connected_now
resume-IsConsistent s h d p timer_fired hd hp = fire-IsConsistent s h s.retry refl
resume-IsConsistent s h d p destroy hd hp = on_module_destroy-IsConsistent s h
resume-IsConsistent s h d p listeners_removed hd hp = destroy_provider-IsConsistent s h
resume-IsConsistent s h d p (on_connected n) hd hp = register-IsConsistent s h n
resume-IsConsistent s h d created init hd hp = on_module_init-IsConsistent s h d hd hp
resume-IsConsistent s h d (local_chain_id a) e hd hp = ground (arith)
resume-IsConsistent s h d local_c_max e hd hp = ground (arith)
resume-IsConsistent s h d (awaiting_chain_id a b) (chain_id_answered none) hd hp =
    unanswered-IsConsistent s h a (ground arith)
resume-IsConsistent s h d (awaiting_chain_id a b) (chain_id_answered (some n)) hd hp =
    build_prod-IsConsistent s h d a b n (ground arith) (ground arith)
resume-IsConsistent s h d (awaiting_c_max a b) (c_max_answered none) hd hp =
    unanswered-IsConsistent s h a (ground arith)
resume-IsConsistent s h d (awaiting_c_max a b) (c_max_answered (some n)) hd hp = ground arith
resume-IsConsistent s h d (awaiting_server_key a b) (server_key_answered none) hd hp =
    unanswered-IsConsistent s h a (ground arith)
resume-IsConsistent s h d (awaiting_server_key a b) (server_key_answered (some k)) hd hp =
    ground arith
resume-IsConsistent s h d (awaiting_signer_key a b k) (signer_key_answered none) hd hp =
    unanswered-IsConsistent s h a (ground arith)
resume-IsConsistent s h d (awaiting_signer_key a b k) (signer_key_answered (some k')) hd hp =
    ground (arith, misconfigured-IsConsistent s h b)
resume-IsConsistent s h d (awaiting_server_address a b) (server_address_answered none) hd hp =
    unanswered-IsConsistent s h a (ground arith)
resume-IsConsistent s h d (awaiting_server_address a b) (server_address_answered (some t)) hd hp =
    run_next-IsConsistent (record s { connected_handlers = [] }) (forget s h) s.connected_handlers
      (ground arith) (ground arith)
resume-IsConsistent s h d (running_handlers hs) handler_done hd hp =
    run_next-IsConsistent s h hs (ground arith) (ground arith)
resume-IsConsistent s h d p e hd hp = h

-- In production, every run of events keeps the connection consistent: the provider and the contract are
-- set together and only on a chain other than Anvil's, C_MAX is known once it was answered, and a retry
-- is armed only while nothing is connected, no attempt is under way and the application is not closing.
pub run-IsConsistent :
    (d : Deployment) (es : List Event) (s : Blockchain)
    → d.profile ≡ prod
    → IsConsistent s
    → IsConsistent (run d es s)
unfolding run step
run-IsConsistent d [] s hd h = h
run-IsConsistent d (e ∷ es) s hd h =
    run-IsConsistent d es (step d e s) hd (resume-IsConsistent s h d s.phase e hd refl)

answers :
    (s : Blockchain)
    → IsConsistent s
    → can_activate prod s ≡ true
    → reads_c_max s.phase ≡ false
    → ((p : Provider) × (s.provider ≡ some p) × (chain_matches_profile prod p.chain_id ≡ true))
      × ((n : ℕ) × (get_c_max s ≡ ok n))
unfolding can_activate get_c_max is_available chain_matches_profile
answers s i h r = elim (Option-cases s.provider) [
  | inl e ↦ ground arith
  | inr (p, e) ↦ elim (Option-cases s.c_max) [
    | inl e' ↦ ground (arith, i.read r)
    | inr (n, e') ↦ ((p, e, ground (arith, i.right_chain)), (n, ground arith))
  ]
]

-- In production, after any events since the start, a request that the guard lets through finds a
-- provider on a chain other than Anvil's, and getCMax answers, unless the answer of C_MAX is awaited.
pub can_activate-get_c_max :
    (d : Deployment) (es : List Event)
    → d.profile ≡ prod
    → can_activate prod (run d es new) ≡ true
    → reads_c_max (run d es new).phase ≡ false
    → ((p : Provider) × ((run d es new).provider ≡ some p)
        × (chain_matches_profile prod p.chain_id ≡ true))
      × ((n : ℕ) × (get_c_max (run d es new) ≡ ok n))
can_activate-get_c_max d es hd h r =
    answers (run d es new) (run-IsConsistent d es new hd new-IsConsistent) h r
