-- ===== src/Blockchain/Handlers.antt =====
-- The handlers that wait for the contract (onConnected in src/longjing/blockchain.service.ts).
use zk_api.Common.{
  ℕ, suc, ◌+◌, ◌≡◌, refl, Option, none, some, List, [], ◌∷◌, ◌++◌, ◌==◌, arith, if◌then◌else◌,
}
use zk_api.Common.Text.{Text}
use zk_api.Config.{prod}
use zk_api.Blockchain.{
  Deployment, Phase, awaiting_server_address, running_handlers, Blockchain, new, Event, timer_fired,
  handler_done, server_address_answered, on_connected, step, run, unanswered, misconfigured,
  disconnect, run_next, register, on_module_destroy, destroy_provider, fire, on_module_init,
  build_prod, build_local, build, connected_now, resume,
}
use zk_api.Blockchain.Consistency.{IsConsistent, new-IsConsistent, resume-IsConsistent}

-- How often a handler is in a list.
abbrev pub count : ℕ → List ℕ → ℕ
count h [] = 0
count h (x ∷ xs) = let rest = count h xs in if x == h then suc rest else rest

count-append : (h : ℕ) (xs ys : List ℕ) → count h (xs ++ ys) ≡ count h xs + count h ys
count-append h [] ys = omega arith
count-append h (x ∷ xs) ys = ground (arith, count-append h xs ys)

-- The handlers that connectProd has taken out of the queue and not called yet.
abbrev pub pending : Phase → List ℕ
pending (running_handlers hs) = hs
pending _ = []

abbrev pub tally : ℕ → Blockchain → ℕ
tally h s = count h s.ran + count h (pending s.phase) + count h s.connected_handlers

abbrev pub registered : ℕ → Event → ℕ
registered h (on_connected n) = if n == h then 1 else 0
registered h _ = 0

abbrev pub registrations : ℕ → List Event → ℕ
registrations h [] = 0
registrations h (e ∷ es) = registered h e + registrations h es

tally-run_next :
    (h : ℕ) (s : Blockchain) (hs : List ℕ)
    → tally h (run_next hs s) ≡ count h s.ran + count h hs + count h s.connected_handlers
unfolding run_next
tally-run_next h s [] = omega arith
tally-run_next h s (n ∷ hs) = ground (arith, count-append h s.ran (n ∷ []))

module _ (h : ℕ) (d : Deployment) (s : Blockchain) where
  tally-register : (n : ℕ) → tally h (register n s) ≡ tally h s + (if n == h then 1 else 0)
  unfolding register
  tally-register n =
      ground (arith, count-append h s.ran (n ∷ []), count-append h s.connected_handlers (n ∷ []))

  tally-fire : IsConsistent s → (r : Option Text) → s.retry ≡ r → tally h (fire r s) ≡ tally h s
  unfolding fire
  tally-fire i none e = refl
  tally-fire i (some a) e = ground (arith, i.idle_retry)

  tally-resume :
      IsConsistent s
      → (p : Phase) (e : Event) → s.phase ≡ p
      → tally h (resume d p e s) ≡ tally h s + registered h e
  unfolding resume fire on_module_destroy destroy_provider on_module_init build_local build_prod
      build unanswered misconfigured disconnect connected_now
  tally-resume i p timer_fired hp = omega (arith, tally-fire i s.retry refl)
  tally-resume i p (on_connected n) hp = tally-register n
  tally-resume i (awaiting_server_address a b) (server_address_answered (some t)) hp =
      ground (arith, tally-run_next h (record s { connected_handlers = [] }) s.connected_handlers)
  tally-resume i (running_handlers hs) handler_done hp = ground (arith, tally-run_next h s hs)
  tally-resume i (running_handlers hs) e hp = ground (arith)
  tally-resume i p e hp = ground arith

tally-run :
    (h : ℕ) (d : Deployment) (es : List Event) (s : Blockchain)
    → d.profile ≡ prod
    → IsConsistent s
    → tally h (run d es s) ≡ tally h s + registrations h es
unfolding run step
tally-run h d [] s hd i = omega arith
tally-run h d (e ∷ es) s hd i = omega (
  arith,
  tally-run h d es (step d e s) hd (resume-IsConsistent s i d s.phase e hd refl),
  tally-resume h d s i s.phase e refl,
)

-- In production, after any events since the start, a handler was called, is about to be called or waits,
-- as often in all as it was registered: none is lost by a failed attempt and none is called twice.
pub handlers_conserved :
    (h : ℕ) (d : Deployment) (es : List Event)
    → d.profile ≡ prod
    → count h (run d es new).ran
        + count h (pending (run d es new).phase)
        + count h (run d es new).connected_handlers
      ≡ registrations h es
unfolding new
handlers_conserved h d es hd =
    let total = tally-run h d es new hd new-IsConsistent in omega (arith, total)
