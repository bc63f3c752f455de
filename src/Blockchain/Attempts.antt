-- ===== src/Blockchain/Attempts.antt =====
-- How an attempt to connect ends, and that production connects once the chain answers (connectProd in
-- src/longjing/blockchain.service.ts).
use mathlib.Core.Path.{subst}
use zk_api.Common.{
  ℕ, ◌≡◌, refl, sym, ◌∙◌, ap, Bool, true, false, Option, none, some, List, [], ◌∷◌, ◌++◌, arith,
  length, replicate, take, not, ◌==◌, ◌&&◌, if◌then◌else◌, append_assoc, append-nil, All,
}
use zk_api.Common.Text.{Text}
use zk_api.Config.{chain_matches_profile}
use zk_api.Blockchain.{
  Deployment, PublicKey, BootError, wrong_chain, wrong_refund_key, Phase, started, refused,
  awaiting_chain_id, running_handlers, Blockchain, Event, timer_fired, handler_done,
  chain_id_answered, c_max_answered, server_key_answered, signer_key_answered,
  server_address_answered, step, run, unanswered, misconfigured, disconnect, run_next, fire,
  build_prod, build, create_signer, same_key, connected_now, resume,
}

-- What connectProd is answered at its five awaits.
pub record Answers : Type 0 where
  pub chain_id : Option ℕ
  pub c_max : Option ℕ
  pub server_key : Option PublicKey
  pub signer_key : Option PublicKey
  pub server_address : Option Text

abbrev pub attempt : Answers → List Event
attempt a =
    chain_id_answered a.chain_id
    ∷ c_max_answered a.c_max
    ∷ server_key_answered a.server_key
    ∷ signer_key_answered a.signer_key
    ∷ server_address_answered a.server_address
    ∷ []

-- How an attempt ends: connected to a chain other than Anvil's (31337) with a C_MAX and one refund key on both
-- sides, without an answer, or refused for good.
pub data Outcome : Type 0 where
  connects : ℕ → ℕ → Outcome
  retries : Outcome
  refuses : BootError → Outcome

abbrev pub key_outcome : ℕ → ℕ → Bool → Option Text → Outcome
key_outcome n c false t = refuses wrong_refund_key
key_outcome n c true none = retries
key_outcome n c true (some t) = connects n c

abbrev pub chain_outcome :
    ℕ → Bool → Option ℕ → Option PublicKey → Option PublicKey → Option Text → Outcome
chain_outcome n false c k k' t = refuses wrong_chain
chain_outcome n true none k k' t = retries
chain_outcome n true (some c) none k' t = retries
chain_outcome n true (some c) (some k) none t = retries
chain_outcome n true (some c) (some k) (some k') t = key_outcome n c (k.x == k'.x && k.y == k'.y) t

unfoldable pub outcome : Answers → Outcome
outcome a = elim a.chain_id [
  | none ↦ retries
  | some n ↦ chain_outcome n (not (n == 31337)) a.c_max a.server_key a.signer_key a.server_address
]

-- Where the run over the handlers stands once its first one is called.
abbrev pub phase_after_first : List ℕ → Phase
phase_after_first [] = started
phase_after_first (h ∷ hs) = running_handlers hs

-- The service on a chain with a C_MAX, none of its handlers waiting and the first of them called.
abbrev pub starting : Deployment → Text → (chain_id c_max : ℕ) → Blockchain → Blockchain
starting d address n c s = record s {
  provider = some (record { chain_id = n; is_destroyed = false });
  contract = some address;
  wallet = d.tx_signer;
  c_max = some c;
  connected_handlers = [];
  phase = phase_after_first s.connected_handlers;
  ran = s.ran ++ take 1 s.connected_handlers;
}

-- The service without a connection, at this phase and with this retry.
abbrev pub without_connection : Phase → Option Text → Blockchain → Blockchain
without_connection phase retry s = record s {
  provider = none;
  contract = none;
  wallet = none;
  c_max = none;
  phase = phase;
  retry = retry;
}

-- The service once the attempt has ended so.
abbrev pub concluded : Deployment → Text → Bool → Outcome → Blockchain → Blockchain
concluded d address at_boot retries s =
    without_connection started (if s.destroyed then s.retry else some address) s
concluded d address at_boot (refuses e) s =
    without_connection (if at_boot then refused e else started) s.retry s
concluded d address at_boot (connects n c) s = starting d address n c s

module _ (d : Deployment) (address : Text) (at_boot : Bool) where
  attempt_from :
      (s : Blockchain) (a : Answers)
      → run d (attempt a) (record s { phase = awaiting_chain_id address at_boot })
        ≡ concluded d address at_boot
            (outcome a)
            (record s { phase = awaiting_chain_id address at_boot })
  unfolding run step resume outcome build_prod build unanswered disconnect misconfigured same_key
      connected_now run_next chain_matches_profile create_signer
  attempt_from s a = ground (arith, append-nil s.ran)

  -- An attempt that nothing interrupts ends as its answers say: without an answer it disconnects and arms
  -- the retry, unless the application is closing; on the wrong chain or with another refund key it
  -- disconnects for good, and refuses to start where it was made at boot; otherwise it is connected, and
  -- starts the handlers that wait.
  pub attempt_concludes :
      (s : Blockchain) (a : Answers)
      → s.phase ≡ awaiting_chain_id address at_boot
      → run d (attempt a) s ≡ concluded d address at_boot (outcome a) s
  attempt_concludes s a h =
      subst (λ t. run d (attempt a) t ≡ concluded d address at_boot (outcome a) t)
        (ap (λ p. record s { phase = p }) (sym h)) (attempt_from s a)

run_next-first :
    (hs : List ℕ) (s : Blockchain)
    → run_next hs s ≡ record s { phase = phase_after_first hs; ran = s.ran ++ take 1 hs }
unfolding run_next
run_next-first [] s = rw (append-nil s.ran) refl
run_next-first (h ∷ hs) s = refl

run_handlers :
    (d : Deployment) (hs : List ℕ) (s : Blockchain)
    → run d (replicate (length hs) handler_done) (run_next hs s)
      ≡ record s { phase = started; ran = s.ran ++ hs }
unfolding run step resume run_next
run_handlers d [] s = rw (append-nil s.ran) refl
run_handlers d (h ∷ hs) s =
    run_handlers d hs (record s { phase = running_handlers hs; ran = s.ran ++ h ∷ [] })
    ∙ ap (λ r. record s { phase = started; ran = r }) (append_assoc s.ran (h ∷ []) hs)

-- Retries that fail, one after another.
abbrev pub retried : List Answers → List Event
retried [] = []
retried (a ∷ rest) = timer_fired ∷ attempt a ++ retried rest

module _ (d : Deployment) (address : Text) where
  abbrev fired : Blockchain → Blockchain
  fired s = record s { retry = none; phase = awaiting_chain_id address false }

  retry-attempt :
      (s : Blockchain) (a : Answers)
      → s.retry ≡ some address
      → run d (timer_fired ∷ attempt a) s ≡ concluded d address false (outcome a) (fired s)
  unfolding run step resume fire
  retry-attempt s a h = rw (h) (attempt_concludes d address false (fired s) a refl)

  retry_fails :
      (s : Blockchain) (a : Answers)
      → s.retry ≡ some address
      → s.destroyed ≡ false
      → outcome a ≡ retries
      → run d (timer_fired ∷ attempt a) s
        ≡ record (disconnect s) { phase = started; retry = some address }
  unfolding unanswered disconnect
  retry_fails s a h k o = retry-attempt s a h ∙ rw (o) (rw (k) refl)

  -- The service once it is connected and the handlers that waited have run.
  abbrev pub connected_to : ℕ → ℕ → Blockchain → Blockchain
  connected_to n c s = record s {
    provider = some (record { chain_id = n; is_destroyed = false });
    contract = some address;
    wallet = d.tx_signer;
    c_max = some c;
    retry = none;
    connected_handlers = [];
    phase = started;
    ran = s.ran ++ s.connected_handlers;
  }

  abbrev answered : ℕ → ℕ → Blockchain → Blockchain
  answered n c s = record s {
    provider = some (record { chain_id = n; is_destroyed = false });
    contract = some address;
    wallet = d.tx_signer;
    c_max = some c;
    retry = none;
    connected_handlers = [];
    phase = awaiting_chain_id address false;
  }

  retry_connects :
      (s : Blockchain) (a : Answers) (n c : ℕ)
      → s.retry ≡ some address
      → outcome a ≡ connects n c
      → run d (timer_fired ∷ attempt a) s ≡ run_next s.connected_handlers (answered n c s)
  unfolding connected_now
  retry_connects s a n c h o =
      retry-attempt s a h ∙ rw (o) (sym (run_next-first s.connected_handlers (answered n c s)))

  -- With a retry armed, whatever number of attempts goes unanswered, the attempt that is answered rightly
  -- connects, and every handler that waited is called, in the order they were registered.
  pub retries_until_connected :
      (s : Blockchain) (failures : List Answers) (a : Answers) (n c : ℕ)
      → s.retry ≡ some address
      → s.destroyed ≡ false
      → All (λ f. outcome f ≡ retries) failures
      → outcome a ≡ connects n c
      → run d
          (retried failures
            ++ timer_fired ∷ attempt a
            ++ replicate (length s.connected_handlers) handler_done)
          s
        ≡ connected_to n c s
  unfolding run disconnect connected_now
  retries_until_connected s [] a n c h k fs o =
      ap (run d (replicate (length s.connected_handlers) handler_done)) (retry_connects s a n c h o)
      ∙ run_handlers d s.connected_handlers (answered n c s)
  retries_until_connected s (f ∷ failures) a n c h k fs o =
      ap
        (run d (
          retried failures
          ++ timer_fired ∷ attempt a
          ++ replicate (length s.connected_handlers) handler_done))
        (retry_fails s f h k fs.0)
      ∙ retries_until_connected (record (disconnect s) { phase = started; retry = some address })
          failures a n c refl k fs.1 o
