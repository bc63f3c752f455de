-- ===== src/Blockchain.antt =====
-- The connection to LongjingCredits (src/longjing/blockchain.service.ts, `assertChainMatchesProfile`
-- in src/longjing/chain.ts, src/longjing/contract-ready.guard.ts). A method is suspended at each
-- `await`: the phase names the await that onModuleInit or connectProd stands at, and an event is what
-- resumes it, fires the timer or calls another method. `none` as an answer is a rejected promise.
mod Tests
pub mod Watch
pub mod Consistency
pub mod Attempts
pub mod Handlers
pub mod Closing
use zk_api.Common.{
  ℕ, ◌+◌, Bool, true, false, not, ◌&&◌, ◌||◌, Option, none, some, List, [], ◌∷◌, ◌++◌, ◌==◌,
  if◌then◌else◌, is_some,
}
use zk_api.Common.Exec.{Result, ok, err}
use zk_api.Common.Text.{Text}
use zk_api.Config.{Profile, local, prod, chain_matches_profile}

pub record PublicKey : Type 0 where
  pub x : ℕ
  pub y : ℕ

-- What the service is configured with: `tx_signer` is the address of the enclave's signer, and
-- `wallet_of` the address of a private key, `none` where `new ethers.Wallet` throws.
pub record Deployment : Type 0 where
  pub profile : Profile
  pub rpc_url : Option Text
  pub contract_address : Option Text
  pub tx_signer : Option Text
  pub private_key : Option Text
  pub wallet_of : Text → Option Text

-- `ethers.JsonRpcProvider`: the chain it is made for, and whether `destroy` was called.
pub record Provider : Type 0 where
  pub chain_id : ℕ
  pub is_destroyed : Bool

pub data BootError : Type 0 where
  not_configured wrong_chain wrong_refund_key : BootError

-- A handler is known by a number.
pub data Phase : Type 0 where
  created started local_c_max : Phase
  local_chain_id : Text → Phase
  refused : BootError → Phase
  awaiting_chain_id awaiting_c_max awaiting_server_key awaiting_server_address :
      (address : Text) (at_boot : Bool) → Phase
  awaiting_signer_key : (address : Text) (at_boot : Bool) (onchain : PublicKey) → Phase
  running_handlers : List ℕ → Phase

-- `retry` is the address that the armed timer connects to, and `closing` says that onModuleDestroy awaits the
-- removal of the listeners. `ran` lists the handlers that were called.
pub record Blockchain : Type 0 where
  pub provider : Option Provider
  pub contract : Option Text
  pub wallet : Option Text
  pub c_max : Option ℕ
  pub retry : Option Text
  pub destroyed : Bool
  pub closing : Bool
  pub connected_handlers : List ℕ
  pub phase : Phase
  pub ran : List ℕ

unfoldable pub new : Blockchain
new = record {
  provider = none;
  contract = none;
  wallet = none;
  c_max = none;
  retry = none;
  destroyed = false;
  closing = false;
  connected_handlers = [];
  phase = created;
  ran = [];
}

unfoldable pub is_available : Blockchain → Bool
is_available s = is_some s.contract && is_some s.provider

-- `createSigner`
unfoldable pub create_signer : Deployment → Profile → Result (Unit {0}) (Option Text)
create_signer d prod = ok d.tx_signer
create_signer d local = elim d.private_key [
  | none ↦ ok none
  | some key ↦ elim (d.wallet_of key) [ none ↦ err tt | some address ↦ ok (some address) ]
]

-- `build`: whether it returns, and what it has set.
unfoldable pub build : Deployment → Profile → ℕ → Text → Blockchain → Bool × Blockchain
unfolding create_signer
build d profile chain_id address s =
    let t = record s {
      provider = some (record { chain_id = chain_id; is_destroyed = false });
      contract = some address;
    } in
    elim (create_signer d profile) [
      | err e ↦ (false, t)
      | ok wallet ↦ (true, record t { wallet = wallet })
    ]

unfoldable pub disconnect : Blockchain → Blockchain
disconnect s = record s { provider = none; contract = none; wallet = none; c_max = none }

-- The `catch` of connectProd.
unfoldable pub misconfigured : BootError → Bool → Blockchain → Blockchain
unfolding disconnect
misconfigured e at_boot s = record (disconnect s) { phase = if at_boot then refused e else started }

unfoldable pub unanswered : Text → Blockchain → Blockchain
unfolding disconnect
unanswered address s =
    if s.destroyed
    then record (disconnect s) { phase = started }
    else record (disconnect s) { phase = started; retry = some address }

-- The loop over the handlers, up to its next await.
unfoldable pub run_next : List ℕ → Blockchain → Blockchain
run_next [] s = record s { phase = started }
run_next (h ∷ hs) s = record s { phase = running_handlers hs; ran = s.ran ++ h ∷ [] }

-- The end of connectProd, `splice(0)` included.
unfoldable pub connected_now : Blockchain → Blockchain
unfolding run_next
connected_now s = run_next s.connected_handlers (record s { connected_handlers = [] })

-- The comparison in checkServerKeys.
unfoldable pub same_key : PublicKey → PublicKey → Bool
same_key onchain signer = onchain.x == signer.x && onchain.y == signer.y

-- connectProd once it has the chain's ID.
unfoldable pub build_prod : Deployment → Text → Bool → ℕ → Blockchain → Blockchain
unfolding build chain_matches_profile misconfigured unanswered
build_prod d address at_boot chain_id s =
    if chain_matches_profile prod chain_id
    then (let (built, t) = build d prod chain_id address s in
        if built then record t { phase = awaiting_c_max address at_boot } else unanswered address t)
    else misconfigured wrong_chain at_boot s

-- onModuleInit once it has the chain's ID, in the local profile.
unfoldable pub build_local : Deployment → Text → ℕ → Blockchain → Blockchain
unfolding build chain_matches_profile
build_local d address chain_id s =
    if chain_matches_profile local chain_id
    then (let (built, t) = build d local chain_id address s in
        record t { phase = if built then local_c_max else started })
    else record s { phase = refused wrong_chain }

-- onModuleInit, up to its first await.
unfoldable pub on_module_init : Deployment → Blockchain → Blockchain
on_module_init d s = elim d.rpc_url [
  | none ↦ unconfigured d.profile
  | some url ↦ elim d.contract_address [
    | none ↦ unconfigured d.profile
    | some address ↦ elim d.profile [
      | prod ↦ record s { phase = awaiting_chain_id address true }
      | local ↦ record s { phase = local_chain_id address }
    ]
  ]
]
  where
    unconfigured : Profile → Blockchain
    unconfigured prod = record s { phase = refused not_configured }
    unconfigured local = record s { phase = started }

pub data Event : Type 0 where
  init timer_fired handler_done destroy listeners_removed : Event
  chain_id_answered c_max_answered : Option ℕ → Event
  server_key_answered signer_key_answered : Option PublicKey → Event
  server_address_answered : Option Text → Event
  on_connected : ℕ → Event

-- `onConnected`
unfoldable pub register : ℕ → Blockchain → Blockchain
unfolding is_available
register h s =
    if is_available s
    then record s { ran = s.ran ++ h ∷ [] }
    else record s { connected_handlers = s.connected_handlers ++ h ∷ [] }

-- `onModuleDestroy`, up to its await.
unfoldable pub on_module_destroy : Blockchain → Blockchain
on_module_destroy s = record s { destroyed = true; retry = none; closing = true }

-- The rest of it: the provider of this time is destroyed.
unfoldable pub destroy_provider : Blockchain → Blockchain
destroy_provider s =
    if s.closing
    then record s {
      closing = false;
      provider = elim s.provider [ none ↦ none | some p ↦ some (record p { is_destroyed = true }) ];
    }
    else s

-- The callback of the timer.
unfoldable pub fire : Option Text → Blockchain → Blockchain
fire none s = s
fire (some address) s = record s { retry = none; phase = awaiting_chain_id address false }

-- An event that nothing waits for changes nothing.
unfoldable pub resume : Deployment → Phase → Event → Blockchain → Blockchain
unfolding on_module_init build_local build_prod unanswered misconfigured same_key connected_now
    run_next register on_module_destroy destroy_provider fire
resume d _ timer_fired s = fire s.retry s
resume d _ destroy s = on_module_destroy s
resume d _ listeners_removed s = destroy_provider s
resume d _ (on_connected h) s = register h s
resume d created init s = on_module_init d s
resume d (local_chain_id a) (chain_id_answered none) s = record s { phase = started }
resume d (local_chain_id a) (chain_id_answered (some n)) s = build_local d a n s
resume d local_c_max (c_max_answered none) s = record s { phase = started }
resume d local_c_max (c_max_answered (some n)) s = record s { phase = started; c_max = some n }
resume d (awaiting_chain_id a b) (chain_id_answered none) s = unanswered a s
resume d (awaiting_chain_id a b) (chain_id_answered (some n)) s = build_prod d a b n s
resume d (awaiting_c_max a b) (c_max_answered none) s = unanswered a s
resume d (awaiting_c_max a b) (c_max_answered (some n)) s = record s {
  phase = awaiting_server_key a b;
  c_max = some n;
}
resume d (awaiting_server_key a b) (server_key_answered none) s = unanswered a s
resume d (awaiting_server_key a b) (server_key_answered (some key)) s = record s {
  phase = awaiting_signer_key a b key;
}
resume d (awaiting_signer_key a b key) (signer_key_answered none) s = unanswered a s
resume d (awaiting_signer_key a b key) (signer_key_answered (some signer)) s =
    if same_key key signer
    then record s { phase = awaiting_server_address a b }
    else misconfigured wrong_refund_key b s
resume d (awaiting_server_address a b) (server_address_answered none) s = unanswered a s
resume d (awaiting_server_address a b) (server_address_answered (some t)) s = connected_now s
resume d (running_handlers hs) handler_done s = run_next hs s
resume d _ _ s = s

unfoldable pub step : Deployment → Event → Blockchain → Blockchain
unfolding resume
step d e s = resume d s.phase e s

unfoldable pub run : Deployment → List Event → Blockchain → Blockchain
unfolding step
run d [] s = s
run d (e ∷ es) s = run d es (step d e s)

-- `getSigner`
unfoldable pub get_signer : Blockchain → Option Text
get_signer s = if is_some s.contract then s.wallet else none

-- `getContractAddress`
unfoldable pub get_contract_address : Blockchain → Option Text
get_contract_address s = s.contract

pub data CallError : Type 0 where
  not_initialized c_max_not_read rejected : CallError

-- `connected`, and the calls that pass through it: `answer` is what the contract says.
unfoldable pub read_contract {ℓ} : {A : Type ℓ} → Option A → Blockchain → Result CallError A
read_contract answer s = elim s.contract [
  | none ↦ err not_initialized
  | some address ↦ elim answer [ none ↦ err rejected | some a ↦ ok a ]
]

-- `getCMax`
unfoldable pub get_c_max : Blockchain → Result CallError ℕ
get_c_max s = elim s.contract [
  | none ↦ err not_initialized
  | some address ↦ elim s.c_max [ none ↦ err c_max_not_read | some n ↦ ok n ]
]

-- `ContractReadyGuard.canActivate`: whether it lets a request through.
unfoldable pub can_activate : Profile → Blockchain → Bool
unfolding is_available
can_activate local s = true
can_activate prod s = is_available s
