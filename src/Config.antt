-- ===== src/Config.antt =====
-- The profile and the checks of the environment at startup (src/config/profile.ts,
-- src/config/env.validation.ts, src/keys/key-policy.ts), and the choice of the RPC
-- (`selectRpcUrl` in src/longjing/chain.ts). The URL parser and class-validator are parameters.
mod Tests
pub mod Startup
pub mod Rpc
use zk_api.Common.{
  ℕ, suc, ◌+◌, ◌*◌, ◌/◌, ◌^◌, Bool, true, false, not, ◌&&◌, ◌||◌, Option, none, some, List, [], ◌∷◌,
  ◌++◌, map, leb, ltb, ◌==◌, if◌then◌else◌, or_else, any, filter, length, get_elem?,
}
use zk_api.Common.Dict.{Dict, lookup}
use zk_api.Common.Eq.{◌===◌, text_eq}
use zk_api.Common.Exec.{Result, ok, err}
use zk_api.Common.Text.{Text, codes}
use zk_api.Signal.{trim, is_nil}

-- `process.env`: texts by their names.
abbrev pub Env : Type 0
Env = Dict Text Text

-- `env[name]` as a condition: an empty text is falsy.
abbrev pub is_set : Env → Text → Bool
is_set env name = not (is_nil (or_else (lookup name env) []))

pub data Profile : Type 0 where
  local prod : Profile

-- `profile`; `none` is its exception.
unfoldable pub profile : Env → Option Profile
profile env = elim (lookup (codes "NODE_ENV") env) [
  | none ↦ none
  | some value ↦
      if value === codes "production"
      then some prod
      else if value === codes "development" || value === codes "test"
      then some local
      else none
]

-- `LOCAL_CHAIN_ID`
abbrev pub local_chain_id : ℕ
local_chain_id = 31337

-- `assertChainMatchesProfile`, as whether it returns.
unfoldable pub chain_matches_profile : Profile → ℕ → Bool
chain_matches_profile local chain_id = chain_id == local_chain_id
chain_matches_profile prod chain_id = not (chain_id == local_chain_id)

-- `toLowerCase`, on the letters that the values below can hold.
abbrev pub to_lower : ℕ → ℕ
to_lower c = if leb b'A' c && leb c b'Z' then c + 32 else c

-- `.replace(/^0x/, '')`
abbrev pub without_0x : Text → Text
without_0x (c ∷ d ∷ s) = if c == b'0' && d == b'x' then s else c ∷ d ∷ s
without_0x s = s

unfoldable pub normalized : Text → Text
normalized value = without_0x (map to_lower value)

-- `ANVIL_ACCOUNTS`, flattened, and `ANVIL_FIRST_DEPLOYMENT`.
unfoldable pub anvil_values : List Text
anvil_values =
    codes "0xac0974bec39a17e36ba4a6b4d238ff944bacb478cbed5efcae784d7bf4f2ff80"
    ∷ codes "0xf39Fd6e51aad88F6F4ce6aB8827279cffFb92266"
    ∷ codes "0x59c6995e998f97a5a0044966f0945389dc9e86dae88c7a8412f4603b6b78690d"
    ∷ codes "0x70997970C51812dc3A010C7d01b50e0d17dc79C8"
    ∷ codes "0x5de4111afa1a4b94908f83103eb1f1706367c2e68ca870fc3fb9a804cdab365a"
    ∷ codes "0x3C44CdDdB6a900fa2b585dd299e03d12FA4293BC"
    ∷ codes "0x7c852118294e51e653712a81e05800f419141751be58f605c371e15141b007a6"
    ∷ codes "0x90F79bf6EB2c4f870365E785982E1f101E93b906"
    ∷ codes "0x47e179ec197488593b187f80a00eb0da91f1b9d0b13f8733639f19c30a34926a"
    ∷ codes "0x15d34AAf54267DB7D7c367839AAf71A00a2C6A65"
    ∷ codes "0x8b3a350cf5c34c9194ca85829a2df0ec3153be0318b5e2d3348e872092edffba"
    ∷ codes "0x9965507D1a55bcC2695C58ba16FB37d819B0A4dc"
    ∷ codes "0x92db14e403b83dfe3df233f83dfa3a0d7096f21ca9b0d6d6b8d88b2b4ec1564e"
    ∷ codes "0x976EA74026E726554dB657fA54763abd0C3a0aa9"
    ∷ codes "0x4bbbf85ce3377467afe5d46f804f221813b2bb87f24d81f60f1fcdbf7cbf4356"
    ∷ codes "0x14dC79964da2C08b23698B3D3cc7Ca32193d9955"
    ∷ codes "0xdbda1821b80551c9d65939329250298aa3472ba22feea921c0cf5d620ea67b97"
    ∷ codes "0x23618e81E3f5cdF7f54C3d65f7FBc0aBf5B21E8f"
    ∷ codes "0x2a871d0798f97d79848a013d4936a73bf4cc922c825d33c1cf7073dff6d409c6"
    ∷ codes "0xa0Ee7A142d267C1f36714E4a8F75612F20a79720"
    ∷ codes "0x5FbDB2315678afecb367f032d93F642f64180aa3"
    ∷ []

-- `PLACEHOLDER_VALUES`
unfoldable pub placeholder_values : List Text
unfolding anvil_values normalized
placeholder_values = map normalized anvil_values

-- `endsWith`
abbrev pub ends_with : Text → Text → Bool
ends_with suffix [] = is_nil suffix
ends_with suffix (c ∷ s) = let rest = ends_with suffix s in (c ∷ s) === suffix || rest

-- `EXAMPLE_HOST.test`
unfoldable pub is_example_host : Text → Bool
is_example_host hostname =
    let host = map to_lower hostname in
    any (λ tld. host === codes "example." ++ tld || ends_with (codes ".example." ++ tld) host)
      (codes "com" ∷ codes "org" ∷ codes "net" ∷ [])

-- `split(c)`
unfoldable pub split : ℕ → Text → List Text
split c [] = [] ∷ []
split c (d ∷ s) =
    if d == c
    then [] ∷ split c s
    else elim (split c s) [ [] ↦ (d ∷ []) ∷ [] | item ∷ items ↦ (d ∷ item) ∷ items ]

-- `.sort()` on names, by their code points.
abbrev pub text_leb : Text → Text → Bool
text_leb [] t = true
text_leb (c ∷ s) [] = false
text_leb (c ∷ s) (d ∷ t) = ltb c d || c == d && text_leb s t

abbrev pub insert_name : Text → List Text → List Text
insert_name name [] = name ∷ []
insert_name name (n ∷ ns) =
    let rest = insert_name name ns in if text_leb name n then name ∷ n ∷ ns else n ∷ rest

abbrev pub sort : List Text → List Text
sort [] = []
sort (n ∷ ns) = insert_name n (sort ns)

-- The host name of a URL; `none` where `new URL` throws.
module _ (hostname_of : Text → Option Text) where
  unfoldable pub is_placeholder : Text → Bool
  unfolding placeholder_values normalized is_example_host
  is_placeholder value =
      any (λ v. v === normalized (trim value)) placeholder_values
      || elim (hostname_of (trim value)) [ none ↦ false | some host ↦ is_example_host host ]

  unfoldable pub find_placeholders : Env → List Text
  unfolding is_placeholder
  find_placeholders env =
      sort (map (λ entry. entry.0) (filter (λ entry. any is_placeholder (split b',' entry.1)) env))

abbrev pub prod_required : List Text
prod_required = codes "ETHEREUM_RPC_URLS" ∷ codes "ZK_CONTRACT_ADDRESS" ∷ []

abbrev pub prod_refused : List Text
prod_refused =
    codes "ANVIL_RPC_URL" ∷ codes "SERVER_TX_PRIVATE_KEY" ∷ codes "DSTACK_SIMULATOR_ENDPOINT" ∷ []

abbrev pub key_material_env : List Text
key_material_env =
    codes "ADMIN_MLKEM_PRIVATE_KEY"
    ∷ codes "OPERATOR_PRIVATE_KEY"
    ∷ codes "SERVER_TX_PRIVATE_KEY"
    ∷ codes "TLS_KEY_PATH"
    ∷ codes "TLS_CERT_PATH"
    ∷ []

pub data Problem : Type 0 where
  missing refused placeholders : List Text → Problem

-- `if (names.length > 0) errors.push(...)`
abbrev pub push_unless_empty : (List Text → Problem) → List Text → List Problem
push_unless_empty problem [] = []
push_unless_empty problem (n ∷ ns) = problem (n ∷ ns) ∷ []

pub data StartupError : Type 0 where
  unknown_profile : StartupError
  profile_problems : List Problem → StartupError
  key_material : List Text → StartupError
  schema_errors : List Text → StartupError

-- `keysOutsideEnclaveAllowed`
unfoldable pub keys_outside_enclave_allowed : Env → Bool
keys_outside_enclave_allowed env = elim (lookup (codes "ALLOW_KEYS_OUTSIDE_ENCLAVE") env) [
  | none ↦ false
  | some value ↦ value === codes "true"
]

-- `assertNoKeyMaterialInEnv`
unfoldable pub assert_no_key_material_in_env : Env → Result StartupError (Unit {0})
unfolding profile keys_outside_enclave_allowed
assert_no_key_material_in_env env = elim (profile env) [
  | none ↦ err unknown_profile
  | some local ↦ ok tt
  | some prod ↦
      if keys_outside_enclave_allowed env
      then ok tt
      else elim (filter (is_set env) key_material_env) [
        | [] ↦ ok tt
        | n ∷ ns ↦ err (key_material (n ∷ ns))
      ]
]

module _ (hostname_of : Text → Option Text) where
  -- `profileErrors`
  unfoldable pub profile_errors : Env → Result StartupError (List Problem)
  unfolding profile find_placeholders
  profile_errors env = elim (profile env) [
    | none ↦ err unknown_profile
    | some local ↦ ok []
    | some prod ↦ ok (
        push_unless_empty missing (filter (λ name. not (is_set env name)) prod_required)
        ++ push_unless_empty refused (filter (is_set env) prod_refused)
        ++ push_unless_empty placeholders (find_placeholders hostname_of env))
  ]

  -- `validateEnvironment`, with the errors that class-validator finds in the instance.
  unfoldable pub validate_environment : (Env → List Text) → Env → Result StartupError Env
  unfolding profile_errors assert_no_key_material_in_env
  validate_environment schema env = elim (profile_errors env) [
    | err e ↦ err e
    | ok (p ∷ ps) ↦ err (profile_problems (p ∷ ps))
    | ok [] ↦ elim (assert_no_key_material_in_env env) [
      | err e ↦ err e
      | ok done ↦ elim (schema env) [ [] ↦ ok env | e ∷ es ↦ err (schema_errors (e ∷ es)) ]
    ]
  ]

-- A double in [0, 1) is k / 2 ^ 53, so `Math.floor(Math.random() * n)` is this, for a draw below 2 ^ 53.
abbrev pub random_index : ℕ → ℕ → ℕ
random_index draw n = draw * n / 2 ^ 53

-- The items of ETHEREUM_RPC_URLS.
unfoldable pub rpc_urls : Env → List Text
unfolding split trim
rpc_urls env =
    filter (λ url. not (is_nil url))
      (map trim (split b',' (or_else (lookup (codes "ETHEREUM_RPC_URLS") env) [])))

-- `selectRpcUrl`, with what Math.random draws.
unfoldable pub select_rpc_url : ℕ → Env → Profile → Option Text
unfolding rpc_urls
select_rpc_url draw env local =
    if is_set env (codes "ANVIL_RPC_URL") then lookup (codes "ANVIL_RPC_URL") env else none
select_rpc_url draw env prod =
    let urls = rpc_urls env in get_elem? urls (random_index draw (length urls))
