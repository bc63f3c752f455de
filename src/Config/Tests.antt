-- ===== src/Config/Tests.antt =====
-- Witnesses for the checks at startup.
use zk_api.Signal.{trim, trim_start, trim_end}
use zk_api.Common.{◌^◌, some, arith, ◌↔◌, ◌≡◌, refl, none, some, Option, List, [], ◌∷◌}
use zk_api.Common.Exec.{ok}
use zk_api.Common.Text.{Text, codes}
use zk_api.Config.{
  Env, prod, profile, find_placeholders, is_placeholder, placeholder_values, normalized,
  anvil_values, is_example_host, split, assert_no_key_material_in_env, profile_errors,
  keys_outside_enclave_allowed, validate_environment, select_rpc_url, rpc_urls,
}
use zk_api.Config.Startup.{IsEnclosed, validate_environment-IsEnclosed}
use zk_api.Config.Rpc.{select_rpc_url-none}

abbrev production : Env
production =
    (codes "NODE_ENV", codes "production")
    ∷ (codes "ETHEREUM_RPC_URLS", codes " https://a.io ,,https://b.io")
    ∷ (codes "ZK_CONTRACT_ADDRESS", codes "0x01")
    ∷ []

abbrev no_host : Text → Option Text
no_host url = none

abbrev no_errors : Env → List Text
no_errors env = []

validate_environment-IsEnclosed_example :
    (validate_environment no_host no_errors production ≡ ok production)
    ↔ IsEnclosed no_host production
unfolding profile
validate_environment-IsEnclosed_example =
    validate_environment-IsEnclosed no_host no_errors production refl refl

accepted : validate_environment no_host no_errors production ≡ ok production
unfolding validate_environment find_placeholders is_placeholder placeholder_values normalized
    anvil_values is_example_host split profile assert_no_key_material_in_env profile_errors
    keys_outside_enclave_allowed trim trim_start trim_end
accepted = refl

draws_second : select_rpc_url (2 ^ 52) production prod ≡ some (codes "https://b.io")
unfolding select_rpc_url rpc_urls split trim trim_start trim_end
draws_second = refl

select_rpc_url-none_test : (select_rpc_url 7 production prod ≡ none) ↔ (rpc_urls production ≡ [])
select_rpc_url-none_test = select_rpc_url-none 7 production (omega arith)
