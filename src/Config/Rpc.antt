-- ===== src/Config/Rpc.antt =====
-- The RPC that production connects to (`selectRpcUrl` in src/longjing/chain.ts).
use native.Mathlib.Nat.{div-lt_iff_lt-mul, mul-lt-mul_of_pos_right}
use zk_api.Common.{
  ℕ, zero, suc, ◌*◌, ◌^◌, ◌<◌, ◌≡◌, refl, ◌↔◌, none, List, [], ◌∷◌, arith, length, get_elem?,
}
use zk_api.Common.Dict.{insert, lookup-insert}
use zk_api.Common.Eq.{text_eq}
use zk_api.Common.Text.{Text, codes}
use zk_api.Config.{Env, local, prod, random_index, rpc_urls, select_rpc_url}

random_index_lt : (draw n : ℕ) → draw < 2 ^ 53 → 0 < n → random_index draw n < n
random_index_lt draw n h k =
    (div-lt_iff_lt-mul (omega arith)).1
      (let shorter : draw * n < 2 ^ 53 * n = mul-lt-mul_of_pos_right h k in omega (arith, shorter))

get_elem?_lt : {A : Type 0} (xs : List A) (i : ℕ) → i < length xs → get_elem? xs i ≡ none → ⊥
get_elem?_lt [] i h e = omega arith
get_elem?_lt (x ∷ xs) zero h e = ground arith
get_elem?_lt (x ∷ xs) (suc i) h e = get_elem?_lt xs i (omega arith) e

-- Production has no RPC only where ETHEREUM_RPC_URLS has no item that is not blank, whatever Math.random
-- draws below 1.
pub select_rpc_url-none :
    (draw : ℕ) (env : Env)
    → draw < 2 ^ 53
    → (select_rpc_url draw env prod ≡ none) ↔ (rpc_urls env ≡ [])
unfolding select_rpc_url
select_rpc_url-none draw env h = (draws (rpc_urls env), λ e. rw (e) refl)
  where
    draws : (urls : List Text) → get_elem? urls (random_index draw (length urls)) ≡ none → urls ≡ []
    draws [] e = refl
    draws (url ∷ urls) e = absurd (
        get_elem?_lt (url ∷ urls) (random_index draw (length (url ∷ urls)))
          (random_index_lt draw (length (url ∷ urls)) h (omega arith)) e)

-- Neither profile falls back to the RPC of the other.
pub select_rpc_url-insert :
    (draw : ℕ) (env : Env) (url : Text)
    → (select_rpc_url draw (insert (codes "ANVIL_RPC_URL") url env) prod
        ≡ select_rpc_url draw env prod)
      × (select_rpc_url draw (insert (codes "ETHEREUM_RPC_URLS") url env) local
          ≡ select_rpc_url draw env local)
unfolding select_rpc_url rpc_urls
select_rpc_url-insert draw env url = (
  rw (lookup-insert (codes "ANVIL_RPC_URL") (codes "ETHEREUM_RPC_URLS") url env) refl,
  rw (lookup-insert (codes "ETHEREUM_RPC_URLS") (codes "ANVIL_RPC_URL") url env) refl,
)
