-- ===== src/CostEstimation/Cache.antt =====
-- The bound, the freshness and the answers of the estimate cache.
use zk_api.Common.{
  ℕ, ◌+◌, ◌≤◌, ◌<◌, ◌≡◌, ◌∙◌, ap, sym, refl, ◌&&◌, none, some, [], ◌∷◌, ◌++◌, arith, ltb, length,
  length-append, inl, inr, Bool-cases,
}
use zk_api.Common.Dict.{lookup, erase, lookup-erase}
use zk_api.Common.Eq.{◌===◌, text_eq, text_beq_iff}
use zk_api.Common.Ensures.{Ensures}
use zk_api.Common.Exec.{ok}
use zk_api.Common.Text.{Text}
use zk_api.Exceptions.{Exception}
use zk_api.CostEstimation.{
  EstimateRequest, Estimate, CachedEstimate, EstimateCache, estimate_ttl_ms, max_cache_entries,
  get_cache_key, evict, cache_estimate, EstimateEnv, Estimator, wei_for, current_rate,
  compute_estimate, live_estimate, estimate_cost,
}

length-evict : (now : ℕ) (m : EstimateCache) → length (evict now m) < max_cache_entries
unfolding evict
length-evict now [] = omega arith
length-evict now ((k, v) ∷ m) = ground (arith, length-evict now m)

-- However large the cache was, storing an estimate leaves at most 1000 entries.
pub length-cache_estimate :
    (now : ℕ) (key : Text) (estimate : Estimate) (m : EstimateCache)
    → length (cache_estimate now key estimate m) ≤ max_cache_entries
unfolding cache_estimate
length-cache_estimate now key estimate m =
    omega (
      arith,
      length-evict now (erase key m),
      length-append (evict now (erase key m)) ((key, _) ∷ []),
    )

-- The entries expire in their order, none before `lo` and none after `hi`.
abbrev pub IsBetween : ℕ → EstimateCache → ℕ → Type 0
IsBetween lo [] hi = lo ≤ hi
IsBetween lo ((k, v) ∷ m) hi = (lo ≤ v.expiry) × IsBetween v.expiry m hi

widen :
    (lo lo' hi hi' : ℕ) (m : EstimateCache)
    → lo ≤ lo'
    → hi' ≤ hi
    → IsBetween lo' m hi'
    → IsBetween lo m hi
widen lo lo' hi hi' [] a b h = omega arith
widen lo lo' hi hi' ((k, v) ∷ m) a b (h, t) =
    (omega arith, widen v.expiry v.expiry hi hi' m (omega arith) b t)

IsBetween-bounds : (lo hi : ℕ) (m : EstimateCache) → IsBetween lo m hi → lo ≤ hi
IsBetween-bounds lo hi [] h = h
IsBetween-bounds lo hi ((k, v) ∷ m) (h, t) = omega (arith, IsBetween-bounds v.expiry hi m t)

erase-IsBetween :
    (key : Text) (lo hi : ℕ) (m : EstimateCache) → IsBetween lo m hi → IsBetween lo (erase key m) hi
erase-IsBetween key lo hi [] h = h
erase-IsBetween key lo hi ((k, v) ∷ m) (h, t) = elim (Bool-cases (k === key)) [
  | inl same ↦
      rw same (
        widen lo v.expiry hi hi (erase key m) h (omega arith) (erase-IsBetween key v.expiry hi m t))
  | inr other ↦ rw other (h, erase-IsBetween key v.expiry hi m t)
]

evict-IsBetween :
    (now lo hi : ℕ) (m : EstimateCache)
    → now < hi
    → IsBetween lo m hi
    → IsBetween (now + 1) (evict now m) hi
unfolding evict
evict-IsBetween now lo hi [] a h = omega arith
evict-IsBetween now lo hi ((k, v) ∷ m) a (h, t) =
    elim (Bool-cases (ltb now v.expiry && ltb (length ((k, v) ∷ m)) max_cache_entries)) [
      | inl kept ↦ rw kept (ground arith, t)
      | inr dropped ↦ rw dropped (evict-IsBetween now v.expiry hi m a t)
    ]

append-IsBetween :
    (lo hi : ℕ) (m : EstimateCache) (key : Text) (c : CachedEstimate)
    → IsBetween lo m hi
    → hi ≤ c.expiry
    → IsBetween lo (m ++ (key, c) ∷ []) c.expiry
append-IsBetween lo hi [] key c h a = (omega arith, omega arith)
append-IsBetween lo hi ((k, v) ∷ m) key c (h, t) a = (h, append-IsBetween v.expiry hi m key c t a)

-- From a cache whose entries expire in their order and whose last was stored at a time `last` that is
-- not after `now`, storing an estimate leaves one whose entries expire in their order, all after `now`
-- and none later than five minutes after it: no expired entry is kept.
pub cache_estimate-IsBetween :
    (lo last now : ℕ) (key : Text) (estimate : Estimate) (m : EstimateCache)
    → last ≤ now
    → IsBetween lo m (last + estimate_ttl_ms)
    → IsBetween (now + 1) (cache_estimate now key estimate m) (now + estimate_ttl_ms)
unfolding cache_estimate
cache_estimate-IsBetween lo last now key estimate m order h =
    append-IsBetween (now + 1) (now + estimate_ttl_ms) (evict now (erase key m)) key _
      (evict-IsBetween now lo (now + estimate_ttl_ms) (erase key m) (omega arith) (
        widen lo lo (now + estimate_ttl_ms) (last + estimate_ttl_ms) (erase key m) (omega arith)
          (omega arith) (erase-IsBetween key lo (last + estimate_ttl_ms) m h)))
      (omega arith)

evict-absent :
    (now : ℕ) (key : Text) (m : EstimateCache)
    → lookup key m ≡ none
    → lookup key (evict now m) ≡ none
unfolding evict
evict-absent now key [] h = refl
evict-absent now key ((k, v) ∷ m) h = ground (arith, evict-absent now key m)

lookup-last :
    (key : Text) (c : CachedEstimate) (m : EstimateCache)
    → lookup key m ≡ none
    → lookup key (m ++ (key, c) ∷ []) ≡ some c
lookup-last key c [] h = ground (arith, text_beq_iff key key)
lookup-last key c ((k, v) ∷ m) h = ground (arith, lookup-last key c m)

lookup-cache_estimate :
    (now : ℕ) (key : Text) (estimate : Estimate) (m : EstimateCache)
    → lookup key (cache_estimate now key estimate m)
      ≡ some (record { estimate = estimate; expiry = now + estimate_ttl_ms })
unfolding cache_estimate
lookup-cache_estimate now key estimate m = lookup-last key _ (evict now (erase key m)) (
    evict-absent now key (erase key m)
      (ground (arith, lookup-erase key key m, text_beq_iff key key)))

abbrev IsStored : EstimateEnv → EstimateRequest → Estimator → Estimate → Estimator → Type 0
IsStored env r s e s' =
    s'.estimate_cache ≡ cache_estimate env.cached_at (get_cache_key r) e s.estimate_cache

compute_estimate-IsStored :
    (env : EstimateEnv) (r : EstimateRequest) (s : Estimator)
    → Ensures (IsStored env r s) (λ _ _. Unit {0}) (compute_estimate env r s)
unfolding compute_estimate wei_for current_rate
compute_estimate-IsStored env r s = ground arith

estimate_cost-hit :
    (env : EstimateEnv) (r : EstimateRequest) (s : Estimator) (e : Estimate)
    → live_estimate env (lookup (get_cache_key r) s.estimate_cache) ≡ some e
    → estimate_cost env r s ≡ (ok e, s)
unfolding estimate_cost
estimate_cost-hit env r s e h = ground arith

estimate_cost-miss :
    (env : EstimateEnv) (r : EstimateRequest) (s : Estimator)
    → live_estimate env (lookup (get_cache_key r) s.estimate_cache) ≡ none
    → estimate_cost env r s ≡ compute_estimate env r s
unfolding estimate_cost
estimate_cost-miss env r s h = ground arith

-- An estimate that was computed is answered again to every request with the same cache key that comes
-- less than five minutes later, whatever its hints are, and nothing changes: neither the provider nor
-- the rate is asked.
pub estimate_cost_again :
    (env later : EstimateEnv) (r again : EstimateRequest) (s s' : Estimator) (e : Estimate)
    → live_estimate env (lookup (get_cache_key r) s.estimate_cache) ≡ none
    → estimate_cost env r s ≡ (ok e, s')
    → get_cache_key again ≡ get_cache_key r
    → later.looked_up_at < env.cached_at + estimate_ttl_ms
    → estimate_cost later again s' ≡ (ok e, s')
estimate_cost_again env later r again s s' e miss done same soon =
    let computed : compute_estimate env r s ≡ (ok e, s') =
      sym (estimate_cost-miss env r s miss) ∙ done in
    let stored : Ensures {E = Exception} (IsStored env r s) (λ _ _. Unit {0}) (ok e, s') =
      rw computed at (compute_estimate-IsStored env r s) in
    let found : lookup (get_cache_key again) s'.estimate_cache
        ≡ some (record { estimate = e; expiry = env.cached_at + estimate_ttl_ms }) =
      ap (λ m. lookup (get_cache_key again) m) stored
      ∙ ap (λ k. lookup k (cache_estimate env.cached_at (get_cache_key r) e s.estimate_cache)) same
      ∙ lookup-cache_estimate env.cached_at (get_cache_key r) e s.estimate_cache in
    estimate_cost-hit later again s' e (ap (live_estimate later) found ∙ ground arith)
