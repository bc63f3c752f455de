-- ===== src/Pricing/Service/Updates.antt =====
-- What an update of a price changes (`updatePricing` in src/pricing/pricing-oracle.service.ts).
use zk_api.Common.{
  ℕ, ◌+◌, ◌≡◌, refl, ◌∙◌, ap, true, false, Option, none, some, arith, ltb, All, filter, length, ◌⊎◌,
  inl, inr,
}
use zk_api.Common.Dict.{lookup, insert, erase, lookup-erase}
use zk_api.Common.Eq.{◌===◌, text_eq, text_beq_iff}
use zk_api.Common.Exec.{ok}
use zk_api.Common.Text.{Text}
use zk_api.Pricing.Oracle.{PricingModel, validate_pricing_model}
use zk_api.Pricing.Repository.{given, is_active, get_pricing, upsert_pricing, add_history}
use zk_api.Pricing.Repository.Upsert.{
  length-upsert_pricing, StartsBefore, bounds, upsert_pricing-get_pricing,
}
use zk_api.Pricing.Service.{
  CachedModel, PricingOracle, cache_key, cache_ttl_ms, fetch_pricing, get_pricing_cached,
  old_rates_of, store_pricing, update_pricing,
}

fetch-found :
    (now : ℕ) (provider_id : Text) (endpoint : Option Text) (s : PricingOracle) (m : PricingModel)
    → get_pricing now provider_id endpoint s.tables.pricing_models ≡ some m
    → fetch_pricing now provider_id endpoint s ≡ (
      ok m,
      record s {
        pricing_cache =
            insert
              (cache_key provider_id endpoint)
              (record { model = m; expiry = now + cache_ttl_ms })
              s.pricing_cache;
      },
    )
unfolding fetch_pricing
fetch-found now provider_id endpoint s m h = rw (h, fetch_pricing) refl

cached-missing :
    (now : ℕ) (provider_id : Text) (endpoint : Option Text) (s : PricingOracle)
    → lookup (cache_key provider_id endpoint) s.pricing_cache ≡ none
    → get_pricing_cached now provider_id endpoint s ≡ fetch_pricing now provider_id endpoint s
unfolding get_pricing_cached
cached-missing now provider_id endpoint s h = rw (h, get_pricing_cached) refl

pub cached-fresh :
    (now : ℕ) (provider_id : Text) (endpoint : Option Text) (s : PricingOracle) (c : CachedModel)
    → lookup (cache_key provider_id endpoint) s.pricing_cache ≡ some c
    → ltb now c.expiry ≡ true
    → get_pricing_cached now provider_id endpoint s ≡ (ok c.model, s)
unfolding get_pricing_cached
cached-fresh now provider_id endpoint s c h k = rw (h, get_pricing_cached) (rw (k) refl)

erased : (s : PricingOracle) (k : Text) → lookup k (erase k s.pricing_cache) ≡ none
erased s k = ground (arith, lookup-erase k k s.pricing_cache, text_beq_iff k k)

update-valid :
    (now : ℕ) (m : PricingModel) (changed_by reason : Text) (s : PricingOracle)
    → validate_pricing_model now m ≡ ok tt
    → update_pricing now m changed_by reason s ≡ (ok tt, store_pricing now m changed_by reason s)
unfolding update_pricing
update-valid now m changed_by reason s h = rw (h, update_pricing) refl

-- An update leaves the service as it was, or stores the price.
update-state :
    (now : ℕ) (m : PricingModel) (changed_by reason : Text) (s : PricingOracle)
    → ((update_pricing now m changed_by reason s).1 ≡ s)
      ⊎ ((update_pricing now m changed_by reason s).1 ≡ store_pricing now m changed_by reason s)
unfolding update_pricing
update-state now m changed_by reason s = ground arith

stored-get_pricing_cached :
    (now : ℕ) (m : PricingModel) (changed_by reason : Text) (s : PricingOracle)
    → get_pricing now m.provider_id m.endpoint (upsert_pricing now m s.tables.pricing_models)
      ≡ some m
    → (get_pricing_cached now m.provider_id m.endpoint (store_pricing now m changed_by reason s)).0
      ≡ ok m
unfolding store_pricing
stored-get_pricing_cached now m changed_by reason s found =
    let stored = store_pricing now m changed_by reason s in
    ap (λ r. r.0)
      (cached-missing now m.provider_id m.endpoint stored
          (erased s (cache_key m.provider_id m.endpoint))
        ∙ fetch-found now m.provider_id m.endpoint stored m found)

-- An update that is valid and active is served at once to its own provider and endpoint, whatever was
-- cached, provided that no active row of theirs that has an end starts as late, and that the endpoint is not
-- an empty text.
pub update_pricing-get_pricing_cached :
    (now : ℕ) (m : PricingModel) (changed_by reason : Text) (s : PricingOracle)
    → validate_pricing_model now m ≡ ok tt
    → is_active now m ≡ true
    → given m.endpoint ≡ m.endpoint
    → All
        (StartsBefore m)
        (filter (bounds now m.provider_id (given m.endpoint)) s.tables.pricing_models)
    → (get_pricing_cached now m.provider_id m.endpoint
        (update_pricing now m changed_by reason s).1).0
      ≡ ok m
update_pricing-get_pricing_cached now m changed_by reason s valid active same h =
    rw (update-valid now m changed_by reason s valid) (
      stored-get_pricing_cached now m changed_by reason s
        (upsert_pricing-get_pricing now m s.tables.pricing_models active same h))

-- A price cached for another provider or endpoint stays in use until it expires, also where it was the
-- provider's price that the update replaces.
pub update_pricing_other_cached :
    (now : ℕ) (m : PricingModel) (changed_by reason : Text) (s : PricingOracle) (provider_id : Text)
    (endpoint : Option Text) (c : CachedModel)
    → (cache_key m.provider_id m.endpoint === cache_key provider_id endpoint) ≡ false
    → lookup (cache_key provider_id endpoint) s.pricing_cache ≡ some c
    → ltb now c.expiry ≡ true
    → (get_pricing_cached now provider_id endpoint (update_pricing now m changed_by reason s).1).0
      ≡ ok c.model
unfolding store_pricing
update_pricing_other_cached now m changed_by reason s provider_id endpoint c other held fresh =
    elim (update-state now m changed_by reason s) [
      | inl e ↦ rw (e) (ap (λ r. r.0) (cached-fresh now provider_id endpoint s c held fresh))
      | inr e ↦ rw (e) (
          ap (λ r. r.0)
            (cached-fresh now provider_id endpoint (store_pricing now m changed_by reason s) c
              (lookup-erase (cache_key m.provider_id m.endpoint) (cache_key provider_id endpoint)
                  s.pricing_cache
                ∙ rw (other) held)
              fresh))
    ]

-- A valid update adds one row to the prices, and to the history one entry that holds the rates of the price
-- found before and the new ones.
pub update_pricing_records :
    (now : ℕ) (m : PricingModel) (changed_by reason : Text) (s : PricingOracle)
    → validate_pricing_model now m ≡ ok tt
    → (length (update_pricing now m changed_by reason s).1.tables.pricing_models
        ≡ length s.tables.pricing_models + 1)
      × ((update_pricing now m changed_by reason s).1.tables.pricing_history
          ≡ add_history now m.provider_id m.endpoint
              (old_rates_of (get_pricing now m.provider_id m.endpoint s.tables.pricing_models))
              m.rates
              changed_by
              reason
              s.tables.pricing_history)
unfolding store_pricing
update_pricing_records now m changed_by reason s valid =
    rw (update-valid now m changed_by reason s valid)
      (length-upsert_pricing now m s.tables.pricing_models, refl)
