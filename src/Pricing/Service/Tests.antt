-- ===== src/Pricing/Service/Tests.antt =====
-- Instances on the same prices, with one of them cached for an endpoint.
use zk_api.Common.{◌+◌, ◌≡◌, refl, none, some, [], ◌∷◌, length}
use zk_api.Common.Exec.{ok}
use zk_api.Common.Text.{codes}
use zk_api.Pricing.Oracle.{PricingModel, per_call, validate_pricing_model, check_rates}
use zk_api.Pricing.Repository.{add_history, get_pricing}
use zk_api.Pricing.Service.{PricingOracle, get_pricing_cached, old_rates_of, update_pricing}
use zk_api.Pricing.Service.Updates.{
  update_pricing-get_pricing_cached, update_pricing_other_cached, update_pricing_records,
}

abbrev old : PricingModel
old = record {
  provider_id = codes "claude";
  endpoint = none;
  currency = codes "USD";
  pricing_type = per_call;
  rates = record { type_of = per_call; rate = 5; unit = none; tiers = none } ∷ [];
  effective_from = 10;
  effective_until = none;
}

abbrev model : PricingModel
model = record old { effective_from = 20 }

abbrev oracle : PricingOracle
oracle = record {
  tables = record {
    pricing_models = record { id = 1; model = old; created_at = 10; updated_at = 10 } ∷ [];
    pricing_history = [];
  };
  pricing_cache = (codes "claude:chat", record { model = old; expiry = 1000 }) ∷ [];
}

model_valid : validate_pricing_model 20 model ≡ ok tt
unfolding validate_pricing_model check_rates
model_valid = refl

update_pricing-get_pricing_cached_example :
    (get_pricing_cached 20
      (codes "claude")
      none
      (update_pricing 20 model (codes "admin") (codes "raise") oracle).1).0
    ≡ ok model
update_pricing-get_pricing_cached_example =
    update_pricing-get_pricing_cached 20 model (codes "admin") (codes "raise") oracle model_valid
      refl refl tt

update_pricing_other_cached_example :
    (get_pricing_cached 20
      (codes "claude")
      (some (codes "chat"))
      (update_pricing 20 model (codes "admin") (codes "raise") oracle).1).0
    ≡ ok old
update_pricing_other_cached_example =
    update_pricing_other_cached 20 model (codes "admin") (codes "raise") oracle (codes "claude")
      (some (codes "chat")) (record { model = old; expiry = 1000 }) refl refl refl

update_pricing_records_test :
    (length (update_pricing 20 model (codes "admin") (codes "raise") oracle).1.tables.pricing_models
      ≡ length oracle.tables.pricing_models + 1)
    × ((update_pricing 20 model (codes "admin") (codes "raise") oracle).1.tables.pricing_history
        ≡ add_history 20
            (codes "claude")
            none
            (old_rates_of (get_pricing 20 (codes "claude") none oracle.tables.pricing_models))
            model.rates
            (codes "admin")
            (codes "raise")
            oracle.tables.pricing_history)
update_pricing_records_test =
    update_pricing_records 20 model (codes "admin") (codes "raise") oracle model_valid
