-- ===== src/Pricing/Oracle/Tests.antt =====
-- An instance of the tiers: ten units at 5, ninety at 4, the rest at 3.
use zk_api.Common.{◌≡◌, none, some, List, [], ◌∷◌, arith, refl}
use zk_api.Pricing.Oracle.{Tier, tier_loop}
use zk_api.Pricing.Oracle.Tiers.{sum_prices, tier_loop-sum_prices}

abbrev three_tiers : List Tier
three_tiers =
    record { from = 0; to = some 10; rate = 5 }
    ∷ record { from = 10; to = some 100; rate = 4 }
    ∷ record { from = 100; to = none; rate = 3 }
    ∷ []

tier_loop-sum_prices_test : tier_loop three_tiers 250 ≡ sum_prices three_tiers 0 250
tier_loop-sum_prices_test =
    tier_loop-sum_prices three_tiers 0 250
      (refl, (omega arith, (refl, (omega arith, (refl, refl)))))
