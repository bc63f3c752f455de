-- ===== src/Pricing/Oracle.antt =====
-- The cost of a usage under a pricing model (src/pricing/pricing-oracle.service.ts), in thousandths of the
-- unit of the rates: a token rate is for a thousand tokens. Rates and units are natural numbers, and a
-- tier that ends before it starts, which would count negatively, is not modelled.
mod Tests
pub mod Tiers
use zk_api.Common.{
  ℕ, zero, suc, ◌+◌, ◌-◌, ◌*◌, min, Bool, true, false, not, ◌&&◌, ◌||◌, Option, none, some, List,
  [], ◌∷◌, String, ltb, leb, ◌==◌, if◌then◌else◌, or_else, all,
}
use zk_api.Common.Dict.{Dict, lookup}
use zk_api.Common.Eq.{◌===◌, string_eq}
use zk_api.Common.Exec.{Result, ok, err}
use zk_api.Common.Text.{Text}

pub data PricingType : Type 0 where
  per_token per_call per_unit tiered composite : PricingType

pub record Tier : Type 0 where
  pub from : ℕ
  pub to : Option ℕ
  pub rate : ℕ

pub record PricingRate : Type 0 where
  pub type_of : PricingType
  pub rate : ℕ
  pub unit : Option String
  pub tiers : Option (List Tier)

pub record PricingModel : Type 0 where
  pub provider_id : Text
  pub endpoint : Option Text
  pub currency : Text
  pub pricing_type : PricingType
  pub rates : List PricingRate
  pub effective_from : ℕ
  pub effective_until : Option ℕ

-- `UsageMetrics`: the breakdown by its keys.
pub record UsageMetrics : Type 0 where
  pub units : ℕ
  pub breakdown : Dict String ℕ

-- The member of the breakdown, 0 where it is missing: the source skips both alike.
abbrev pub amount : String → UsageMetrics → ℕ
amount key usage = or_else (lookup key usage.breakdown) 0

-- The member that a unit of a token price counts.
abbrev pub counted_by : Option String → UsageMetrics → ℕ
counted_by none usage = 0
counted_by (some unit) usage =
    if unit === "input_token"
    then amount "input" usage
    else if unit === "output_token"
    then amount "output" usage
    else if unit === "cache_read_token"
    then amount "cacheRead" usage
    else if unit === "cache_write_token"
    then amount "cacheWrite" usage
    else 0

-- `calculateTokenCost`
unfoldable pub calculate_token_cost : UsageMetrics → List PricingRate → ℕ
calculate_token_cost usage [] = 0
calculate_token_cost usage (r ∷ rs) =
    counted_by r.unit usage * r.rate + calculate_token_cost usage rs

abbrev pub first_rate : List PricingRate → ℕ
first_rate [] = 0
first_rate (r ∷ rs) = r.rate

-- `tier.to ? tier.to - tier.from : Infinity`, capped at what remains.
abbrev pub units_in_tier : ℕ → Tier → ℕ
units_in_tier remaining t = elim t.to [
  | none ↦ remaining
  | some zero ↦ remaining
  | some (suc hi) ↦ min remaining (suc hi - t.from)
]

-- The loop of `calculateTieredCost`.
unfoldable pub tier_loop : List Tier → ℕ → ℕ
tier_loop [] remaining = 0
tier_loop (t ∷ ts) remaining =
    let k = units_in_tier remaining t in
    let rest = tier_loop ts (remaining - k) in if remaining == 0 then 0 else k * t.rate + rest

pub data PricingError : Type 0 where
  no_tiers no_rates rate_not_positive bad_period : PricingError

-- `calculateTieredCost`
pub calculate_tiered_cost : UsageMetrics → List PricingRate → Result PricingError ℕ
unfolding tier_loop
calculate_tiered_cost usage [] = err no_tiers
calculate_tiered_cost usage (r ∷ rs) = elim r.tiers [
  | none ↦ err no_tiers
  | some ts ↦ ok (tier_loop ts usage.units)
]

abbrev pub counted_as : Option String → UsageMetrics → ℕ
counted_as none usage = 0
counted_as (some unit) usage = amount unit usage

-- `calculateCompositeCost`
pub calculate_composite_cost : UsageMetrics → List PricingRate → ℕ
calculate_composite_cost usage [] = 0
calculate_composite_cost usage (r ∷ rs) =
    counted_as r.unit usage * r.rate + calculate_composite_cost usage rs

abbrev pub in_thousandths : Result PricingError ℕ → Result PricingError ℕ
in_thousandths (ok cost) = ok (cost * 1000)
in_thousandths (err e) = err e

-- `calculateCostUSD`, from the pricing that was found; the `switch`.
unfoldable pub cost_under : UsageMetrics → PricingType → List PricingRate → Result PricingError ℕ
unfolding calculate_token_cost calculate_tiered_cost calculate_composite_cost
cost_under usage per_token rates = ok (calculate_token_cost usage rates)
cost_under usage per_call rates = ok (first_rate rates * 1000)
cost_under usage per_unit rates = ok (usage.units * first_rate rates * 1000)
cost_under usage tiered rates = in_thousandths (calculate_tiered_cost usage rates)
cost_under usage composite rates = ok (calculate_composite_cost usage rates * 1000)

unfoldable pub calculate_cost_usd : UsageMetrics → PricingModel → Result PricingError ℕ
unfolding cost_under
calculate_cost_usd usage m = cost_under usage m.pricing_type m.rates

abbrev pub is_tiered : PricingType → Bool
is_tiered tiered = true
is_tiered _ = false

abbrev pub has_tiers : PricingRate → Bool
has_tiers r = elim r.tiers [ none ↦ false | some ts ↦ true ]

-- The loop of `validatePricingModel`; the first failure is thrown.
unfoldable pub check_rates :
    List PricingRate → Result PricingError (Unit {0}) → Result PricingError (Unit {0})
check_rates [] after = after
check_rates (r ∷ rs) after =
    let rest = check_rates rs after in
    if r.rate == 0
    then err rate_not_positive
    else if is_tiered r.type_of && not (has_tiers r)
    then err no_tiers
    else rest

-- `validatePricingModel`, at the time `now`.
unfoldable pub validate_pricing_model : ℕ → PricingModel → Result PricingError (Unit {0})
unfolding check_rates
validate_pricing_model now m = elim m.rates [
  | [] ↦ err no_rates
  | r ∷ rs ↦
      check_rates (r ∷ rs)
        (if ltb (or_else m.effective_until now) m.effective_from then err bad_period else ok tt)
]
