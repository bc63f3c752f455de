-- ===== src/EthRate/Conversion.antt =====
-- Dollars to wei (usdToWei).
use native.Mathlib.Nat.{mod-add-div, mod-lt}
use zk_api.Common.{ℕ, ◌+◌, ◌-◌, ◌*◌, ◌/◌, ◌^◌, ◌≤◌, ◌<◌, arith}
use zk_api.EthRate.{wei_of_usd}

-- Rounding up: the least quotient whose product covers the dividend.
ceil_div : (n d : ℕ) → 0 < d → (n ≤ d * ((n + (d - 1)) / d)) × (d * ((n + (d - 1)) / d) < n + d)
ceil_div n d h = omega (arith, mod-add-div (n + (d - 1)) d, mod-lt (n + (d - 1)) h)

-- At a positive rate the wei cover the dollars, and one wei less would not: with a rate in 1e-8
-- dollars and an amount in micro-dollars, wei times rate is at least the amount times 1e20, and
-- exceeds it by less than the rate.
pub wei_of_usd_exact :
    (usd_amount rate : ℕ)
    → 0 < rate
    → (usd_amount * 10 ^ 20 ≤ rate * wei_of_usd usd_amount rate)
      × (rate * wei_of_usd usd_amount rate < usd_amount * 10 ^ 20 + rate)
unfolding wei_of_usd
wei_of_usd_exact usd_amount rate h = ceil_div (usd_amount * 10 ^ 20) rate h
