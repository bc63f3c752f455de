-- ===== src/EthRate/Tests.antt =====
-- Instances of the oracle.
use zk_api.Common.{◌+◌, ◌*◌, ◌^◌, ◌<◌, ◌≤◌, arith, none, some, []}
use zk_api.Common.Int.{pos}
use zk_api.EthRate.{EthRateOracle, Feeds, failed, get_eth_usd_rate, wei_of_usd}
use zk_api.EthRate.Conversion.{wei_of_usd_exact}
use zk_api.EthRate.Freshness.{Good, empty-IsSound, get_eth_usd_rate_fresh}

wei_of_usd_exact_test : (5 * 10 ^ 20 ≤ 7 * wei_of_usd 5 7) × (7 * wei_of_usd 5 7 < 5 * 10 ^ 20 + 7)
wei_of_usd_exact_test = wei_of_usd_exact 5 7 (omega arith)

abbrev kraken_down : Feeds
kraken_down = record {
  now = 1000;
  saved_at = 1001;
  kraken = failed;
  chainlink = some (pos 250000000000);
}

abbrev new_oracle : EthRateOracle
new_oracle = record { cache = none; eth_rates = [] }

get_eth_usd_rate_fresh_example : Good kraken_down (get_eth_usd_rate kraken_down new_oracle)
get_eth_usd_rate_fresh_example =
    get_eth_usd_rate_fresh kraken_down new_oracle (omega arith) empty-IsSound
