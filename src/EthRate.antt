-- ===== src/EthRate.antt =====
-- The ETH/USD rate (src/longjing/eth-rate-oracle.service.ts). A rate is in units of 1e-8 dollars,
-- the eight decimals of the Chainlink feed, and an amount in USD in micro-dollars. Kraken, Chainlink
-- and the clock are arguments.
mod Tests
pub mod Freshness
pub mod Conversion
use zk_api.Common.{
  ℕ, zero, suc, ◌+◌, ◌-◌, ◌*◌, ◌/◌, ◌^◌, String, Bool, true, false, Option, none, some, List, [],
  ◌∷◌, ◌++◌, ltb, leb, ◌==◌, if◌then◌else◌,
}
use zk_api.Common.Int.{ℤ, pos, negsuc}

pub record CachedRate : Type 0 where
  pub rate : ℕ
  pub timestamp : ℕ

pub record EthRateRow : Type 0 where
  pub rate : ℕ
  pub source : String
  pub timestamp : ℕ

-- The rows are in the order of insertion.
pub record EthRateOracle : Type 0 where
  pub cache : Option CachedRate
  pub eth_rates : List EthRateRow

abbrev pub cache_ttl : ℕ
cache_ttl = 60000

abbrev pub max_db_rate_age : ℕ
max_db_rate_age = 3600000

-- What `fetch` and `json` gave: a status that is not ok or errors in the body, or the price as
-- `parseFloat` reads it, where `none` is NaN; a price below zero is `some 0` here, as it is refused too.
pub data KrakenAnswer : Type 0 where
  failed : KrakenAnswer
  price : Option ℕ → KrakenAnswer

-- `fetchFromKraken`; `none` is its exception.
pub fetch_from_kraken : KrakenAnswer → Option ℕ
fetch_from_kraken failed = none
fetch_from_kraken (price none) = none
fetch_from_kraken (price (some zero)) = none
fetch_from_kraken (price (some (suc n))) = some (suc n)

-- `fetchFromChainlink`, from the `answer` of the round; `none` stands for a call that throws, or for
-- a provider that was not initialised.
pub fetch_from_chainlink : Option ℤ → Option ℕ
fetch_from_chainlink none = none
fetch_from_chainlink (some (pos zero)) = none
fetch_from_chainlink (some (pos (suc n))) = some (suc n)
fetch_from_chainlink (some (negsuc n)) = none

-- What the world answers to one call: `now`, `Date.now()` at the two saves, and the two feeds.
pub record Feeds : Type 0 where
  pub now : ℕ
  pub saved_at : ℕ
  pub kraken : KrakenAnswer
  pub chainlink : Option ℤ

pub save_rate_to_db : ℕ → String → ℕ → EthRateOracle → EthRateOracle
save_rate_to_db rate source timestamp o = record o {
  eth_rates = o.eth_rates ++ record { rate = rate; source = source; timestamp = timestamp } ∷ [];
}

-- The later of two rows, the second of two that are equally late: the index on the timestamp is read
-- from its end.
abbrev pub later_row : EthRateRow → Option EthRateRow → EthRateRow
later_row r none = r
later_row r (some best) = if leb r.timestamp best.timestamp then best else r

-- `ORDER BY timestamp DESC LIMIT 1`
pub get_latest_rate_from_db : List EthRateRow → Option EthRateRow
get_latest_rate_from_db [] = none
get_latest_rate_from_db (r ∷ rows) = some (later_row r (get_latest_rate_from_db rows))

abbrev pub set_cache : ℕ → ℕ → EthRateOracle → EthRateOracle
set_cache rate now o = record o { cache = some (record { rate = rate; timestamp = now }) }

-- Step 4 of `getEthUsdRate`, and the final exception.
abbrev pub use_chainlink : Feeds → EthRateOracle → Option ℕ → Option ℕ × EthRateOracle
use_chainlink f o none = (none, o)
use_chainlink f o (some rate) =
    (some rate, set_cache rate f.now (save_rate_to_db rate "chainlink" f.saved_at o))

pub rate_from_chainlink : Feeds → EthRateOracle → Option ℕ × EthRateOracle
unfolding fetch_from_chainlink save_rate_to_db
rate_from_chainlink f o = use_chainlink f o (fetch_from_chainlink f.chainlink)

-- Step 3.
pub rate_from_db : Feeds → Option EthRateRow → EthRateOracle → Option ℕ × EthRateOracle
unfolding rate_from_chainlink
rate_from_db f none o = rate_from_chainlink f o
rate_from_db f (some row) o =
    if ltb (f.now - row.timestamp) max_db_rate_age
    then (some row.rate, set_cache row.rate f.now o)
    else rate_from_chainlink f o

-- Step 2.
abbrev pub use_kraken : Feeds → EthRateOracle → Option ℕ → Option ℕ × EthRateOracle
use_kraken f o none = rate_from_db f (get_latest_rate_from_db o.eth_rates) o
use_kraken f o (some rate) =
    (some rate, set_cache rate f.now (save_rate_to_db rate "kraken" f.saved_at o))

pub rate_from_kraken : Feeds → EthRateOracle → Option ℕ × EthRateOracle
unfolding fetch_from_kraken save_rate_to_db rate_from_db get_latest_rate_from_db
rate_from_kraken f o = use_kraken f o (fetch_from_kraken f.kraken)

abbrev pub cached_rate : Feeds → Option CachedRate → EthRateOracle → Option ℕ × EthRateOracle
cached_rate f none o = rate_from_kraken f o
cached_rate f (some c) o =
    if ltb (f.now - c.timestamp) cache_ttl then (some c.rate, o) else rate_from_kraken f o

-- `none` is the exception that no source has a rate.
unfoldable pub get_eth_usd_rate : Feeds → EthRateOracle → Option ℕ × EthRateOracle
unfolding rate_from_kraken
get_eth_usd_rate f o = cached_rate f o.cache o

-- `BigInt(Math.ceil(usdAmount / ethUsdRate * 1e18))`, exactly.
unfoldable pub wei_of_usd : (usd_amount rate : ℕ) → ℕ
wei_of_usd usd_amount rate = (usd_amount * 10 ^ 20 + (rate - 1)) / rate

abbrev pub convert : ℕ → Option ℕ → Option ℕ
convert usd_amount none = none
convert usd_amount (some rate) = some (wei_of_usd usd_amount rate)

unfoldable pub usd_to_wei : Feeds → ℕ → EthRateOracle → Option ℕ × EthRateOracle
unfolding get_eth_usd_rate wei_of_usd
usd_to_wei f usd_amount o = let (rate, o') = get_eth_usd_rate f o in (convert usd_amount rate, o')
