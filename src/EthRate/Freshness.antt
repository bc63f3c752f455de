-- ===== src/EthRate/Freshness.antt =====
-- Where a rate comes from and how old it may be (getEthUsdRate).
use zk_api.Common.{
  ℕ, ◌+◌, ◌-◌, ◌≤◌, ◌<◌, ◌≡◌, ◌⊎◌, inl, inr, refl, Option, none, some, List, [], ◌∷◌, ◌++◌, ltb,
  leb, arith, Bool-cases, true, Option-cases, String,
}
use zk_api.EthRate.{
  later_row, set_cache, use_chainlink, use_kraken, cached_rate, EthRateOracle, EthRateRow,
  CachedRate, Feeds, get_eth_usd_rate, fetch_from_kraken, fetch_from_chainlink, rate_from_chainlink,
  rate_from_db, rate_from_kraken, get_latest_rate_from_db, save_rate_to_db, max_db_rate_age,
  cache_ttl,
}

-- A row with this rate, fetched less than `age` before now.
abbrev pub HasRow : (age now rate : ℕ) → List EthRateRow → Type 0
HasRow age now rate [] = ⊥
HasRow age now rate (r ∷ rows) =
    ((r.rate ≡ rate) × (0 < rate) × (now < r.timestamp + age)) ⊎ HasRow age now rate rows

-- Every row has a positive rate, and the cached rate was less than an hour old when it was cached.
abbrev pub ArePositive : List EthRateRow → Type 0
ArePositive [] = Unit
ArePositive (r ∷ rows) = (0 < r.rate) × ArePositive rows

abbrev pub IsSourced : Option CachedRate → List EthRateRow → Type 0
IsSourced none rows = Unit
IsSourced (some c) rows = HasRow max_db_rate_age c.timestamp c.rate rows

pub record IsSound (o : EthRateOracle) : Type 0 where
  pub positive : ArePositive o.eth_rates
  pub sourced : IsSourced o.cache o.eth_rates

HasRow-append :
    (age now rate : ℕ) (rows more : List EthRateRow)
    → HasRow age now rate rows
    → HasRow age now rate (rows ++ more)
HasRow-append age now rate [] more h = elim h [ ]
HasRow-append age now rate (r ∷ rows) more (inl h) = inl h
HasRow-append age now rate (r ∷ rows) more (inr h) = inr (HasRow-append age now rate rows more h)

HasRow-last :
    (age now rate : ℕ) (rows : List EthRateRow) (source : String) (timestamp : ℕ)
    → 0 < rate
    → now < timestamp + age
    → HasRow age now rate
        (rows ++ record { rate = rate; source = source; timestamp = timestamp } ∷ [])
HasRow-last age now rate [] source timestamp p h = inl (refl, p, h)
HasRow-last age now rate (r ∷ rows) source timestamp p h =
    inr (HasRow-last age now rate rows source timestamp p h)

HasRow-later :
    (age age' now now' rate : ℕ) (rows : List EthRateRow)
    → now' + age ≤ now + age'
    → HasRow age now rate rows
    → HasRow age' now' rate rows
HasRow-later age age' now now' rate [] h e = elim e [ ]
HasRow-later age age' now now' rate (r ∷ rows) h (inl e) = inl (e.0, e.1, omega arith)
HasRow-later age age' now now' rate (r ∷ rows) h (inr e) =
    inr (HasRow-later age age' now now' rate rows h e)

ArePositive-last :
    (rows : List EthRateRow) (row : EthRateRow)
    → 0 < row.rate
    → ArePositive rows
    → ArePositive (rows ++ row ∷ [])
ArePositive-last [] row p h = (p, tt)
ArePositive-last (r ∷ rows) row p h = (h.0, ArePositive-last rows row p h.1)

later_row-cases :
    (r row : EthRateRow) (o : Option EthRateRow)
    → some (later_row r o) ≡ some row
    → (r ≡ row) ⊎ (o ≡ some row)
later_row-cases r row none e = inl (cc)
later_row-cases r row (some best) e = elim (Bool-cases (leb r.timestamp best.timestamp)) [
  | inl later ↦ inr (rw later at e)
  | inr earlier ↦ let e' : some r ≡ some row = rw earlier at e in inl (cc)
]

latest-HasRow :
    (now : ℕ) (rows : List EthRateRow) (row : EthRateRow)
    → ArePositive rows
    → get_latest_rate_from_db rows ≡ some row
    → ltb (now - row.timestamp) max_db_rate_age ≡ true
    → HasRow max_db_rate_age now row.rate rows
unfolding get_latest_rate_from_db
latest-HasRow now [] row p e h = cc
latest-HasRow now (r ∷ rows) row p e h =
    elim (later_row-cases r row (get_latest_rate_from_db rows) e) [
      | inl here ↦ inl (ground arith, ground arith, ground arith)
      | inr there ↦ inr (latest-HasRow now rows row p.1 there h)
    ]

-- What a call leaves behind: a sound state, and a rate that was fetched less than an hour ago, or
-- that had been cached, less than a minute ago, when it was less than an hour old.
abbrev pub Good : Feeds → Option ℕ × EthRateOracle → Type 0
Good f (none, o) = IsSound o
Good f (some rate, o) = IsSound o × HasRow (max_db_rate_age + cache_ttl) f.now rate o.eth_rates

saved-Good :
    (f : Feeds) (rate : ℕ) (source : String) (o : EthRateOracle)
    → f.now ≤ f.saved_at
    → 0 < rate
    → IsSound o
    → Good f (some rate, set_cache rate f.now (save_rate_to_db rate source f.saved_at o))
unfolding save_rate_to_db
saved-Good f rate source o order p s = (
  record {
    positive = ArePositive-last o.eth_rates _ p s.positive;
    sourced = HasRow-last max_db_rate_age f.now rate o.eth_rates source f.saved_at p (omega arith);
  },
  HasRow-last (max_db_rate_age + cache_ttl) f.now rate o.eth_rates source f.saved_at p
      (omega arith),
)

chainlink_positive :
    (f : Feeds) (rate : ℕ) → fetch_from_chainlink f.chainlink ≡ some rate → 0 < rate
unfolding fetch_from_chainlink
chainlink_positive f rate e = ground arith

kraken_positive : (f : Feeds) (rate : ℕ) → fetch_from_kraken f.kraken ≡ some rate → 0 < rate
unfolding fetch_from_kraken
kraken_positive f rate e = ground arith

use_chainlink-Good :
    (f : Feeds) (o : EthRateOracle) (answer : Option ℕ)
    → f.now ≤ f.saved_at
    → IsSound o
    → fetch_from_chainlink f.chainlink ≡ answer
    → Good f (use_chainlink f o answer)
use_chainlink-Good f o none order s e = s
use_chainlink-Good f o (some rate) order s e =
    saved-Good f rate "chainlink" o order (chainlink_positive f rate e) s

rate_from_chainlink-Good :
    (f : Feeds) (o : EthRateOracle)
    → f.now ≤ f.saved_at
    → IsSound o
    → Good f (rate_from_chainlink f o)
unfolding rate_from_chainlink
rate_from_chainlink-Good f o order s = use_chainlink-Good f o _ order s refl

rate_from_db-Good :
    (f : Feeds) (o : EthRateOracle)
    → f.now ≤ f.saved_at
    → IsSound o
    → Good f (rate_from_db f (get_latest_rate_from_db o.eth_rates) o)
unfolding rate_from_db
rate_from_db-Good f o order s = elim (Option-cases (get_latest_rate_from_db o.eth_rates)) [
  | inl nothing ↦ rw nothing (rate_from_chainlink-Good f o order s)
  | inr (row, e) ↦ elim (Bool-cases (ltb (f.now - row.timestamp) max_db_rate_age)) [
    | inl young ↦
        let found = latest-HasRow f.now o.eth_rates row s.positive e young in
        rw (e, young)
          (
            record { positive = s.positive; sourced = found },
            HasRow-later max_db_rate_age (max_db_rate_age + cache_ttl) f.now f.now row.rate
                o.eth_rates (omega arith) found,
          )
    | inr old ↦ rw (e, old) (rate_from_chainlink-Good f o order s)
  ]
]

use_kraken-Good :
    (f : Feeds) (o : EthRateOracle) (answer : Option ℕ)
    → f.now ≤ f.saved_at
    → IsSound o
    → fetch_from_kraken f.kraken ≡ answer
    → Good f (use_kraken f o answer)
use_kraken-Good f o none order s e = rate_from_db-Good f o order s
use_kraken-Good f o (some rate) order s e =
    saved-Good f rate "kraken" o order (kraken_positive f rate e) s

rate_from_kraken-Good :
    (f : Feeds) (o : EthRateOracle) → f.now ≤ f.saved_at → IsSound o → Good f (rate_from_kraken f o)
unfolding rate_from_kraken
rate_from_kraken-Good f o order s = use_kraken-Good f o _ order s refl

cached_rate-Good :
    (f : Feeds) (c : Option CachedRate) (o : EthRateOracle)
    → f.now ≤ f.saved_at
    → IsSound o
    → IsSourced c o.eth_rates
    → Good f (cached_rate f c o)
cached_rate-Good f none o order s src = rate_from_kraken-Good f o order s
cached_rate-Good f (some c) o order s src =
    elim (Bool-cases (ltb (f.now - c.timestamp) cache_ttl)) [
      | inl valid ↦ rw valid (
        s,
        HasRow-later max_db_rate_age (max_db_rate_age + cache_ttl) c.timestamp f.now c.rate
            o.eth_rates (ground arith) src,
      )
      | inr expired ↦ rw expired (rate_from_kraken-Good f o order s)
    ]

-- From a sound oracle (an empty one is sound), under a clock that does not go back while a call runs,
-- every call leaves a sound oracle, and the rate that it returns, from whatever source, is positive
-- and that of a row fetched less than an hour and a minute ago: an hour from the database, and a
-- minute more from the cache that the database filled.
pub get_eth_usd_rate_fresh :
    (f : Feeds) (o : EthRateOracle) → f.now ≤ f.saved_at → IsSound o → Good f (get_eth_usd_rate f o)
unfolding get_eth_usd_rate
get_eth_usd_rate_fresh f o order s = cached_rate-Good f o.cache o order s s.sourced

pub empty-IsSound : IsSound (record { cache = none; eth_rates = [] })
empty-IsSound = record { positive = tt; sourced = tt }
