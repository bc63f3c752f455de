-- ===== src/Pricing/Oracle/Tiers.antt =====
-- Tiered pricing against the price of each single unit.
use zk_api.Common.{
  ℕ, zero, suc, ◌+◌, ◌-◌, ◌*◌, ◌≤◌, ◌<◌, ◌≡◌, ap, sym, ◌∙◌, min, refl, Option, none, some, List, [],
  ◌∷◌, arith, ltb, if◌then◌else◌, Bool-cases, inl, inr,
}
use zk_api.Pricing.Oracle.{Tier, tier_loop}

-- The price of the unit number i, counted from 0: that of the first tier that ends after it.
abbrev pub unit_price : List Tier → ℕ → ℕ
unit_price [] i = 0
unit_price (t ∷ ts) i = elim t.to [
  | none ↦ t.rate
  | some hi ↦ if ltb i hi then t.rate else unit_price ts i
]

-- The prices of n units from a number on.
pub sum_prices : List Tier → (start n : ℕ) → ℕ
sum_prices ts start zero = 0
sum_prices ts start (suc n) = unit_price ts start + sum_prices ts (start + 1) n

-- Each tier starts where the one before ends and is not empty, and only the last may have no end.
abbrev pub IsContiguous : ℕ → List Tier → Type 0
IsContiguous start [] = Unit
IsContiguous start (t ∷ ts) =
    (t.from ≡ start) × (elim t.to [ none ↦ ts ≡ [] | some hi ↦ (start < hi) × IsContiguous hi ts ])

sum_prices-split :
    (ts : List Tier) (start a b : ℕ)
    → sum_prices ts start (a + b) ≡ sum_prices ts start a + sum_prices ts (start + a) b
unfolding sum_prices
sum_prices-split ts start zero b =
    let e : 0 + b ≡ b = omega arith in
    let e2 : start + 0 ≡ start = omega arith in rw (e, e2) (omega arith)
sum_prices-split ts start (suc a) b =
    let e : start + suc a ≡ start + 1 + a = omega arith in
    let e2 : suc a + b ≡ suc (a + b) = omega arith in
    rw (e, e2) (omega (arith, sum_prices-split ts (start + 1) a b))

-- Below the end of the first tier every unit has its rate.
sum_prices-in :
    (t : Tier) (ts : List Tier) (hi start n : ℕ)
    → t.to ≡ some hi
    → start + n ≤ hi
    → sum_prices (t ∷ ts) start n ≡ n * t.rate
unfolding sum_prices
sum_prices-in t ts hi start zero e h = omega arith
sum_prices-in t ts hi start (suc n) e h = ground (arith, sum_prices-in t ts hi (start + 1) n e)

sum_prices-open :
    (t : Tier) (ts : List Tier) (start n : ℕ)
    → t.to ≡ none
    → sum_prices (t ∷ ts) start n ≡ n * t.rate
unfolding sum_prices
sum_prices-open t ts start zero e = omega arith
sum_prices-open t ts start (suc n) e = ground (arith, sum_prices-open t ts (start + 1) n e)

-- From its end on the first tier does not count.
sum_prices-after :
    (t : Tier) (ts : List Tier) (hi start n : ℕ)
    → t.to ≡ some hi
    → hi ≤ start
    → sum_prices (t ∷ ts) start n ≡ sum_prices ts start n
unfolding sum_prices
sum_prices-after t ts hi start zero e h = refl
sum_prices-after t ts hi start (suc n) e h =
    ground (arith, sum_prices-after t ts hi (start + 1) n e)

nothing_left : (ts us : List Tier) (a b m : ℕ) → m ≡ 0 → sum_prices ts a m ≡ sum_prices us b m
unfolding sum_prices
nothing_left ts us a b m e = rw e refl

module _ (t : Tier) (ts : List Tier) (start n : ℕ) where
  -- What a bounded tier leaves is priced by the later ones.
  left_over :
      (hi : ℕ)
      → t.to ≡ some hi
      → start < hi
      → let k = min n (hi - start) in
        sum_prices (t ∷ ts) (start + k) (n - k) ≡ sum_prices ts hi (n - k)
  left_over hi e h = elim (Bool-cases (ltb n (hi - start))) [
    | inl short ↦
        nothing_left (t ∷ ts) ts (start + min n (hi - start)) hi (n - min n (hi - start))
          (ground arith)
    | inr long ↦
        let at_end : start + min n (hi - start) ≡ hi = ground arith in
        rw at_end (sum_prices-after t ts hi hi (n - min n (hi - start)) e (omega arith))
  ]

  priced_in :
      (hi : ℕ)
      → t.to ≡ some hi
      → start < hi
      → let k = min n (hi - start) in
        sum_prices (t ∷ ts) start n ≡ k * t.rate + sum_prices ts hi (n - k)
  priced_in hi e h =
      let k = min n (hi - start) in
      let whole : k + (n - k) ≡ n = omega arith in
      ap (λ (m : ℕ). sum_prices (t ∷ ts) start m) (sym whole)
      ∙ omega (
        arith,
        sum_prices-split (t ∷ ts) start k (n - k),
        sum_prices-in t ts hi start k e (omega arith),
        left_over hi e h,
      )

  bounded :
      (hi : ℕ)
      → t.to ≡ some hi
      → t.from ≡ start
      → start < hi
      → tier_loop ts (n - min n (hi - start)) ≡ sum_prices ts hi (n - min n (hi - start))
      → tier_loop (t ∷ ts) n ≡ sum_prices (t ∷ ts) start n
  unfolding tier_loop sum_prices
  bounded zero e from h rest = omega arith
  bounded (suc hi) e from h rest = ground (arith, priced_in (suc hi) e h)

  open_ended : t.to ≡ none → tier_loop ts 0 ≡ 0 → tier_loop (t ∷ ts) n ≡ sum_prices (t ∷ ts) start n
  unfolding tier_loop
  open_ended e last = ground (arith, sum_prices-open t ts start n e)

loop_none : (ts : List Tier) → tier_loop ts 0 ≡ 0
unfolding tier_loop
loop_none [] = refl
loop_none (t ∷ ts) = refl

free : (start n : ℕ) → sum_prices [] start n ≡ 0
unfolding sum_prices
free start zero = refl
free start (suc n) = omega (arith, free (start + 1) n)

-- For tiers that follow one another without a gap, the loop's cost of n units is the sum of the prices
-- of the n single units from the number on at which the tiers start, each at the rate of the tier that
-- it falls in; units after the end of the last tier are free.
pub tier_loop-sum_prices :
    (ts : List Tier) (start n : ℕ) → IsContiguous start ts → tier_loop ts n ≡ sum_prices ts start n
unfolding tier_loop sum_prices
tier_loop-sum_prices [] start n h = sym (free start n)
tier_loop-sum_prices (t ∷ ts) start n h =
    by_end t.to refl h.1 (λ hi m. tier_loop-sum_prices ts hi m)
  where
    by_end :
        (o : Option ℕ)
        → t.to ≡ o
        → (elim o as (λ _. Type 0) [ none ↦ ts ≡ [] | some hi ↦ (start < hi) × IsContiguous hi ts ])
        → ((hi m : ℕ) → IsContiguous hi ts → tier_loop ts m ≡ sum_prices ts hi m)
        → tier_loop (t ∷ ts) n ≡ sum_prices (t ∷ ts) start n
    by_end none e c later = open_ended t ts start n e (loop_none ts)
    by_end (some hi) e c later =
        bounded t ts start n hi e h.0 c.0 (later hi (n - min n (hi - start)) c.1)
