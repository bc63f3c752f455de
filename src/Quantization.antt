-- ===== src/Quantization.antt =====
-- Cost and unit classes (src/longjing/utils/cost-quantization.util.ts). Amounts in USD are whole
-- micro-dollars; the tables give the same bounds and representatives in that unit.
mod Tests
pub mod Classes
use zk_api.Common.{
  ℕ, zero, suc, Option, none, some, List, [], ◌∷◌, ◌&&◌, Bool, true, ltb, leb, if◌then◌else◌,
}

pub data CostClass : Type 0 where
  micro small medium large xlarge : CostClass

pub data UnitClass : Type 0 where
  tiny small medium large xlarge : UnitClass

-- A row of a table of bounds: the class, `min`, and `max`, where `none` is Infinity.
pub record Bounds (C : Type 0) : Type 0 where
  pub class : C
  pub min : ℕ
  pub max : Option ℕ

abbrev row : {C : Type 0} → C → ℕ → Option ℕ → Bounds C
row c lo hi = record { class = c; min = lo; max = hi }

-- In the order of `Object.entries`.
abbrev pub cost_class_boundaries : List (Bounds CostClass)
cost_class_boundaries =
    row CostClass.micro 0 (some 10000)
    ∷ row CostClass.small 10000 (some 100000)
    ∷ row CostClass.medium 100000 (some 1000000)
    ∷ row CostClass.large 1000000 (some 10000000)
    ∷ row CostClass.xlarge 10000000 none
    ∷ []

abbrev pub unit_class_boundaries : List (Bounds UnitClass)
unit_class_boundaries =
    row UnitClass.tiny 0 (some 100)
    ∷ row UnitClass.small 100 (some 1000)
    ∷ row UnitClass.medium 1000 (some 10000)
    ∷ row UnitClass.large 10000 (some 100000)
    ∷ row UnitClass.xlarge 100000 none
    ∷ []

unfoldable pub cost_class_to_usd : CostClass → ℕ
cost_class_to_usd CostClass.micro = 5000
cost_class_to_usd CostClass.small = 50000
cost_class_to_usd CostClass.medium = 500000
cost_class_to_usd CostClass.large = 5000000
cost_class_to_usd CostClass.xlarge = 15000000

unfoldable pub unit_class_to_count : UnitClass → ℕ
unit_class_to_count UnitClass.tiny = 50
unit_class_to_count UnitClass.small = 500
unit_class_to_count UnitClass.medium = 5000
unit_class_to_count UnitClass.large = 50000
unit_class_to_count UnitClass.xlarge = 150000

-- `value < bounds.max`
abbrev pub below : ℕ → Option ℕ → Bool
below value none = true
below value (some hi) = ltb value hi

-- The loop over the table: the first row that holds the value, or the class after it.
abbrev pub classify : {C : Type 0} → List (Bounds C) → C → ℕ → C
classify [] fallback value = fallback
classify (b ∷ bs) fallback value =
    if leb b.min value && below value b.max then b.class else classify bs fallback value

unfoldable pub quantize_cost : ℕ → CostClass × ℕ
unfolding cost_class_to_usd
quantize_cost cost_usd =
    let c = classify cost_class_boundaries CostClass.xlarge cost_usd in (c, cost_class_to_usd c)

unfoldable pub quantize_units : ℕ → UnitClass × ℕ
unfolding unit_class_to_count
quantize_units units =
    let c = classify unit_class_boundaries UnitClass.xlarge units in (c, unit_class_to_count c)
