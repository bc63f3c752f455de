-- ===== src/Quantization/Classes.antt =====
-- What the quantised values say of the exact ones (quantizeCost, quantizeUnits).
use zk_api.Common.{ℕ, ◌≤◌, ◌<◌, ◌≡◌, ◌↔◌, arith}
use zk_api.Quantization.{quantize_cost, quantize_units}

-- Costs fall into the same class exactly when they lie between the same two of the bounds
-- 0.01, 0.10, 1 and 10 dollars.
abbrev pub SameCostBand : ℕ → ℕ → Type 0
SameCostBand a b =
    ((a < 10000) ↔ (b < 10000))
    × ((a < 100000) ↔ (b < 100000))
    × ((a < 1000000) ↔ (b < 1000000))
    × ((a < 10000000) ↔ (b < 10000000))

-- A larger cost has no smaller quantised cost.
pub quantize_cost_mono : (a b : ℕ) → a ≤ b → (quantize_cost a).1 ≤ (quantize_cost b).1
unfolding quantize_cost
quantize_cost_mono a b h = ground arith

-- Quantising the cost that a class stands for gives that class and cost back.
pub quantize_cost_fixed : (cost : ℕ) → quantize_cost (quantize_cost cost).1 ≡ quantize_cost cost
unfolding quantize_cost
quantize_cost_fixed cost = ground arith

-- A larger number of units has no smaller quantised number.
pub quantize_units_mono : (a b : ℕ) → a ≤ b → (quantize_units a).1 ≤ (quantize_units b).1
unfolding quantize_units
quantize_units_mono a b h = ground arith

-- Two costs are reported alike exactly when they lie on the same side of each of the four bounds, of
-- one cent, ten cents, one dollar and ten dollars.
pub quantize_cost_same : (a b : ℕ) → (quantize_cost a ≡ quantize_cost b) ↔ SameCostBand a b
unfolding quantize_cost
quantize_cost_same a b = ground arith
