-- ===== src/Quantization/Tests.antt =====
-- Instances of the classes.
use zk_api.Common.{◌≡◌, ◌↔◌}
use zk_api.Quantization.{quantize_cost}
use zk_api.Quantization.Classes.{SameCostBand, quantize_cost_same}

quantize_cost_same_test : (quantize_cost 1000 ≡ quantize_cost 7000) ↔ SameCostBand 1000 7000
quantize_cost_same_test = quantize_cost_same 1000 7000
