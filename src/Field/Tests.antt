-- ===== src/Field/Tests.antt =====
-- Instances of the power loop.
use zk_api.Common.{◌*◌, ◌%◌, ◌^◌, ◌≡◌, arith}
use zk_api.Field.{power}
use zk_api.Field.Power.{power-eq}

power-eq_test : power 101 1 7 45 ≡ 1 * 7 ^ 45 % 101
power-eq_test = power-eq 101 1 7 45 (omega arith)
