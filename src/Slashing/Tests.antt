-- ===== src/Slashing/Tests.antt =====
-- Instances of the recovery, over the field of 7 elements.
use zk_api.Common.{ℕ, zero, suc, ◌<◌, ◌%◌, ◌^◌, ◌≡◌, ◌≢◌, arith, some, refl, ◌∙◌}
use zk_api.Field.Power.{pow_congr}
use zk_api.Slashing.{recover_secret_key}
use zk_api.Slashing.Recovery.{IsFermat, rln_y, recover_secret_key-rln_y}

fermat_below : (b : ℕ) → b < 7 → b ≢ 0 → b ^ 6 % 7 ≡ 1
fermat_below zero h ne = elim (ne refl) [ ]
fermat_below (suc zero) h ne = refl
fermat_below (suc (suc zero)) h ne = refl
fermat_below (suc (suc (suc zero))) h ne = refl
fermat_below (suc (suc (suc (suc zero)))) h ne = refl
fermat_below (suc (suc (suc (suc (suc zero))))) h ne = refl
fermat_below (suc (suc (suc (suc (suc (suc zero)))))) h ne = refl
fermat_below (suc (suc (suc (suc (suc (suc (suc b))))))) h ne = omega arith

seven-IsFermat : IsFermat 7
seven-IsFermat b ne = pow_congr b (b % 7) 7 6 (omega arith) ∙ fermat_below (b % 7) (omega arith) ne

recover_secret_key-rln_y_example :
    recover_secret_key 7 (record { x = 1; y = rln_y 7 5 4 1 }) (record { x = 3; y = rln_y 7 5 4 3 })
    ≡ some (5 % 7)
recover_secret_key-rln_y_example =
    recover_secret_key-rln_y 7 5 4 1 3 (omega arith) seven-IsFermat (omega arith)
