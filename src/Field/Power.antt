-- ===== src/Field/Power.antt =====
-- The square-and-multiply loop computes a power.
use mathlib.Core.WellFounded.{Acc}
use mathlib.Core.Logic.{dif_pos, dif_neg}
use native.Mathlib.Bridge.{le_prop}
use native.Mathlib.Decide.{dec_lt}
use native.Mathlib.Nat.{pow-zero, pow-suc, mod-mod, mod-lt, mod-eq_of_lt}
use zk_api.Common.{
  ℕ, zero, suc, ◌+◌, ◌*◌, ◌/◌, ◌%◌, ◌^◌, ◌<◌, ◌≡◌, refl, sym, ap, ◌∙◌, Bool, true, false, arith,
  ◌==◌, if◌then◌else◌,
}
use zk_api.Field.{square_multiply, power}
use zk_api.Field.Congruence.{mul-mod_left, mul_congr}
use zk_api.Common.Order.{lt_wf}

pub pow_congr : (a b m : ℕ) (n : ℕ) → a % m ≡ b % m → a ^ n % m ≡ b ^ n % m
pow_congr a b m zero h = rw (pow-zero a, pow-zero b)
pow_congr a b m (suc n) h =
    rw (pow-suc a n, pow-suc b n) (mul_congr (a ^ n) (b ^ n) a b m (pow_congr a b m n h) h)

pow_square : (b k : ℕ) → (b * b) ^ k ≡ b ^ (k + k)
pow_square b zero = rw (pow-zero (b * b), pow-zero b)
pow_square b (suc k) =
    let e : suc k + suc k ≡ suc (suc (k + k)) = omega arith in
    rw (e, pow-suc (b * b) k, pow-suc b (suc (k + k)), pow-suc b (k + k))
      (omega (arith, ap (λ (t : ℕ). t * (b * b)) (pow_square b k)))

-- One round of the loop: the even part of the exponent goes to the squared base.
round_eq :
    (m r b e : ℕ)
    → (if e % 2 == 1 then r * b % m else r) * (b * b % m) ^ (e / 2) % m ≡ r * b ^ e % m
round_eq m r b e =
    let h = e / 2 in
    let r' = if e % 2 == 1 then r * b % m else r in
    let squared : r' * (b * b % m) ^ h % m ≡ r' * b ^ (h + h) % m =
      mul_congr r' r' ((b * b % m) ^ h) (b ^ (h + h)) m refl (
        pow_congr (b * b % m) (b * b) m h (mod-mod (b * b) m)
        ∙ ap (λ (t : ℕ). t % m) (pow_square b h)) in
    squared ∙ multiplied (e % 2 == 1) (ground arith)
  where
    multiplied :
        (odd : Bool)
        → (odd ≡ true → e ≡ suc (e / 2 + e / 2)) × (odd ≡ false → e ≡ e / 2 + e / 2)
        → (if odd then r * b % m else r) * b ^ (e / 2 + e / 2) % m ≡ r * b ^ e % m
    multiplied true even =
        let e_odd = even.0 refl in
        mul-mod_left (r * b) (b ^ (e / 2 + e / 2)) m
        ∙ ap (λ (t : ℕ). t % m)
            (regroup (b ^ (e / 2 + e / 2))
              ∙ ap (λ (t : ℕ). r * t)
                  (sym (pow-suc b (e / 2 + e / 2)) ∙ ap (λ (t : ℕ). b ^ t) (sym e_odd)))
      where
        regroup : (t : ℕ) → r * b * t ≡ r * (t * b)
        regroup t = omega arith
    multiplied false even = ap (λ (t : ℕ). r * b ^ t % m) (sym (even.1 refl))

square_multiply-eq : (m r b e : ℕ) (w : Acc ◌<◌ e) → square_multiply m r b e w % m ≡ r * b ^ e % m
unfolding square_multiply
square_multiply-eq m r b e (Acc.intro _ smaller) = elim (dec_lt 0 e) [
  | yes more ↦ rw (dif_pos (dec_lt 0 e) le_prop more) (
      square_multiply-eq m (if e % 2 == 1 then r * b % m else r) (b * b % m) (e / 2)
        (smaller (e / 2) (omega arith))
      ∙ round_eq m r b e)
  | no done ↦
      let zero_e : e ≡ 0 = omega arith in
      rw (dif_neg (dec_lt 0 e) done, zero_e, pow-zero b) (ap (λ (t : ℕ). t % m) (omega arith))
]

square_multiply-lt : (m r b e : ℕ) (w : Acc ◌<◌ e) → r < m → square_multiply m r b e w < m
unfolding square_multiply
square_multiply-lt m r b e (Acc.intro _ smaller) h = elim (dec_lt 0 e) [
  | yes more ↦ rw (dif_pos (dec_lt 0 e) le_prop more) (
      square_multiply-lt m (if e % 2 == 1 then r * b % m else r) (b * b % m) (e / 2)
        (smaller (e / 2) (omega arith)) (ground (arith, mod-lt (r * b) {m = m})))
  | no done ↦ rw (dif_neg (dec_lt 0 e) done) h
]

-- From a result below the modulus the loop returns the result times the power, reduced.
pub power-eq : (m r b e : ℕ) → r < m → power m r b e ≡ r * b ^ e % m
unfolding power
power-eq m r b e h =
    let w = lt_wf.apply e in
    sym (mod-eq_of_lt (square_multiply-lt m r b e w h)) ∙ square_multiply-eq m r b e w
