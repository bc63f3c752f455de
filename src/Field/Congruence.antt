-- ===== src/Field/Congruence.antt =====
-- Congruence modulo m, for the proofs about field arithmetic.
use native.Mathlib.Nat.{
  add-mod, mod-mod, mod-lt, add-mul-mod_self_left, mod-add-div, mod-add-mod, mul_comm,
  add-mod_right, zero-mod,
}
use zk_api.Common.{
  ℕ, suc, ◌+◌, ◌-◌, ◌*◌, ◌/◌, ◌%◌, ◌<◌, ◌≡◌, refl, sym, ap, ◌∙◌, arith, Bool-cases, inl, inr, leb,
}
use zk_api.Common.Int.{ℤ, pos, negsuc, sub_ℕ}
use zk_api.Field.{to_field}

pub mul-mod_left : (a c m : ℕ) → (a % m) * c % m ≡ a * c % m
mul-mod_left a c m =
    let e : (a % m) * c + m * ((a / m) * c) ≡ a * c =
      omega (arith, ap (λ (t : ℕ). t * c) (mod-add-div a m)) in
    sym (add-mul-mod_self_left ((a % m) * c) m ((a / m) * c)) ∙ ap (λ (t : ℕ). t % m) e

pub mul-mod_right : (a c m : ℕ) → a * (c % m) % m ≡ a * c % m
mul-mod_right a c m = rw (mul_comm a (c % m), mul_comm a c) (mul-mod_left c a m)

pub add_congr : (a b c d m : ℕ) → a % m ≡ b % m → c % m ≡ d % m → (a + c) % m ≡ (b + d) % m
add_congr a b c d m p q = rw (add-mod a c m, add-mod b d m, p, q)

pub mul_congr : (a b c d m : ℕ) → a % m ≡ b % m → c % m ≡ d % m → a * c % m ≡ b * d % m
mul_congr a b c d m p q =
    sym (mul-mod_left a c m)
    ∙ ap (λ (t : ℕ). t * c % m) p
    ∙ mul-mod_left b c m
    ∙ sym (mul-mod_right b c m)
    ∙ ap (λ (t : ℕ). b * t % m) q
    ∙ mul-mod_right b d m

-- The complement of c modulo m takes c away again.
pub add_cancel : (a b c m : ℕ) → 0 < m → (a + c) % m ≡ (b + c) % m → a % m ≡ b % m
add_cancel a b c m h e =
    let d = m - c % m in
    let whole : (t : ℕ) → t + c + d ≡ t + m * (c / m + 1) =
      λ t. omega (arith, mod-add-div c m, mod-lt c h) in
    let back : (t : ℕ) → (t + c + d) % m ≡ t % m =
      λ t. ap (λ (u : ℕ). u % m) (whole t) ∙ add-mul-mod_self_left t m (c / m + 1) in
    sym (back a) ∙ add_congr (a + c) (b + c) d d m e refl ∙ back b

pub to_field-pos : (m n : ℕ) → to_field m (pos n) ≡ n % m
unfolding to_field
to_field-pos m n =
    let e : (n % m + m) % m ≡ n % m = add-mod_right (n % m) m ∙ mod-mod n m in ground arith

to_field-negsuc_value : (m n : ℕ) → 0 < m → to_field m (negsuc n) ≡ (m - suc n % m) % m
unfolding to_field
to_field-negsuc_value m n h = ground (arith, mod-lt (suc n) h)

pub to_field-negsuc : (m n : ℕ) → 0 < m → (to_field m (negsuc n) + suc n) % m ≡ 0
to_field-negsuc m n h =
    let whole : m - suc n % m + suc n ≡ 0 + m * (suc n / m + 1) =
      omega (arith, mod-add-div (suc n) m, mod-lt (suc n) h) in
    rw (
      to_field-negsuc_value m n h,
      mod-add-mod (m - suc n % m) m (suc n),
      whole,
      add-mul-mod_self_left 0 m (suc n / m + 1),
      zero-mod,
    )

pub to_field-sub_ℕ : (m a b : ℕ) → 0 < m → (to_field m (sub_ℕ a b) + b) % m ≡ a % m
to_field-sub_ℕ m a b h = elim (Bool-cases (leb b a)) [
  | inl le ↦ rw (le, to_field-pos, mod-add-mod (a - b) m b) (ap (λ (t : ℕ). t % m) (ground arith))
  | inr gt ↦
      let n = b - a - 1 in
      let e : to_field m (negsuc n) + b ≡ (to_field m (negsuc n) + suc n) + a = ground arith in
      let zero_a : 0 + a ≡ a = omega arith in
      rw (gt, e)
        (add_congr (to_field m (negsuc n) + suc n) 0 a a m
            (to_field-negsuc m n h ∙ sym (zero-mod m)) refl
          ∙ ap (λ (t : ℕ). t % m) zero_a)
]

pub to_field-lt : (m : ℕ) (x : ℤ) → 0 < m → to_field m x < m
to_field-lt m (pos n) h = rw to_field-pos (mod-lt n h)
to_field-lt m (negsuc n) h = rw (to_field-negsuc_value m n h) (mod-lt (m - suc n % m) h)
