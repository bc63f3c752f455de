-- ===== src/Slashing/Recovery.antt =====
-- Two RLN signals at one index reveal the secret key (recoverSecretKey).
use native.Mathlib.Nat.{mod-eq_of_lt, pow-suc, zero-mod}
use zk_api.Common.{
  ℕ, suc, ◌+◌, ◌-◌, ◌*◌, ◌%◌, ◌^◌, ◌<◌, ◌≡◌, ◌≢◌, refl, sym, ap, ◌∙◌, none, some, arith, ◌==◌,
  false,
}
use zk_api.Common.Int.{pos, pos_part, neg_part, ◌-ℤ◌, ◌*ℤ◌}
use zk_api.Field.{to_field, power}
use zk_api.Field.Congruence.{
  add_congr, mul_congr, add_cancel, mul-mod_left, mul-mod_right, to_field-sub_ℕ, to_field-lt,
}
use zk_api.Field.Power.{power-eq}
use zk_api.Slashing.{Point, recover_secret_key}

-- Fermat's little theorem at p, which holds for every prime.
abbrev pub IsFermat : ℕ → Type 0
IsFermat p = (b : ℕ) → b % p ≢ 0 → b ^ (p - 1) % p ≡ 1

-- The power that the loop computes is the inverse.
pub power_inverse : (p b : ℕ) → 1 < p → IsFermat p → b % p ≢ 0 → b * power p 1 b (p - 2) % p ≡ 1
power_inverse p b h fermat ne =
    let e : p - 1 ≡ suc (p - 2) = omega arith in
    let one_less : 1 * b ^ (p - 2) ≡ b ^ (p - 2) = omega arith in
    rw (power-eq p 1 b (p - 2) h, one_less, mul-mod_right b (b ^ (p - 2)) p)
      (ap (λ (t : ℕ). t % p)
          (product (b ^ (p - 2)) ∙ sym (pow-suc b (p - 2)) ∙ ap (λ (t : ℕ). b ^ t) (sym e))
        ∙ fermat b ne)
  where
    product : (t : ℕ) → b * t ≡ t * b
    product t = omega arith

-ℤ_parts : (a b : ℕ) → pos_part (pos a -ℤ pos b) + b ≡ a + neg_part (pos a -ℤ pos b)
unfolding ◌-ℤ◌
-ℤ_parts a b = ground arith

-- A product of a difference with a number, modulo p.
to_field-times :
    (p a b n : ℕ) → 0 < p → (to_field p ((pos a -ℤ pos b) *ℤ pos n) + b * n) % p ≡ a * n % p
unfolding ◌*ℤ◌
to_field-times p a b n h =
    let z = pos a -ℤ pos b in
    let r = to_field p (z *ℤ pos n) in
    let taken = neg_part z * n in
    let left : (r + (pos_part z * 0 + taken)) % p ≡ (pos_part z * n + neg_part z * 0) % p =
      to_field-sub_ℕ p (pos_part z * n + neg_part z * 0) (pos_part z * 0 + taken) h in
    let e1 : r + (pos_part z * 0 + taken) ≡ r + taken = omega arith in
    let e2 : pos_part z * n + neg_part z * 0 ≡ pos_part z * n = omega arith in
    let e3 : r + b * n + taken ≡ (r + taken) + b * n = omega arith in
    let e4 : pos_part z * n + b * n ≡ a * n + taken =
      omega (arith, ap (λ (t : ℕ). t * n) (-ℤ_parts a b)) in
    add_cancel (r + b * n) (a * n) taken p h (
      ap (λ (t : ℕ). t % p) e3
      ∙ add_congr (r + taken) (pos_part z * n) (b * n) (b * n) p
          (ap (λ (t : ℕ). t % p) (sym e1) ∙ left ∙ ap (λ (t : ℕ). t % p) e2) refl
      ∙ ap (λ (t : ℕ). t % p) e4)

-- The denominator is the difference of the two x.
to_field-difference : (p a b : ℕ) → 0 < p → (to_field p (pos a -ℤ pos b) + b) % p ≡ a % p
unfolding ◌-ℤ◌
to_field-difference p a b h =
    let e1 : 0 + b ≡ b = omega arith in
    let e2 : a + 0 ≡ a = omega arith in
    let both = to_field-sub_ℕ p (a + 0) (0 + b) h in cc (both, e1, e2)

-- The y of the RLN signal at x, on the line of the key k with slope a.
abbrev pub rln_y : (p k a x : ℕ) → ℕ
rln_y p k a x = (k + a * x) % p

module _ (p k a x1 x2 : ℕ) (h : 1 < p) where
  abbrev d : ℕ
  d = to_field p (pos x2 -ℤ pos x1)

  -- The numerator is k times the denominator.
  numerator : rln_y p k a x1 * x2 % p ≡ (k * d + rln_y p k a x2 * x1) % p
  numerator =
      let left : rln_y p k a x1 * x2 % p ≡ (k * x2 + a * x1 * x2) % p =
        mul-mod_left (k + a * x1) x2 p ∙ ap (λ (t : ℕ). t % p) (expand k (a * x1) x2) in
      let right : rln_y p k a x2 * x1 % p ≡ (k * x1 + a * x1 * x2) % p =
        mul-mod_left (k + a * x2) x1 p ∙ ap (λ (t : ℕ). t % p) (expand' k a x1 x2) in
      let split : k * (d + x1) % p ≡ k * x2 % p =
        mul_congr k k (d + x1) x2 p refl (to_field-difference p x2 x1 (omega arith)) in
      left
      ∙ add_congr (k * x2) (k * (d + x1)) (a * x1 * x2) (a * x1 * x2) p (sym split) refl
      ∙ ap (λ (t : ℕ). t % p) (regroup k d x1 (a * x1 * x2))
      ∙ add_congr (k * d) (k * d) (k * x1 + a * x1 * x2) (rln_y p k a x2 * x1) p refl (sym right)
    where
      expand : (u v w : ℕ) → (u + v) * w ≡ u * w + v * w
      expand u v w = omega arith

      expand' : (u v w z : ℕ) → (u + v * z) * w ≡ u * w + v * w * z
      expand' u v w z = omega arith

      regroup : (u v w z : ℕ) → u * (v + w) + z ≡ u * v + (u * w + z)
      regroup u v w z = omega arith

  d-ne-zero : x1 % p ≢ x2 % p → d ≢ 0
  d-ne-zero ne e =
      let z : 0 + x1 ≡ x1 = omega arith in
      ne (
        ap (λ (t : ℕ). t % p) (sym z)
        ∙ ap (λ (t : ℕ). (t + x1) % p) (sym e)
        ∙ to_field-difference p x2 x1 (omega arith))

  -- Dividing the numerator by the denominator leaves the key.
  quotient :
      (i : ℕ)
      → d * i % p ≡ 1
      → to_field p ((pos (rln_y p k a x1 * x2) -ℤ pos (rln_y p k a x2 * x1)) *ℤ pos i) ≡ k % p
  quotient i inv =
      let m = rln_y p k a x1 * x2 in
      let q = rln_y p k a x2 * x1 in
      let r = to_field p ((pos m -ℤ pos q) *ℤ pos i) in
      let one : 1 % p ≡ 1 = mod-eq_of_lt h in
      let kdi : k * (d * i) % p ≡ k * 1 % p = mul_congr k k (d * i) 1 p refl (inv ∙ sym one) in
      let total : (r + q * i) % p ≡ (k * 1 + q * i) % p =
        to_field-times p m q i (omega arith)
        ∙ mul_congr m (k * d + q) i i p numerator refl
        ∙ ap (λ (t : ℕ). t % p) (expand k d q i)
        ∙ add_congr (k * (d * i)) (k * 1) (q * i) (q * i) p kdi refl in
      sym (mod-eq_of_lt (to_field-lt p ((pos m -ℤ pos q) *ℤ pos i) (omega arith)))
      ∙ add_cancel r (k * 1) (q * i) p (omega arith) total
      ∙ ap (λ (t : ℕ). t % p) (once k)
    where
      expand : (u v w z : ℕ) → (u * v + w) * z ≡ u * (v * z) + w * z
      expand u v w z = omega arith

      once : (u : ℕ) → u * 1 ≡ u
      once u = omega arith

  -- Two signals of one line, whose x differ modulo the field order, give back its key: for every
  -- order above 1 at which Fermat's little theorem holds, so for every prime.
  pub recover_secret_key-rln_y :
      IsFermat p
      → x1 % p ≢ x2 % p
      → recover_secret_key p
          (record { x = x1; y = rln_y p k a x1 })
          (record { x = x2; y = rln_y p k a x2 })
        ≡ some (k % p)
  unfolding recover_secret_key
  recover_secret_key-rln_y fermat ne =
      let nz = d-ne-zero ne in
      let small : d % p ≡ d = mod-eq_of_lt (to_field-lt p (pos x2 -ℤ pos x1) (omega arith)) in
      let test : (d == 0) ≡ false = ground arith in
      rw test (
        ap some
          (quotient (power p 1 d (p - 2)) (power_inverse p d h fermat (λ e. nz (sym small ∙ e)))))

-- Signals that share x reveal nothing: the recovery throws.
pub recover_secret_key_same_x :
    (p : ℕ) (s1 s2 : Point) → 0 < p → s1.x % p ≡ s2.x % p → recover_secret_key p s1 s2 ≡ none
unfolding recover_secret_key
recover_secret_key_same_x p s1 s2 h e =
    let d = to_field p (pos s2.x -ℤ pos s1.x) in
    let z : s1.x ≡ 0 + s1.x = omega arith in
    let vanishes : d % p ≡ 0 % p =
      add_cancel d 0 s1.x p h
        (to_field-difference p s2.x s1.x h ∙ sym e ∙ ap (λ (t : ℕ). t % p) z) in
    let is_zero : d ≡ 0 =
      sym (mod-eq_of_lt (to_field-lt p (pos s2.x -ℤ pos s1.x) h)) ∙ vanishes ∙ zero-mod p in
    rw is_zero refl
