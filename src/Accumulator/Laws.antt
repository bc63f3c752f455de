-- ===== src/Accumulator/Laws.antt =====
-- Laws of the point addition that hold at every field order and all points.
use native.Mathlib.Nat.{pow-zero, pow-suc, mod-eq_of_lt}
use zk_api.Common.{zero, suc, ◌^◌, ℕ, ◌+◌, ◌-◌, ◌*◌, ◌<◌, ◌≡◌, refl, ◌∙◌, arith}
use zk_api.Common.Int.{pos, ◌-ℤ◌, ◌*ℤ◌}
use zk_api.Field.{to_field}
use zk_api.Field.Congruence.{to_field-lt, to_field-pos}
use zk_api.Field.Power.{power-eq}
use zk_api.Accumulator.{Point, curve_a, curve_d, identity, inv, add_points, mul_point}

module _ (p : ℕ) where
  -- Addition does not depend on the order of the two points.
  pub add_points_comm : (a b : Point) → add_points p a b ≡ add_points p b a
  unfolding add_points
  add_points_comm a b =
      let e1 : curve_d * a.x * b.x * a.y * b.y ≡ curve_d * b.x * a.x * b.y * a.y = omega arith in
      let e2 : a.x * b.y + a.y * b.x ≡ b.x * a.y + b.y * a.x = omega arith in
      let e3 : a.y * b.y ≡ b.y * a.y = omega arith in
      let e4 : curve_a * a.x * b.x ≡ curve_a * b.x * a.x = omega arith in rw (e1, e2, e3, e4) refl

one_pow : (n : ℕ) → 1 ^ n ≡ 1
one_pow zero = pow-zero 1
one_pow (suc n) = rw (pow-suc 1 n, one_pow n) (omega arith)

abbrev pub IsReduced : ℕ → Point → Type 0
IsReduced p q = (q.x < p) × (q.y < p)

one_less_none : pos 1 -ℤ pos 0 ≡ pos 1
unfolding ◌-ℤ◌
one_less_none = refl

difference_none : (y x : ℕ) → pos (1 * y) -ℤ pos (0 * x) ≡ pos y
unfolding ◌-ℤ◌
difference_none y x = ground arith

times_one : (y : ℕ) → pos y *ℤ pos 1 ≡ pos y
unfolding ◌*ℤ◌
times_one y = ground arith

module _ (p : ℕ) (h : 1 < p) where
  inv_one : inv p (pos 1) ≡ 1
  unfolding inv
  inv_one =
      let small : to_field p (pos 1) ≡ 1 = to_field-pos p 1 ∙ mod-eq_of_lt h in
      let value : 1 * 1 ^ (p - 2) ≡ 1 = rw (one_pow (p - 2)) (omega arith) in
      rw (small, power-eq p 1 1 (p - 2) h, value) (mod-eq_of_lt h)

  to_field_small : (n : ℕ) → n < p → to_field p (pos n) ≡ n
  to_field_small n small = to_field-pos p n ∙ mod-eq_of_lt small

  identity-add : (q : Point) → IsReduced p q → add_points p identity q ≡ q
  unfolding add_points
  identity-add q r =
      let nil : curve_d * 0 * q.x * 1 * q.y ≡ 0 = omega arith in
      let k0 : to_field p (pos 0) ≡ 0 = to_field_small 0 (omega arith) in
      let up : 1 + 0 ≡ 1 = omega arith in
      let ex : (0 * q.y + 1 * q.x) * 1 ≡ q.x = omega arith in
      rw
        (
          nil,
          k0,
          up,
          inv_one,
          ex,
          unit_difference q,
          to_field_small q.x r.0,
          to_field_small q.y r.1,
        )
        refl
    where
      unit_difference :
          (t : Point)
          → (pos (1 * t.y) -ℤ pos (curve_a * 0 * t.x)) *ℤ pos (inv p (pos 1 -ℤ pos 0)) ≡ pos t.y
      unit_difference t = rw (one_less_none, inv_one, difference_none t.y t.x) (times_one t.y)

  -- The identity is neutral on both sides, for points with reduced coordinates.
  pub add_points-identity :
      (q : Point) → IsReduced p q → (add_points p identity q ≡ q) × (add_points p q identity ≡ q)
  add_points-identity q r = (identity-add q r, add_points_comm p q identity ∙ identity-add q r)

  -- Every sum has reduced coordinates.
  pub add_points-IsReduced : (a b : Point) → IsReduced p (add_points p a b)
  unfolding add_points
  add_points-IsReduced a b =
      let pos_p : 0 < p = omega arith in (to_field-lt p _ pos_p, to_field-lt p _ pos_p)

  -- The loop of a multiplication by 0, 1 and 2 adds nothing, the point once, and the point to itself.
  pub mul_point_small :
      (q : Point)
      → IsReduced p q
      → (mul_point p q 0 ≡ identity) × (mul_point p q 1 ≡ q) × (mul_point p q 2 ≡ add_points p q q)
  unfolding mul_point
  mul_point_small q r =
      (refl, identity-add q r, identity-add (add_points p q q) (add_points-IsReduced q q))
