-- ===== src/Accumulator.antt =====
-- The refund accumulator over a twisted Edwards curve (src/longjing/accumulator.ts): the point
-- arithmetic, commitments, re-randomisation and refunds. The field order is an argument, as are the
-- four generators, which the source hashes to the curve.
pub mod Laws
use mathlib.Core.WellFounded.{Acc}
use mathlib.Core.Logic.{dite}
use native.Mathlib.Decide.{dec_lt}
use zk_api.Common.{ℕ, ◌+◌, ◌-◌, ◌*◌, ◌/◌, ◌%◌, ◌<◌, Bool, ◌&&◌, arith, ◌==◌, if◌then◌else◌}
use zk_api.Common.Int.{ℤ, pos, ◌-ℤ◌, ◌*ℤ◌}
use zk_api.Common.Order.{lt_wf}
use zk_api.Field.{to_field, power}

pub record Point : Type 0 where
  pub x : ℕ
  pub y : ℕ

-- The constants A, D and COFACTOR of Baby Jubjub.
abbrev pub curve_a : ℕ
curve_a = 168700

abbrev pub curve_d : ℕ
curve_d = 168696

abbrev pub cofactor : ℕ
cofactor = 8

abbrev pub subgroup_order : ℕ
subgroup_order = 2736030358979909402780800718157159386076813972158567259200215660948447373041

abbrev pub identity : Point
identity = record { x = 0; y = 1 }

unfoldable pub is_identity : Point → Bool
is_identity p = p.x == 0 && p.y == 1

pub record Generators : Type 0 where
  pub g : Point
  pub j : Point
  pub k : Point
  pub h : Point

pub record Opening : Type 0 where
  pub refunds : ℕ
  pub index : ℕ
  pub commitment : ℕ
  pub blinding : ℕ

module _ (field_modulus : ℕ) where
  unfoldable pub inv : ℤ → ℕ
  unfolding power
  inv x = power field_modulus 1 (to_field field_modulus x) (field_modulus - 2)

  unfoldable pub add_points : Point → Point → Point
  add_points p q =
      let k = to_field field_modulus (pos (curve_d * p.x * q.x * p.y * q.y)) in
      record {
        x = to_field field_modulus (pos ((p.x * q.y + p.y * q.x) * inv (pos (1 + k))));
        y =
            to_field field_modulus
              ((pos (p.y * q.y) -ℤ pos (curve_a * p.x * q.x)) *ℤ pos (inv (pos 1 -ℤ pos k)));
      }

  -- The loop of `mulPoint`, over the exponent that is left.
  pub mul_loop : (result base : Point) (e : ℕ) → Acc ◌<◌ e → Point
  mul_loop result base e (Acc.intro _ smaller) =
      dite (dec_lt 0 e)
        (λ h.
          mul_loop (if e % 2 == 1 then add_points result base else result) (add_points base base)
            (e / 2) (smaller (e / 2) (omega arith)))
        (λ _. result)

  unfoldable pub mul_point : Point → ℕ → Point
  unfolding mul_loop lt_wf dec_lt
  mul_point p scalar = mul_loop identity p scalar (lt_wf.apply scalar)

  unfoldable pub is_on_curve : Point → Bool
  is_on_curve p =
      to_field field_modulus (pos (curve_a * p.x * p.x + p.y * p.y))
      == to_field field_modulus (pos (1 + curve_d * p.x * p.x * p.y * p.y))

  unfoldable pub in_subgroup : Point → Bool
  unfolding is_on_curve is_identity
  in_subgroup p = is_on_curve p && is_identity (mul_point p subgroup_order)

  module _ (gs : Generators) where
    -- `[…].reduce(addPoints)`
    unfoldable pub commit : Opening → Point
    commit o =
        add_points
          (add_points (add_points (mul_point gs.g o.refunds) (mul_point gs.j o.index))
            (mul_point gs.k o.commitment))
          (mul_point gs.h o.blinding)

    unfoldable pub genesis : ℕ → Point
    genesis commitment =
        commit (record { refunds = 0; index = 0; commitment = commitment; blinding = 0 })

    unfoldable pub rerandomize : Point → ℕ → Point
    rerandomize accumulator blinding = add_points accumulator (mul_point gs.h blinding)

    unfoldable pub apply_refund : Point → ℕ → Point
    apply_refund accumulator refund =
        add_points (add_points accumulator (mul_point gs.g refund)) gs.j
