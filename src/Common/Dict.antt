-- ===== src/Common/Dict.antt =====
-- A JavaScript `Map` (and an SQL table with a primary key): the entries in insertion order.
use Prim.Native.Nat.{◌+◌, ◌≤◌}
use mathlib.Core.Path.{◌≡◌, refl}
use mathlib.Core.Bool.{Bool}
use mathlib.Core.List.{List, [], ◌∷◌}
use mathlib.Core.Option.{Option, none, some}
use native.Mathlib.Omega.{arith}
use zk_api.Common.Tests.{if◌then◌else◌, is_some}
use zk_api.Common.Lists.{length}
use zk_api.Common.Eq.{Eq, ◌===◌}

abbrev pub Dict {ℓ κ} : Type ℓ → Type κ → Type (ℓ ⊔ κ)
Dict K V = List (K × V)

module _ {ℓ κ} {K : Type ℓ} {V : Type κ} ⦃e : Eq K⦄ where
  -- `m.get(k)`
  abbrev pub lookup : K → Dict K V → Option V
  lookup k [] = none
  lookup k ((j, v) ∷ m) = if j === k then some v else lookup k m

  -- `m.has(k)`
  abbrev pub has : K → Dict K V → Bool
  has k m = is_some (lookup k m)

  -- `m.set(k, v)`: a key that is present keeps its place.
  abbrev pub insert : K → V → Dict K V → Dict K V
  insert k v [] = (k, v) ∷ []
  insert k v ((j, w) ∷ m) = if j === k then (k, v) ∷ m else (j, w) ∷ insert k v m

  -- `m.delete(k)`
  abbrev pub erase : K → Dict K V → Dict K V
  erase k [] = []
  erase k ((j, v) ∷ m) = let rest = erase k m in if j === k then rest else (j, v) ∷ rest

  pub lookup-insert :
      (k j : K) (v : V) (m : Dict K V)
      → lookup j (insert k v m) ≡ (if k === j then some v else lookup j m)
  lookup-insert k j v [] = refl
  lookup-insert k j v ((i, w) ∷ m) =
      ground (arith, e.beq_iff k j, e.beq_iff i k, e.beq_iff i j, lookup-insert k j v m)

  pub lookup-erase :
      (k j : K) (m : Dict K V) → lookup j (erase k m) ≡ (if k === j then none else lookup j m)
  lookup-erase k j [] = ground arith
  lookup-erase k j ((i, w) ∷ m) =
      ground (arith, e.beq_iff k j, e.beq_iff i k, e.beq_iff i j, lookup-erase k j m)

  pub length-insert_le : (k : K) (v : V) (m : Dict K V) → length (insert k v m) ≤ length m + 1
  length-insert_le k v [] = omega arith
  length-insert_le k v ((j, w) ∷ m) = ground (arith, length-insert_le k v m)

  pub length-erase_le : (k : K) (m : Dict K V) → length (erase k m) ≤ length m
  length-erase_le k [] = omega arith
  length-erase_le k ((j, w) ∷ m) = ground (arith, length-erase_le k m)

module _ {ℓ κ} {K : Type ℓ} {V : Type κ} ⦃e : Eq K⦄ where
  -- No key is listed twice.
  abbrev pub IsDistinct : Dict K V → Type κ
  IsDistinct [] = Unit
  IsDistinct ((k, v) ∷ m) = (lookup k m ≡ none) × IsDistinct m

  pub insert-IsDistinct : (k : K) (v : V) (m : Dict K V) → IsDistinct m → IsDistinct (insert k v m)
  insert-IsDistinct k v [] h = (refl, tt)
  insert-IsDistinct k v ((j, w) ∷ m) h =
      ground
        (arith, e.beq_iff j k, e.beq_iff k j, insert-IsDistinct k v m h.1, lookup-insert k j v m)

  pub erase-IsDistinct : (k : K) (m : Dict K V) → IsDistinct m → IsDistinct (erase k m)
  erase-IsDistinct k [] h = tt
  erase-IsDistinct k ((j, w) ∷ m) h = ground (arith, erase-IsDistinct k m h.1, lookup-erase k j m)

pub ruleset dict_laws = (lookup-insert, lookup-erase)
