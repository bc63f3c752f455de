-- ===== src/Common/Exec.antt =====
-- Methods that change an object and may throw. What was written before a throw stays written, so
-- the state comes back beside the exception too.
use mathlib.Core.Bool.{Bool, true, false}
use mathlib.Core.Path.{◌≡◌, refl}
use mathlib.Core.Logic.{◌⊎◌, inl, inr}
use mathlib.Core.Option.{Option, none, some}

pub data Result {ℓ κ} (E : Type ℓ) (A : Type κ) : Type (ℓ ⊔ κ) where
  ok : A → Result E A
  err : E → Result E A

pub Result-cases {ℓ κ} :
    {E : Type ℓ} {A : Type κ} (r : Result E A) → ((e : E) × (r ≡ err e)) ⊎ ((a : A) × (r ≡ ok a))
Result-cases (err e) = inl (e, refl)
Result-cases (ok a) = inr (a, refl)

abbrev pub Exec {ℓ} : Type ℓ → Type ℓ → Type ℓ → Type ℓ
Exec E S A = S → Result E A × S

module _ {ℓ} {E S A : Type ℓ} where
  abbrev pub pure : A → Exec E S A
  pure a s = (ok a, s)

  abbrev pub throw : E → Exec E S A
  throw e s = (err e, s)

  -- A computation that neither reads nor changes the state.
  abbrev pub lift : Result E A → Exec E S A
  lift r s = (r, s)

  -- A method that cannot throw.
  abbrev pub update : (S → S × A) → Exec E S A
  update f s = let (s', a) = f s in (ok a, s')

  abbrev pub or_throw : Option A → E → Exec E S A
  or_throw none e s = (err e, s)
  or_throw (some a) e s = (ok a, s)

  -- `try { m } catch { h }`
  abbrev pub catch : Exec E S A → (E → Exec E S A) → Exec E S A
  catch m h s = let (r, s') = m s in elim r [ ok a ↦ (ok a, s') | err e ↦ h e s' ]

abbrev pub throw_unless {ℓ} : {E S : Type ℓ} → Bool → E → Exec E S (Unit {ℓ})
throw_unless true e s = (ok tt, s)
throw_unless false e s = (err e, s)

infixl 5 ◌>>=◌ ◌>>◌
abbrev pub ◌>>=◌ {ℓ} : {E S A B : Type ℓ} → Exec E S A → (A → Exec E S B) → Exec E S B
◌>>=◌ m f s = let (r, s') = m s in elim r [ ok a ↦ f a s' | err e ↦ (err e, s') ]

abbrev pub ◌>>◌ {ℓ} : {E S A B : Type ℓ} → Exec E S A → Exec E S B → Exec E S B
m >> k = m >>= λ _. k
