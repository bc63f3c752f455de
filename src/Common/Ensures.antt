-- ===== src/Common/Ensures.antt =====
-- What a method of Exec ensures: one predicate where it returns, one where it throws.
use mathlib.Core.Bool.{Bool, true, false}
use mathlib.Core.Option.{Option, none, some}
use mathlib.Core.Path.{◌≡◌, refl}
use zk_api.Common.Exec.{Exec, Result, ok, err, or_throw, throw_unless}

infixl 5 ◌>>=◌ ◌>>◌
-- The sequence that Exec has too, here as a definition: the rule below matches it.
unfoldable pub ◌>>=◌ {ℓ} : {E S A B : Type ℓ} → Exec E S A → (A → Exec E S B) → Exec E S B
◌>>=◌ m f s = let (r, s') = m s in elim r [ ok a ↦ f a s' | err e ↦ (err e, s') ]

abbrev pub ◌>>◌ {ℓ} : {E S A B : Type ℓ} → Exec E S A → Exec E S B → Exec E S B
m >> k = m >>= λ _. k

module _ {ℓ} {E S : Type ℓ} where
  abbrev pub Ensures : {A : Type ℓ} → (A → S → Type ℓ) → (E → S → Type ℓ) → Result E A × S → Type ℓ
  Ensures P Q (ok a, s) = P a s
  Ensures P Q (err e, s) = Q e s

  module _ {A B : Type ℓ} (P : A → S → Type ℓ) (R : B → S → Type ℓ) (Q : E → S → Type ℓ) where
    Ensures-next :
        (p : Result E A × S) (f : A → Exec E S B)
        → Ensures P Q p
        → ((a : A) (s : S) → P a s → Ensures R Q (f a s))
        → Ensures R Q (let (r, s) = p in elim r [ ok a ↦ f a s | err e ↦ (err e, s) ])
    Ensures-next (ok a, s) f h k = k a s h
    Ensures-next (err e, s) f h k = h

    -- The rule for a sequence.
    pub Ensures-bind :
        (m : Exec E S A) (f : A → Exec E S B) (s : S)
        → Ensures P Q (m s)
        → ((a : A) (s' : S) → P a s' → Ensures R Q (f a s'))
        → Ensures R Q ((m >>= f) s)
    unfolding ◌>>=◌
    Ensures-bind m f s h k = Ensures-next (m s) f h k

  pub Ensures-or_throw :
      {A : Type ℓ} (P : A → S → Type ℓ) (Q : E → S → Type ℓ) (o : Option A) (e : E) (s : S)
      → ((a : A) → o ≡ some a → P a s)
      → (o ≡ none → Q e s)
      → Ensures P Q (or_throw o e s)
  Ensures-or_throw P Q none e s h k = k refl
  Ensures-or_throw P Q (some a) e s h k = h a refl

  pub Ensures-throw_unless :
      (P : Unit {ℓ} → S → Type ℓ) (Q : E → S → Type ℓ) (b : Bool) (e : E) (s : S)
      → (b ≡ true → P tt s)
      → (b ≡ false → Q e s)
      → Ensures P Q (throw_unless b e s)
  Ensures-throw_unless P Q true e s h k = h refl
  Ensures-throw_unless P Q false e s h k = k refl

  -- What holds of the state however the method ends.
  pub ensures_state :
      {A : Type ℓ} (P : S → Type ℓ) (p : Result E A × S) → Ensures (λ _. P) (λ _. P) p → P p.1
  ensures_state P (ok a, s) h = h
  ensures_state P (err e, s) h = h

  pub Ensures-always :
      {A : Type ℓ} (P : S → Type ℓ) (p : Result E A × S) → P p.1 → Ensures (λ _. P) (λ _. P) p
  Ensures-always P (ok a, s) h = h
  Ensures-always P (err e, s) h = h
