-- ===== src/Base/Monad.antt =====
-- Python exceptions as values, and methods that mutate a state and may raise. What was written
-- before a raise stays written, so the state comes back beside the error too.
use mathlib.Core.Path.{◌≡◌, refl, ap}
use mathlib.Core.Logic.{◌⊎◌, inl, inr}
use mathlib.Core.Bool.{Bool}
use mathlib.Core.Option.{Option, none, some}
use ab.Base.Tests.{if◌then◌else◌}

-- `E` is the type of the exceptions, `A` that of the value returned.
pub data Result {ℓ} (E : Type 0) (A : Type ℓ) : Type ℓ where
  ok : A → Result E A
  err : E → Result E A

abbrev pub Exec : Type 0 → Type 0 → Type 0 → Type 0
Exec E S A = S → Result E A × S

module _ {E S A : Type 0} where
  abbrev pub pure : A → Exec E S A
  pure a s = (ok a, s)

  abbrev pub raise : E → Exec E S A
  raise e s = (err e, s)

  abbrev pub lift : Result E A → Exec E S A
  lift r s = (r, s)

  abbrev pub gets : (S → A) → Exec E S A
  gets f s = (ok (f s), s)

  abbrev pub or_raise : Option A → E → Exec E S A
  or_raise none e = raise e
  or_raise (some a) e = pure a

module _ {E S : Type 0} where
  abbrev pub modify : (S → S) → Exec E S (Unit {0})
  modify f s = (ok tt, f s)

  abbrev pub raise_if : Bool → E → Exec E S (Unit {0})
  raise_if c e s = (if c then err e else ok tt, s)

infixl 5 ◌>>=◌ ◌>>◌
abbrev pub ◌>>=◌ : {E S A B : Type 0} → Exec E S A → (A → Exec E S B) → Exec E S B
◌>>=◌ m f s = let (r, s') = m s in elim r [ ok a ↦ f a s' | err e ↦ (err e, s') ]

abbrev pub ◌>>◌ : {E S A B : Type 0} → Exec E S A → Exec E S B → Exec E S B
m >> k = m >>= λ _. k

pub Result-cases {ℓ} :
    {E : Type 0} {A : Type ℓ} (r : Result E A) → ((a : A) × (r ≡ ok a)) ⊎ ((e : E) × (r ≡ err e))
Result-cases (ok a) = inl (a, refl)
Result-cases (err e) = inr (e, refl)

-- One step of a chain, by what the step does.
module _ {E S A B : Type 0} (m : Exec E S A) (k : A → Exec E S B) (s s' : S) where
  pub bind-ok : (a : A) → m s ≡ (ok a, s') → (m >>= k) s ≡ k a s'
  bind-ok a h =
      ap {B = Result E B × S}
        (λ (p : Result E A × S). elim p.0 [ ok x ↦ k x p.1 | err x ↦ (err x, p.1) ]) h

  pub bind-err : (e : E) → m s ≡ (err e, s') → (m >>= k) s ≡ (err e, s')
  bind-err e h =
      ap {B = Result E B × S}
        (λ (p : Result E A × S). elim p.0 [ ok x ↦ k x p.1 | err x ↦ (err x, p.1) ]) h
