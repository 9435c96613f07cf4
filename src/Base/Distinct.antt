-- ===== src/Base/Distinct.antt =====
-- Lists without repetition of a key, and what holds of each element of a list.
use mathlib.Core.Path.{◌≡◌, sym, subst}
use mathlib.Core.Logic.{◌≢◌, inl, inr}
use mathlib.Core.Bool.{Bool, false}
use mathlib.Core.List.{List, [], ◌∷◌, ◌++◌, map}
use mathlib.Core.Option.{none, some}
use native.Mathlib.Omega.{arith}
use ab.Base.Tests.{Bool-cases}
use ab.Base.Lists.{All, All-append, find}

module _ {A B : Type 0} (f : A → B) where
  -- No two elements have the same key.
  abbrev pub IsDistinct : List A → Type 0
  IsDistinct [] = Unit
  IsDistinct (x ∷ xs) = All (λ y. f y ≢ f x) xs × IsDistinct xs

  pub IsDistinct-append :
      (xs : List A) (u : A) → IsDistinct xs → All (λ y. f y ≢ f u) xs → IsDistinct (xs ++ (u ∷ []))
  IsDistinct-append [] u d h = (tt, tt)
  IsDistinct-append (x ∷ xs) u d h = (
    All-append (λ y. f y ≢ f x) xs (u ∷ []) d.0 ((λ e. h.0 (sym e)), tt),
    IsDistinct-append xs u d.1 h.1,
  )

module _ {A : Type 0} where
  pub All-zip : (P Q : A → Type 0) (xs : List A) → All P xs → All Q xs → All (λ x. P x × Q x) xs
  All-zip P Q [] h k = tt
  All-zip P Q (x ∷ xs) h k = ((h.0, k.0), All-zip P Q xs h.1 k.1)

  pub All-find :
      (P : A → Type 0) (p : A → Bool) (xs : List A) (a : A) → All P xs → find p xs ≡ some a → P a
  All-find P p [] a h e = absurd (cc)
  All-find P p (x ∷ xs) a h e = elim (Bool-cases (p x)) [
    | inl hit ↦ let same : x ≡ a = ground arith in subst P same h.0
    | inr miss ↦ All-find P p xs a h.1 (ground arith)
  ]

  -- What a search that fails says of each element.
  pub All-find-none : (p : A → Bool) (xs : List A) → find p xs ≡ none → All (λ x. p x ≡ false) xs
  All-find-none p [] h = tt
  All-find-none p (x ∷ xs) h = elim (Bool-cases (p x)) [
    | inl hit ↦ absurd (ground arith)
    | inr miss ↦ (miss, All-find-none p xs (ground arith))
  ]

  pub All-map_to :
      (P : A → Type 0) (g : A → A) (xs : List A) → All (λ x. P (g x)) xs → All P (map g xs)
  All-map_to P g [] h = tt
  All-map_to P g (x ∷ xs) h = (h.0, All-map_to P g xs h.1)
