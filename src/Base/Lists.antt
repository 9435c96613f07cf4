-- ===== src/Base/Lists.antt =====
-- Lists over the native numbers: measures, searches by a test, and predicates by recursion.
use Prim.Native.Nat.{ℕ, zero, suc, ◌+◌, ◌≤◌, ◌<◌}
use mathlib.Core.Path.{◌≡◌, refl, ap}
use mathlib.Core.Bool.{Bool, true, false, not, ◌&&◌, ◌||◌}
use mathlib.Core.Logic.{inl, inr}
use mathlib.Core.List.{List, [], ◌∷◌, ◌++◌}
use mathlib.Core.Option.{Option, none, some}
use native.Mathlib.Omega.{arith}
use native.Mathlib.Decide.{ℕ_discrete}
use ab.Base.Tests.{if◌then◌else◌, Bool-cases}

module _ {ℓ} {A : Type ℓ} where
  abbrev pub length : List A → ℕ
  length [] = 0
  length (x ∷ xs) = suc (length xs)

  abbrev pub take : ℕ → List A → List A
  take zero xs = []
  take (suc n) [] = []
  take (suc n) (x ∷ xs) = x ∷ take n xs

  abbrev pub drop : ℕ → List A → List A
  drop zero xs = xs
  drop (suc n) [] = []
  drop (suc n) (x ∷ xs) = drop n xs

  pub length-append : (xs ys : List A) → length (xs ++ ys) ≡ length xs + length ys
  length-append [] ys = omega arith
  length-append (x ∷ xs) ys = omega (arith, length-append xs ys)

  pub take-append-drop : (n : ℕ) (xs : List A) → take n xs ++ drop n xs ≡ xs
  take-append-drop zero xs = refl
  take-append-drop (suc n) [] = refl
  take-append-drop (suc n) (x ∷ xs) = ap (λ l. x ∷ l) (take-append-drop n xs)

  pub length-take : (n : ℕ) (xs : List A) → n ≤ length xs → length (take n xs) ≡ n
  length-take zero xs h = refl
  length-take (suc n) [] h = absurd (omega arith)
  length-take (suc n) (x ∷ xs) h = omega (arith, length-take n xs)

  pub take-append_length : (xs ys : List A) (n : ℕ) → n ≡ length xs → take n (xs ++ ys) ≡ xs
  take-append_length [] ys zero h = refl
  take-append_length [] ys (suc n) h = absurd (omega arith)
  take-append_length (x ∷ xs) ys zero h = absurd (omega arith)
  take-append_length (x ∷ xs) ys (suc n) h =
      ap (λ l. x ∷ l) (take-append_length xs ys n (omega arith))

  pub drop-append_length : (xs ys : List A) (n : ℕ) → n ≡ length xs → drop n (xs ++ ys) ≡ ys
  drop-append_length [] ys zero h = refl
  drop-append_length [] ys (suc n) h = absurd (omega arith)
  drop-append_length (x ∷ xs) ys zero h = absurd (omega arith)
  drop-append_length (x ∷ xs) ys (suc n) h = drop-append_length xs ys n (omega arith)

  pub drop_past : (xs : List A) (n : ℕ) → length xs ≤ n → drop n xs ≡ []
  drop_past [] zero h = refl
  drop_past [] (suc n) h = refl
  drop_past (x ∷ xs) zero h = absurd (omega arith)
  drop_past (x ∷ xs) (suc n) h = drop_past xs n (omega arith)

  pub take_past : (xs : List A) (n : ℕ) → length xs ≤ n → take n xs ≡ xs
  take_past [] zero h = refl
  take_past [] (suc n) h = refl
  take_past (x ∷ xs) zero h = absurd (omega arith)
  take_past (x ∷ xs) (suc n) h = ap (λ l. x ∷ l) (take_past xs n (omega arith))

  pub length-drop_le : (n : ℕ) (xs : List A) → length (drop n xs) ≤ length xs
  length-drop_le zero xs = omega arith
  length-drop_le (suc n) [] = omega arith
  length-drop_le (suc n) (x ∷ xs) = omega (arith, length-drop_le n xs)

-- range(start, start + rounds)
abbrev pub range : ℕ → ℕ → List ℕ
range start zero = []
range start (suc rounds) = start ∷ range (start + 1) rounds

-- A test on every element, on some element, and the elements that pass it, in order.
module _ {ℓ} {A : Type ℓ} (p : A → Bool) where
  abbrev pub all : List A → Bool
  all [] = true
  all (x ∷ xs) = p x && all xs

  abbrev pub any : List A → Bool
  any [] = false
  any (x ∷ xs) = p x || any xs

  abbrev pub select : List A → List A
  select [] = []
  select (x ∷ xs) = let rest = select xs in if p x then x ∷ rest else rest

  -- The first element that passes the test.
  abbrev pub find : List A → Option A
  find [] = none
  find (x ∷ xs) = let rest = find xs in if p x then some x else rest

  pub all-append : (xs ys : List A) → all (xs ++ ys) ≡ (all xs && all ys)
  all-append [] ys = refl
  all-append (x ∷ xs) ys = ground (arith, all-append xs ys)

  pub find_passes : (xs : List A) (a : A) → find xs ≡ some a → p a ≡ true
  find_passes [] a h = ground arith
  find_passes (x ∷ xs) a h = ground (arith, find_passes xs a)

  pub select-append : (xs ys : List A) → select (xs ++ ys) ≡ select xs ++ select ys
  select-append [] ys = refl
  select-append (x ∷ xs) ys = ground (arith, select-append xs ys)

  pub select-all : (xs : List A) → all xs ≡ true → select xs ≡ xs
  select-all [] h = refl
  select-all (x ∷ xs) h = ground (arith, select-all xs)

  pub length-select_le : (xs : List A) → length (select xs) ≤ length xs
  length-select_le [] = omega arith
  length-select_le (x ∷ xs) = ground (arith, length-select_le xs)

module _ {ℓ κ} {A : Type ℓ} (P : A → Type κ) where
  abbrev pub All : List A → Type κ
  All [] = Unit
  All (x ∷ xs) = P x × All xs

  pub All-append : (xs ys : List A) → All xs → All ys → All (xs ++ ys)
  All-append [] ys h k = k
  All-append (x ∷ xs) ys h k = (h.0, All-append xs ys h.1 k)

  pub All-intro : ((a : A) → P a) → (xs : List A) → All xs
  All-intro f [] = tt
  All-intro f (x ∷ xs) = (f x, All-intro f xs)

module _ {ℓ κ ι} {A : Type ℓ} {P : A → Type κ} {Q : A → Type ι} where
  pub All-map : ((a : A) → P a → Q a) → (xs : List A) → All P xs → All Q xs
  All-map f [] h = tt
  All-map f (x ∷ xs) h = (f x h.0, All-map f xs h.1)

module _ {ℓ} {A : Type ℓ} (p : A → Bool) where
  pub select_keep : (xs : List A) → All (λ x. p x ≡ true) xs → select p xs ≡ xs
  select_keep [] h = refl
  select_keep (x ∷ xs) h = let rest = select_keep xs h.1 in let e = h.0 in ground arith

  pub select_none : (xs : List A) → All (λ x. p x ≡ false) xs → select p xs ≡ []
  select_none [] h = refl
  select_none (x ∷ xs) h = let rest = select_none xs h.1 in let e = h.0 in ground arith

  -- What is kept passes the test.
  pub All-select : (xs : List A) → All (λ x. p x ≡ true) (select p xs)
  All-select [] = tt
  All-select (x ∷ xs) = go (p x) refl (All-select xs)
    where
      go :
          (b : Bool)
          → p x ≡ b
          → All (λ y. p y ≡ true) (select p xs)
          → All (λ y. p y ≡ true) (if b then x ∷ select p xs else select p xs)
      go true e rest = (e, rest)
      go false e rest = rest

module _ {ℓ} {A : Type ℓ} (p q : A → Bool) where
  -- Two tests that agree on the elements keep the same ones.
  pub select_congr : (xs : List A) → All (λ x. p x ≡ q x) xs → select p xs ≡ select q xs
  select_congr [] h = refl
  select_congr (x ∷ xs) h = let rest = select_congr xs h.1 in let e = h.0 in ground arith

  pub select-select : (xs : List A) → select p (select q xs) ≡ select (λ x. q x && p x) xs
  select-select [] = refl
  select-select (x ∷ xs) = ground (arith, select-select xs)

  pub any-select-false : (xs : List A) → any p xs ≡ false → any p (select q xs) ≡ false
  any-select-false [] h = refl
  any-select-false (x ∷ xs) h = ground (arith, any-select-false xs)

  -- Removing other elements does not change what is found.
  pub find-select :
      (xs : List A) (a : A) → find p xs ≡ some a → q a ≡ true → find p (select q xs) ≡ some a
  find-select [] a h k = absurd (cc)
  find-select (x ∷ xs) a h k = elim (Bool-cases (p x)) [
    | inl named ↦ let e : x ≡ a = ground arith in let kept : q x ≡ true = rw e k in ground arith
    | inr other ↦ let rest = find-select xs a (ground arith) k in ground arith
  ]

pub any-select-not {ℓ} :
    {A : Type ℓ} (p : A → Bool) (xs : List A) → any p (select (λ x. not (p x)) xs) ≡ false
any-select-not p [] = refl
any-select-not p (x ∷ xs) = ground (arith, any-select-not p xs)

pub All-select_of {ℓ κ} :
    {A : Type ℓ} (P : A → Type κ) (p : A → Bool) (xs : List A) → All P xs → All P (select p xs)
All-select_of P p [] h = tt
All-select_of P p (x ∷ xs) h =
    elim (p x) as (λ b. All P (if b then x ∷ select p xs else select p xs)) [
      | true ↦ (h.0, All-select_of P p xs h.1)
      | false ↦ All-select_of P p xs h.1
    ]

-- What holds by evaluation on a range holds at each number of it.
pub all-range :
    (p : ℕ → Bool) (start rounds i : ℕ)
    → all p (range start rounds) ≡ true
    → start ≤ i
    → i < start + rounds
    → p i ≡ true
all-range p start zero i h lo hi = absurd (omega arith)
all-range p start (suc rounds) i h lo hi = elim (ℕ_discrete start i) [
  | yes e ↦ ground (arith, ap p e)
  | no ne ↦ ground (arith, all-range p (start + 1) rounds i)
]
