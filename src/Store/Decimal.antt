-- ===== src/Store/Decimal.antt =====
-- Decimal numerals: what `str` writes, `int` reads (securedrop/store.py writes the count of a file's
-- name so, and securedrop/models.py, `Source.collection`, reads it).
use ab.Base.{
  ℕ, zero, suc, ◌+◌, ◌/◌, ◌%◌, ◌≤◌, ◌<◌, ◌≡◌, refl, ap, ◌∙◌, Bool, true, Option, none, some, [],
  ◌∷◌, ◌++◌, all, all-append, length, length-append, arith, leb, ◌&&◌,
}
use native.Mathlib.Decide.{dec_lt}
use ab.Base.Text.{Text}
use ab.Store.{
  decimal_fuel, decimal, digit_value, next_value, digits_value, before_dash, nonempty_value,
  file_index,
}

-- An ASCII digit.
abbrev pub is_ascii_digit : ℕ → Bool
is_ascii_digit c = leb 48 c && leb c 57

digits_value_nil : (o : Option ℕ) → digits_value o [] ≡ o
unfolding digits_value
digits_value_nil none = refl
digits_value_nil (some acc) = refl

-- One more digit.
digits_value-snoc :
    (o : Option ℕ) (v c : ℕ) (s : Text)
    → digits_value o s ≡ some v
    → digits_value o (s ++ (c ∷ [])) ≡ next_value v (digit_value c)
unfolding digits_value
digits_value-snoc none v c s h = absurd (cc)
digits_value-snoc (some acc) v c [] h =
    let e : acc ≡ v = cc in
    digits_value_nil (next_value acc (digit_value c)) ∙ ap (λ a. next_value a (digit_value c)) e
digits_value-snoc (some acc) v c (d ∷ s) h =
    digits_value-snoc (next_value acc (digit_value d)) v c s h

digit_value_small : (n : ℕ) → n < 10 → digit_value (n + 48) ≡ some n
digit_value_small n h = ground arith

pub decimal_fuel-digits : (fuel n : ℕ) → all is_ascii_digit (decimal_fuel fuel n) ≡ true
unfolding decimal_fuel
decimal_fuel-digits zero n = refl
decimal_fuel-digits (suc fuel) n = ground (
  arith,
  decimal_fuel-digits fuel (n / 10),
  all-append is_ascii_digit (decimal_fuel fuel (n / 10)) ((n % 10 + 48) ∷ []),
)

decimal_fuel_small : (fuel n : ℕ) → n < 10 → decimal_fuel (suc fuel) n ≡ (n + 48) ∷ []
unfolding decimal_fuel
decimal_fuel_small fuel n h = ground arith

decimal_fuel_large :
    (fuel n : ℕ)
    → 10 ≤ n
    → decimal_fuel (suc fuel) n ≡ decimal_fuel fuel (n / 10) ++ ((n % 10 + 48) ∷ [])
unfolding decimal_fuel
decimal_fuel_large fuel n h = ground arith

digits_value_one : (n : ℕ) → n < 10 → digits_value (some 0) ((n + 48) ∷ []) ≡ some n
unfolding digits_value
digits_value_one n h =
    digits_value_nil (next_value 0 (digit_value (n + 48)))
    ∙ rw (digit_value_small n h) (ap some (omega arith))

digits_value-decimal_fuel :
    (fuel n : ℕ) → n < fuel → digits_value (some 0) (decimal_fuel fuel n) ≡ some n
digits_value-decimal_fuel zero n h = absurd (omega arith)
digits_value-decimal_fuel (suc fuel) n h = elim (dec_lt n 10) [
  | yes small ↦ rw (decimal_fuel_small fuel n small) (digits_value_one n small)
  | no large ↦
      let step =
        digits_value-snoc (some 0) (n / 10) (n % 10 + 48) (decimal_fuel fuel (n / 10))
          (digits_value-decimal_fuel fuel (n / 10) (omega arith)) in
      rw (decimal_fuel_large fuel n (omega arith))
        (step ∙ rw (digit_value_small (n % 10) (omega arith)) (ap some (omega arith)))
]

-- What stands before the dash, when only digits do.
before_dash-digits : (s t : Text) → all is_ascii_digit s ≡ true → before_dash (s ++ (b'-' ∷ t)) ≡ s
unfolding before_dash
before_dash-digits [] t h = refl
before_dash-digits (c ∷ s) t h = ground (arith, before_dash-digits s t)

nonempty_value_long : (s : Text) → 0 < length s → nonempty_value s ≡ digits_value (some 0) s
nonempty_value_long [] h = absurd (omega arith)
nonempty_value_long (c ∷ s) h = refl

pub length-decimal_fuel : (fuel n : ℕ) → 0 < length (decimal_fuel (suc fuel) n)
unfolding decimal_fuel
length-decimal_fuel fuel n =
    ground (arith, length-append (decimal_fuel fuel (n / 10)) ((n % 10 + 48) ∷ []))

-- The index that a name begins with is read back, whatever comes after the dash.
pub file_index-decimal : (n : ℕ) (t : Text) → file_index (decimal n ++ (b'-' ∷ t)) ≡ some n
unfolding file_index decimal
file_index-decimal n t =
    rw (before_dash-digits (decimal_fuel (suc n) n) t (decimal_fuel-digits (suc n) n)) (
      nonempty_value_long (decimal_fuel (suc n) n) (length-decimal_fuel n n)
      ∙ digits_value-decimal_fuel (suc n) n (omega arith))
