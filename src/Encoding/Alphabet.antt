-- ===== src/Encoding/Alphabet.antt =====
-- Texts of base32 digits alone, as new two-factor secrets are (securedrop/two_factor.py).
use ab.Base.{
  ℕ, suc, ◌*◌, ◌-◌, ◌%◌, ◌≡◌, refl, ap, Bool, true, false, ◌&&◌, ◌||◌, some, List, [], ◌∷◌, map,
  all, length, ltb, leb, arith, ok, Bool-cases, inl, inr, ◌++◌,
}
use ab.Base.Text.{Text}
use ab.Encoding.{
  base32_value, upper_char, strip_padding, values, decode_group, decode_values, decode_digits,
  b32decode, or_binascii_error,
}

abbrev pub is_base32_char : ℕ → Bool
is_base32_char c = (leb b'A' c && leb c b'Z') || (leb b'2' c && leb c b'7')

ascii-alphabet : (s : Text) → all is_base32_char s ≡ true → all (λ c. ltb c 128) s ≡ true
ascii-alphabet [] h = refl
ascii-alphabet (c ∷ s) h = ground (arith, ascii-alphabet s)

upper-alphabet : (s : Text) → all is_base32_char s ≡ true → map upper_char s ≡ s
unfolding upper_char
upper-alphabet [] h = refl
upper-alphabet (c ∷ s) h = ground (arith, upper-alphabet s)

strip-alphabet : (s : Text) → all is_base32_char s ≡ true → strip_padding s ≡ s
unfolding strip_padding
strip-alphabet [] h = refl
strip-alphabet (c ∷ s) h = ground (arith, strip-alphabet s)

char_has_value : (c : ℕ) → is_base32_char c ≡ true → (v : ℕ) × (base32_value c ≡ some v)
unfolding base32_value
char_has_value c h = elim (Bool-cases (leb b'A' c && leb c b'Z')) [
  | inl letter ↦ (c - 65, ground arith)
  | inr number ↦ (c - 24, ground arith)
]

values_cons :
    (c v : ℕ) (s : Text) (vs : List ℕ)
    → base32_value c ≡ some v
    → values s ≡ some vs
    → values (c ∷ s) ≡ some (v ∷ vs)
unfolding values
values_cons c v s vs p q = ground arith

alphabet_has_values :
    (s : Text)
    → all is_base32_char s ≡ true
    → (vs : List ℕ) × (values s ≡ some vs) × (length vs ≡ length s)
alphabet_has_values [] h = ([], unfold values in refl, refl)
alphabet_has_values (c ∷ s) h =
    let (v, e) = char_has_value c (ground arith) in
    let (vs, p, q) = alphabet_has_values s (ground arith) in
    (v ∷ vs, values_cons c v s vs e p, ap suc q)

decode_values_group :
    (p q r s t u v w : ℕ) (ds bytes : List ℕ)
    → decode_values ds ≡ some bytes
    → decode_values (p ∷ q ∷ r ∷ s ∷ t ∷ u ∷ v ∷ w ∷ ds)
      ≡ some (decode_group p q r s t u v w ++ bytes)
unfolding decode_values
decode_values_group p q r s t u v w ds bytes e = rw e

whole_groups_decode :
    (k : ℕ) (vs : List ℕ) → length vs ≡ 8 * k → (bytes : List ℕ) × (decode_values vs ≡ some bytes)
whole_groups_decode k [] h = ([], unfold decode_values in refl)
whole_groups_decode k (p ∷ []) h = absurd (omega arith)
whole_groups_decode k (p ∷ q ∷ []) h = absurd (omega arith)
whole_groups_decode k (p ∷ q ∷ r ∷ []) h = absurd (omega arith)
whole_groups_decode k (p ∷ q ∷ r ∷ s ∷ []) h = absurd (omega arith)
whole_groups_decode k (p ∷ q ∷ r ∷ s ∷ t ∷ []) h = absurd (omega arith)
whole_groups_decode k (p ∷ q ∷ r ∷ s ∷ t ∷ u ∷ []) h = absurd (omega arith)
whole_groups_decode k (p ∷ q ∷ r ∷ s ∷ t ∷ u ∷ v ∷ []) h = absurd (omega arith)
whole_groups_decode k (p ∷ q ∷ r ∷ s ∷ t ∷ u ∷ v ∷ w ∷ ds) h =
    let (bytes, e) = whole_groups_decode (k - 1) ds (omega arith) in
    (decode_group p q r s t u v w ++ bytes, decode_values_group p q r s t u v w ds bytes e)

no_padding : (n : ℕ) → ltb 7 (n - n) ≡ false
no_padding n = ground arith

decoded_by :
    (k : ℕ) (s : Text) (vs bytes : List ℕ)
    → all is_base32_char s ≡ true
    → length s ≡ 8 * k
    → values s ≡ some vs
    → decode_values vs ≡ some bytes
    → b32decode s ≡ ok bytes
unfolding b32decode
decoded_by k s vs bytes h len p e =
    let whole : length s % 8 ≡ 0 = omega arith in
    rw (ascii-alphabet s h, whole, upper-alphabet s h, strip-alphabet s h, no_padding (length s))
      (unfold decode_digits in rw (p, decode_digits) (ap or_binascii_error e))

-- A text of base32 digits whose length is a multiple of eight is decoded.
pub b32decode-alphabet :
    (k : ℕ) (s : Text)
    → all is_base32_char s ≡ true
    → length s ≡ 8 * k
    → (bytes : List ℕ) × (b32decode s ≡ ok bytes)
b32decode-alphabet k s h len =
    let (vs, p, q) = alphabet_has_values s h in
    let (bytes, e) = whole_groups_decode k vs (omega arith) in
    (bytes, decoded_by k s vs bytes h len p e)
