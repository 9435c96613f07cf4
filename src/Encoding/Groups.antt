-- ===== src/Encoding/Groups.antt =====
-- One group of five bytes and what stands for it, for `base64.b32encode` and `base64.b32decode` as two-factor secrets use
-- them (securedrop/two_factor.py, securedrop/models.py).
use mathlib.Core.List.{reverse}
use ab.Base.{
  ℕ, zero, suc, ◌/◌, ◌%◌, ◌<◌, ◌≡◌, refl, ap, ◌∙◌, some, List, [], ◌∷◌, ◌++◌, map, take, arith, All,
}
use ab.Base.Text.{Text, codes}
use ab.Encoding.{base32_char, encode_group, b32encode, decode_group, decode_values}
use ab.Encoding.Digits.{digits, undigits, shift, undigits-digits_32, digits-undigits_256}

abbrev pub IsByte : ℕ → Type 0
IsByte b = b < 256

abbrev number : ℕ → ℕ → ℕ → ℕ → ℕ → ℕ
number a b c d e = undigits 256 (e ∷ d ∷ c ∷ b ∷ a ∷ []) 0

unfoldable pub group_values : ℕ → ℕ → ℕ → ℕ → ℕ → List ℕ
group_values a b c d e = reverse (digits 32 8 (number a b c d e))

shift-number :
    (a b c d e : ℕ)
    → IsByte a
    → IsByte b
    → IsByte c
    → IsByte d
    → IsByte e
    → shift 32 8 (number a b c d e) ≡ 0
unfolding shift undigits
shift-number a b c d e ha hb hc hd he = omega arith

undigits-number :
    (a b c d e : ℕ)
    → IsByte a
    → IsByte b
    → IsByte c
    → IsByte d
    → IsByte e
    → undigits 32 (digits 32 8 (number a b c d e)) 0 ≡ number a b c d e
undigits-number a b c d e ha hb hc hd he =
    rw (shift-number a b c d e ha hb hc hd he) at (undigits-digits_32 8 (number a b c d e))

-- The values of the digits without the padding, and the padding.
unfoldable pub enc_values : List ℕ → List ℕ
enc_values [] = []
enc_values (a ∷ []) = take 2 (group_values a 0 0 0 0)
enc_values (a ∷ b ∷ []) = take 4 (group_values a b 0 0 0)
enc_values (a ∷ b ∷ c ∷ []) = take 5 (group_values a b c 0 0)
enc_values (a ∷ b ∷ c ∷ d ∷ []) = take 7 (group_values a b c d 0)
enc_values (a ∷ b ∷ c ∷ d ∷ e ∷ s) = group_values a b c d e ++ enc_values s

unfoldable pub padding : List ℕ → Text
padding [] = []
padding (a ∷ []) = codes "======"
padding (a ∷ b ∷ []) = codes "===="
padding (a ∷ b ∷ c ∷ []) = codes "==="
padding (a ∷ b ∷ c ∷ d ∷ []) = codes "="
padding (a ∷ b ∷ c ∷ d ∷ e ∷ s) = padding s

pub b32encode-parts : (bs : List ℕ) → b32encode bs ≡ map base32_char (enc_values bs) ++ padding bs
unfolding b32encode enc_values padding group_values
b32encode-parts [] = refl
b32encode-parts (a ∷ []) = refl
b32encode-parts (a ∷ b ∷ []) = refl
b32encode-parts (a ∷ b ∷ c ∷ []) = refl
b32encode-parts (a ∷ b ∷ c ∷ d ∷ []) = refl
b32encode-parts (a ∷ b ∷ c ∷ d ∷ e ∷ s) = ap (λ t. encode_group a b c d e ++ t) (b32encode-parts s)

-- The k-th digit of a group of five bytes, from the right.
abbrev pub digit : ℕ → ℕ → ℕ
digit zero n = n % 32
digit (suc k) n = digit k (n / 32)

decode_group-digits :
    (a b c d e : ℕ)
    → All IsByte (e ∷ d ∷ c ∷ b ∷ a ∷ [])
    → let n = number a b c d e in
      decode_group
        (digit 7 n)
        (digit 6 n)
        (digit 5 n)
        (digit 4 n)
        (digit 3 n)
        (digit 2 n)
        (digit 1 n)
        (digit 0 n)
      ≡ a ∷ b ∷ c ∷ d ∷ e ∷ []
unfolding decode_group
decode_group-digits a b c d e h =
    rw (undigits-number a b c d e h.1.1.1.1.0 h.1.1.1.0 h.1.1.0 h.1.0 h.0)
      (ap reverse (digits-undigits_256 (e ∷ d ∷ c ∷ b ∷ a ∷ []) h))

-- Where the low bytes of a group are zero, so are the digits that hold nothing else.
low_digits_1 :
    (a : ℕ)
    → let n = number a 0 0 0 0 in
      (digit 5 n ≡ 0)
      × (digit 4 n ≡ 0)
      × (digit 3 n ≡ 0)
      × (digit 2 n ≡ 0)
      × (digit 1 n ≡ 0)
      × (digit 0 n ≡ 0)
unfolding undigits
low_digits_1 a = omega arith

low_digits_2 :
    (a b : ℕ)
    → let n = number a b 0 0 0 in
      (digit 3 n ≡ 0) × (digit 2 n ≡ 0) × (digit 1 n ≡ 0) × (digit 0 n ≡ 0)
unfolding undigits
low_digits_2 a b = omega arith

low_digits_3 :
    (a b c : ℕ) → let n = number a b c 0 0 in (digit 2 n ≡ 0) × (digit 1 n ≡ 0) × (digit 0 n ≡ 0)
unfolding undigits
low_digits_3 a b c = omega arith

low_digits_4 : (a b c d : ℕ) → let n = number a b c d 0 in digit 0 n ≡ 0
unfolding undigits
low_digits_4 a b c d = omega arith

pub group-digits :
    (a b c d e : ℕ)
    → let n = number a b c d e in
      group_values a b c d e
      ≡ digit 7 n
        ∷ digit 6 n
        ∷ digit 5 n
        ∷ digit 4 n
        ∷ digit 3 n
        ∷ digit 2 n
        ∷ digit 1 n
        ∷ digit 0 n
        ∷ []
unfolding group_values digits
group-digits a b c d e = refl

decode_values-group :
    (n : ℕ) (ds bytes : List ℕ)
    → decode_values ds ≡ some bytes
    → decode_values (
        digit 7 n
        ∷ digit 6 n
        ∷ digit 5 n
        ∷ digit 4 n
        ∷ digit 3 n
        ∷ digit 2 n
        ∷ digit 1 n
        ∷ digit 0 n
        ∷ ds)
      ≡ some (
          decode_group
            (digit 7 n)
            (digit 6 n)
            (digit 5 n)
            (digit 4 n)
            (digit 3 n)
            (digit 2 n)
            (digit 1 n)
            (digit 0 n)
          ++ bytes)
unfolding decode_values
decode_values-group n ds bytes e = rw e

pub decode-enc_values : (bs : List ℕ) → All IsByte bs → decode_values (enc_values bs) ≡ some bs
unfolding enc_values
decode-enc_values [] h = unfold decode_values in refl
decode-enc_values (a ∷ []) (ha, _) =
    let (p, q, r, s, t, u) = low_digits_1 a in
    rw (group-digits a 0 0 0 0) (
      unfold decode_values in
      ap (λ l. some (take 1 l))
        (rw (p, q, r, s, t, u) at (decode_group-digits a 0 0 0 0 (omega arith))))
decode-enc_values (a ∷ b ∷ []) (ha, (hb, _)) =
    let (p, q, r, s) = low_digits_2 a b in
    rw (group-digits a b 0 0 0) (
      unfold decode_values in
      ap (λ l. some (take 2 l)) (rw (p, q, r, s) at (decode_group-digits a b 0 0 0 (omega arith))))
decode-enc_values (a ∷ b ∷ c ∷ []) (ha, (hb, (hc, _))) =
    let (p, q, r) = low_digits_3 a b c in
    rw (group-digits a b c 0 0) (
      unfold decode_values in
      ap (λ l. some (take 3 l)) (rw (p, q, r) at (decode_group-digits a b c 0 0 (omega arith))))
decode-enc_values (a ∷ b ∷ c ∷ d ∷ []) (ha, (hb, (hc, (hd, _)))) = rw (group-digits a b c d 0) (
    unfold decode_values in
    ap (λ l. some (take 4 l))
      (rw (low_digits_4 a b c d) at (decode_group-digits a b c d 0 (omega arith))))
decode-enc_values (a ∷ b ∷ c ∷ d ∷ e ∷ s) (ha, (hb, (hc, (hd, (he, h))))) =
    rw (group-digits a b c d e) (
      decode_values-group (number a b c d e) (enc_values s) s (decode-enc_values s h)
      ∙ ap (λ l. some (l ++ s)) (decode_group-digits a b c d e (omega arith)))
