-- ===== src/Encoding/Base32.antt =====
-- Decoding inverts encoding, for `base64.b32encode` and `base64.b32decode` as two-factor secrets use
-- them (securedrop/two_factor.py, securedrop/models.py).
use ab.Base.{
  ℕ, zero, suc, ◌+◌, ◌-◌, ◌%◌, ◌≤◌, ◌<◌, ◌≡◌, refl, ap, ◌∙◌, true, false, some, List, [], ◌∷◌, ◌++◌,
  map, take, all, All-append, All-map, length, length-append, ltb, ◌==◌, arith, All, ok,
}
use ab.Base.Text.{Text}
use ab.Encoding.{
  base32_value, base32_char, b32encode, upper_char, strip_padding, values, decode_digits, b32decode,
  or_binascii_error,
}
use ab.Encoding.Groups.{
  IsByte, group_values, enc_values, padding, b32encode-parts, decode-enc_values, group-digits,
}

abbrev IsValue : ℕ → Type 0
IsValue v = v < 32

All-take {ℓ} : {A : Type ℓ} (P : A → Type 0) (n : ℕ) (xs : List A) → All P xs → All P (take n xs)
All-take P zero xs h = tt
All-take P (suc n) [] h = tt
All-take P (suc n) (x ∷ xs) h = (h.0, All-take P n xs h.1)

group_values-IsValue : (a b c d e : ℕ) → All IsValue (group_values a b c d e)
group_values-IsValue a b c d e = rw (group-digits a b c d e) (omega arith)

enc_values-IsValue : (bs : List ℕ) → All IsValue (enc_values bs)
unfolding enc_values
enc_values-IsValue [] = tt
enc_values-IsValue (a ∷ []) = All-take IsValue 2 _ (group_values-IsValue a 0 0 0 0)
enc_values-IsValue (a ∷ b ∷ []) = All-take IsValue 4 _ (group_values-IsValue a b 0 0 0)
enc_values-IsValue (a ∷ b ∷ c ∷ []) = All-take IsValue 5 _ (group_values-IsValue a b c 0 0)
enc_values-IsValue (a ∷ b ∷ c ∷ d ∷ []) = All-take IsValue 7 _ (group_values-IsValue a b c d 0)
enc_values-IsValue (a ∷ b ∷ c ∷ d ∷ e ∷ s) =
    All-append IsValue (group_values a b c d e) (enc_values s) (group_values-IsValue a b c d e)
      (enc_values-IsValue s)

values-char : (vs : List ℕ) → All IsValue vs → values (map base32_char vs) ≡ some vs
unfolding values base32_value base32_char
values-char [] h = refl
values-char (v ∷ vs) h = ground (arith, values-char vs h.1)

-- A character that decoding leaves alone and does not take for padding.
abbrev IsPlain : ℕ → Type 0
IsPlain c = (c < 128) × (upper_char c ≡ c) × ((c == b'=') ≡ false)

map-IsPlain : (vs : List ℕ) → All IsValue vs → All IsPlain (map base32_char vs)
unfolding base32_char upper_char
map-IsPlain [] h = tt
map-IsPlain (v ∷ vs) h = (ground arith, map-IsPlain vs h.1)

-- Plain characters followed by padding: what decoding makes of them.
strip-pad : (s : Text) → All IsPlain s → strip_padding s ≡ s
unfolding strip_padding
strip-pad [] h = refl
strip-pad (c ∷ s) h = ground (arith, strip-pad s)

strip-append : (s p : Text) → strip_padding p ≡ [] → strip_padding (s ++ p) ≡ strip_padding s
unfolding strip_padding
strip-append [] p h = h
strip-append (c ∷ s) p h = rw (strip-append s p h)

strip-padding_bytes : (bs : List ℕ) → strip_padding (padding bs) ≡ []
unfolding strip_padding padding
strip-padding_bytes [] = refl
strip-padding_bytes (a ∷ []) = refl
strip-padding_bytes (a ∷ b ∷ []) = refl
strip-padding_bytes (a ∷ b ∷ c ∷ []) = refl
strip-padding_bytes (a ∷ b ∷ c ∷ d ∷ []) = refl
strip-padding_bytes (a ∷ b ∷ c ∷ d ∷ e ∷ s) = strip-padding_bytes s

-- Characters that upper case leaves alone, all of ASCII.
abbrev IsUpper : ℕ → Type 0
IsUpper c = (c < 128) × (upper_char c ≡ c)

padding-IsUpper : (bs : List ℕ) → All IsUpper (padding bs)
unfolding padding upper_char
padding-IsUpper [] = tt
padding-IsUpper (a ∷ []) = ground arith
padding-IsUpper (a ∷ b ∷ []) = ground arith
padding-IsUpper (a ∷ b ∷ c ∷ []) = ground arith
padding-IsUpper (a ∷ b ∷ c ∷ d ∷ []) = ground arith
padding-IsUpper (a ∷ b ∷ c ∷ d ∷ e ∷ s) = padding-IsUpper s

length-padding_le : (bs : List ℕ) → length (padding bs) ≤ 6
unfolding padding
length-padding_le [] = omega arith
length-padding_le (a ∷ []) = omega arith
length-padding_le (a ∷ b ∷ []) = omega arith
length-padding_le (a ∷ b ∷ c ∷ []) = omega arith
length-padding_le (a ∷ b ∷ c ∷ d ∷ []) = omega arith
length-padding_le (a ∷ b ∷ c ∷ d ∷ e ∷ s) = length-padding_le s

map-upper : (s : Text) → All IsUpper s → map upper_char s ≡ s
map-upper [] h = refl
map-upper (c ∷ s) h = cc (h.0.1, map-upper s h.1)

all-ascii : (s : Text) → All IsUpper s → all (λ c. ltb c 128) s ≡ true
all-ascii [] h = refl
all-ascii (c ∷ s) h = ground (arith, all-ascii s h.1)

-- An encoded text has whole groups of eight: five bytes make one.
pub length-b32encode : (bs : List ℕ) → length (b32encode bs) % 8 ≡ 0
unfolding b32encode
length-b32encode [] = omega arith
length-b32encode (a ∷ []) = omega arith
length-b32encode (a ∷ b ∷ []) = omega arith
length-b32encode (a ∷ b ∷ c ∷ []) = omega arith
length-b32encode (a ∷ b ∷ c ∷ d ∷ []) = omega arith
length-b32encode (a ∷ b ∷ c ∷ d ∷ e ∷ s) = omega (arith, length-b32encode s)

b32encode-IsUpper : (bs : List ℕ) → All IsUpper (b32encode bs)
b32encode-IsUpper bs = rw b32encode-parts (
    All-append IsUpper (map base32_char (enc_values bs)) (padding bs)
      (All-map (λ c h. (h.0, h.1)) (map base32_char (enc_values bs))
        (map-IsPlain (enc_values bs) (enc_values-IsValue bs)))
      (padding-IsUpper bs))

strip-b32encode : (bs : List ℕ) → strip_padding (b32encode bs) ≡ map base32_char (enc_values bs)
strip-b32encode bs = rw b32encode-parts (
    strip-append (map base32_char (enc_values bs)) (padding bs) (strip-padding_bytes bs)
    ∙ strip-pad (map base32_char (enc_values bs))
        (map-IsPlain (enc_values bs) (enc_values-IsValue bs)))

length-b32encode_parts :
    (bs : List ℕ) → length (b32encode bs) ≤ length (map base32_char (enc_values bs)) + 6
length-b32encode_parts bs = rw b32encode-parts (
    omega (
      arith,
      length-append {0} (map base32_char (enc_values bs)) (padding bs),
      length-padding_le bs,
    ))

digits_decoded :
    (bs : List ℕ) → All IsByte bs → decode_digits (map base32_char (enc_values bs)) ≡ ok bs
unfolding decode_digits
digits_decoded bs h =
    rw (values-char (enc_values bs) (enc_values-IsValue bs), decode_digits)
      (ap or_binascii_error (decode-enc_values bs h))

few_padding : (m n : ℕ) → m ≤ n + 6 → ltb 7 (m - n) ≡ false
few_padding m n h = ground arith

-- Decoding what was encoded gives the bytes back, for byte strings of every length.
pub b32decode-b32encode : (bs : List ℕ) → All IsByte bs → b32decode (b32encode bs) ≡ ok bs
unfolding b32decode
b32decode-b32encode bs h =
    rw
      (
        all-ascii _ (b32encode-IsUpper bs),
        length-b32encode bs,
        map-upper _ (b32encode-IsUpper bs),
        strip-b32encode bs,
        few_padding _ _ (length-b32encode_parts bs),
      )
      (digits_decoded bs h)
