-- ===== src/Encoding.antt =====
-- The parts of Python's `base64` and `binascii` that two-factor secrets pass through
-- (securedrop/two_factor.py and `Journalist.set_hotp_secret` of securedrop/models.py).
pub mod Digits
pub mod Groups
pub mod Base32
pub mod Alphabet
use mathlib.Core.List.{reverse}
use ab.Base.{
  ℕ, zero, suc, ◌+◌, ◌-◌, ◌*◌, ◌%◌, Bool, true, false, not, ◌&&◌, Option, none, some, List, [], ◌∷◌,
  ◌++◌, map, take, all, length, select, ltb, leb, ◌==◌, if◌then◌else◌, Result, ok, err,
}
use ab.Base.Text.{Text, codes, is_empty}
use ab.Errors.{Error, binascii_error, value_error}
use ab.Encoding.Digits.{digits, undigits}

-- The digit for a value below 32.
unfoldable pub base32_char : ℕ → ℕ
base32_char v = if ltb v 26 then v + 65 else v + 24

unfoldable pub base32_value : ℕ → Option ℕ
base32_value c =
    if leb b'A' c && leb c b'Z'
    then some (c - 65)
    else if leb b'2' c && leb c b'7'
    then some (c - 24)
    else none

-- Five bytes as eight digits.
unfoldable pub encode_group : ℕ → ℕ → ℕ → ℕ → ℕ → Text
unfolding digits undigits base32_char
encode_group a b c d e =
    map base32_char (reverse (digits 32 8 (undigits 256 (e ∷ d ∷ c ∷ b ∷ a ∷ []) 0)))

-- base64.b32encode: a last group that is not full is filled up by zero bytes, and the digits that
-- hold nothing of it are replaced by `=`.
unfoldable pub b32encode : List ℕ → Text
unfolding encode_group
b32encode [] = []
b32encode (a ∷ []) = take 2 (encode_group a 0 0 0 0) ++ codes "======"
b32encode (a ∷ b ∷ []) = take 4 (encode_group a b 0 0 0) ++ codes "===="
b32encode (a ∷ b ∷ c ∷ []) = take 5 (encode_group a b c 0 0) ++ codes "==="
b32encode (a ∷ b ∷ c ∷ d ∷ []) = take 7 (encode_group a b c d 0) ++ codes "="
b32encode (a ∷ b ∷ c ∷ d ∷ e ∷ s) = encode_group a b c d e ++ b32encode s

-- s.upper() on ASCII letters.
unfoldable pub upper_char : ℕ → ℕ
upper_char c = if leb b'a' c && leb c b'z' then c - 32 else c

-- s.rstrip("=")
unfoldable pub strip_padding : Text → Text
strip_padding [] = []
strip_padding (c ∷ s) =
    let rest = strip_padding s in if c == b'=' && is_empty rest then [] else c ∷ rest

unfoldable pub values : Text → Option (List ℕ)
values [] = some []
values (c ∷ s) = elim (base32_value c) [
  | none ↦ none
  | some v ↦ elim (values s) [ none ↦ none | some vs ↦ some (v ∷ vs) ]
]

-- The bytes of eight digits.
unfoldable pub decode_group : ℕ → ℕ → ℕ → ℕ → ℕ → ℕ → ℕ → ℕ → List ℕ
unfolding digits undigits
decode_group p q r s t u v w =
    reverse (digits 256 5 (undigits 32 (w ∷ v ∷ u ∷ t ∷ s ∷ r ∷ q ∷ p ∷ []) 0))

-- A last group of 2, 4, 5 or 7 digits holds 1, 2, 3 or 4 bytes; no other length can stand there.
unfoldable pub decode_values : List ℕ → Option (List ℕ)
unfolding decode_group
decode_values [] = some []
decode_values (p ∷ []) = none
decode_values (p ∷ q ∷ []) = some (take 1 (decode_group p q 0 0 0 0 0 0))
decode_values (p ∷ q ∷ r ∷ []) = none
decode_values (p ∷ q ∷ r ∷ s ∷ []) = some (take 2 (decode_group p q r s 0 0 0 0))
decode_values (p ∷ q ∷ r ∷ s ∷ t ∷ []) = some (take 3 (decode_group p q r s t 0 0 0))
decode_values (p ∷ q ∷ r ∷ s ∷ t ∷ u ∷ []) = none
decode_values (p ∷ q ∷ r ∷ s ∷ t ∷ u ∷ v ∷ []) = some (take 4 (decode_group p q r s t u v 0))
decode_values (p ∷ q ∷ r ∷ s ∷ t ∷ u ∷ v ∷ w ∷ ds) = elim (decode_values ds) [
  | none ↦ none
  | some bytes ↦ some (decode_group p q r s t u v w ++ bytes)
]

abbrev pub or_binascii_error : Option (List ℕ) → Result Error (List ℕ)
or_binascii_error none = err binascii_error
or_binascii_error (some bytes) = ok bytes

unfoldable pub decode_digits : Text → Result Error (List ℕ)
decode_digits s = elim (values s) [
  | none ↦ err binascii_error
  | some vs ↦ or_binascii_error (decode_values vs)
]

-- base64.b32decode(s, casefold=True)
unfoldable pub b32decode : Text → Result Error (List ℕ)
b32decode s =
    let digits_only = strip_padding (map upper_char s) in
    if not (all (λ c. ltb c 128) s)
    then err value_error
    else if not (length s % 8 == 0)
    then err binascii_error
    else if ltb 7 (length s - length digits_only)
    then err binascii_error
    else decode_digits digits_only

unfoldable pub hex_value : ℕ → Option ℕ
hex_value c =
    if leb b'0' c && leb c b'9'
    then some (c - 48)
    else if leb b'a' c && leb c b'f'
    then some (c - 87)
    else if leb b'A' c && leb c b'F'
    then some (c - 55)
    else none

-- A byte of two digits before others; `none` if a digit is none.
abbrev pub cons_byte : Option ℕ → Option ℕ → Option (List ℕ) → Option (List ℕ)
cons_byte (some hi) (some lo) (some bytes) = some ((hi * 16 + lo) ∷ bytes)
cons_byte (some hi) (some lo) none = none
cons_byte (some hi) none bytes = none
cons_byte none lo bytes = none

-- binascii.unhexlify, with `none` for `binascii.Error`.
unfoldable pub unhexlify : Text → Option (List ℕ)
unhexlify [] = some []
unhexlify (c ∷ []) = none
unhexlify (c ∷ d ∷ s) = cons_byte (hex_value c) (hex_value d) (unhexlify s)
