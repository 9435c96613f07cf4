-- ===== src/Accounts/Secrets.antt =====
-- HOTP secrets that a user enters in hexadecimal (securedrop/journalist_app/utils.py,
-- `validate_hotp_secret`; securedrop/models.py, `Journalist.set_hotp_secret` and `Journalist.hotp`).
use ab.Base.{
  ℕ, suc, ◌+◌, ◌-◌, ◌*◌, ◌<◌, ◌≡◌, refl, false, Option, none, some, List, [], ◌∷◌, arith, Result,
  ok, err, Option-cases, inl, inr, length, ◌==◌, if◌then◌else◌, All,
}
use ab.Base.Text.{Text}
use ab.Encoding.{b32encode, unhexlify, hex_value, cons_byte}
use ab.Encoding.Groups.{IsByte}
use ab.Encoding.Base32.{b32decode-b32encode}
use ab.Errors.{Error, binascii_error}
use ab.Models.{Journalist}
use ab.TwoFactor.{secret_hex_length}
use ab.TwoFactor.Secret.{new_hotp-ok}
use ab.Accounts.{without_blanks, set_hotp_secret, hotp}

-- The outcome of the form: a message, or the changed row. With 40 characters the only `binascii.Error`
-- is a digit that is not hexadecimal.
pub data HotpOutcome : Type 0 where
  wrong_length : ℕ → HotpOutcome
  not_hexadecimal : HotpOutcome
  accepted : Journalist → HotpOutcome

abbrev pub hotp_outcome : Result Error Journalist → Result Error HotpOutcome
hotp_outcome (ok user) = ok (accepted user)
hotp_outcome (err binascii_error) = ok not_hexadecimal
hotp_outcome (err e) = err e

unfoldable pub validate_hotp_secret : Journalist → Text → Result Error HotpOutcome
validate_hotp_secret user otp_secret =
    if length (without_blanks otp_secret) == secret_hex_length
    then hotp_outcome (set_hotp_secret user otp_secret)
    else ok (wrong_length (length (without_blanks otp_secret)))

hex_value-lt : (c v : ℕ) → hex_value c ≡ some v → v < 16
unfolding hex_value
hex_value-lt c v h = ground arith

cons_byte_bytes :
    (hi lo : Option ℕ) (rest : Option (List ℕ)) (n : ℕ) (bytes : List ℕ)
    → ((v : ℕ) → hi ≡ some v → v < 16)
    → ((v : ℕ) → lo ≡ some v → v < 16)
    → ((bs : List ℕ) → rest ≡ some bs → All IsByte bs × (n ≡ 2 * length bs))
    → cons_byte hi lo rest ≡ some bytes
    → All IsByte bytes × (suc (suc n) ≡ 2 * length bytes)
cons_byte_bytes (some hi) (some lo) (some bs) n bytes p q r h =
    let below = p hi refl in
    let below' = q lo refl in
    let (small, even) = r bs refl in
    let e : (hi * 16 + lo) ∷ bs ≡ bytes = cc in rw (← e) ((omega arith, small), omega arith)
cons_byte_bytes (some hi) (some lo) none n bytes p q r h = absurd (cc)
cons_byte_bytes (some hi) none rest n bytes p q r h = absurd (cc)
cons_byte_bytes none lo rest n bytes p q r h = absurd (cc)

-- What `unhexlify` returns: half as many numbers, all of them bytes.
unhexlify_bytes :
    (s : Text) (bytes : List ℕ)
    → unhexlify s ≡ some bytes
    → All IsByte bytes × (length s ≡ 2 * length bytes)
unfolding unhexlify
unhexlify_bytes [] bytes h = let e : [] ≡ bytes = cc in rw (← e) (tt, omega arith)
unhexlify_bytes (c ∷ []) bytes h = absurd (cc)
unhexlify_bytes (c ∷ d ∷ s) bytes h =
    cons_byte_bytes (hex_value c) (hex_value d) (unhexlify s) (length s) bytes (hex_value-lt c)
      (hex_value-lt d) (unhexlify_bytes s) h

length-b32encode_groups : (k : ℕ) (bs : List ℕ) → length bs ≡ 5 * k → length (b32encode bs) ≡ 8 * k
unfolding b32encode
length-b32encode_groups k [] h = omega arith
length-b32encode_groups k (a ∷ []) h = absurd (omega arith)
length-b32encode_groups k (a ∷ b ∷ []) h = absurd (omega arith)
length-b32encode_groups k (a ∷ b ∷ c ∷ []) h = absurd (omega arith)
length-b32encode_groups k (a ∷ b ∷ c ∷ d ∷ []) h = absurd (omega arith)
length-b32encode_groups k (a ∷ b ∷ c ∷ d ∷ e ∷ s) h =
    omega (arith, length-b32encode_groups (k - 1) s (omega arith))

-- The row that an accepted secret makes.
accepted_forty :
    (user u : Journalist) (secret : Text) (bytes : List ℕ)
    → unhexlify (without_blanks secret) ≡ some bytes
    → validate_hotp_secret user secret ≡ ok (accepted u)
    → (length (without_blanks secret) ≡ 40)
      × (u ≡ record user { otp_secret = b32encode bytes; is_totp = false; hotp_counter = 0 })
unfolding validate_hotp_secret set_hotp_secret
accepted_forty user u secret bytes good h = ground arith

-- A HOTP secret that the form accepts is in use afterwards: the account counts from zero, and its
-- HOTP object exists and holds the very bytes that the 40 hexadecimal digits stand for.
pub validate_hotp_secret_usable :
    (user u : Journalist) (secret : Text)
    → validate_hotp_secret user secret ≡ ok (accepted u)
    → (bytes : List ℕ) × (unhexlify (without_blanks secret) ≡ some bytes)
      × (length bytes ≡ 20)
      × (hotp u ≡ ok (record { key = bytes }))
      × (u.hotp_counter ≡ 0)
unfolding validate_hotp_secret set_hotp_secret hotp
validate_hotp_secret_usable user u secret h =
    elim (Option-cases (unhexlify (without_blanks secret))) [
      | inl bad ↦ absurd (ground arith)
      | inr (bytes, good) ↦
          let (small, even) = unhexlify_bytes (without_blanks secret) bytes good in
          let (forty, e) = accepted_forty user u secret bytes good h in
          let twenty : length bytes ≡ 20 = omega arith in
          (
            bytes,
            good,
            twenty,
            rw e (
                new_hotp-ok (b32encode bytes) bytes (length-b32encode_groups 4 bytes twenty)
                  (b32decode-b32encode bytes small)),
            rw e,
          )
    ]
