-- ===== src/TwoFactor.antt =====
-- One-time passwords (securedrop/two_factor.py): the HOTP and TOTP classes, new secrets and the
-- form in which a secret is shown. The algorithms themselves are those of the `cryptography`
-- package, which enter as an `OtpLibrary`.
pub mod Window
pub mod Secret
mod Tests
use ab.Base.{
  ℕ, zero, suc, ◌+◌, ◌-◌, ◌%◌, ◌≡◌, Bool, true, false, not, Option, none, some, List, [], ◌∷◌, map,
  ◌++◌, all, length, ltb, leb, ◌==◌, if◌then◌else◌, Result, ok, err,
}
use ab.Base.Text.{Text, codes, lower_char}
use ab.Encoding.{b32decode}
use ab.Errors.{
  binascii_error, Error, otp_secret_invalid, otp_token_invalid, unicode_encode_error, value_error,
}

-- Whether `verify` of the package accepts a token for a key at a counter, or at a time in seconds.
pub record OtpLibrary : Type 0 where
  pub hotp_accepts : List ℕ → Text → ℕ → Bool
  pub totp_accepts : List ℕ → Text → ℕ → Bool

abbrev pub look_ahead_window_size : ℕ
look_ahead_window_size = 20

abbrev pub secret_base32_length : ℕ
secret_base32_length = 32

abbrev pub secret_hex_length : ℕ
secret_hex_length = 40

abbrev pub secret_min_base32_length : ℕ
secret_min_base32_length = 16

abbrev pub time_step : ℕ
time_step = 30

-- token.encode("ascii")
unfoldable pub is_ascii : Text → Bool
is_ascii = all (λ c. ltb c 128)

-- `HOTP` and `TOTP` objects hold the decoded key.
pub record Hotp : Type 0 where
  pub key : List ℕ

pub record Totp : Type 0 where
  pub key : List ℕ

-- `except binascii.Error: raise OtpSecretInvalid`; any other error goes through.
abbrev pub secret_error : Error → Error
secret_error binascii_error = otp_secret_invalid
secret_error e = e

unfoldable pub new_hotp : Text → Result Error Hotp
new_hotp secret =
    if length secret == secret_base32_length
    then (elim (b32decode secret) [
      | ok bytes ↦ ok (record { key = bytes })
      | err e ↦ err (secret_error e)
    ])
    else err otp_secret_invalid

unfoldable pub new_totp : Text → Result Error Totp
new_totp secret =
    if ltb (length secret) secret_min_base32_length
    then err otp_secret_invalid
    else (elim (b32decode secret) [
      | ok bytes ↦ ok (record { key = bytes })
      | err e ↦ err (secret_error e)
    ])

module _ (lib : OtpLibrary) where
  -- The loop over `range(counter, counter + rounds)`.
  unfoldable pub first_accepted : List ℕ → Text → ℕ → ℕ → Option ℕ
  first_accepted key token zero counter = none
  first_accepted key token (suc rounds) counter =
      let rest = first_accepted key token rounds (counter + 1) in
      if lib.hotp_accepts key token counter then some counter else rest

  unfoldable pub hotp_verify : Hotp → Text → ℕ → Result Error ℕ
  unfolding is_ascii
  hotp_verify h token counter =
      if is_ascii token
      then (elim (first_accepted h.key token look_ahead_window_size counter) [
        | none ↦ err otp_token_invalid
        | some succeeded ↦ ok succeeded
      ])
      else err unicode_encode_error

  -- The loop over the three time skews.
  unfoldable pub any_accepted : List ℕ → Text → List ℕ → Bool
  any_accepted key token [] = false
  any_accepted key token (t ∷ ts) =
      let rest = any_accepted key token ts in if lib.totp_accepts key token t then true else rest

  -- `time` is `int(time.timestamp())`, at least one time step after the epoch.
  unfoldable pub totp_verify : Totp → Text → ℕ → Result Error (Unit {0})
  unfolding is_ascii any_accepted
  totp_verify t token time =
      if is_ascii token
      then (if any_accepted t.key token ((time - time_step) ∷ time ∷ (time + time_step) ∷ [])
          then ok tt
          else err otp_token_invalid)
      else err unicode_encode_error

-- The 32 characters of base32.
abbrev pub base32_alphabet : Text
base32_alphabet = codes "ABCDEFGHIJKLMNOPQRSTUVWXYZ234567"

abbrev pub nth_char : Text → ℕ → ℕ
nth_char [] i = 0
nth_char (c ∷ s) zero = c
nth_char (c ∷ s) (suc i) = nth_char s i

-- `n` calls of `secrets.choice`, the i-th of which draws the number `draw i`.
unfoldable pub choose_chars : (ℕ → ℕ) → ℕ → Text
choose_chars draw zero = []
choose_chars draw (suc n) = nth_char base32_alphabet (draw n % 32) ∷ choose_chars draw n

unfoldable pub random_base32 : (ℕ → ℕ) → ℕ → Result Error Text
random_base32 draw n = if ltb n 32 then err value_error else ok (choose_chars draw n)

-- [sec[i : i + 4] for i in range(0, len(sec), 4)]
unfoldable pub chunks : Text → List Text
chunks [] = []
chunks (a ∷ []) = (a ∷ []) ∷ []
chunks (a ∷ b ∷ []) = (a ∷ b ∷ []) ∷ []
chunks (a ∷ b ∷ c ∷ []) = (a ∷ b ∷ c ∷ []) ∷ []
chunks (a ∷ b ∷ c ∷ d ∷ s) = (a ∷ b ∷ c ∷ d ∷ []) ∷ chunks s

-- " ".join(pieces)
unfoldable pub join_spaces : List Text → Text
join_spaces [] = []
join_spaces (p ∷ []) = p
join_spaces (p ∷ ps) = p ++ (b' ' ∷ join_spaces ps)

unfoldable pub format_secret : Text → Text
unfolding chunks join_spaces lower_char
format_secret secret = map lower_char (join_spaces (chunks secret))
