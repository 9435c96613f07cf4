-- ===== src/Admin/TwoFactor.antt =====
-- Resetting and verifying a second factor (securedrop/journalist_app/admin.py and securedrop/journalist_app/account.py,
-- `reset_two_factor_totp`, `reset_two_factor_hotp`, and the pages that verify a token;
-- securedrop/models.py, `regenerate_totp_shared_secret`).
use ab.Base.{ℕ, true, Option, none, some, if◌then◌else◌, Result, ok, err}
use ab.Base.Fallible.{◌>>=◌}
use ab.Base.Text.{Text}
use ab.Errors.{Error, attribute_error, otp_token_invalid}
use ab.Models.{Journalist, Db}
use ab.TwoFactor.{OtpLibrary, random_base32, new_totp, totp_verify}
use ab.Accounts.{truthy, verify_2fa_token}
use ab.Accounts.Secrets.{HotpOutcome, wrong_length, not_hexadecimal, accepted, validate_hotp_secret}
use ab.Accounts.Login.{save}
use ab.Deletion.{find_by_id}

unfoldable pub regenerate_totp_shared_secret : (ℕ → ℕ) → Journalist → Result Error Journalist
regenerate_totp_shared_secret draw user = do
  secret ← random_base32 draw 32
  ok (record user { otp_secret = secret })

-- The user of a form, on whose attributes a missing row raises.
abbrev pub with_user {ℓ} :
    {A : Type ℓ} → ℕ → Db → (Journalist → Result Error A × Db) → Result Error A × Db
with_user id db f = elim (find_by_id id db.journalists) [
  | none ↦ (err attribute_error, db)
  | some user ↦ f user
]

abbrev pub stored_user : Db → Result Error Journalist → Result Error Journalist × Db
stored_user db (ok user) = (ok user, save user db)
stored_user db (err e) = (err e, db)

-- The same for an admin, by the id of the form, and for the user who is signed in.
unfoldable pub reset_two_factor_totp : (ℕ → ℕ) → ℕ → Db → Result Error Journalist × Db
reset_two_factor_totp draw id db =
    with_user id db
      (λ user. stored_user db (regenerate_totp_shared_secret draw (record user { is_totp = true })))

pub data HotpPage : Type 0 where
  hotp_enabled : Journalist → HotpPage
  edit_hotp_secret : HotpPage

abbrev pub hotp_page : Db → Result Error HotpOutcome → Result Error HotpPage × Db
hotp_page db (err e) = (err e, db)
hotp_page db (ok (wrong_length n)) = (ok edit_hotp_secret, db)
hotp_page db (ok not_hexadecimal) = (ok edit_hotp_secret, db)
hotp_page db (ok (accepted user)) = (ok (hotp_enabled user), save user db)

unfoldable pub reset_two_factor_hotp : ℕ → Option Text → Db → Result Error HotpPage × Db
reset_two_factor_hotp id otp_secret db = with_user id db (λ user. elim (truthy otp_secret) [
  | none ↦ (ok edit_hotp_secret, db)
  | some secret ↦ hotp_page db (validate_hotp_secret user secret)
])

pub data Verification : Type 0 where
  verified : Verification
  try_again : Verification

abbrev pub not_verified : Error → Result Error Verification
not_verified otp_token_invalid = ok try_again
not_verified e = err e

abbrev pub verification : Result Error (Unit {0}) → Result Error Verification
verification (ok u) = ok verified
verification (err e) = not_verified e

module _ (lib : OtpLibrary) where
  -- The secret is that of the form, and nothing is changed; an invalid secret raises.
  unfoldable pub new_two_factor_totp : ℕ → Text → Text → Result Error Verification
  new_two_factor_totp now otp_secret token =
      new_totp otp_secret >>= λ t. verification (totp_verify lib t token now)

  abbrev pub hotp_verification :
      Db → Result Error (Text × Journalist) → Result Error Verification × Db
  hotp_verification db (ok (token, user)) = (ok verified, save user db)
  hotp_verification db (err e) = (not_verified e, db)

  unfoldable pub new_two_factor_hotp : ℕ → ℕ → Text → Db → Result Error Verification × Db
  new_two_factor_hotp now id token db = with_user id db (λ user.
      if user.is_totp
      then (ok try_again, db)
      else hotp_verification db (verify_2fa_token lib now user (some token)))
