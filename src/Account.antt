-- ===== src/Account.antt =====
-- What signed-in users do to their own second factor (securedrop/journalist_app/account.py). The user of the session is
-- a row of the table.
pub mod Same
use ab.Base.{ℕ, Bool, true, false, Option, none, some, if◌then◌else◌, Result, ok, err}
use ab.Base.Fallible.{◌>>=◌}
use ab.Base.Text.{Text}
use ab.Errors.{Error}
use ab.Models.{Journalist, Db}
use ab.TwoFactor.{OtpLibrary, new_totp, totp_verify}
use ab.Accounts.{truthy, set_hotp_secret, verify_2fa_token}
use ab.Accounts.Secrets.{HotpOutcome, wrong_length, not_hexadecimal, accepted, validate_hotp_secret}
use ab.Accounts.Login.{save}
use ab.Admin.TwoFactor.{
  regenerate_totp_shared_secret, stored_user, HotpPage, hotp_enabled, edit_hotp_secret,
  Verification, verified, try_again, verification, hotp_verification,
}

unfoldable pub new_two_factor_totp : OtpLibrary → ℕ → Text → Text → Result Error Verification
new_two_factor_totp lib now otp_secret token =
    new_totp otp_secret >>= λ t. verification (totp_verify lib t token now)

unfoldable pub reset_two_factor_totp : (ℕ → ℕ) → Journalist → Db → Result Error Journalist × Db
reset_two_factor_totp draw user db =
    stored_user db (regenerate_totp_shared_secret draw (record user { is_totp = true }))

unfoldable pub new_two_factor_hotp :
    OtpLibrary → ℕ → Journalist → Text → Db → Result Error Verification × Db
new_two_factor_hotp lib now user token db =
    if user.is_totp
    then (ok try_again, db)
    else hotp_verification lib db (verify_2fa_token lib now user (some token))

-- After the check, which sets the secret, it is set once more.
abbrev pub set_again : Db → Text → Result Error HotpOutcome → Result Error HotpPage × Db
set_again db secret (err e) = (err e, db)
set_again db secret (ok (wrong_length n)) = (ok edit_hotp_secret, db)
set_again db secret (ok not_hexadecimal) = (ok edit_hotp_secret, db)
set_again db secret (ok (accepted user)) = elim (set_hotp_secret user secret) [
  | err e ↦ (err e, db)
  | ok u ↦ (ok (hotp_enabled u), save u db)
]

unfoldable pub reset_two_factor_hotp : Journalist → Option Text → Db → Result Error HotpPage × Db
reset_two_factor_hotp user otp_secret db = elim (truthy otp_secret) [
  | none ↦ (ok edit_hotp_secret, db)
  | some secret ↦ set_again db secret (validate_hotp_secret user secret)
]
