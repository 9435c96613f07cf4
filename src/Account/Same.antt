-- ===== src/Account/Same.antt =====
-- Users and admins reset a HOTP secret alike (securedrop/journalist_app/account.py and
-- securedrop/journalist_app/admin.py, `reset_two_factor_hotp`), though the user's handler sets it twice.
use ab.Base.{
  ◌≡◌, refl, Option, some, Result, ok, err, arith, Option-cases, Result-cases, Bool-cases, inl, inr,
}
use ab.Base.Text.{Text}
use ab.Encoding.{unhexlify}
use ab.Errors.{Error}
use ab.Models.{Journalist, Db}
use ab.TwoFactor.{is_ascii}
use ab.Accounts.{truthy, without_blanks, set_hotp_secret}
use ab.Accounts.Secrets.{HotpOutcome, wrong_length, not_hexadecimal, accepted, validate_hotp_secret}
use ab.Deletion.{find_by_id}
use ab.Admin.TwoFactor.{hotp_page, with_user}
use ab.Admin.TwoFactor as Admin
use ab.Account.{set_again, reset_two_factor_hotp}

-- Setting a secret again changes nothing.
set_hotp_secret-again :
    (user u : Journalist) (secret : Text)
    → set_hotp_secret user secret ≡ ok u
    → set_hotp_secret u secret ≡ ok u
unfolding set_hotp_secret
set_hotp_secret-again user u secret h = elim (Bool-cases (is_ascii (without_blanks secret))) [
  | inr bad ↦ absurd (ground arith)
  | inl good ↦ elim (Option-cases (unhexlify (without_blanks secret))) [
    | inl missing ↦ absurd (ground arith)
    | inr (bytes, e) ↦ ground arith
  ]
]

accepted-set :
    (user u : Journalist) (secret : Text)
    → validate_hotp_secret user secret ≡ ok (accepted u)
    → set_hotp_secret user secret ≡ ok u
unfolding validate_hotp_secret
accepted-set user u secret h = elim (Result-cases (set_hotp_secret user secret)) [
  | inl (v, e) ↦ ground arith
  | inr (e, bad) ↦ absurd (ground arith)
]

set_again-same :
    (user : Journalist) (secret : Text) (db : Db) (o : Result Error HotpOutcome)
    → validate_hotp_secret user secret ≡ o
    → set_again db secret o ≡ hotp_page db o
set_again-same user secret db (err e) h = refl
set_again-same user secret db (ok (wrong_length n)) h = refl
set_again-same user secret db (ok not_hexadecimal) h = refl
set_again-same user secret db (ok (accepted u)) h =
    rw (set_hotp_secret-again user u secret (accepted-set user u secret h), set_again) refl

-- What a user sends to reset the HOTP secret has the effect on the table, and the answer, that it has when an admin sends it
-- for that user.
pub reset_two_factor_hotp-admin :
    (user : Journalist) (otp_secret : Option Text) (db : Db)
    → find_by_id user.id db.journalists ≡ some user
    → reset_two_factor_hotp user otp_secret db ≡ Admin.reset_two_factor_hotp user.id otp_secret db
unfolding reset_two_factor_hotp Admin.reset_two_factor_hotp
reset_two_factor_hotp-admin user otp_secret db found =
    rw (found, with_user)
      (elim (Option-cases (truthy otp_secret)) [
        | inl missing ↦ rw (missing, reset_two_factor_hotp) refl
        | inr (secret, given) ↦
            rw (given, reset_two_factor_hotp)
              (set_again-same user secret db (validate_hotp_secret user secret) refl)
      ])
