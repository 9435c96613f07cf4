-- ===== src/Accounts.antt =====
-- Journalist accounts (securedrop/models.py, class `Journalist`): what names and passphrases are
-- acceptable, setting and checking passphrases, two-factor tokens, throttling, and signing in.
-- The password hashes of argon2 and scrypt are those of third-party packages and enter as a `Hasher`.
pub mod Password
pub mod Secrets
pub mod Creation
pub mod Login
pub mod SignIn
mod Tests
use ab.Base.{
  ℕ, ◌+◌, Bool, true, false, not, Option, none, some, List, [], ◌∷◌, length, select, ltb, ◌==◌,
  if◌then◌else◌, Result, ok, err,
}
use ab.Base.Fallible.{◌>>=◌, ◌>>◌, raise_when}
use ab.Base.Text.{Text, codes, text_eq, text_in, is_empty, count_words, despace}
use ab.Encoding.{b32encode, unhexlify}
use ab.Errors.{
  Error, invalid_username, password_error, invalid_password_length, non_diceware_password,
  invalid_name_length, otp_token_invalid, value_error, runtime_error, binascii_error,
}
use ab.Models.{Journalist}
use ab.TwoFactor.{is_ascii, OtpLibrary, Hotp, Totp, new_hotp, new_totp, hotp_verify, totp_verify}

-- `argon2.PasswordHasher(**ARGON2_PARAMS)`, its salt drawn as the first argument of `hash`; a hash that
-- does not fit (`VerificationError`) is `false`. `scrypt` is `_scrypt_hash`.
pub record Hasher : Type 0 where
  pub hash : ℕ → Text → Text
  pub verify : Text → Text → Bool
  pub check_needs_rehash : Text → Bool
  pub scrypt : Text → List ℕ → List ℕ

abbrev pub min_username_len : ℕ
min_username_len = 3

abbrev pub max_name_len : ℕ
max_name_len = 100

abbrev pub max_password_len : ℕ
max_password_len = 128

abbrev pub min_password_len : ℕ
min_password_len = 14

abbrev pub invalid_usernames : List Text
invalid_usernames = codes "deleted" ∷ []

unfoldable pub check_username_acceptable : Text → Result Error (Unit {0})
check_username_acceptable username = do
  raise_when (ltb (length username) min_username_len) invalid_username
  raise_when (text_in username invalid_usernames) invalid_username

unfoldable pub check_name_acceptable : Text → Result Error (Unit {0})
check_name_acceptable name = raise_when (ltb max_name_len (length name)) invalid_name_length

unfoldable pub check_password_acceptable : Text → Result Error (Unit {0})
check_password_acceptable password = do
  raise_when (ltb max_password_len (length password)) invalid_password_length
  raise_when (ltb (length password) min_password_len) invalid_password_length
  raise_when (ltb (count_words false password) 7) non_diceware_password

-- The value of an `Optional[str]` that is true in a test: not `None` and not empty.
abbrev pub truthy : Option Text → Option Text
truthy none = none
truthy (some []) = none
truthy (some (c ∷ s)) = some (c ∷ s)

-- `compare_digest` on bytes.
abbrev pub bytes_eq : List ℕ → List ℕ → Bool
bytes_eq = text_eq

module _ (hasher : Hasher) where
  -- After a valid passphrase: hash it anew if the parameters have changed.
  unfoldable pub update_hash : ℕ → Journalist → Text → Text → Journalist
  update_hash salt user old_hash passphrase =
      if hasher.check_needs_rehash old_hash
      then record user { passphrase_hash = some (hasher.hash salt passphrase) }
      else user

  -- After a valid passphrase of a legacy account: move it to argon2.
  unfoldable pub migrate_hash : ℕ → Journalist → Text → Journalist
  migrate_hash salt user passphrase = record user {
    passphrase_hash = some (hasher.hash salt passphrase);
    pw_salt = none;
    pw_hash = none;
  }

  unfoldable pub valid_legacy : ℕ → Journalist → Text → Result Error (Bool × Journalist)
  valid_legacy salt user passphrase = elim user.pw_salt [
    | none ↦ err value_error
    | some pw_salt ↦ elim user.pw_hash [
      | none ↦ err runtime_error
      | some pw_hash ↦
          if bytes_eq (hasher.scrypt passphrase pw_salt) pw_hash
          then ok (true, migrate_hash salt user passphrase)
          else ok (false, user)
    ]
  ]

  -- `valid_password`, with the row that it leaves committed; `salt` is what argon2 draws.
  unfoldable pub valid_password : ℕ → Journalist → Option Text → Result Error (Bool × Journalist)
  valid_password salt user passphrase = elim (truthy passphrase) [
    | none ↦ ok (false, user)
    | some p ↦
        if ltb max_password_len (length p)
        then err invalid_password_length
        else (elim (truthy user.passphrase_hash) [
          | none ↦ valid_legacy salt user p
          | some h ↦
              if hasher.verify h p then ok (true, update_hash salt user h p) else ok (false, user)
        ])
  ]

  -- "migrate" from the legacy case
  unfoldable pub set_missing_hash : ℕ → Journalist → Text → Journalist
  set_missing_hash salt user passphrase = elim (truthy user.passphrase_hash) [
    | none ↦ record user {
      passphrase_hash = some (hasher.hash salt passphrase);
      pw_salt = none;
      pw_hash = none;
    }
    | some h ↦ user
  ]

  -- `self.passphrase_hash and self.valid_password(passphrase)`
  unfoldable pub check_stored : ℕ → Journalist → Text → Result Error (Bool × Journalist)
  check_stored salt user passphrase = elim (truthy user.passphrase_hash) [
    | none ↦ ok (false, user)
    | some h ↦ valid_password salt user (some passphrase)
  ]

  -- Nothing is done if the passphrase is the one that is stored.
  abbrev pub store_unless : ℕ → Text → Bool × Journalist → Journalist
  store_unless salt passphrase (true, user) = user
  store_unless salt passphrase (false, user) = record user {
    passphrase_hash = some (hasher.hash salt passphrase);
  }

  unfoldable pub set_password : ℕ → Journalist → Option Text → Result Error Journalist
  set_password salt user none = err password_error
  set_password salt user (some passphrase) = do
    check_password_acceptable passphrase
    checked ← check_stored (salt + 1) (set_missing_hash salt user passphrase) passphrase
    ok (store_unless (salt + 2) passphrase checked)

-- One of the two names of `set_name`: an empty or absent one changes nothing.
unfoldable pub acceptable_name : Option Text → Option Text → Result Error (Option Text)
acceptable_name old name = elim (truthy name) [
  | none ↦ ok old
  | some n ↦ do check_name_acceptable n; ok (some n)
]

unfoldable pub set_name : Journalist → Option Text → Option Text → Result Error Journalist
unfolding acceptable_name
set_name user first_name last_name = do
  first ← acceptable_name user.first_name first_name
  last ← acceptable_name user.last_name last_name
  ok (record user { first_name = first; last_name = last })

-- s.replace(" ", "")
unfoldable pub without_blanks : Text → Text
without_blanks = select (λ c. not (c == b' '))

-- `binascii.unhexlify` raises `ValueError` itself for a text that is not ASCII.
unfoldable pub set_hotp_secret : Journalist → Text → Result Error Journalist
set_hotp_secret user otp_secret =
    if is_ascii (without_blanks otp_secret)
    then (elim (unhexlify (without_blanks otp_secret)) [
      | none ↦ err binascii_error
      | some bytes ↦
          ok (record user { otp_secret = b32encode bytes; is_totp = false; hotp_counter = 0 })
    ])
    else err value_error

-- The properties `totp` and `hotp`.
unfoldable pub totp : Journalist → Result Error Totp
totp user = if user.is_totp then new_totp user.otp_secret else err value_error

unfoldable pub hotp : Journalist → Result Error Hotp
hotp user = if user.is_totp then err value_error else new_hotp user.otp_secret

abbrev pub is_last_token : Option Text → Text → Bool
is_last_token none token = false
is_last_token (some last) token = text_eq last token

module _ (lib : OtpLibrary) where
  -- The check of a sanitized token against the secret, with the row that it leaves.
  unfoldable pub verify_sanitized : ℕ → Journalist → Text → Result Error Journalist
  verify_sanitized now user token =
      if user.is_totp then (do t ← totp user; totp_verify lib t token now; ok user) else (do
        h ← hotp user
        counter ← hotp_verify lib h token user.hotp_counter
        ok (record user { hotp_counter = counter + 1 }))

  -- `verify_2fa_token`: the sanitized token, and the row with its new counter.
  unfoldable pub verify_2fa_token : ℕ → Journalist → Option Text → Result Error (Text × Journalist)
  verify_2fa_token now user token = elim (truthy token) [
    | none ↦ err otp_token_invalid
    | some t ↦
        if is_last_token user.last_token (despace t)
        then err otp_token_invalid
        else (do user' ← verify_sanitized now user (despace t); ok (despace t, user'))
  ]
