-- ===== src/Accounts/Login/Rows.antt =====
-- Rows of the table `journalists` while a user signs in (securedrop/models.py): which errors the
-- steps of `Journalist.login` raise, and which columns they leave alone.
use ab.Base.{
  ℕ, ◌≡◌, refl, Bool, true, false, Option, none, some, List, [], ◌∷◌, map, arith, Result, ok, err,
  Option-cases, Bool-cases, inl, inr, ◌==◌, if◌then◌else◌,
}
use ab.Base.Fallible.{◌>>=◌}
use ab.Base.Text.{Text, text_eq, despace}
use ab.Errors.{Error, wrong_password}
use ab.Models.{Journalist, Db}
use ab.Encoding.{b32decode, decode_digits, values, decode_values, strip_padding, upper_char}
use ab.TwoFactor.{OtpLibrary, Hotp, Totp, new_hotp, new_totp, hotp_verify, totp_verify}
use ab.Accounts.{
  Hasher, totp, hotp, verify_sanitized, verify_2fa_token, valid_legacy, migrate_hash, update_hash,
  valid_password,
}
use ab.Accounts.Login.{
  find_journalist, save, save_rows, is_throttled, LoginRequest, check_password, authenticate,
}

-- The columns by which a row is found.
abbrev pub SameUser : Journalist → Journalist → Type 0
SameUser a b = (a.id ≡ b.id) × (a.username ≡ b.username)

pub find-save_rows :
    (name : Text) (js : List Journalist) (user u : Journalist)
    → find_journalist name js ≡ some user
    → u.id ≡ user.id
    → text_eq u.username name ≡ true
    → find_journalist name (save_rows u js) ≡ some u
unfolding find_journalist save_rows
find-save_rows name [] user u h same named = absurd (cc)
find-save_rows name (j ∷ js) user u h same named = elim (Bool-cases (j.id == u.id)) [
  | inl hit ↦ rw (hit, named)
  | inr miss ↦ rw miss (elim (Bool-cases (text_eq j.username name)) [
    | inl found ↦ absurd (other_row j user u found miss same (rw found at h))
    | inr other ↦ rw other (find-save_rows name js user u (rw other at h) same named)
  ])
]
  where
    other_row :
        (j user u : Journalist)
        → text_eq j.username name ≡ true
        → (j.id == u.id) ≡ false
        → u.id ≡ user.id
        → some j ≡ some user
        → ⊥
    other_row j user u found miss same h = ground arith

is_throttled-bind :
    {A B : Type 0} (m : Result Error A) (f : A → Result Error B)
    → is_throttled m ≡ false
    → ((a : A) → is_throttled (f a) ≡ false)
    → is_throttled (m >>= f) ≡ false
is_throttled-bind (ok a) f h k = k a
is_throttled-bind (err e) f h k = ground (arith)

-- None of the steps after the throttle raises `LoginThrottledException`.
decode_digits_throttled : (s : Text) → is_throttled (decode_digits s) ≡ false
unfolding decode_digits
decode_digits_throttled s = elim (Option-cases (values s)) [
  | inl bad ↦ rw (bad, decode_digits)
  | inr (vs, good) ↦ elim (Option-cases (decode_values vs)) [
    | inl bad ↦ rw (good, decode_digits) (rw bad)
    | inr (bytes, done) ↦ rw (good, decode_digits) (rw done)
  ]
]

b32decode_throttled : (s : Text) → is_throttled (b32decode s) ≡ false
unfolding b32decode
b32decode_throttled s = ground (arith, decode_digits_throttled (strip_padding (map upper_char s)))

new_totp_throttled : (s : Text) → is_throttled (new_totp s) ≡ false
unfolding new_totp
new_totp_throttled s = ground (arith, b32decode_throttled s)

new_hotp_throttled : (s : Text) → is_throttled (new_hotp s) ≡ false
unfolding new_hotp
new_hotp_throttled s = ground (arith, b32decode_throttled s)

module _ (lib : OtpLibrary) where
  totp_verify_throttled :
      (t : Totp) (token : Text) (now : ℕ) → is_throttled (totp_verify lib t token now) ≡ false
  unfolding totp_verify
  totp_verify_throttled t token now = ground arith

  hotp_verify_throttled :
      (h : Hotp) (token : Text) (c : ℕ) → is_throttled (hotp_verify lib h token c) ≡ false
  unfolding hotp_verify
  hotp_verify_throttled h token c = ground arith

module _ (lib : OtpLibrary) (now : ℕ) (user : Journalist) where
  verify_sanitized_throttled :
      (token : Text) → is_throttled (verify_sanitized lib now user token) ≡ false
  unfolding verify_sanitized totp hotp
  verify_sanitized_throttled token = elim (Bool-cases user.is_totp) [
    | inl by_time ↦ rw by_time (
        is_throttled-bind (new_totp user.otp_secret) _ (new_totp_throttled user.otp_secret) (λ t.
          is_throttled-bind (totp_verify lib t token now) _ (totp_verify_throttled lib t token now)
            (λ _. refl)))
    | inr by_counter ↦ rw by_counter (
        is_throttled-bind (new_hotp user.otp_secret) _ (new_hotp_throttled user.otp_secret) (λ h.
          is_throttled-bind (hotp_verify lib h token user.hotp_counter) _
            (hotp_verify_throttled lib h token user.hotp_counter) (λ _. refl)))
  ]

  pub verify_2fa_token_throttled :
      (token : Option Text) → is_throttled (verify_2fa_token lib now user token) ≡ false
  unfolding verify_2fa_token
  verify_2fa_token_throttled none = refl
  verify_2fa_token_throttled (some []) = refl
  verify_2fa_token_throttled (some (c ∷ t)) =
      ground (arith, verify_sanitized_throttled (despace (c ∷ t)))

  verify_sanitized-SameUser :
      (token : Text) (u : Journalist) → verify_sanitized lib now user token ≡ ok u → SameUser u user
  unfolding verify_sanitized
  verify_sanitized-SameUser token u h = ground arith

  pub verify_2fa_token-SameUser :
      (token : Option Text) (s : Text) (u : Journalist)
      → verify_2fa_token lib now user token ≡ ok (s, u)
      → SameUser u user
  unfolding verify_2fa_token
  verify_2fa_token-SameUser none s u h = absurd (cc)
  verify_2fa_token-SameUser (some []) s u h = absurd (cc)
  verify_2fa_token-SameUser (some (c ∷ t)) s u h =
      ground (arith, verify_sanitized-SameUser (despace (c ∷ t)) u)

module _ (hasher : Hasher) (salt : ℕ) (user : Journalist) where
  pub valid_password_throttled :
      (p : Option Text) → is_throttled (valid_password hasher salt user p) ≡ false
  unfolding valid_password valid_legacy
  valid_password_throttled p = ground arith

  pub valid_password-SameUser :
      (p : Option Text) (valid : Bool) (u : Journalist)
      → valid_password hasher salt user p ≡ ok (valid, u)
      → SameUser u user
  unfolding valid_password valid_legacy migrate_hash update_hash
  valid_password-SameUser p valid u h = ground arith

-- What the last two steps of `login` do, by what the checks say.
module _ (lib : OtpLibrary) (hasher : Hasher) (req : LoginRequest) (user : Journalist)
    (db : Db) where
  pub check_password-err :
      (e : Error)
      → valid_password hasher req.salt user req.password ≡ err e
      → check_password lib hasher req user db ≡ (err e, db)
  unfolding check_password
  check_password-err e h = rw h

  pub check_password-ok :
      (valid : Bool) (u : Journalist)
      → valid_password hasher req.salt user req.password ≡ ok (valid, u)
      → check_password lib hasher req user db
        ≡ (if valid then ok u else err wrong_password, save u db)
  unfolding check_password
  check_password-ok true u h = rw h
  check_password-ok false u h = rw h

  pub authenticate-err :
      (e : Error)
      → verify_2fa_token lib req.now user req.token ≡ err e
      → authenticate lib hasher req user db ≡ (err e, db)
  unfolding authenticate
  authenticate-err e h = rw h

  pub authenticate-ok :
      (token : Text) (u : Journalist)
      → verify_2fa_token lib req.now user req.token ≡ ok (token, u)
      → let u' = record u { last_token = some token } in
        authenticate lib hasher req user db ≡ check_password lib hasher req u' (save u' db)
  unfolding authenticate
  authenticate-ok token u h = rw h
