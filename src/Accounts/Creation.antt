-- ===== src/Accounts/Creation.antt =====
-- New accounts (securedrop/models.py, `Journalist.__init__`).
use ab.Base.{ℕ, ◌+◌, ◌≡◌, refl, ◌∙◌, Bool, true, false, Option, none, some, arith, Result, ok}
use ab.Base.Fallible.{◌>>=◌, ◌>>◌, >>=-eq-ok}
use ab.Base.Text.{Text}
use ab.Errors.{Error}
use ab.Models.{Journalist}
use ab.Accounts.{
  Hasher, check_password_acceptable, check_stored, valid_legacy, migrate_hash, update_hash,
  set_missing_hash, store_unless, check_username_acceptable, set_name, set_password,
  set_hotp_secret, truthy, valid_password,
}

-- What the caller gives and what is drawn: the keys, the default secret (`two_factor.random_base32`)
-- and the salt.
pub record NewJournalist : Type 0 where
  pub username : Text
  pub password : Option Text
  pub first_name : Option Text
  pub last_name : Option Text
  pub is_admin : Bool
  pub otp_secret : Option Text
  pub id : ℕ
  pub uuid : ℕ
  pub default_secret : Text
  pub salt : ℕ

-- The row before `__init__` fills it, with the defaults of the columns.
abbrev pub blank_journalist : NewJournalist → Journalist
blank_journalist new = record {
  id = new.id;
  uuid = new.uuid;
  username = new.username;
  first_name = none;
  last_name = none;
  pw_salt = none;
  pw_hash = none;
  is_admin = new.is_admin;
  otp_secret = new.default_secret;
  is_totp = true;
  hotp_counter = 0;
  last_token = none;
  last_access = none;
  passphrase_hash = none;
}

-- The last step: a HOTP secret, if there is one.
unfoldable pub with_otp_secret : Option Text → Journalist → Result Error Journalist
with_otp_secret secret user = elim (truthy secret) [
  | none ↦ ok user
  | some s ↦ set_hotp_secret user s
]

unfoldable pub new_journalist : Hasher → NewJournalist → Result Error Journalist
new_journalist hasher new = do
  check_username_acceptable new.username
  named ← set_name (blank_journalist new) new.first_name new.last_name
  user ← set_password hasher new.salt named new.password
  with_otp_secret new.otp_secret user

set_name-id :
    (user u : Journalist) (first last : Option Text)
    → set_name user first last ≡ ok u
    → (u.id ≡ user.id) × (u.username ≡ user.username)
unfolding set_name
set_name-id user u first last h = ground arith

check_stored-id :
    (hasher : Hasher) (salt : ℕ) (user u : Journalist) (p : Text) (valid : Bool)
    → check_stored hasher salt user p ≡ ok (valid, u)
    → (u.id ≡ user.id) × (u.username ≡ user.username)
unfolding check_stored valid_password valid_legacy migrate_hash update_hash
check_stored-id hasher salt user u p valid h = ground arith

set_missing_hash-id :
    (hasher : Hasher) (salt : ℕ) (user : Journalist) (p : Text)
    → ((set_missing_hash hasher salt user p).id ≡ user.id)
      × ((set_missing_hash hasher salt user p).username ≡ user.username)
unfolding set_missing_hash
set_missing_hash-id hasher salt user p = ground arith

store_unless-id :
    (hasher : Hasher) (salt : ℕ) (p : Text) (checked : Bool × Journalist)
    → ((store_unless hasher salt p checked).id ≡ checked.1.id)
      × ((store_unless hasher salt p checked).username ≡ checked.1.username)
store_unless-id hasher salt p (true, user) = (refl, refl)
store_unless-id hasher salt p (false, user) = (refl, refl)

pub set_password-id :
    (hasher : Hasher) (salt : ℕ) (user u : Journalist) (password : Option Text)
    → set_password hasher salt user password ≡ ok u
    → (u.id ≡ user.id) × (u.username ≡ user.username)
unfolding set_password
set_password-id hasher salt user u none h = absurd (cc)
set_password-id hasher salt user u (some p) h =
    let (_, acceptable, stored) = >>=-eq-ok (check_password_acceptable p) _ h in
    let ((valid, v), c, e) =
      >>=-eq-ok (check_stored hasher (salt + 1) (set_missing_hash hasher salt user p) p) _ stored in
    let done : store_unless hasher (salt + 2) p (valid, v) ≡ u = cc in
    let a = set_missing_hash-id hasher salt user p in
    let b = check_stored-id hasher (salt + 1) (set_missing_hash hasher salt user p) v p valid c in
    let d = store_unless-id hasher (salt + 2) p (valid, v) in
    rw (← done) (d.0 ∙ b.0 ∙ a.0, d.1 ∙ b.1 ∙ a.1)

pub with_otp_secret-id :
    (secret : Option Text) (user u : Journalist)
    → with_otp_secret secret user ≡ ok u
    → (u.id ≡ user.id) × (u.username ≡ user.username)
unfolding with_otp_secret set_hotp_secret
with_otp_secret-id secret user u h = ground arith

-- What a new account consists of.
pub new_journalist-steps :
    (hasher : Hasher) (new : NewJournalist) (u : Journalist)
    → new_journalist hasher new ≡ ok u
    → (named : Journalist) × (user : Journalist) × (check_username_acceptable new.username ≡ ok tt)
      × (set_name (blank_journalist new) new.first_name new.last_name ≡ ok named)
      × (set_password hasher new.salt named new.password ≡ ok user)
      × (with_otp_secret new.otp_secret user ≡ ok u)
unfolding new_journalist
new_journalist-steps hasher new u h =
    let (_, acceptable, h1) = >>=-eq-ok (check_username_acceptable new.username) _ h in
    let (named, n, h2) =
      >>=-eq-ok (set_name (blank_journalist new) new.first_name new.last_name) _ h1 in
    let (user, s, h3) = >>=-eq-ok (set_password hasher new.salt named new.password) _ h2 in
    (named, user, acceptable, n, s, h3)

pub new_journalist-id :
    (hasher : Hasher) (new : NewJournalist) (u : Journalist)
    → new_journalist hasher new ≡ ok u
    → (u.id ≡ new.id) × (u.username ≡ new.username)
new_journalist-id hasher new u h =
    let (named, user, acceptable, n, s, w) = new_journalist-steps hasher new u h in
    let a = set_name-id (blank_journalist new) named new.first_name new.last_name n in
    let b = set_password-id hasher new.salt named user new.password s in
    let c = with_otp_secret-id new.otp_secret user u w in (c.0 ∙ b.0 ∙ a.0, c.1 ∙ b.1 ∙ a.1)
