-- ===== src/Admin.antt =====
-- Administration of accounts (securedrop/journalist_app/admin.py, `add_user` and `edit_user`;
-- securedrop/journalist_app/forms.py, `NewUserForm`; securedrop/journalist_app/utils.py, pending passwords):
-- POST requests of an admin. What a generated passphrase is and what keys are drawn are arguments.
pub mod Confirmed
pub mod Passwords
pub mod TwoFactor
pub mod Reset
pub mod EditUser
pub mod NewUser
pub mod Usernames
pub mod Table
mod Tests
use ab.Base.{
  ℕ, zero, suc, ◌+◌, Bool, true, false, not, ◌&&◌, ◌||◌, Option, none, some, is_some, List, [], ◌∷◌,
  ◌++◌, map, select, find, length, ltb, leb, ◌==◌, if◌then◌else◌, Result, ok, err, Exec, pure, lift,
  gets, modify, raise_if, ◌>>=◌, ◌>>◌,
}
use ab.Base.Text.{Text, codes, text_eq, text_in, is_empty}
use ab.Errors.{
  Error, invalid_username, password_error, invalid_password_length, non_diceware_password,
  binascii_error, integrity_error,
}
use ab.Models.{Journalist, Db}
use ab.TwoFactor.{secret_hex_length}
use ab.Accounts.{
  Hasher, min_username_len, max_name_len, invalid_usernames, check_username_acceptable,
  check_name_acceptable, truthy, without_blanks,
}
use ab.Accounts.Creation.{NewJournalist, new_journalist}
use ab.Accounts.Login.{find_journalist, save}
use ab.Deletion.{Drawn, add_journalist}
use ab.Store.{decimal}
use ab.Sessions.{SessionInterface}
use ab.Submit.{strip}

-- The passwords that were shown and not yet confirmed, in the session: keys and hashes.
abbrev pub PendingPasswords : Type 0
PendingPasswords = List (Text × Text)

pub record AdminState : Type 0 where
  pub db : Db
  pub pending : PendingPasswords
  pub sessions : SessionInterface

-- f"pending_password_{id}", for "new" and for a journalist.
abbrev pub new_key : Text
new_key = codes "pending_password_new"

abbrev pub user_key : ℕ → Text
user_key id = codes "pending_password_" ++ decimal id

unfoldable pub find_pending : Text → PendingPasswords → Option Text
find_pending key [] = none
find_pending key ((k, hash) ∷ pending) =
    if text_eq k key then some hash else find_pending key pending

-- session[key] = hasher.hash(passphrase)
unfoldable pub set_pending_password : Hasher → ℕ → Text → Text → PendingPasswords → PendingPasswords
set_pending_password hasher salt key passphrase pending =
    (key, hasher.hash salt passphrase) ∷ select (λ entry. not (text_eq entry.0 key)) pending

unfoldable pub verify_pending_password :
    Hasher → Text → Text → PendingPasswords → Result Error (Unit {0})
verify_pending_password hasher key passphrase pending = elim (find_pending key pending) [
  | none ↦ err password_error
  | some hash ↦ if hasher.verify hash passphrase then ok tt else err password_error
]

-- `PasswordError` and its subclasses.
abbrev pub is_password_error : Error → Bool
is_password_error password_error = true
is_password_error invalid_password_length = true
is_password_error non_diceware_password = true
is_password_error e = false

-- The fields as they are sent; a box that is not ticked is missing.
pub record NewUserForm : Type 0 where
  pub username : Text
  pub first_name : Text
  pub last_name : Text
  pub password : Text
  pub is_admin : Option Text
  pub is_hotp : Option Text
  pub otp_secret : Text

-- The value of a BooleanField.
abbrev pub is_checked : Option Text → Bool
is_checked none = false
is_checked (some s) = not (text_in s (codes "false" ∷ [] ∷ []))

-- minimum_length_validation, after InputRequired, and check_invalid_usernames
unfoldable pub valid_username_field : Text → Bool
valid_username_field username =
    not (is_empty username)
    && (not (ltb (length username) min_username_len) && not (text_in username invalid_usernames))

-- name_length_validation
unfoldable pub valid_name_field : Text → Bool
valid_name_field name = not (ltb max_name_len (length name))

-- RequiredIf("is_hotp"), which ends the checks where the box is not ticked, and otp_secret_validation
unfoldable pub valid_otp_field : NewUserForm → Bool
valid_otp_field form =
    not (is_checked form.is_hotp)
    || (not (is_empty (strip form.otp_secret))
        && (length (without_blanks form.otp_secret) == secret_hex_length))

unfoldable pub validate_on_submit : NewUserForm → Bool
validate_on_submit form =
    valid_username_field form.username
    && (valid_name_field form.first_name
        && (valid_name_field form.last_name && valid_otp_field form))

abbrev pub new_user : Drawn → NewUserForm → ℕ → NewJournalist
new_user drawn form id = record {
  username = form.username;
  password = some form.password;
  first_name = some form.first_name;
  last_name = some form.last_name;
  is_admin = is_some (truthy form.is_admin);
  otp_secret = if is_some (truthy form.is_hotp) then some form.otp_secret else none;
  id = id;
  uuid = drawn.uuid;
  default_secret = drawn.default_secret;
  salt = drawn.salt;
}

abbrev pub in_db : (Db → Db) → AdminState → AdminState
in_db f s = record s { db = f s.db }

-- The body of the `try`; the unique user name is a constraint of the table.
unfoldable pub create_user : Hasher → Drawn → NewUserForm → Exec Error AdminState Journalist
create_user hasher drawn form = do
  s ← gets (λ s. s)
  lift (verify_pending_password hasher new_key form.password s.pending)
  user ← lift (new_journalist hasher (new_user drawn form s.db.next_id))
  raise_if (is_some (find_journalist form.username s.db.journalists)) integrity_error
  modify (in_db (add_journalist user))
  pure user

-- What is flashed when the form is shown again.
pub data AddUserFlash : Type 0 where
  autogenerated_password : AddUserFlash
  hotp_secret_format : AddUserFlash
  username_invalid : AddUserFlash
  username_taken : AddUserFlash
  fields_invalid : AddUserFlash

pub data AddUserResponse : Type 0 where
  user_added : Journalist → AddUserResponse
  -- The form, with the passphrase that it shows.
  user_form : AddUserFlash → Text → AddUserResponse

-- The exceptions that `add_user` catches.
unfoldable pub add_user_flash : Error → Option AddUserFlash
add_user_flash password_error = some autogenerated_password
add_user_flash invalid_password_length = some autogenerated_password
add_user_flash non_diceware_password = some autogenerated_password
add_user_flash binascii_error = some hotp_secret_format
add_user_flash invalid_username = some username_invalid
add_user_flash integrity_error = some username_taken
add_user_flash e = none

module _ (hasher : Hasher) (drawn : Drawn) (salt : ℕ) (shown : Text) where
  -- A new passphrase is generated and becomes the pending one.
  unfoldable pub show_form : AddUserFlash → Exec Error AdminState AddUserResponse
  show_form flash = do
    modify (λ s. record s { pending = set_pending_password hasher salt new_key shown s.pending })
    pure (user_form flash shown)

  abbrev pub add_user_response :
      Result Error Journalist × AdminState → Result Error AddUserResponse × AdminState
  add_user_response (ok user, s) = (ok (user_added user), s)
  add_user_response (err e, s) = elim (add_user_flash e) [
    | none ↦ (err e, s)
    | some flash ↦ show_form flash s
  ]

  unfoldable pub add_user : NewUserForm → Exec Error AdminState AddUserResponse
  add_user form s =
      if validate_on_submit form
      then add_user_response (create_user hasher drawn form s)
      else show_form fields_invalid s
