-- ===== src/Admin/EditUser.antt =====
-- Changing the names and the rank of an account (securedrop/journalist_app/admin.py, `edit_user`).
use ab.Base.{ℕ, Option, none, some, is_some, List, if◌then◌else◌, Result, ok, err}
use ab.Base.Fallible.{◌>>=◌, ◌>>◌}
use ab.Base.Text.{Text, text_eq}
use ab.Errors.{Error, integrity_error}
use ab.Models.{Journalist, Db}
use ab.Accounts.{Hasher, check_username_acceptable, check_name_acceptable, set_name, truthy}
use ab.Accounts.Login.{find_journalist, save}
use ab.Admin.{AdminState, user_key, set_pending_password}

pub record EditUserForm : Type 0 where
  pub username : Option Text
  pub first_name : Text
  pub last_name : Text
  pub is_admin : Option Text

-- A new name that is acceptable, and free unless it is the user's own.
abbrev pub renamed : List Journalist → Journalist → Text → Result Error Journalist
renamed journalists user username =
    if text_eq username user.username
    then ok user
    else if is_some (find_journalist username journalists)
    then err integrity_error
    else ok (record user { username = username })

unfoldable pub edit_username : List Journalist → Journalist → Option Text → Result Error Journalist
edit_username journalists user username = elim (truthy username) [
  | none ↦ ok user
  | some name ↦ do check_username_acceptable name; renamed journalists user name
]

-- The changes to the row, of which none is committed if one is refused.
unfoldable pub edited : List Journalist → Journalist → EditUserForm → Result Error Journalist
edited journalists user form = do
  named ← edit_username journalists user form.username
  check_name_acceptable form.first_name
  check_name_acceptable form.last_name
  ok (record named {
    first_name = some form.first_name;
    last_name = some form.last_name;
    is_admin = is_some (truthy form.is_admin);
  })

pub data EditUserResponse : Type 0 where
  not_updated : Error → EditUserResponse
  -- The page of the account, with the passphrase that it shows.
  edit_page : Text → EditUserResponse

module _ (hasher : Hasher) (salt : ℕ) (shown : Text) where
  abbrev pub edit_response : AdminState → Result Error Journalist → EditUserResponse × AdminState
  edit_response s (err e) = (not_updated e, s)
  edit_response s (ok user) = (
    edit_page shown,
    record s {
      db = save user s.db;
      pending = set_pending_password hasher salt (user_key user.id) shown s.pending;
    },
  )

  -- For a user who is in the table.
  unfoldable pub edit_user : Journalist → EditUserForm → AdminState → EditUserResponse × AdminState
  edit_user user form s = edit_response s (edited s.db.journalists user form)

-- account.change_name
unfoldable pub change_name :
    Journalist → Option Text → Option Text → Db → Result Error Journalist × Db
change_name user first_name last_name db = elim (set_name user first_name last_name) [
  | ok u ↦ (ok u, save u db)
  | err e ↦ (err e, db)
]
