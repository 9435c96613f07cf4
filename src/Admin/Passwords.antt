-- ===== src/Admin/Passwords.antt =====
-- New passphrases (securedrop/journalist_app/utils.py, `set_diceware_password`; `new_password` of
-- securedrop/journalist_app/admin.py and of securedrop/journalist_app/account.py). The passphrase must be the one that
-- was shown, and the user's sessions end.
use ab.Base.{ℕ, Option, none, some, ◌==◌, if◌then◌else◌, Result, ok, err}
use ab.Base.Text.{Text}
use ab.Errors.{Error, attribute_error}
use ab.Models.{Journalist, Db}
use ab.TwoFactor.{OtpLibrary}
use ab.Accounts.{Hasher, set_password}
use ab.Accounts.Login.{LoginRequest, save}
use ab.Accounts.SignIn.{Validated, LoginFlash, valid, failed, validate_user}
use ab.Deletion.{find_by_id}
use ab.Sessions.{logout_user}
use ab.Admin.{AdminState, user_key, verify_pending_password, is_password_error}

module _ (hasher : Hasher) where
  -- The row with its new passphrase; without one, `set_password` raises.
  unfoldable pub confirmed_password :
      ℕ → Journalist → Option Text → AdminState → Result Error Journalist
  confirmed_password salt user none s = set_password hasher salt user none
  confirmed_password salt user (some password) s =
      elim (verify_pending_password hasher (user_key user.id) password s.pending) [
        | err e ↦ err e
        | ok u ↦ set_password hasher salt user (some password)
      ]

  abbrev pub diceware_response :
      Result Error Journalist → AdminState → Result Error (Option Journalist) × AdminState
  diceware_response (ok user) s = (ok (some user), record s { db = save user s.db })
  diceware_response (err e) s = if is_password_error e then (ok none, s) else (err e, s)

  -- The user whose passphrase was changed and committed, or `none` with a message.
  unfoldable pub set_diceware_password :
      ℕ → Journalist → Option Text → AdminState → Result Error (Option Journalist) × AdminState
  set_diceware_password salt user password s =
      diceware_response (confirmed_password salt user password s) s

  pub data NewPasswordResponse : Type 0 where
    own_account : NewPasswordResponse
    not_validated : LoginFlash → NewPasswordResponse
    not_changed : NewPasswordResponse
    changed : Journalist → NewPasswordResponse

  -- Ends the sessions of the user whose passphrase was changed.
  abbrev pub ended :
      Result Error (Option Journalist) × AdminState → Result Error NewPasswordResponse × AdminState
  ended (ok none, s) = (ok not_changed, s)
  ended (ok (some user), s) =
      (ok (changed user), record s { sessions = logout_user user.id s.sessions })
  ended (err e, s) = (err e, s)

  -- admin.new_password; `current` is the id of the admin. `query.get` gives `None` for an id that is not there.
  unfoldable pub new_password :
      ℕ → ℕ → ℕ → Option Text → AdminState → Result Error NewPasswordResponse × AdminState
  new_password salt current user_id password s = elim (find_by_id user_id s.db.journalists) [
    | none ↦ (err attribute_error, s)
    | some user ↦
        if user.id == current
        then (ok own_account, s)
        else ended (set_diceware_password salt user password s)
  ]

  abbrev pub after_validation :
      ℕ
      → Option Text
      → AdminState
      → Result Error Validated × Db
      → Result Error NewPasswordResponse × AdminState
  after_validation salt password s (err e, db) = (err e, record s { db = db })
  after_validation salt password s (ok (failed flash), db) =
      (ok (not_validated flash), record s { db = db })
  after_validation salt password s (ok (valid user), db) =
      ended (set_diceware_password salt user password (record s { db = db }))

  -- account.new_password, of the user who is signed in: `req` has the name, and the passphrase and the token
  -- that were sent.
  unfoldable pub change_password :
      OtpLibrary
      → ℕ
      → Option Text
      → LoginRequest
      → Option Text
      → AdminState
      → Result Error NewPasswordResponse × AdminState
  change_password lib salt message req password s =
      after_validation salt password s (validate_user lib hasher message req s.db)
