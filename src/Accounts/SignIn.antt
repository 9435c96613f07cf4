-- ===== src/Accounts/SignIn.antt =====
-- The two ways to sign in: the login form (securedrop/journalist_app/utils.py, `validate_user`) and
-- the API (securedrop/journalist_app/api.py, `get_token`). Messages are data; what they say in each
-- language is not modelled. An error that a handler does not catch ends the request with status 500.
use ab.Base.{
  ℕ, ◌<◌, ◌≡◌, refl, ◌∙◌, Bool, true, false, Option, none, some, [], ◌∷◌, arith, Result, ok, err,
  Exec, length, if◌then◌else◌,
}
use ab.Base.Text.{Text, text_in}
use ab.Errors.{
  Error, invalid_username, login_throttled, wrong_password, invalid_password_length,
  otp_secret_invalid, otp_token_invalid,
}
use ab.Models.{Journalist, Db}
use ab.TwoFactor.{OtpLibrary}
use ab.Accounts.{Hasher, invalid_usernames, verify_2fa_token, valid_password}
use ab.Accounts.Login.{find_journalist, save, recent_attempts, add_attempt, LoginRequest, login}
use ab.Accounts.Login.Rows.{authenticate-ok, check_password-err}
use ab.Accounts.Login.Throttle.{Known, login-unthrottled}

-- What is added to "Login failed." or to the caller's message.
pub data LoginNote : Type 0 where
  wait_a_minute : LoginNote
  contact_an_administrator : LoginNote
  wait_for_a_new_code : LoginNote
  nothing_more : LoginNote

pub record LoginFlash : Type 0 where
  pub error_message : Option Text
  pub note : LoginNote

-- The user that `validate_user` returns, or the message that it flashes.
pub data Validated : Type 0 where
  valid : Journalist → Validated
  failed : LoginFlash → Validated

-- The exceptions that `validate_user` catches.
unfoldable pub is_login_failure : Error → Bool
is_login_failure invalid_username = true
is_login_failure otp_secret_invalid = true
is_login_failure otp_token_invalid = true
is_login_failure wrong_password = true
is_login_failure login_throttled = true
is_login_failure invalid_password_length = true
is_login_failure e = false

abbrev pub note_for_user : Option Journalist → LoginNote
note_for_user none = nothing_more
note_for_user (some user) = if user.is_totp then wait_for_a_new_code else nothing_more

unfoldable pub failure_note : Error → Text → Db → LoginNote
failure_note login_throttled username db = wait_a_minute
failure_note otp_secret_invalid username db = contact_an_administrator
failure_note e username db = note_for_user (find_journalist username db.journalists)

-- The exceptions that `get_token` catches, to answer 403.
unfoldable pub is_token_failure : Error → Bool
is_token_failure login_throttled = true
is_token_failure invalid_username = true
is_token_failure otp_secret_invalid = true
is_token_failure otp_token_invalid = true
is_token_failure wrong_password = true
is_token_failure e = false

pub data TokenResponse : Type 0 where
  token_issued : Journalist → TokenResponse
  bad_request : TokenResponse
  forbidden : TokenResponse

-- The JSON object that is sent, with the fields that may be missing.
pub record Credentials : Type 0 where
  pub username : Option Text
  pub passphrase : Option Text
  pub one_time_code : Option Text

module _ (lib : OtpLibrary) (hasher : Hasher) where
  abbrev pub validated :
      Option Text → Text → Result Error Journalist × Db → Result Error Validated × Db
  validated message username (ok user, db) = (ok (valid user), db)
  validated message username (err e, db) =
      if is_login_failure e
      then (ok (failed (record { error_message = message; note = failure_note e username db })), db)
      else (err e, db)

  unfoldable pub validate_user : Option Text → LoginRequest → Exec Error Db Validated
  validate_user message req db = validated message req.username (login lib hasher req db)

  -- After the login: the time of the access is stored, and the session gets the user's id.
  abbrev pub token_response : ℕ → Result Error Journalist × Db → Result Error TokenResponse × Db
  token_response now (ok user, db) =
      let user' = record user { last_access = some now } in (ok (token_issued user'), save user' db)
  token_response now (err e, db) = if is_token_failure e then (ok forbidden, db) else (err e, db)

  unfoldable pub get_token : ℕ → ℕ → Credentials → Exec Error Db TokenResponse
  get_token now salt creds db = elim creds.username [
    | none ↦ (ok bad_request, db)
    | some username ↦ elim creds.passphrase [
      | none ↦ (ok bad_request, db)
      | some passphrase ↦ elim creds.one_time_code [
        | none ↦ (ok bad_request, db)
        | some one_time_code ↦ token_response now (
            login lib hasher
              (record {
                username = username;
                password = some passphrase;
                token = some one_time_code;
                now = now;
                salt = salt;
              })
              db)
      ]
    ]
  ]

  -- The request to sign in that the API makes of the credentials.
  abbrev api_request : ℕ → ℕ → Text → Text → Text → LoginRequest
  api_request now salt username passphrase code = record {
    username = username;
    password = some passphrase;
    token = some code;
    now = now;
    salt = salt;
  }

  valid_password-long :
      (salt : ℕ) (user : Journalist) (p : Text)
      → 128 < length p
      → valid_password hasher salt user (some p) ≡ err invalid_password_length
  unfolding valid_password
  valid_password-long salt user [] h = absurd (omega arith)
  valid_password-long salt user (c ∷ p) h = ground arith

  -- A passphrase of more than 128 characters, sent with a token that passes the second factor for a
  -- known user who is not throttled, is an error that the login form reports as a failed login, and
  -- that the API does not catch: the same credentials raise `InvalidPasswordLength` out of `get_token`.
  pub get_token_long_passphrase :
      (now salt : ℕ) (username passphrase code : Text) (message : Option Text) (user u : Journalist)
      (token : Text) (db : Db)
      → find_journalist username db.journalists ≡ some user
      → text_in user.username invalid_usernames ≡ false
      → recent_attempts now user.id db.login_attempts < 5
      → verify_2fa_token lib now user (some code) ≡ ok (token, u)
      → 128 < length passphrase
      → let creds : Credentials = record {
        username = some username;
        passphrase = some passphrase;
        one_time_code = some code;
      } in
        ((get_token now salt creds db).0 ≡ err invalid_password_length)
        × ((validate_user message (api_request now salt username passphrase code) db).0
            ≡ ok (
                failed (record {
                  error_message = message;
                  note =
                      failure_note invalid_password_length username
                        (login lib hasher (api_request now salt username passphrase code) db).1;
                })))
  unfolding get_token validate_user is_token_failure is_login_failure
  get_token_long_passphrase now salt username passphrase code message user u token db found allowed
        few verified long =
      let req = api_request now salt username passphrase code in
      let k : Known lib hasher req user db = record { found = found; allowed = allowed } in
      let u' = record u { last_token = some token } in
      let db1 = add_attempt now user db in
      let e : login lib hasher req db ≡ (err invalid_password_length, save u' db1) =
        login-unthrottled lib hasher req user db k few
        ∙ authenticate-ok lib hasher req user db1 token u verified
        ∙ check_password-err lib hasher req u' (save u' db1) invalid_password_length
            (valid_password-long salt u' passphrase long) in
      rw e (refl, refl)
