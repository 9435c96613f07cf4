-- ===== src/Accounts/Login.antt =====
-- Signing in (securedrop/models.py, `Journalist.throttle_login` and `Journalist.login`;
-- securedrop/journalist_app/utils.py, `validate_user`), on the whole database. Every change that
-- `login` makes is committed before the next step may raise, so the state that comes back beside an
-- error is the committed one.
pub mod Rows
pub mod Throttle
pub mod Rate
pub mod Replay
use ab.Base.{
  ℕ, ◌+◌, Bool, true, false, not, ◌&&◌, Option, none, some, List, [], ◌∷◌, ◌++◌, map, length,
  select, find, ltb, ◌==◌, if◌then◌else◌, Result, ok, err, Exec, pure, lift, gets, or_raise, modify,
  raise_if, ◌>>=◌, ◌>>◌,
}
use ab.Base.Text.{Text, text_eq, text_in}
use ab.Errors.{Error, invalid_username, login_throttled, wrong_password}
use ab.Models.{Journalist, JournalistLoginAttempt, Db}
use ab.TwoFactor.{OtpLibrary}
use ab.Accounts.{Hasher, invalid_usernames, verify_2fa_token, valid_password}

abbrev pub login_attempt_period : ℕ
login_attempt_period = 60

abbrev pub max_login_attempts_per_period : ℕ
max_login_attempts_per_period = 5

-- Journalist.query.filter_by(username=username); user names are unique.
unfoldable pub find_journalist : Text → List Journalist → Option Journalist
find_journalist username = find (λ j. text_eq j.username username)

-- The table after a change of one row.
abbrev pub replace_row : Journalist → Journalist → Journalist
replace_row user row = if row.id == user.id then user else row

unfoldable pub save_rows : Journalist → List Journalist → List Journalist
save_rows user = map (replace_row user)

abbrev pub save : Journalist → Db → Db
save user db = record db { journalists = save_rows user db.journalists }

-- Whether an attempt counts against a journalist at a time: `timestamp > now - 60 seconds`.
abbrev pub is_recent : ℕ → ℕ → JournalistLoginAttempt → Bool
is_recent now id attempt =
    (attempt.journalist_id == id) && ltb now (attempt.timestamp + login_attempt_period)

unfoldable pub recent_attempts : ℕ → ℕ → List JournalistLoginAttempt → ℕ
recent_attempts now id attempts = length (select (is_recent now id) attempts)

abbrev pub add_attempt : ℕ → Journalist → Db → Db
add_attempt now user db = record db {
  login_attempts = record { timestamp = now; journalist_id = user.id } ∷ db.login_attempts;
}

unfoldable pub throttle_login : ℕ → Journalist → Exec Error Db (Unit {0})
throttle_login now user = do
  modify (add_attempt now user)
  attempts ← gets (λ db. recent_attempts now user.id db.login_attempts)
  raise_if (ltb max_login_attempts_per_period attempts) login_throttled

-- Whether a call raised `LoginThrottledException`.
abbrev pub is_throttled : {A : Type 0} → Result Error A → Bool
is_throttled (ok a) = false
is_throttled (err login_throttled) = true
is_throttled (err e) = false

-- A request to sign in: what the user sent, the time, and the salt that argon2 would draw.
pub record LoginRequest : Type 0 where
  pub username : Text
  pub password : Option Text
  pub token : Option Text
  pub now : ℕ
  pub salt : ℕ

module _ (lib : OtpLibrary) (hasher : Hasher) where
  -- The second factor: on success the counter and the token are stored.
  unfoldable pub second_factor : LoginRequest → Journalist → Exec Error Db Journalist
  second_factor req user = do
    verified ← lift (verify_2fa_token lib req.now user req.token)
    let user' = record (verified.1) { last_token = some verified.0 }
    modify (save user')
    pure user'

  unfoldable pub check_password : LoginRequest → Journalist → Exec Error Db Journalist
  check_password req user = do
    checked ← lift (valid_password hasher req.salt user req.password)
    modify (save checked.1)
    raise_if (not checked.0) wrong_password
    pure checked.1

  unfoldable pub authenticate : LoginRequest → Journalist → Exec Error Db Journalist
  unfolding second_factor check_password
  authenticate req user = do user' ← second_factor req user; check_password req user'

  unfoldable pub login : LoginRequest → Exec Error Db Journalist
  login req = do
    found ← gets (λ db. find_journalist req.username db.journalists)
    user ← or_raise found invalid_username
    raise_if (text_in user.username invalid_usernames) invalid_username
    throttle_login req.now user
    authenticate req user
