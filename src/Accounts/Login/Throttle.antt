-- ===== src/Accounts/Login/Throttle.antt =====
-- The login throttle (securedrop/models.py, `Journalist.throttle_login`): at most five attempts in
-- a minute get as far as the second factor.
use native.Mathlib.Decide.{dec_lt}
use ab.Base.{
  ◌≤◌, ◌<◌, ◌≡◌, ◌⊎◌, refl, ◌∙◌, bind-ok, bind-err, suc, true, false, some, arith, Result, ok, err,
  Result-cases, inl, inr, find_passes,
}
use ab.Base.Text.{Text, text_eq, text_in}
use ab.Errors.{Error, login_throttled}
use ab.Models.{Journalist, Db}
use ab.TwoFactor.{OtpLibrary}
use ab.Accounts.{Hasher, invalid_usernames, verify_2fa_token, valid_password}
use ab.Accounts.Login.{
  find_journalist, save, recent_attempts, add_attempt, throttle_login, is_throttled, LoginRequest,
  check_password, authenticate, login,
}
use ab.Accounts.Login.Rows.{
  SameUser, find-save_rows, verify_2fa_token_throttled, verify_2fa_token-SameUser,
  valid_password_throttled, valid_password-SameUser, check_password-err, check_password-ok,
  authenticate-err, authenticate-ok,
}

-- What the steps after the throttle leave: the attempts, and the row under its name.
pub record Frame (name : Text) (user : Journalist) (db : Db) (out : Result Error Journalist × Db)
    : Type 0 where
  pub unthrottled : is_throttled out.0 ≡ false
  pub attempts : out.1.login_attempts ≡ db.login_attempts
  pub after : Journalist
  pub found : find_journalist name out.1.journalists ≡ some after
  pub same : SameUser after user

module _ (lib : OtpLibrary) (hasher : Hasher) (req : LoginRequest) where
  check_password-Frame :
      (name : Text) (user : Journalist) (db : Db)
      → find_journalist name db.journalists ≡ some user
      → text_eq user.username name ≡ true
      → Frame name user db (check_password lib hasher req user db)
  check_password-Frame name user db found named =
      elim (Result-cases (valid_password hasher req.salt user req.password)) [
        | inl ((valid, u), h) ↦
            let (id, username) =
              valid_password-SameUser hasher req.salt user req.password valid u h in
            rw (check_password-ok lib hasher req user db valid u h) (record {
              unthrottled = ground arith;
              attempts = refl;
              after = u;
              found = find-save_rows name db.journalists user u found id (rw username named);
              same = (id, username);
            })
        | inr (e, h) ↦ rw (check_password-err lib hasher req user db e h) (record {
          unthrottled = rw h at (valid_password_throttled hasher req.salt user req.password);
          attempts = refl;
          after = user;
          found = found;
          same = (refl, refl);
        })
      ]

  pub authenticate-Frame :
      (name : Text) (user : Journalist) (db : Db)
      → find_journalist name db.journalists ≡ some user
      → text_eq user.username name ≡ true
      → Frame name user db (authenticate lib hasher req user db)
  authenticate-Frame name user db found named =
      elim (Result-cases (verify_2fa_token lib req.now user req.token)) [
        | inl ((token, u), h) ↦
            let (id, username) = verify_2fa_token-SameUser lib req.now user req.token token u h in
            let u' = record u { last_token = some token } in
            let f =
              check_password-Frame name u' (save u' db)
                (find-save_rows name db.journalists user u' found id (rw username named))
                (rw username named) in
            rw (authenticate-ok lib hasher req user db token u h) (record {
              unthrottled = f.unthrottled;
              attempts = f.attempts;
              after = f.after;
              found = f.found;
              same = (f.same.0 ∙ id, f.same.1 ∙ username);
            })
        | inr (e, h) ↦ rw (authenticate-err lib hasher req user db e h) (record {
          unthrottled = rw h at (verify_2fa_token_throttled lib req.now user req.token);
          attempts = refl;
          after = user;
          found = found;
          same = (refl, refl);
        })
      ]

  -- A sign-in under a name that is in the table and not reserved.
  pub record Known (user : Journalist) (db : Db) : Type 0 where
    pub found : find_journalist req.username db.journalists ≡ some user
    pub allowed : text_in user.username invalid_usernames ≡ false

  pub Known-named :
      (user : Journalist) (db : Db) → Known user db → text_eq user.username req.username ≡ true
  unfolding find_journalist
  Known-named user db k =
      find_passes (λ j. text_eq j.username req.username) db.journalists user k.found

  recent_attempts-add :
      (user : Journalist) (db : Db)
      → recent_attempts req.now user.id (add_attempt req.now user db).login_attempts
        ≡ suc (recent_attempts req.now user.id db.login_attempts)
  unfolding recent_attempts
  recent_attempts-add user db = ground arith

  throttle_login-many :
      (user : Journalist) (db : Db)
      → 5 ≤ recent_attempts req.now user.id db.login_attempts
      → throttle_login req.now user db ≡ (err login_throttled, add_attempt req.now user db)
  unfolding throttle_login
  throttle_login-many user db h = ground (arith, recent_attempts-add user db)

  throttle_login-few :
      (user : Journalist) (db : Db)
      → recent_attempts req.now user.id db.login_attempts < 5
      → throttle_login req.now user db ≡ (ok tt, add_attempt req.now user db)
  unfolding throttle_login
  throttle_login-few user db h = ground (arith, recent_attempts-add user db)

  pub login-throttled :
      (user : Journalist) (db : Db)
      → Known user db
      → 5 ≤ recent_attempts req.now user.id db.login_attempts
      → login lib hasher req db ≡ (err login_throttled, add_attempt req.now user db)
  unfolding login
  login-throttled user db k many =
      rw (k.found, k.allowed)
        (bind-err (throttle_login req.now user) (λ _. authenticate lib hasher req user) db
          (add_attempt req.now user db) login_throttled (throttle_login-many user db many))

  pub login-unthrottled :
      (user : Journalist) (db : Db)
      → Known user db
      → recent_attempts req.now user.id db.login_attempts < 5
      → login lib hasher req db ≡ authenticate lib hasher req user (add_attempt req.now user db)
  unfolding login
  login-unthrottled user db k few =
      rw (k.found, k.allowed)
        (bind-ok (throttle_login req.now user) (λ _. authenticate lib hasher req user) db
          (add_attempt req.now user db) tt (throttle_login-few user db few))

  pub login_throttled_or_not :
      (user : Journalist) (db : Db)
      → find_journalist req.username db.journalists ≡ some user
      → text_in user.username invalid_usernames ≡ false
      → ((5 ≤ recent_attempts req.now user.id db.login_attempts)
          × (login lib hasher req db ≡ (err login_throttled, add_attempt req.now user db)))
        ⊎ ((recent_attempts req.now user.id db.login_attempts < 5)
            × (login lib hasher req db
                ≡ authenticate lib hasher req user (add_attempt req.now user db))
            × (is_throttled (login lib hasher req db).0 ≡ false))
  login_throttled_or_not user db found allowed =
      let k : Known user db = record { found = found; allowed = allowed } in
      elim (dec_lt (recent_attempts req.now user.id db.login_attempts) 5) [
        | yes few ↦
            let e = login-unthrottled user db k few in
            let f =
              authenticate-Frame req.username user (add_attempt req.now user db) found
                (Known-named user db k) in
            inr (few, e, rw e f.unthrottled)
        | no many ↦ inl (omega arith, login-throttled user db k (omega arith))
      ]
