-- ===== src/Sources/Session.antt =====
-- The session of a source (securedrop/source_app/session_manager.py, `SessionManager`): the part of the
-- session cookie that it keeps, and who is logged in at a time.
use ab.Base.{
  ℕ, ◌+◌, ◌*◌, ◌≤◌, ◌<◌, ◌≡◌, refl, sym, ap, ◌∙◌, Bool, true, false, Option, none, some, leb, arith,
  if◌then◌else◌, Result, ok, err, Result-cases, inl, inr, ◌⊎◌, Exec,
}
use native.Mathlib.Decide.{dec_lt}
use ab.Base.Text.{Text}
use ab.Models.{Db}
use ab.Sources.{SourceError, invalid_passphrase, SourceSetup, SourceUser, authenticate_source_user}

-- The values under "codename" and "expires".
pub record SourceSession : Type 0 where
  pub codename : Option Text
  pub expires : Option ℕ

pub data SessionError : Type 0 where
  user_not_logged_in : SessionError
  user_session_expired : SessionError
  user_has_been_deleted : SessionError
  -- An exception that is let through.
  other_error : SourceError → SessionError

abbrev pub log_user_out : SourceSession → SourceSession
log_user_out session = record { codename = none; expires = none }

module _ (setup : SourceSetup) (session_expiration_minutes : ℕ) where
  abbrev pub logged_in :
      ℕ → Text → Result SourceError SourceUser → Exec SourceError SourceSession SourceUser
  logged_in now passphrase (err e) session = (err e, session)
  logged_in now passphrase (ok user) session = (
    ok user,
    record { codename = some passphrase; expires = some (now + session_expiration_minutes * 60) },
  )

  unfoldable pub log_user_in : ℕ → Text → Db → Exec SourceError SourceSession SourceUser
  log_user_in now passphrase db =
      logged_in now passphrase (authenticate_source_user setup passphrase db)

  abbrev pub fetched : Result SourceError SourceUser → Exec SessionError SourceSession SourceUser
  fetched (ok user) session = (ok user, session)
  fetched (err invalid_passphrase) session = (err user_has_been_deleted, log_user_out session)
  fetched (err e) session = (err (other_error e), session)

  unfoldable pub get_logged_in_user : ℕ → Db → Exec SessionError SourceSession SourceUser
  get_logged_in_user now db session = elim session.codename [
    | none ↦ (err user_not_logged_in, log_user_out session)
    | some passphrase ↦ elim session.expires [
      | none ↦ (err user_not_logged_in, log_user_out session)
      | some expires ↦
          if leb expires now
          then (err user_session_expired, log_user_out session)
          else fetched (authenticate_source_user setup passphrase db) session
    ]
  ]

  abbrev pub is_logged_in : Result SessionError SourceUser → Result SessionError Bool
  is_logged_in (ok user) = ok true
  is_logged_in (err (other_error e)) = err (other_error e)
  is_logged_in (err e) = ok false

  unfoldable pub is_user_logged_in : ℕ → Db → Exec SessionError SourceSession Bool
  is_user_logged_in now db session =
      let (r, session') = get_logged_in_user now db session in (is_logged_in r, session')

  -- A session after a login: until it expires the same passphrase authenticates, in whatever the database is
  -- by then, and if it does not the user counts as deleted; from the expiry on the
  -- session is empty.
  pub get_logged_in_user-log_user_in :
      (now later : ℕ) (passphrase : Text) (db db' : Db) (session after : SourceSession)
      (user : SourceUser)
      → log_user_in now passphrase db session ≡ (ok user, after)
      → ((later < now + session_expiration_minutes * 60)
          × (get_logged_in_user later db' after
              ≡ fetched (authenticate_source_user setup passphrase db') after))
        ⊎ ((now + session_expiration_minutes * 60 ≤ later)
            × (get_logged_in_user later db' after
                ≡ (err user_session_expired, record { codename = none; expires = none }))
            × (get_logged_in_user later db' (get_logged_in_user later db' after).1
                ≡ (err user_not_logged_in, record { codename = none; expires = none })))
  unfolding log_user_in get_logged_in_user
  get_logged_in_user-log_user_in now later passphrase db db' session after user h =
      elim (Result-cases (authenticate_source_user setup passphrase db)) [
        | inl (u, e) ↦
            let entered : SourceSession = record {
              codename = some passphrase;
              expires = some (now + session_expiration_minutes * 60);
            } in
            let e' : log_user_in now passphrase db session ≡ (ok u, entered) = rw e refl in
            let a : entered ≡ after =
              ap (λ (out : Result SourceError SourceUser × SourceSession). out.1) (sym e' ∙ h) in
            elim (dec_lt later (now + session_expiration_minutes * 60)) [
              | yes early ↦
                  let l : leb (now + session_expiration_minutes * 60) later ≡ false =
                    ground arith in
                  inl (early, rw (← a) (rw l refl))
              | no late ↦
                  let l : leb (now + session_expiration_minutes * 60) later ≡ true = ground arith in
                  inr (omega arith, rw (← a) (rw l refl), rw (← a) (rw l refl))
            ]
        | inr (e, f) ↦
            absurd
              (let f' : log_user_in now passphrase db session ≡ (err e, session) = rw f refl in cc)
      ]
