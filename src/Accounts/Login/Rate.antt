-- ===== src/Accounts/Login/Rate.antt =====
-- How many guesses a minute allows (securedrop/models.py, `Journalist.login` over a run of requests).
use ab.Base.{
  ℕ, ◌+◌, ◌-◌, ◌≤◌, ◌<◌, ◌≡◌, suc, false, some, List, [], ◌∷◌, arith, Result, length, select, ◌==◌,
  ◌&&◌, leb, if◌then◌else◌, All, inl, inr,
}
use ab.Base.Text.{Text, text_in}
use ab.Errors.{Error}
use ab.Models.{Journalist, JournalistLoginAttempt, Db}
use ab.TwoFactor.{OtpLibrary}
use ab.Accounts.{Hasher, invalid_usernames}
use ab.Accounts.Login.{
  find_journalist, recent_attempts, add_attempt, is_throttled, LoginRequest, authenticate, login,
}
use ab.Accounts.Login.Throttle.{Frame, Known-named, authenticate-Frame, login_throttled_or_not}

-- Attempts on record against a journalist since a time.
attempts_since : ℕ → ℕ → List JournalistLoginAttempt → ℕ
attempts_since start id attempts =
    length (select (λ a. (a.journalist_id == id) && leb start a.timestamp) attempts)

attempts_since-le_recent :
    (start now id : ℕ) (attempts : List JournalistLoginAttempt)
    → now < start + 60
    → attempts_since start id attempts ≤ recent_attempts now id attempts
unfolding attempts_since recent_attempts
attempts_since-le_recent start now id [] h = omega arith
attempts_since-le_recent start now id (a ∷ attempts) h =
    ground (arith, attempts_since-le_recent start now id attempts h)

attempts_since-add :
    (start now : ℕ) (user : Journalist) (db : Db)
    → start ≤ now
    → attempts_since start user.id (add_attempt now user db).login_attempts
      ≡ suc (attempts_since start user.id db.login_attempts)
unfolding attempts_since
attempts_since-add start now user db h = ground arith

-- A request that the throttle let pass counts one.
count_unthrottled : Result Error Journalist → ℕ
count_unthrottled r = if is_throttled r then 0 else 1

module _ (lib : OtpLibrary) (hasher : Hasher) where
  -- How many of a run of requests, each handled in the state that the one before left, got past
  -- the throttle.
  pub guesses : List LoginRequest → Db → ℕ
  unfolding count_unthrottled
  guesses [] db = 0
  guesses (req ∷ reqs) db =
      let (r, db') = login lib hasher req db in count_unthrottled r + guesses reqs db'

  -- A request under the name, within the minute that begins at `start`.
  abbrev pub InMinute : ℕ → Text → LoginRequest → Type 0
  InMinute start name req = (req.username ≡ name) × (start ≤ req.now) × (req.now < start + 60)

  -- The run from here keeps within what is left of the five.
  abbrev WithinFive : ℕ → Text → List LoginRequest → Type 0
  WithinFive start name reqs =
      (user : Journalist) (db : Db)
      → find_journalist name db.journalists ≡ some user
      → text_in user.username invalid_usernames ≡ false
      → guesses reqs db ≤ 5 - attempts_since start user.id db.login_attempts

  after_passing :
      (start : ℕ) (name : Text) (req : LoginRequest) (reqs : List LoginRequest) (user : Journalist)
      (db : Db) (out : Result Error Journalist × Db)
      → start ≤ req.now
      → text_in user.username invalid_usernames ≡ false
      → WithinFive start name reqs
      → Frame name user (add_attempt req.now user db) out
      → attempts_since start user.id db.login_attempts < 5
      → count_unthrottled out.0 + guesses reqs out.1
        ≤ 5 - attempts_since start user.id db.login_attempts
  unfolding count_unthrottled
  after_passing start name req reqs user db out from allowed ih f few =
      let later = ih f.after out.1 f.found (rw (f.same.1) allowed) in
      let same : attempts_since start f.after.id out.1.login_attempts
          ≡ suc (attempts_since start user.id db.login_attempts) =
        rw (f.same.0, f.attempts) (attempts_since-add start req.now user db from) in
      rw f.unthrottled (omega arith)

  guesses-step :
      (start : ℕ) (name : Text) (req : LoginRequest) (reqs : List LoginRequest)
      → InMinute start name req
      → WithinFive start name reqs
      → WithinFive start name (req ∷ reqs)
  unfolding guesses count_unthrottled
  guesses-step start name req reqs (named, from, to) ih user db found allowed =
      let found' : find_journalist req.username db.journalists ≡ some user = rw named found in
      let added = attempts_since-add start req.now user db from in
      let counted = attempts_since-le_recent start req.now user.id db.login_attempts to in
      elim (login_throttled_or_not lib hasher req user db found' allowed) [
        | inl (many, e) ↦ rw e (omega (arith, ih user (add_attempt req.now user db) found allowed))
        | inr (few, e, passed) ↦ rw e (
            after_passing start name req reqs user db
              (authenticate lib hasher req user (add_attempt req.now user db)) from allowed ih
              (authenticate-Frame lib hasher req name user (add_attempt req.now user db) found (
                rw named at (
                  Known-named lib hasher req user db
                    (record { found = found'; allowed = allowed }))))
              (omega arith))
      ]

  guesses-nil : (start : ℕ) (name : Text) → WithinFive start name []
  unfolding guesses
  guesses-nil start name user db found allowed = omega arith

  guesses-WithinFive :
      (start : ℕ) (name : Text) (reqs : List LoginRequest)
      → All (InMinute start name) reqs
      → WithinFive start name reqs
  guesses-WithinFive start name [] h = guesses-nil start name
  guesses-WithinFive start name (req ∷ reqs) h =
      guesses-step start name req reqs h.0 (guesses-WithinFive start name reqs h.1)

  -- However many requests are sent within a minute under a known name that is not reserved, whatever
  -- they hold and in whatever order, at most five get past the throttle.
  pub guesses-le_five :
      (start : ℕ) (name : Text) (reqs : List LoginRequest) (user : Journalist) (db : Db)
      → All (InMinute start name) reqs
      → find_journalist name db.journalists ≡ some user
      → text_in user.username invalid_usernames ≡ false
      → guesses reqs db ≤ 5
  guesses-le_five start name reqs user db h found allowed =
      omega (arith, guesses-WithinFive start name reqs h user db found allowed)
