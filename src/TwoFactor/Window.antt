-- ===== src/TwoFactor/Window.antt =====
-- Which tokens the two verifiers accept (securedrop/two_factor.py, `HOTP.verify`, `TOTP.verify`).
use ab.Base.{
  ℕ, zero, suc, ◌+◌, ◌-◌, ◌/◌, ◌≤◌, ◌<◌, ◌≡◌, ◌↔◌, ◌⊎◌, refl, inl, inr, true, false, Option, none,
  some, arith, Result, ok, err, Bool-cases, All, range,
}
use ab.Base.Text.{Text}
use ab.Errors.{Error, otp_token_invalid}
use ab.TwoFactor.{
  OtpLibrary, Hotp, Totp, is_ascii, first_accepted, hotp_verify, totp_verify, time_step,
  look_ahead_window_size,
}

module _ (lib : OtpLibrary) (h : Hotp) (token : Text) where
  abbrev Rejected : ℕ → Type 0
  Rejected n = lib.hotp_accepts h.key token n ≡ false

  -- What the loop over the counters returns: the first accepted one, if there is any.
  abbrev FirstOf : ℕ → ℕ → Option ℕ → Type 0
  FirstOf rounds counter none = All Rejected (range counter rounds)
  FirstOf rounds counter (some c) =
      (k : ℕ) × (c ≡ counter + k)
      × (k < rounds)
      × (lib.hotp_accepts h.key token c ≡ true)
      × All Rejected (range counter k)

  FirstOf-suc :
      (rounds counter : ℕ) (o : Option ℕ)
      → Rejected counter
      → FirstOf rounds (counter + 1) o
      → FirstOf (suc rounds) counter o
  FirstOf-suc rounds counter none r f = (r, f)
  FirstOf-suc rounds counter (some c) r (k, e, lt, acc, before) =
      (suc k, omega arith, omega arith, acc, (r, before))

  first_accepted-FirstOf :
      (rounds counter : ℕ) → FirstOf rounds counter (first_accepted lib h.key token rounds counter)
  unfolding first_accepted
  first_accepted-FirstOf zero counter = tt
  first_accepted-FirstOf (suc rounds) counter =
      elim (Bool-cases (lib.hotp_accepts h.key token counter)) [
        | inl accepted ↦ rw accepted (0, omega arith, omega arith, accepted, tt)
        | inr rejected ↦ rw rejected (
            FirstOf-suc rounds counter (first_accepted lib h.key token rounds (counter + 1))
              rejected (first_accepted-FirstOf rounds (counter + 1)))
      ]

  -- A verdict on a counter: what was returned is the first counter of the window that the token fits,
  -- and the token is refused where it fits none.
  abbrev pub IsVerdict : ℕ → Result Error ℕ → Type 0
  IsVerdict counter (ok c) = FirstOf look_ahead_window_size counter (some c)
  IsVerdict counter (err e) = (e ≡ otp_token_invalid) × FirstOf look_ahead_window_size counter none

  verdict :
      (counter : ℕ) (o : Option ℕ)
      → FirstOf look_ahead_window_size counter o
      → IsVerdict counter (elim o [ none ↦ err otp_token_invalid | some c ↦ ok c ])
  verdict counter none f = (refl, f)
  verdict counter (some c) f = f

  -- For an ASCII token, HOTP verification returns the first of the 20 counters from the given one
  -- at which the library accepts the token, and raises "token invalid" exactly if there is none.
  pub hotp_verify_first :
      (counter : ℕ) → is_ascii token ≡ true → IsVerdict counter (hotp_verify lib h token counter)
  unfolding hotp_verify
  hotp_verify_first counter ascii = rw ascii (
      verdict counter (first_accepted lib h.key token 20 counter)
        (first_accepted-FirstOf 20 counter))

module _ (lib : OtpLibrary) (t : Totp) (token : Text) where
  -- Where the library's TOTP at a time is its HOTP at the number of whole 30-second steps, an ASCII
  -- token is accepted exactly if it fits the current step, the one before or the one after.
  pub totp_verify_window :
      (time : ℕ)
      → ((s : ℕ) → lib.totp_accepts t.key token s ≡ lib.hotp_accepts t.key token (s / 30))
      → time_step ≤ time
      → is_ascii token ≡ true
      → (totp_verify lib t token time ≡ ok tt) ↔ (
          (lib.hotp_accepts t.key token (time / 30 - 1) ≡ true)
          ⊎ (lib.hotp_accepts t.key token (time / 30) ≡ true)
          ⊎ (lib.hotp_accepts t.key token (time / 30 + 1) ≡ true))
  unfolding totp_verify
  totp_verify_window time steps late ascii =
      let p : (time - time_step) / 30 ≡ time / 30 - 1 = omega arith in
      let q : (time + time_step) / 30 ≡ time / 30 + 1 = omega arith in
      rw (ascii, steps, steps, steps, p, q) (ground arith)
