-- ===== src/TwoFactor/Tests.antt =====
-- Runs of the one-time password code on small inputs, and instances of its theorems.
use ab.Base.{◌/◌, ◌≡◌, ◌↔◌, ◌⊎◌, refl, true, [], ◌∷◌, arith, ok, err}
use ab.Base.Text.{codes, text_eq}
use ab.Errors.{otp_secret_invalid}
use ab.TwoFactor.{
  OtpLibrary, Hotp, Totp, new_hotp, hotp_verify, totp_verify, format_secret, is_ascii,
  first_accepted,
}
use ab.TwoFactor.Window.{IsVerdict, hotp_verify_first, totp_verify_window}

-- A stand-in for the packages: the token at a counter is the counter's last digit, thrice.
abbrev toy : OtpLibrary
toy = record {
  hotp_accepts = λ key token n. text_eq token (n ∷ n ∷ n ∷ []);
  totp_accepts = λ key token time. text_eq token (time / 30 ∷ time / 30 ∷ time / 30 ∷ []);
}

abbrev toy_hotp : Hotp
toy_hotp = record { key = [] }

hotp_verify_ahead : hotp_verify toy toy_hotp (9 ∷ 9 ∷ 9 ∷ []) 5 ≡ ok 9
unfolding hotp_verify first_accepted text_eq
hotp_verify_ahead = refl

short_secret : new_hotp (codes "JBSWY3DP") ≡ err otp_secret_invalid
unfolding new_hotp
short_secret = refl

format_secret_test : format_secret (codes "JBSWY3DPEHPK3PXP4") ≡ codes "jbsw y3dp ehpk 3pxp 4"
unfolding format_secret
format_secret_test = refl

hotp_verify_first_example :
    IsVerdict toy toy_hotp (9 ∷ 9 ∷ 9 ∷ []) 5 (hotp_verify toy toy_hotp (9 ∷ 9 ∷ 9 ∷ []) 5)
unfolding is_ascii
hotp_verify_first_example = hotp_verify_first toy toy_hotp (9 ∷ 9 ∷ 9 ∷ []) 5 refl

abbrev toy_totp : Totp
toy_totp = record { key = [] }

totp_verify_window_example : (totp_verify toy toy_totp (3 ∷ 3 ∷ 3 ∷ []) 121 ≡ ok tt) ↔ (
    (text_eq (3 ∷ 3 ∷ 3 ∷ []) (3 ∷ 3 ∷ 3 ∷ []) ≡ true)
    ⊎ (text_eq (3 ∷ 3 ∷ 3 ∷ []) (4 ∷ 4 ∷ 4 ∷ []) ≡ true)
    ⊎ (text_eq (3 ∷ 3 ∷ 3 ∷ []) (5 ∷ 5 ∷ 5 ∷ []) ≡ true))
unfolding is_ascii
totp_verify_window_example =
    totp_verify_window toy toy_totp (3 ∷ 3 ∷ 3 ∷ []) 121 (λ s. refl) (omega arith) refl
