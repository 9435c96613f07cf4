-- ===== src/Accounts/Tests.antt =====
-- Runs of signing in and of account changes on a small database, and instances of the theorems.
use ab.Base.{
  ℕ, ◌/◌, ◌≤◌, ◌≡◌, ◌↔◌, refl, true, false, none, some, List, [], ◌∷◌, ◌++◌, length, arith, ok, err,
}
use ab.Base.Text.{Text, codes, text_eq, text_eq_refl, text_in, is_space, despace, count_words}
use ab.Encoding.{
  b32encode, b32decode, unhexlify, hex_value, strip_padding, upper_char, decode_digits, values,
  base32_value, decode_values,
}
use ab.Errors.{invalid_password_length}
use ab.Models.{Journalist, Db}
use ab.TwoFactor.{OtpLibrary, is_ascii, new_totp, totp_verify, any_accepted}
use ab.Accounts.{
  Hasher, check_password_acceptable, without_blanks, set_password, valid_password, set_hotp_secret,
  hotp, totp, verify_sanitized, verify_2fa_token, set_missing_hash, check_stored,
}
use ab.Accounts.Password.{check_password_acceptable_iff, set_password_valid}
use ab.Accounts.Secrets.{validate_hotp_secret, validate_hotp_secret_usable}
use ab.Accounts.Login.{find_journalist, recent_attempts, LoginRequest, login}
use ab.Accounts.Login.Rate.{guesses, guesses-le_five}
use ab.Accounts.SignIn.{failed, validate_user, get_token, failure_note, get_token_long_passphrase}

-- A stand-in for the packages: a TOTP token is the number of the time step, and a hash is the
-- passphrase with a mark before it.
abbrev toy_otp : OtpLibrary
toy_otp = record {
  hotp_accepts = λ key token n. text_eq token (n ∷ []);
  totp_accepts = λ key token time. text_eq token ((time / 30) ∷ []);
}

abbrev toy_hasher : Hasher
toy_hasher = record {
  hash = λ salt p. b'x' ∷ p;
  verify = λ h p. text_eq h (b'x' ∷ p);
  check_needs_rehash = λ h. false;
  scrypt = λ p salt. p;
}

abbrev seven_words : Text
seven_words = codes "correct horse battery staple more words here"

abbrev alice : Journalist
alice = record {
  id = 1;
  uuid = 11;
  username = codes "alice";
  first_name = none;
  last_name = none;
  pw_salt = none;
  pw_hash = none;
  is_admin = false;
  otp_secret = codes "JBSWY3DPEHPK3PXP";
  is_totp = true;
  hotp_counter = 0;
  last_token = none;
  last_access = none;
  passphrase_hash = some (b'x' ∷ seven_words);
}

abbrev small_db : Db
small_db = record {
  journalists = alice ∷ [];
  login_attempts = [];
  sources = [];
  submissions = [];
  replies = [];
  source_stars = [];
  seen_files = [];
  seen_messages = [];
  seen_replies = [];
  next_id = 2;
}

-- At 3600 seconds the token is 120, the letter x.
abbrev good_request : LoginRequest
good_request = record {
  username = codes "alice";
  password = some seven_words;
  token = some (codes "x");
  now = 3600;
  salt = 0;
}

check_password_acceptable_iff_example :
    (check_password_acceptable seven_words ≡ ok tt)
    ↔ ((14 ≤ length seven_words) × (length seven_words ≤ 128) × (7 ≤ count_words false seven_words))
check_password_acceptable_iff_example = check_password_acceptable_iff seven_words

set_password_valid_example :
    (u : Journalist) × (valid_password toy_hasher 5
        (record alice { passphrase_hash = some (b'x' ∷ seven_words ++ codes " too") })
        (some (seven_words ++ codes " too"))
      ≡ ok (true, u))
unfolding set_password check_password_acceptable count_words set_missing_hash check_stored
    valid_password text_eq
set_password_valid_example =
    set_password_valid toy_hasher (λ salt p. text_eq_refl (b'x' ∷ p)) (λ salt p. refl) 0 5 alice
      (record alice { passphrase_hash = some (b'x' ∷ seven_words ++ codes " too") })
      (seven_words ++ codes " too") refl

-- An account from before argon2.
abbrev legacy : Journalist
legacy = record alice {
  passphrase_hash = none;
  pw_salt = some (1 ∷ []);
  pw_hash = some (codes "old passphrase");
}

guesses-le_five_example :
    guesses toy_otp toy_hasher
      (good_request ∷ record good_request { now = 3610 } ∷ record good_request { now = 3605 } ∷ [])
      small_db
    ≤ 5
unfolding find_journalist text_in text_eq
guesses-le_five_example =
    guesses-le_five toy_otp toy_hasher 3600 (codes "alice")
      (good_request ∷ record good_request { now = 3610 } ∷ record good_request { now = 3605 } ∷ [])
      alice small_db
      (
        (refl, omega arith, omega arith),
        ((refl, omega arith, omega arith), ((refl, omega arith, omega arith), tt)),
      )
      refl refl

-- The same token again, with a blank in it.
abbrev replayed : LoginRequest
replayed = record good_request { token = some (codes " x"); now = 3601 }

abbrev long_passphrase : Text
long_passphrase =
    codes "0123456789012345678901234567890123456789012345678901234567890123456789"
    ++ codes "0123456789012345678901234567890123456789012345678901234567890123456789"

get_token_long_passphrase_example :
    ((get_token toy_otp toy_hasher 3600 0
        (record {
          username = some (codes "alice");
          passphrase = some long_passphrase;
          one_time_code = some (codes "x");
        })
        small_db).0
      ≡ err invalid_password_length)
    × ((validate_user toy_otp toy_hasher none
          (record good_request { password = some long_passphrase })
          small_db).0
        ≡ ok (
            failed (record {
              error_message = none;
              note =
                  failure_note invalid_password_length
                    (codes "alice")
                    (login toy_otp toy_hasher
                      (record good_request { password = some long_passphrase })
                      small_db).1;
            })))
unfolding find_journalist text_in text_eq recent_attempts verify_2fa_token despace is_space
    verify_sanitized totp new_totp totp_verify is_ascii any_accepted b32decode strip_padding
    upper_char decode_digits values base32_value decode_values
get_token_long_passphrase_example =
    get_token_long_passphrase toy_otp toy_hasher 3600 0 (codes "alice") long_passphrase (codes "x")
      none alice alice (codes "x") small_db refl refl (omega arith) refl (omega arith)

abbrev hex_secret : Text
hex_secret = codes "0011 2233 4455 6677 8899 aabb ccdd eeff 0011 2233"

abbrev hotp_alice : Journalist
hotp_alice = record alice { otp_secret = codes "AAISEM2EKVTHPCEZVK54ZXPO74ABCIRT"; is_totp = false }

validate_hotp_secret_usable_example :
    (bytes : List ℕ) × (unhexlify (without_blanks hex_secret) ≡ some bytes)
    × (length bytes ≡ 20)
    × (hotp hotp_alice ≡ ok (record { key = bytes }))
    × (hotp_alice.hotp_counter ≡ 0)
unfolding validate_hotp_secret set_hotp_secret without_blanks is_ascii unhexlify b32encode hex_value
validate_hotp_secret_usable_example = validate_hotp_secret_usable alice hotp_alice hex_secret refl
