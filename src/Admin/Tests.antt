-- ===== src/Admin/Tests.antt =====
-- Runs of the administration of accounts on a small table, and instances of the theorems.
use ab.Base.{ℕ, ◌+◌, ◌≡◌, refl, true, false, none, some, [], ◌∷◌, arith}
use ab.Base.Text.{Text, codes, text_eq}
use ab.Models.{Journalist, Db}
use ab.TwoFactor.{OtpLibrary}
use ab.Accounts.{Hasher}
use ab.Deletion.{Drawn, find_by_id}
use ab.Sessions.{new_interface}
use ab.Admin.{AdminState, new_key, NewUserForm, add_user}
use ab.Admin.EditUser.{EditUserForm, edit_user}
use ab.Admin.Usernames.{IsTable}
use ab.Admin.Table.{add_user-IsTable, edit_user-IsTable}
use ab.Admin.TwoFactor as Admin
use ab.Account
use ab.Account.Same.{reset_two_factor_hotp-admin}

abbrev toy : Hasher
toy = record {
  hash = λ salt p. b'x' ∷ p;
  verify = λ h p. text_eq h (b'x' ∷ p);
  check_needs_rehash = λ h. false;
  scrypt = λ p salt. p;
}

abbrev seven_words : Text
seven_words = codes "correct horse battery staple more words here"

abbrev row : ℕ → Text → Text → Journalist
row id name hash = record {
  id = id;
  uuid = id + 10;
  username = name;
  first_name = some [];
  last_name = some [];
  pw_salt = none;
  pw_hash = none;
  is_admin = false;
  otp_secret = codes "JBSWY3DPEHPK3PXPJBSWY3DPEHPK3PXP";
  is_totp = true;
  hotp_counter = 0;
  last_token = none;
  last_access = none;
  passphrase_hash = some hash;
}

abbrev alice : Journalist
alice = row 1 (codes "alice") (codes "old")

abbrev db : Db
db = record {
  journalists = alice ∷ [];
  login_attempts = [];
  sources = [];
  submissions = [];
  replies = [];
  source_stars = [];
  seen_files = [];
  seen_messages = [];
  seen_replies = [];
  next_id = 2;
}

-- A passphrase is pending for a new account and for the first one.
abbrev state : AdminState
state = record {
  db = db;
  pending = (new_key, b'x' ∷ seven_words) ∷ (codes "pending_password_1", b'x' ∷ seven_words) ∷ [];
  sessions = new_interface 7200 5 [] (codes "session:") (codes "session");
}

abbrev drawn : Drawn
drawn = record {
  uuid = 12;
  passphrase = [];
  default_secret = codes "JBSWY3DPEHPK3PXPJBSWY3DPEHPK3PXP";
  salt = 5;
}

abbrev form : NewUserForm
form = record {
  username = codes "carol";
  first_name = [];
  last_name = [];
  password = seven_words;
  is_admin = none;
  is_hotp = none;
  otp_secret = [];
}

abbrev carol : Journalist
carol = record (row 2 (codes "carol") (b'x' ∷ seven_words)) { first_name = none; last_name = none }

db-IsTable : IsTable db
db-IsTable = record { names = (tt, tt); keys = (tt, tt); given = (omega arith, tt) }

add_user-IsTable_example : IsTable (add_user toy drawn 9 (codes "shown") form state).1.db
add_user-IsTable_example = add_user-IsTable toy drawn form 9 (codes "shown") state db-IsTable

abbrev edit_form : EditUserForm
edit_form = record {
  username = some (codes "alicia");
  first_name = codes "A";
  last_name = [];
  is_admin = some (codes "y");
}

alice_found : find_by_id 1 db.journalists ≡ some alice
unfolding find_by_id
alice_found = refl

edit_user-IsTable_example : IsTable (edit_user toy 3 (codes "shown") alice edit_form state).1.db
edit_user-IsTable_example =
    edit_user-IsTable toy 3 (codes "shown") alice edit_form state alice_found db-IsTable

abbrev alice' : Journalist
alice' = record alice { passphrase_hash = some (b'x' ∷ seven_words) }

abbrev renewed_state : AdminState
renewed_state = record state { db = record db { journalists = alice' ∷ [] } }

abbrev toy_otp : OtpLibrary
toy_otp = record {
  hotp_accepts = λ key token n. text_eq token (n ∷ []);
  totp_accepts = λ key token time. text_eq token (time ∷ []);
}

reset_two_factor_hotp-admin_example :
    Account.reset_two_factor_hotp alice (some (codes "00112233445566778899AABBCCDDEEFF00112233")) db
    ≡ Admin.reset_two_factor_hotp 1 (some (codes "00112233445566778899AABBCCDDEEFF00112233")) db
reset_two_factor_hotp-admin_example =
    reset_two_factor_hotp-admin alice (some (codes "00112233445566778899AABBCCDDEEFF00112233")) db
      alice_found
