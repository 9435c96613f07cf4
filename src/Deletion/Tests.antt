-- ===== src/Deletion/Tests.antt =====
-- Deleting a journalist on a small database, and an instance of the theorem.
use ab.Base.{◌≡◌, ◌⊎◌, refl, some, none, false, true, [], ◌∷◌, arith, ok, err}
use ab.Base.Text.{codes, text_eq}
use ab.Errors.{Error}
use ab.Models.{Journalist, Db}
use ab.Accounts.{Hasher}
use ab.Accounts.Login.{find_journalist}
use ab.Deletion.{
  deleted_username, is_deleted_user, Drawn, system_account, find_by_id, has_seen, delete,
  delete_user,
}
use ab.Deletion.Delete.{Gone, delete_hands_over}

abbrev plain_hasher : Hasher
plain_hasher = record {
  hash = λ salt p. p;
  verify = text_eq;
  check_needs_rehash = λ h. false;
  scrypt = λ p salt. p;
}

abbrev drawn : Drawn
drawn = record { uuid = 9; passphrase = codes "a"; default_secret = []; salt = 0 }

abbrev account : Journalist
account = record {
  id = 2;
  uuid = 12;
  username = codes "bob";
  first_name = none;
  last_name = none;
  pw_salt = none;
  pw_hash = none;
  is_admin = false;
  otp_secret = [];
  is_totp = true;
  hotp_counter = 0;
  last_token = none;
  last_access = none;
  passphrase_hash = none;
}

abbrev deleted_account : Journalist
deleted_account = record account { id = 1; uuid = 11; username = deleted_username }

-- Both have seen file 5; only bob has seen file 6.
abbrev two_accounts : Db
two_accounts = record {
  journalists = deleted_account ∷ account ∷ [];
  login_attempts = record { timestamp = 3; journalist_id = 2 } ∷ [];
  sources = [];
  submissions = [];
  replies = [];
  source_stars = [];
  seen_files =
      record { item_id = 5; journalist_id = 1 }
      ∷ record { item_id = 5; journalist_id = 2 }
      ∷ record { item_id = 6; journalist_id = 2 }
      ∷ [];
  seen_messages = [];
  seen_replies = [];
  next_id = 7;
}

delete_hands_over_example :
    ((e : Error) × (delete plain_hasher drawn account two_accounts ≡ (err e, two_accounts)))
    ⊎ ((d : Journalist) × (after : Db) × (delete plain_hasher drawn account two_accounts
          ≡ (ok tt, after))
        × (find_journalist deleted_username after.journalists ≡ some d)
        × Gone 2 d.id two_accounts after)
unfolding is_deleted_user has_seen text_eq
delete_hands_over_example = delete_hands_over plain_hasher drawn account two_accounts (record {
  below = omega arith;
  not_deleted = (refl, (refl, tt));
  unique_files = (refl, (refl, (refl, tt)));
  unique_messages = tt;
  unique_replies = tt;
})

delete_user_system_account :
    delete_user plain_hasher drawn 2 1 two_accounts ≡ (ok system_account, two_accounts)
unfolding delete_user is_deleted_user text_eq find_by_id
delete_user_system_account = refl
