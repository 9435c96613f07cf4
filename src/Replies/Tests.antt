-- ===== src/Replies/Tests.antt =====
-- A reply to the one source of a small database, a reply that is not encrypted, and an instance of the theorem.
use ab.Base.{◌≡◌, refl, true, false, none, [], ◌∷◌, ◌++◌}
use ab.Base.Text.{Text, codes}
use ab.Models.{Source, Db}
use ab.Sessions.{starts_with}
use ab.Replies.{
  ReplyState, reply_body, must_encrypt, first_line, contains, is_encrypted, all_source_replies,
}

abbrev fox : Source
fox = record {
  id = 1;
  uuid = 7;
  filesystem_id = codes "AJQWE===";
  journalist_designation = codes "shy fox";
  last_updated = none;
  pending = false;
  interaction_count = 2;
  deleted_at = none;
  pgp_public_key = none;
  pgp_secret_key = none;
  pgp_fingerprint = none;
}

abbrev small_db : Db
small_db = record {
  journalists = [];
  login_attempts = [];
  sources = fox ∷ [];
  submissions = [];
  replies = [];
  source_stars = [];
  seen_files = [];
  seen_messages = [];
  seen_replies = [];
  next_id = 5;
}

abbrev state : ReplyState
state = record { db = small_db; directories = codes "AJQWE===" ∷ []; files = [] }

abbrev armored : Text
armored = codes "-----BEGIN PGP MESSAGE-----" ++ (10 ∷ codes "abc")

is_encrypted_test : is_encrypted armored ≡ true
unfolding is_encrypted contains first_line starts_with
is_encrypted_test = refl

plain_test :
    all_source_replies (λ u. true) 3 11 7 (reply_body (codes "hello") none) state
    ≡ (must_encrypt, state)
unfolding all_source_replies is_encrypted contains first_line starts_with
plain_test = refl
