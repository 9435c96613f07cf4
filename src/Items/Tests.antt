-- ===== src/Items/Tests.antt =====
-- Marking and deleting items on a small database, and instances of the theorems.
use ab.Base.{◌≡◌, refl, true, false, none, some, List, [], ◌∷◌, err, All}
use ab.Base.Text.{Text, codes, text_eq}
use ab.Models.{Source, Submission, Reply, Db}
use ab.Store.{Item, submission, reply}
use ab.Items.{Web, exists, mark_seen, make_star_false, not_found, get_source}
use ab.Items.MarkSeen.{is_marked, SeenOnce, mark_seen_lem}
use ab.Items.Collections.{purge_deleted_sources}
use ab.Items.Purge.{has_files, marked_sources, purge_deleted_sources_lem}

abbrev message : Submission
message = record {
  id = 3;
  uuid = 13;
  source_id = 1;
  filename = codes "1-fox-msg.gpg";
  size = 9;
  downloaded = false;
  checksum = none;
}

abbrev answer : Reply
answer = record {
  id = 3;
  uuid = 14;
  journalist_id = 1;
  source_id = 1;
  filename = codes "2-fox-reply.gpg";
  size = 9;
  checksum = none;
  deleted_by_source = false;
}

abbrev items : List Item
items = submission message ∷ reply answer ∷ submission message ∷ []

abbrev small : Db
small = record {
  journalists = [];
  login_attempts = [];
  sources = [];
  submissions = message ∷ [];
  replies = answer ∷ [];
  source_stars = [];
  seen_files = [];
  seen_messages = [];
  seen_replies = [];
  next_id = 4;
}

make_star_false_missing : make_star_false (codes "AAAA") small ≡ (err not_found, small)
unfolding make_star_false get_source
make_star_false_missing = refl

mark_seen_lem_example :
    All (λ i. is_marked 1 i (mark_seen 1 items small) ≡ true) items
    × SeenOnce (mark_seen 1 items small)
    × (mark_seen 1 items (mark_seen 1 items small) ≡ mark_seen 1 items small)
unfolding SeenOnce
mark_seen_lem_example = mark_seen_lem 1 items small (tt, tt, tt)

-- The reply's file is missing.
abbrev web : Web
web = record { db = small; files = (codes "AAAA", codes "1-fox-msg.gpg") ∷ []; shredder = [] }

abbrev marked : Source
marked = record {
  id = 1;
  uuid = 1;
  filesystem_id = codes "AAAA";
  journalist_designation = codes "red fox";
  last_updated = none;
  pending = false;
  interaction_count = 2;
  deleted_at = some 50;
  pgp_public_key = none;
  pgp_secret_key = none;
  pgp_fingerprint = none;
}

abbrev marked_web : Web
marked_web = record web { db = record small { sources = marked ∷ [] } }

purge_deleted_sources_lem_example :
    All
      (λ s. has_files s.filesystem_id (purge_deleted_sources (λ k. true) marked_web) ≡ false)
      (marked_sources marked_web.db)
    × (exists
          (codes "BBBB", codes "1-owl-msg.gpg")
          (purge_deleted_sources (λ k. true) marked_web).files
        ≡ exists (codes "BBBB", codes "1-owl-msg.gpg") marked_web.files)
unfolding text_eq
purge_deleted_sources_lem_example =
    purge_deleted_sources_lem (λ k. true) marked_web (codes "BBBB", codes "1-owl-msg.gpg")
      (refl, tt)
