-- ===== src/Sources/Tests.antt =====
-- Creating and authenticating a source on a small database, and instances of the theorems.
use ab.Base.{
  ◌+◌, ◌*◌, ◌<◌, ◌≤◌, ◌≡◌, ◌⊎◌, refl, false, true, none, some, [], ◌∷◌, ◌++◌, any, ok, err,
}
use ab.Base.Text.{codes, text_eq, text_in}
use ab.Encoding.{b32encode}
use ab.Models.{Source}
use ab.Sources.{
  SourceSetup, SourceState, SourceUser, generate_journalist_designation, is_designated, one_or_none,
  find_designation, derive_source_gpg_secret, derive_source_filesystem_id, authenticate_source_user,
  new_source, commit_source, make_directory, store_source, create_source_user,
}
use ab.Sources.Create.{create_source_user-authenticate, create_source_user-others}
use ab.Sources.Session.{
  SourceSession, user_session_expired, user_not_logged_in, fetched, log_user_in, get_logged_in_user,
  get_logged_in_user-log_user_in,
}

-- A stand-in for the packages: scrypt puts the salt before the passphrase.
abbrev setup : SourceSetup
setup = record {
  scrypt = λ salt passphrase. salt ++ passphrase;
  generate_source_key_pair =
      λ secret id. record { public_key = id; secret_key = secret; fingerprint = [] };
  manager = record { salt_for_gpg_secret = 1 ∷ []; salt_for_filesystem_id = 2 ∷ [] };
  designations = record { nouns = codes "fox" ∷ []; adjectives = codes "red" ∷ codes "shy" ∷ [] };
}

abbrev no_sources : SourceState
no_sources = record {
  db = record {
    journalists = [];
    login_attempts = [];
    sources = [];
    submissions = [];
    replies = [];
    source_stars = [];
    seen_files = [];
    seen_messages = [];
    seen_replies = [];
    next_id = 1;
  };
  directories = [];
}

abbrev user : SourceUser
user = record { db_record_id = 1; filesystem_id = codes "AJQWE==="; gpg_secret = codes "AFQWE===" }

abbrev created : Source
created = record {
  id = 1;
  uuid = 7;
  filesystem_id = codes "AJQWE===";
  journalist_designation = codes "shy fox";
  last_updated = none;
  pending = true;
  interaction_count = 0;
  deleted_at = none;
  pgp_public_key = some (codes "AJQWE===");
  pgp_secret_key = some (codes "AFQWE===");
  pgp_fingerprint = some [];
}

abbrev one_source : SourceState
one_source = record {
  db = record no_sources.db { sources = created ∷ []; next_id = 2 };
  directories = codes "AJQWE===" ∷ [];
}

create_source_user-authenticate_example :
    (authenticate_source_user setup (codes "ab") one_source.db ≡ ok user)
    × ((source : Source) × (one_source.db.sources ≡ no_sources.db.sources ++ (source ∷ []))
        × (source.id ≡ user.db_record_id)
        × (any (is_designated source.journalist_designation) no_sources.db.sources ≡ false))
unfolding create_source_user find_designation one_or_none generate_journalist_designation
    store_source commit_source make_directory new_source derive_source_filesystem_id
    derive_source_gpg_secret b32encode text_in text_eq
create_source_user-authenticate_example =
    create_source_user-authenticate setup (λ n. (1, 0)) 7 (codes "ab") no_sources one_source user
      refl

create_source_user-others_example :
    authenticate_source_user setup
      (codes "cd")
      (create_source_user setup (λ n. (1, 0)) 7 (codes "ab") no_sources).1.db
    ≡ authenticate_source_user setup (codes "cd") no_sources.db
unfolding derive_source_filesystem_id b32encode text_eq
create_source_user-others_example =
    create_source_user-others setup (λ n. (1, 0)) 7 (codes "ab") (codes "cd") no_sources refl

abbrev empty_session : SourceSession
empty_session = record { codename = none; expires = none }

abbrev full_session : SourceSession
full_session = record { codename = some (codes "ab"); expires = some 7300 }

get_logged_in_user-log_user_in_example :
    ((9000 < 100 + 120 * 60)
      × (get_logged_in_user setup 120 9000 no_sources.db full_session
          ≡ fetched setup 120
              (authenticate_source_user setup (codes "ab") no_sources.db)
              full_session))
    ⊎ ((100 + 120 * 60 ≤ 9000)
        × (get_logged_in_user setup 120 9000 no_sources.db full_session
            ≡ (err user_session_expired, empty_session))
        × (get_logged_in_user setup 120 9000 no_sources.db
              (get_logged_in_user setup 120 9000 no_sources.db full_session).1
            ≡ (err user_not_logged_in, empty_session)))
unfolding log_user_in authenticate_source_user derive_source_filesystem_id derive_source_gpg_secret
    b32encode text_eq
get_logged_in_user-log_user_in_example =
    get_logged_in_user-log_user_in setup 120 100 9000 (codes "ab") one_source.db no_sources.db
      empty_session full_session user refl
