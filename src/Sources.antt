-- ===== src/Sources.antt =====
-- Sources (securedrop/source_user.py): the designations under which journalists know them, creating and
-- authenticating them by their passphrase. scrypt and the keys that redwood generates enter as
-- parameters, and so do the random choices.
pub mod Create
pub mod Session
mod Tests
use ab.Base.{
  ℕ, zero, suc, ◌+◌, ◌%◌, Bool, true, false, not, ◌&&◌, Option, none, some, List, [], ◌∷◌, ◌++◌,
  any, select, find, length, ltb, ◌==◌, if◌then◌else◌, Result, ok, err, Exec, pure, lift, gets,
  raise, raise_if, modify, ◌>>=◌, ◌>>◌,
}
use ab.Base.Text.{Text, text_eq, text_in, is_empty}
use ab.Encoding.{b32encode}
use ab.Models.{Source, Db}
use ab.Passphrases.{nth_word}
use ab.Accounts.{bytes_eq}

pub data SourceError : Type 0 where
  invalid_passphrase : SourceError
  designation_collision : SourceError
  passphrase_collision : SourceError
  -- `MultipleResultsFound`, `FileExistsError` and `ValueError`.
  multiple_results : SourceError
  file_exists : SourceError
  value_error : SourceError

-- `Scrypt(...).derive` of the cryptography package, for a salt and a passphrase, and the two salts.
pub record ScryptManager : Type 0 where
  pub salt_for_gpg_secret : List ℕ
  pub salt_for_filesystem_id : List ℕ

unfoldable pub new_scrypt_manager : List ℕ → List ℕ → Result SourceError ScryptManager
new_scrypt_manager salt_for_gpg_secret salt_for_filesystem_id =
    if bytes_eq salt_for_gpg_secret salt_for_filesystem_id
    then err value_error
    else ok (record {
      salt_for_gpg_secret = salt_for_gpg_secret;
      salt_for_filesystem_id = salt_for_filesystem_id;
    })

-- The designation words: neither list is empty, nor is a word.
pub record DesignationGenerator : Type 0 where
  pub nouns : List Text
  pub adjectives : List Text

unfoldable pub acceptable_words : List Text → Bool
acceptable_words [] = false
acceptable_words (w ∷ ws) = not (any is_empty (w ∷ ws))

unfoldable pub new_designation_generator :
    List Text → List Text → Result SourceError DesignationGenerator
new_designation_generator nouns adjectives =
    if acceptable_words nouns && acceptable_words adjectives
    then ok (record { nouns = nouns; adjectives = adjectives })
    else err value_error

-- The two numbers drawn for a designation.
unfoldable pub generate_journalist_designation : DesignationGenerator → ℕ × ℕ → Text
generate_journalist_designation g draw =
    nth_word g.adjectives (draw.0 % length g.adjectives)
    ++ (b' ' ∷ nth_word g.nouns (draw.1 % length g.nouns))

-- The keys: public, secret and fingerprint.
pub record KeyPair : Type 0 where
  pub public_key : Text
  pub secret_key : Text
  pub fingerprint : Text

-- What the packages do, and the objects made at the start.
pub record SourceSetup : Type 0 where
  pub scrypt : List ℕ → Text → List ℕ
  pub generate_source_key_pair : Text → Text → KeyPair
  pub manager : ScryptManager
  pub designations : DesignationGenerator

-- The database, and the directories of the store by the file system ids that they are named after.
pub record SourceState : Type 0 where
  pub db : Db
  pub directories : List Text

pub record SourceUser : Type 0 where
  pub db_record_id : ℕ
  pub filesystem_id : Text
  pub gpg_secret : Text

-- filter_by(journalist_designation=...) and filter_by(filesystem_id=...)
abbrev pub is_designated : Text → Source → Bool
is_designated designation s = text_eq s.journalist_designation designation

abbrev pub has_filesystem_id : Text → Source → Bool
has_filesystem_id filesystem_id s = text_eq s.filesystem_id filesystem_id

abbrev pub is_kept : Option ℕ → Bool
is_kept none = true
is_kept (some t) = false

-- What `one_or_none` makes of the rows that a query finds.
unfoldable pub one_or_none : List Source → Result SourceError (Option Source)
one_or_none [] = ok none
one_or_none (s ∷ []) = ok (some s)
one_or_none (s ∷ t ∷ ss) = err multiple_results

-- The outcome of one round of the loop, given that of the rounds left.
abbrev pub next_round :
    Text → Result SourceError (Option Source) → Result SourceError Text → Result SourceError Text
next_round designation (err e) rest = err e
next_round designation (ok none) rest = ok designation
next_round designation (ok (some s)) rest = rest

-- The loop of at most so many attempts, the last of which draws `draw 0`.
unfoldable pub find_designation :
    DesignationGenerator → (ℕ → ℕ × ℕ) → ℕ → List Source → Result SourceError Text
find_designation g draw zero sources = err designation_collision
find_designation g draw (suc attempts) sources =
    let designation = generate_journalist_designation g (draw attempts) in
    next_round designation (one_or_none (select (is_designated designation) sources))
      (find_designation g draw attempts sources)

abbrev pub designation_attempts : ℕ
designation_attempts = 50

abbrev pub add_source : Source → SourceState → SourceState
add_source source state = record state {
  db = record state.db {
    sources = state.db.sources ++ (source ∷ []);
    next_id = state.db.next_id + 1;
  };
}

module _ (setup : SourceSetup) where
  unfoldable pub derive_source_gpg_secret : Text → Text
  derive_source_gpg_secret passphrase =
      b32encode (setup.scrypt setup.manager.salt_for_gpg_secret passphrase)

  unfoldable pub derive_source_filesystem_id : Text → Text
  derive_source_filesystem_id passphrase =
      b32encode (setup.scrypt setup.manager.salt_for_filesystem_id passphrase)

  abbrev pub authenticated : Text → Option Source → Result SourceError SourceUser
  authenticated passphrase none = err invalid_passphrase
  authenticated passphrase (some s) = ok (record {
    db_record_id = s.id;
    filesystem_id = derive_source_filesystem_id passphrase;
    gpg_secret = derive_source_gpg_secret passphrase;
  })

  -- File system ids are unique, so that at most one row is found.
  unfoldable pub authenticate_source_user : Text → Db → Result SourceError SourceUser
  authenticate_source_user passphrase db = authenticated passphrase (
      find
        (λ s. has_filesystem_id (derive_source_filesystem_id passphrase) s && is_kept s.deleted_at)
        db.sources)

  -- The row of a new source; `draw` gives its uuid.
  unfoldable pub new_source : ℕ → ℕ → Text → Text → Source
  new_source id uuid passphrase designation =
      let filesystem_id = derive_source_filesystem_id passphrase in
      let keys =
        setup.generate_source_key_pair (derive_source_gpg_secret passphrase) filesystem_id in
      record {
        id = id;
        uuid = uuid;
        filesystem_id = filesystem_id;
        journalist_designation = designation;
        last_updated = none;
        pending = true;
        interaction_count = 0;
        deleted_at = none;
        pgp_public_key = some keys.public_key;
        pgp_secret_key = some keys.secret_key;
        pgp_fingerprint = some keys.fingerprint;
      }

  -- The commit fails on a file system id that is there, and is rolled back.
  unfoldable pub commit_source : Source → Exec SourceError SourceState (Unit {0})
  commit_source source state =
      if any (has_filesystem_id source.filesystem_id) state.db.sources
      then (err passphrase_collision, state)
      else (ok tt, add_source source state)

  -- os.mkdir
  unfoldable pub make_directory : Text → Exec SourceError SourceState (Unit {0})
  make_directory filesystem_id state =
      if text_in filesystem_id state.directories
      then (err file_exists, state)
      else (ok tt, record state { directories = filesystem_id ∷ state.directories })

  abbrev pub make_home : Text → Source → Exec SourceError SourceState SourceUser
  make_home passphrase source = do
    make_directory source.filesystem_id
    pure (record {
      db_record_id = source.id;
      filesystem_id = source.filesystem_id;
      gpg_secret = derive_source_gpg_secret passphrase;
    })

  unfoldable pub store_source : Text → Source → Exec SourceError SourceState SourceUser
  store_source passphrase source = do commit_source source; make_home passphrase source

  abbrev pub store_designated : ℕ → Text → Text → Exec SourceError SourceState SourceUser
  store_designated uuid passphrase designation = do
    id ← gets (λ state. state.db.next_id)
    store_source passphrase (new_source id uuid passphrase designation)

  unfoldable pub create_source_user :
      (ℕ → ℕ × ℕ) → ℕ → Text → Exec SourceError SourceState SourceUser
  create_source_user draw uuid passphrase = do
    sources ← gets (λ state. state.db.sources)
    designation ← lift (find_designation setup.designations draw designation_attempts sources)
    store_designated uuid passphrase designation
