-- ===== src/Signup/Login.antt =====
-- How a source comes back (securedrop/source_app/main.py, `login`; source_app/forms.py, LoginForm; encryption.py,
-- `get_source_secret_key_from_gpg`; models.py, `Source.fingerprint`). What GnuPG and redwood answer enters as a
-- parameter; that a key is deleted from the keyring of GnuPG once it is in the database is not modelled.
use ab.Base.{
  ℕ, Bool, not, ◌&&◌, ◌||◌, Option, none, some, find, map, all, length, leb, ◌==◌, if◌then◌else◌,
  Result, ok, err,
}
use ab.Base.Text.{Text, text_eq, is_empty, is_space}
use ab.Models.{Source, Db}
use ab.Submit.{strip}
use ab.Passphrases.{max_passphrase_length}
use ab.Sources.{SourceError, invalid_passphrase, SourceSetup, SourceUser}
use ab.Sources.Session.{SourceSession, log_user_in}
use ab.Signup.{Cookie}

-- One character of Regexp(r"[\sA-Za-z0-9-]+$")
unfoldable pub is_codename_char : ℕ → Bool
is_codename_char c =
    is_space c
    || (leb b'A' c && leb c b'Z')
    || (leb b'a' c && leb c b'z')
    || (leb b'0' c && leb c b'9')
    || (c == b'-')

unfoldable pub valid_codename_field : Text → Bool
valid_codename_field s =
    not (is_empty s) && leb (length s) max_passphrase_length && all is_codename_char s

-- What GnuPG knows: the fingerprint of the key of a file system id, and the secret key that it exports for a fingerprint
-- and a passphrase; and redwood's check of such a key, which gives its fingerprint.
pub record GpgKeys : Type 0 where
  pub get_source_key_fingerprint : Text → Option Text
  pub export_keys : Text → Text → Text
  pub is_valid_secret_key : Text → Text → Option Text

abbrev pub first_or : Option Text → Option Text → Option Text
first_or (some fingerprint) other = some fingerprint
first_or none other = other

pub data LoginResponse : Type 0 where
  login_page : LoginResponse
  unknown_codename : LoginResponse
  redirect_from_login : LoginResponse
  attribute_error : LoginResponse
  login_failed : SourceError → LoginResponse

abbrev pub verified_key : Text → Text → Option Text → Option Text
verified_key fingerprint secret_key none = none
verified_key fingerprint secret_key (some actual_fingerprint) =
    if text_eq fingerprint actual_fingerprint then some secret_key else none

-- filter_by(id=...)
abbrev pub has_source_id : ℕ → Source → Bool
has_source_id id s = s.id == id

abbrev pub change_source : ℕ → (Source → Source) → Db → Db
change_source id f db = record db {
  sources = map (λ s. if has_source_id id s then f s else s) db.sources;
}

module _ (setup : SourceSetup) (keys : GpgKeys) where
  -- `none` where GpgKeyNotFoundError is raised.
  unfoldable pub get_source_secret_key_from_gpg : Text → Text → Option Text
  get_source_secret_key_from_gpg fingerprint passphrase =
      let secret_key = keys.export_keys fingerprint passphrase in
      if is_empty secret_key
      then none
      else verified_key fingerprint secret_key (keys.is_valid_secret_key secret_key passphrase)

  -- Source.fingerprint
  unfoldable pub fingerprint_of : Source → Option Text
  fingerprint_of s = first_or s.pgp_fingerprint (keys.get_source_key_fingerprint s.filesystem_id)

  -- A key pair for a source that has none.
  unfoldable pub with_new_keys : SourceUser → Source → Source
  with_new_keys user s =
      let pair = setup.generate_source_key_pair user.gpg_secret user.filesystem_id in
      record s {
        pgp_public_key = some pair.public_key;
        pgp_secret_key = some pair.secret_key;
        pgp_fingerprint = some pair.fingerprint;
      }

  abbrev pub with_secret_key : Option Text → Source → Source
  with_secret_key none s = s
  with_secret_key (some secret_key) s =
      if is_empty secret_key then s else record s { pgp_secret_key = some secret_key }

  abbrev pub migrated_from : SourceUser → Option Text → Option Text → Source → Source
  migrated_from user none secret s = with_new_keys user s
  migrated_from user (some fingerprint) (some secret) s = s
  migrated_from user (some fingerprint) none s =
      with_secret_key (get_source_secret_key_from_gpg fingerprint user.gpg_secret) s

  -- What a login makes of the keys of the row.
  unfoldable pub migrated : SourceUser → Source → Source
  migrated user s = migrated_from user (fingerprint_of s) s.pgp_secret_key s

  abbrev pub migrate : SourceUser → Option Source → Cookie → Db → LoginResponse × Cookie × Db
  migrate user none cookie db = (attribute_error, cookie, db)
  migrate user (some s) cookie db =
      (redirect_from_login, cookie, change_source user.db_record_id (migrated user) db)

  abbrev pub after_attempt :
      Cookie → Db → Result SourceError SourceUser × SourceSession → LoginResponse × Cookie × Db
  after_attempt cookie db (err invalid_passphrase, session) =
      (unknown_codename, record cookie { source_session = session }, db)
  after_attempt cookie db (err e, session) =
      (login_failed e, record cookie { source_session = session }, db)
  after_attempt cookie db (ok user, session) =
      migrate user (find (has_source_id user.db_record_id) db.sources)
        (record cookie { source_session = session }) db

  -- The field of the form; a form without it is not valid.
  unfoldable pub login : ℕ → ℕ → Option Text → Cookie → Db → LoginResponse × Cookie × Db
  login session_expiration_minutes now none cookie db = (login_page, cookie, db)
  login session_expiration_minutes now (some codename) cookie db =
      if valid_codename_field codename
      then after_attempt cookie db (
          log_user_in setup session_expiration_minutes now (strip codename) db
            cookie.source_session)
      else (login_page, cookie, db)
