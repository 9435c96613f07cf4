-- ===== src/Models.antt =====
-- The tables of the database (securedrop/models.py), one record for a row and a list for a table.
-- Rows refer to one another by their `id`; a `uuid` is only compared, and stands as a number.
-- Times are seconds since the epoch. `url_for`, `repr` and the JSON forms are not modelled.
use ab.Base.{ℕ, Bool, Option, List}
use ab.Base.Text.{Text}

pub record Journalist : Type 0 where
  pub id : ℕ
  pub uuid : ℕ
  pub username : Text
  pub first_name : Option Text
  pub last_name : Option Text
  -- The columns of the legacy scrypt hash, in bytes.
  pub pw_salt : Option (List ℕ)
  pub pw_hash : Option (List ℕ)
  pub is_admin : Bool
  pub otp_secret : Text
  pub is_totp : Bool
  pub hotp_counter : ℕ
  pub last_token : Option Text
  pub last_access : Option ℕ
  pub passphrase_hash : Option Text

pub record JournalistLoginAttempt : Type 0 where
  pub timestamp : ℕ
  pub journalist_id : ℕ

pub record Source : Type 0 where
  pub id : ℕ
  pub uuid : ℕ
  pub filesystem_id : Text
  pub journalist_designation : Text
  pub last_updated : Option ℕ
  pub pending : Bool
  pub interaction_count : ℕ
  pub deleted_at : Option ℕ
  pub pgp_public_key : Option Text
  pub pgp_secret_key : Option Text
  pub pgp_fingerprint : Option Text

pub record Submission : Type 0 where
  pub id : ℕ
  pub uuid : ℕ
  pub source_id : ℕ
  pub filename : Text
  pub size : ℕ
  pub downloaded : Bool
  pub checksum : Option Text

pub record Reply : Type 0 where
  pub id : ℕ
  pub uuid : ℕ
  pub journalist_id : ℕ
  pub source_id : ℕ
  pub filename : Text
  pub size : ℕ
  pub checksum : Option Text
  pub deleted_by_source : Bool

pub record SourceStar : Type 0 where
  pub source_id : ℕ
  pub starred : Bool

-- A row of `seen_files`, `seen_messages` or `seen_replies`: the item and the journalist.
pub record Seen : Type 0 where
  pub item_id : ℕ
  pub journalist_id : ℕ

-- `next_id` is the next primary key that the database gives out.
pub record Db : Type 0 where
  pub journalists : List Journalist
  pub login_attempts : List JournalistLoginAttempt
  pub sources : List Source
  pub submissions : List Submission
  pub replies : List Reply
  pub source_stars : List SourceStar
  pub seen_files : List Seen
  pub seen_messages : List Seen
  pub seen_replies : List Seen
  pub next_id : ℕ
