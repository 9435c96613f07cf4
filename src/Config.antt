-- ===== src/Config.antt =====
-- The versioned configuration of the instance (securedrop/models.py, `InstanceConfig`;
-- securedrop/journalist_app/admin.py, `update_org_name`). The instance that `get_default` caches is not
-- modelled.
pub mod Rows
pub mod Versions
mod Tests
use ab.Base.{
  ℕ, ◌+◌, Bool, true, false, not, ◌&&◌, ◌||◌, Option, none, some, List, [], ◌∷◌, ◌++◌, map, any,
  select, length, ltb, ◌==◌, if◌then◌else◌, Result, ok, err, Exec, pure, lift, gets, modify, ◌>>=◌,
  ◌>>◌,
}
use ab.Base.Text.{Text, codes}

pub record ConfigRow : Type 0 where
  pub version : ℕ
  pub valid_until : ℕ
  pub allow_document_uploads : Bool
  pub organization_name : Option Text
  pub initial_message_min_len : ℕ
  pub reject_message_with_codename : Bool

pub data ConfigError : Type 0 where
  invalid_name_length : ConfigError
  integrity_error : ConfigError
  multiple_results : ConfigError

-- The table as the session of a request sees it, and as it was last committed.
pub record ConfigDb : Type 0 where
  pub rows : List ConfigRow
  pub committed : List ConfigRow
  pub next_version : ℕ

abbrev pub max_org_name_len : ℕ
max_org_name_len = 64

-- valid_until == datetime.fromtimestamp(0)
abbrev pub is_current : ConfigRow → Bool
is_current r = r.valid_until == 0

-- The constraint that no two rows are valid until the same time.
unfoldable pub distinct : List ConfigRow → Bool
distinct [] = true
distinct (r ∷ rows) = not (any (λ s. s.valid_until == r.valid_until) rows) && distinct rows

-- A commit that breaks the constraint is rolled back.
unfoldable pub commit : Exec ConfigError ConfigDb (Unit {0})
commit db =
    if distinct db.rows
    then (ok tt, record db { committed = db.rows })
    else (err integrity_error, record db { rows = db.committed })

-- What the end of a request makes of changes that were not committed.
abbrev pub end_request : ConfigDb → ConfigDb
end_request db = record db { rows = db.committed }

abbrev pub add_row : ConfigRow → ConfigDb → ConfigDb
add_row row db = record db { rows = db.rows ++ (row ∷ []); next_version = db.next_version + 1 }

-- The defaults of the columns.
abbrev pub default_row : ℕ → ConfigRow
default_row version = record {
  version = version;
  valid_until = 0;
  allow_document_uploads = true;
  organization_name = some (codes "SecureDrop");
  initial_message_min_len = 0;
  reject_message_with_codename = false;
}

unfoldable pub create_default : Exec ConfigError ConfigDb ConfigRow
create_default = do
  version ← gets (λ db. db.next_version)
  modify (add_row (default_row version))
  commit
  pure (default_row version)

-- `one()` on the rows that are current; the second query, after an `IntegrityError`, is that of a table
-- that another process has filled meanwhile.
abbrev pub one_current : List ConfigRow → Exec ConfigError ConfigDb ConfigRow
one_current [] = create_default
one_current (r ∷ []) = pure r
one_current (r ∷ s ∷ rows) = lift (err multiple_results)

unfoldable pub get_current : Exec ConfigError ConfigDb ConfigRow
get_current db = one_current (select is_current db.rows) db

unfoldable pub check_name_acceptable : Option Text → Result ConfigError Text
check_name_acceptable none = err invalid_name_length
check_name_acceptable (some name) =
    if (length name == 0) || ltb max_org_name_len (length name)
    then err invalid_name_length
    else ok name

-- old.valid_until = utcnow(), where `old` is the one row that is current
abbrev pub expire_row : ℕ → ConfigRow → ConfigRow
expire_row now r = if is_current r then record r { valid_until = now } else r

unfoldable pub expire : ℕ → List ConfigRow → List ConfigRow
expire now = map (expire_row now)

abbrev pub expire_current : ℕ → ConfigDb → ConfigDb
expire_current now db = record db { rows = expire now db.rows }

-- `copy` leaves out the version and the time; the new row gets the next version.
abbrev pub copy : ConfigRow → ℕ → ConfigRow
copy old version = record old { version = version; valid_until = 0 }

-- The last step of both changes: add the new row and commit.
unfoldable pub append_row :
    (ConfigRow → ConfigRow) → ConfigRow → Exec ConfigError ConfigDb (Unit {0})
append_row change old = do
  version ← gets (λ db. db.next_version)
  modify (add_row (change (copy old version)))
  commit

abbrev pub rename_to : Text → ConfigRow → ConfigRow
rename_to name r = record r { organization_name = some name }

-- What follows once the current row is known.
abbrev pub rename_from : ℕ → Option Text → ConfigRow → Exec ConfigError ConfigDb (Unit {0})
rename_from now name old = do
  modify (expire_current now)
  acceptable ← lift (check_name_acceptable name)
  append_row (rename_to acceptable) old

unfoldable pub set_organization_name : ℕ → Option Text → Exec ConfigError ConfigDb (Unit {0})
set_organization_name now name = get_current >>= rename_from now name

abbrev pub with_prefs : Bool → ℕ → Bool → ConfigRow → ConfigRow
with_prefs allow_uploads min_length reject_codenames r = record r {
  allow_document_uploads = allow_uploads;
  initial_message_min_len = min_length;
  reject_message_with_codename = reject_codenames;
}

unfoldable pub update_submission_prefs : ℕ → Bool → ℕ → Bool → Exec ConfigError ConfigDb (Unit {0})
update_submission_prefs now allow_uploads min_length reject_codenames = do
  old ← get_current
  modify (expire_current now)
  append_row (with_prefs allow_uploads min_length reject_codenames) old

pub data OrgNameResponse : Type 0 where
  preferences_saved : OrgNameResponse
  failed_to_update : OrgNameResponse

abbrev pub org_name_response : Result ConfigError (Unit {0}) → OrgNameResponse
org_name_response (ok _) = preferences_saved
org_name_response (err e) = failed_to_update

-- The handler catches every exception; what is not committed when it returns is lost.
unfoldable pub update_org_name : ℕ → Option Text → ConfigDb → OrgNameResponse × ConfigDb
update_org_name now name db =
    let (r, db') = set_organization_name now name db in (org_name_response r, end_request db')
