-- ===== src/Items.antt =====
-- What journalists do with the items of sources (securedrop/journalist_app/utils.py): marking them as seen,
-- stars, deleting items and whole sources. The store is a list of the files in it, by the file system
-- id of the source and the file's name; names with a slash are not considered.
pub mod MarkSeen
pub mod Collections
pub mod Purge
pub mod Files
pub mod Delete
mod Tests
use ab.Base.{
  ℕ, ◌+◌, Bool, true, false, not, ◌&&◌, ◌||◌, Option, none, some, List, [], ◌∷◌, ◌++◌, map, any,
  all, select, find, length, leb, ◌==◌, if◌then◌else◌, Result, ok, err, Exec, pure, raise, lift,
  gets, modify, or_raise, ◌>>=◌, ◌>>◌,
}
use ab.Base.Text.{Text, text_eq, text_in}
use ab.Models.{Source, Submission, Reply, SourceStar, Seen, Db}
use ab.Deletion.{has_seen}
use ab.Store.{Item, submission, reply, item_filename, validate_filename, is_file, is_message}
use ab.Sources.{is_kept, has_filesystem_id}

-- A new row in a table of seen items.
abbrev pub seen_row : ℕ → ℕ → Seen
seen_row item user = record { item_id = item; journalist_id = user }

abbrev pub download_row : ℕ → Submission → Submission
download_row id s = if s.id == id then record s { downloaded = true } else s

unfoldable pub set_downloaded : ℕ → List Submission → List Submission
set_downloaded id = map (download_row id)

abbrev pub mark_downloaded : ℕ → Db → Db
mark_downloaded id db = record db { submissions = set_downloaded id db.submissions }

-- One round of the loop. A row that breaks the constraint of uniqueness rolls the round back, the change of
-- `downloaded` with it, and the loop goes on.
unfoldable pub mark_item : ℕ → Item → Db → Db
mark_item user (submission s) db =
    if is_file s.filename
    then (if has_seen s.id user db.seen_files
        then db
        else record (mark_downloaded s.id db) { seen_files = seen_row s.id user ∷ db.seen_files })
    else if is_message s.filename
    then (if has_seen s.id user db.seen_messages then db else record (mark_downloaded s.id db) {
      seen_messages = seen_row s.id user ∷ db.seen_messages;
    })
    else mark_downloaded s.id db
mark_item user (reply r) db =
    if has_seen r.id user db.seen_replies
    then db
    else record db { seen_replies = seen_row r.id user ∷ db.seen_replies }

unfoldable pub mark_seen : ℕ → List Item → Db → Db
mark_seen user [] db = db
mark_seen user (item ∷ items) db = mark_seen user items (mark_item user item db)

-- `Submission.seen`: downloaded, or seen by any journalist.
unfoldable pub submission_seen : Submission → Db → Bool
submission_seen s db =
    s.downloaded
    || any (λ r. r.item_id == s.id) db.seen_files
    || any (λ r. r.item_id == s.id) db.seen_messages

pub data ItemError : Type 0 where
  path_exception : ItemError
  value_error : ItemError
  not_found : ItemError

-- The database, the files of the store and those that wait in the shredder.
pub record Web : Type 0 where
  pub db : Db
  pub files : List (Text × Text)
  pub shredder : List (Text × Text)

abbrev pub same_file : Text × Text → Text × Text → Bool
same_file f g = text_eq f.0 g.0 && text_eq f.1 g.1

unfoldable pub exists : Text × Text → List (Text × Text) → Bool
exists f = any (λ g. same_file g f)

-- `Storage.path`: a file that is there must have a valid name.
unfoldable pub store_path : Text → Text → Exec ItemError Web (Text × Text)
store_path filesystem_id filename web =
    if exists (filesystem_id, filename) web.files && not (validate_filename filename)
    then (err path_exception, web)
    else (ok (filesystem_id, filename), web)

abbrev pub shred : Text × Text → Web → Web
shred f web = record web {
  files = select (λ g. not (same_file g f)) web.files;
  shredder = f ∷ web.shredder;
}

unfoldable pub move_to_shredder : Text × Text → Exec ItemError Web (Unit {0})
move_to_shredder f web = if exists f web.files then (ok tt, shred f web) else (err value_error, web)

abbrev pub not_of : ℕ → Seen → Bool
not_of item r = not (r.item_id == item)

-- The row of an item, with the marks of those who have seen it.
unfoldable pub delete_row : Item → Db → Db
delete_row (submission s) db = record db {
  submissions = select (λ t. not (t.id == s.id)) db.submissions;
  seen_files = select (not_of s.id) db.seen_files;
  seen_messages = select (not_of s.id) db.seen_messages;
}
delete_row (reply r) db = record db {
  replies = select (λ t. not (t.id == r.id)) db.replies;
  seen_replies = select (not_of r.id) db.seen_replies;
}

abbrev pub delete_row_of : Item → Web → Web
delete_row_of item web = record web { db = delete_row item web.db }

-- `finally`: the row goes whether the file could be moved or not.
abbrev pub finally_delete :
    Item → Result ItemError (Unit {0}) × Web → Result ItemError (Unit {0}) × Web
finally_delete item (r, web) = (r, delete_row_of item web)

unfoldable pub delete_file_object : Text → Item → Exec ItemError Web (Unit {0})
delete_file_object filesystem_id item = do
  f ← store_path filesystem_id (item_filename item)
  λ web. finally_delete item (move_to_shredder f web)

-- The number of items whose file was missing; any other exception ends the loop.
abbrev pub count_error : Result ItemError ℕ → Result ItemError ℕ
count_error (ok n) = ok (n + 1)
count_error (err e) = err e

-- The loop after one item, given what the rest of it makes of the state.
abbrev pub after_delete :
    Result ItemError (Unit {0}) → Web → Result ItemError ℕ × Web → Result ItemError ℕ × Web
after_delete (ok _) web rest = rest
after_delete (err value_error) web (n, after) = (count_error n, after)
after_delete (err e) web rest = (err e, web)

unfoldable pub bulk_delete : Text → List Item → Exec ItemError Web ℕ
bulk_delete filesystem_id [] web = (ok 0, web)
bulk_delete filesystem_id (item ∷ items) web =
    let (r, web') = delete_file_object filesystem_id item web in
    after_delete r web' (bulk_delete filesystem_id items web')

-- get_source without deleted sources
unfoldable pub get_source : Text → Db → Result ItemError Source
get_source filesystem_id db =
    elim (find (λ s. has_filesystem_id filesystem_id s && is_kept s.deleted_at) db.sources) [
      | none ↦ err not_found
      | some s ↦ ok s
    ]

unfoldable pub has_star : ℕ → List SourceStar → Bool
has_star source = any (λ s. s.source_id == source)

unfoldable pub set_starred : ℕ → Bool → List SourceStar → List SourceStar
set_starred source starred =
    map (λ s. if s.source_id == source then record s { starred = starred } else s)

abbrev pub with_star : ℕ → Db → Db
with_star source db =
    if has_star source db.source_stars
    then record db { source_stars = set_starred source true db.source_stars }
    else record db {
      source_stars = record { source_id = source; starred = true } ∷ db.source_stars;
    }

unfoldable pub make_star_true : Text → Exec ItemError Db (Unit {0})
make_star_true filesystem_id db = elim (get_source filesystem_id db) [
  | err e ↦ (err e, db)
  | ok source ↦ (ok tt, with_star source.id db)
]

-- A missing star is made first, and then unset.
abbrev pub unstarred : ℕ → Db → Db
unstarred source db =
    let made = if has_star source db.source_stars then db else with_star source db in
    record made { source_stars = set_starred source false made.source_stars }

unfoldable pub make_star_false : Text → Exec ItemError Db (Unit {0})
make_star_false filesystem_id db = elim (get_source filesystem_id db) [
  | err e ↦ (err e, db)
  | ok source ↦ (ok tt, unstarred source.id db)
]

-- `col_delete`: the selected sources are marked as deleted.
abbrev pub mark_deleted : ℕ → List Text → Source → Source
mark_deleted now selected s =
    if text_in s.filesystem_id selected then record s { deleted_at = some now } else s

unfoldable pub col_delete : ℕ → List Text → Db → Db
col_delete now [] db = db
col_delete now (c ∷ cols) db = record db { sources = map (mark_deleted now (c ∷ cols)) db.sources }
