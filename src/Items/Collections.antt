-- ===== src/Items/Collections.antt =====
-- Deleting what belongs to whole sources (securedrop/journalist_app/utils.py, `delete_source_files`,
-- `delete_collection` and `purge_deleted_sources`).
use ab.Base.{
  ℕ, Bool, not, Option, none, some, List, [], ◌∷◌, ◌++◌, map, select, find, leb, ◌==◌,
  if◌then◌else◌, ok, err, Exec,
}
use ab.Base.Text.{Text, text_eq}
use ab.Models.{Source, Submission, Reply, Db}
use ab.Store.{Item, submission, reply, collection}
use ab.Sources.{has_filesystem_id, is_kept}
use ab.Items.{ItemError, not_found, value_error, Web, delete_file_object, delete_row}

-- Every exception is passed over, and the next item is taken.
unfoldable pub delete_each : Text → List Item → Web → Web
delete_each filesystem_id [] web = web
delete_each filesystem_id (item ∷ items) web =
    delete_each filesystem_id items (delete_file_object filesystem_id item web).1

-- get_source with deleted sources
unfoldable pub get_any_source : Text → Db → Option Source
get_any_source filesystem_id db = find (has_filesystem_id filesystem_id) db.sources

abbrev pub submissions_of : ℕ → Db → List Submission
submissions_of source db = select (λ s. s.source_id == source) db.submissions

abbrev pub replies_of : ℕ → Db → List Reply
replies_of source db = select (λ r. r.source_id == source) db.replies

-- A collection that cannot be sorted raises.
abbrev pub delete_collected : Text → Option (List Item) → Exec ItemError Web (Unit {0})
delete_collected filesystem_id none web = (err value_error, web)
delete_collected filesystem_id (some items) web = (ok tt, delete_each filesystem_id items web)

unfoldable pub delete_source_files : Text → Exec ItemError Web (Unit {0})
delete_source_files filesystem_id web = elim (get_any_source filesystem_id web.db) [
  | none ↦ (err not_found, web)
  | some source ↦
      delete_collected filesystem_id
        (collection (submissions_of source.id web.db) (replies_of source.id web.db)) web
]

-- The whole directory goes to the shredder.
abbrev pub shred_directory : Text → Web → Web
shred_directory filesystem_id web = record web {
  files = select (λ f. not (text_eq f.0 filesystem_id)) web.files;
  shredder = select (λ f. text_eq f.0 filesystem_id) web.files ++ web.shredder;
}

-- The items of a source, each with the marks of those who have seen it.
unfoldable pub delete_rows : List Item → Db → Db
delete_rows [] db = db
delete_rows (item ∷ items) db = delete_rows items (delete_row item db)

-- The row of the source, with its submissions and replies by cascade. The star's reference to it becomes
-- null, and such a star is left out.
unfoldable pub delete_source_row : Source → Db → Db
delete_source_row source db =
    let rest =
      delete_rows
        (map submission (submissions_of source.id db) ++ map reply (replies_of source.id db)) db in
    record rest {
      sources = select (λ s. not (s.id == source.id)) rest.sources;
      source_stars = select (λ s. not (s.source_id == source.id)) rest.source_stars;
    }

-- `key_error` tells whether deleting the key pair in GnuPG raises; the files are gone by then.
unfoldable pub delete_collection : Bool → Text → Exec ItemError Web (Unit {0})
delete_collection key_error filesystem_id web =
    let shredded = shred_directory filesystem_id web in
    if key_error then (err value_error, shredded) else (elim (get_any_source filesystem_id web.db) [
      | none ↦ (err not_found, shredded)
      | some source ↦ (ok tt, record shredded { db = delete_source_row source shredded.db })
    ])

-- order_by(Source.deleted_at), earlier sources first
abbrev pub deletion_time : Source → ℕ
deletion_time s = elim s.deleted_at [ none ↦ 0 | some t ↦ t ]

unfoldable pub insert_source : Source → List Source → List Source
insert_source s [] = s ∷ []
insert_source s (t ∷ ts) =
    let rest = insert_source s ts in
    if leb (deletion_time s) (deletion_time t) then s ∷ t ∷ ts else t ∷ rest

unfoldable pub by_deletion_time : List Source → List Source
by_deletion_time [] = []
by_deletion_time (s ∷ ss) = insert_source s (by_deletion_time ss)

-- `key_error` tells for which sources the deletion of the key pair raises.
unfoldable pub purge_each : (Text → Bool) → List Source → Web → Web
purge_each key_error [] web = web
purge_each key_error (s ∷ ss) web =
    purge_each key_error ss (delete_collection (key_error s.filesystem_id) s.filesystem_id web).1

unfoldable pub purge_deleted_sources : (Text → Bool) → Web → Web
purge_deleted_sources key_error web =
    purge_each key_error
      (by_deletion_time (select (λ s. not (is_kept s.deleted_at)) web.db.sources)) web
