-- ===== src/Items/Delete.antt =====
-- Deleting items (securedrop/journalist_app/utils.py, `delete_file_object` and `bulk_delete`): what is
-- deleted leaves the database and the store, and no file is lost on the way to the shredder.
use ab.Base.{◌≡◌, Bool, false, List, [], ◌∷◌, any, ◌==◌, if◌then◌else◌, Result, ok, err}
use ab.Base.Text.{Text}
use ab.Models.{Db}
use ab.Store.{Item, submission, reply, item_filename}
use ab.Items.{ItemError, value_error, Web, exists, delete_row_of}
use ab.Items.Files.{moved}

-- An item has a row.
unfoldable pub has_item : Item → Db → Bool
has_item (submission s) db = any (λ t. t.id == s.id) db.submissions
has_item (reply r) db = any (λ t. t.id == r.id) db.replies

-- What deleting an item with a valid name leaves, and deleting several.
abbrev removed : Text → Web → Item → Web
removed filesystem_id web item = delete_row_of item (moved (filesystem_id, item_filename item) web)

removed_all : Text → List Item → Web → Web
removed_all filesystem_id [] web = web
removed_all filesystem_id (item ∷ items) web =
    removed_all filesystem_id items (removed filesystem_id web item)

abbrev outcome : Text × Text → Web → Result ItemError (Unit {0})
outcome f web = if exists f web.files then ok tt else err value_error

-- An item that is deleted, from the database and from the store.
abbrev pub IsDeleted : Text → Web → Item → Type 0
IsDeleted filesystem_id web item =
    (has_item item web.db ≡ false) × (exists (filesystem_id, item_filename item) web.files ≡ false)
