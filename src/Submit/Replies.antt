-- ===== src/Submit/Replies.antt =====
-- Replies that a source deletes (securedrop/source_app/main.py, `delete` and `batch_delete`): they leave
-- the source's inbox and stay for the journalists.
use ab.Base.{ℕ, Bool, true, not, ◌&&◌, List, [], ◌∷◌, map, select, ◌==◌, if◌then◌else◌}
use ab.Base.Text.{Text, text_eq}
use ab.Models.{Reply}

pub data ReplyResponse : Type 0 where
  reply_deleted : ReplyResponse
  all_replies_deleted : ReplyResponse
  no_replies : ReplyResponse
  not_found : ReplyResponse
  multiple_found : ReplyResponse

abbrev pub is_named : ℕ → Text → Reply → Bool
is_named source filename r = (r.source_id == source) && text_eq r.filename filename

-- The replies that the source's inbox shows.
abbrev pub is_shown : ℕ → Reply → Bool
is_shown source r = (r.source_id == source) && not r.deleted_by_source

abbrev pub hide : Reply → Reply
hide r = record r { deleted_by_source = true }

-- Hiding the replies that pass a test.
unfoldable pub hide_all : (Reply → Bool) → List Reply → List Reply
hide_all p = map (λ r. if p r then hide r else r)

-- `get_one_or_else` with `abort`, by the number of rows found.
abbrev pub delete_found : (Reply → Bool) → List Reply → List Reply → ReplyResponse × List Reply
delete_found p [] replies = (not_found, replies)
delete_found p (r ∷ []) replies = (reply_deleted, hide_all p replies)
delete_found p (r ∷ s ∷ found) replies = (multiple_found, replies)

unfoldable pub delete_reply : ℕ → Text → List Reply → ReplyResponse × List Reply
delete_reply source filename replies =
    delete_found (is_named source filename) (select (is_named source filename) replies) replies

abbrev pub delete_shown : (Reply → Bool) → List Reply → List Reply → ReplyResponse × List Reply
delete_shown p [] replies = (no_replies, replies)
delete_shown p (r ∷ found) replies = (all_replies_deleted, hide_all p replies)

unfoldable pub batch_delete : ℕ → List Reply → ReplyResponse × List Reply
batch_delete source replies =
    delete_shown (is_shown source) (select (is_shown source) replies) replies

-- What the journalists see of a reply.
abbrev pub name_of : Reply → Text
name_of r = r.filename
