-- ===== src/Replies/Stored.antt =====
-- What a reply leaves in the database and in the store (securedrop/journalist_app/api.py, `all_source_replies`).
use ab.Base.{ℕ, ◌+◌, ◌≡◌, true, false, ◌&&◌, Option, some, [], ◌∷◌, ◌++◌, find, any, ◌⊎◌}
use ab.Base.Text.{Text, text_eq}
use ab.Models.{Source, Reply}
use ab.Deletion.{has_seen}
use ab.Replies.{
  ReplyState, ReplyBody, reply_body, ReplyResponse, reply_stored, is_encrypted, read_file,
  next_reply_name, has_source_uuid, has_reply_uuid,
}

-- What a stored reply comes to.
abbrev pub IsStored : ℕ → Source → Text → ReplyState → ReplyResponse × ReplyState → Type 0
IsStored user source content state out =
    (uuid : ℕ) × (row : Reply) × (out.0 ≡ reply_stored uuid row.filename)
    × (row.filename ≡ next_reply_name source)
    × (row.uuid ≡ uuid)
    × (any (has_reply_uuid uuid) state.db.replies ≡ false)
    × (out.1.db.replies ≡ state.db.replies ++ (row ∷ []))
    × (has_seen row.id user out.1.db.seen_replies ≡ true)
    × (read_file source.filesystem_id row.filename out.1.files ≡ some content)
    × (find (has_source_uuid source.uuid) out.1.db.sources
        ≡ some (record source { interaction_count = source.interaction_count + 1 }))

-- The rest of the store is as it was.
abbrev pub KeepsFiles : Source → ReplyState → ReplyState → Type 0
KeepsFiles source state after =
    (directory name : Text)
    → (text_eq source.filesystem_id directory && text_eq (next_reply_name source) name) ≡ false
    → read_file directory name after.files ≡ read_file directory name state.files

-- The outcome of a request for a source of the database.
abbrev pub IsReplyOutcome :
    ℕ → Source → ReplyBody → ReplyState → ReplyResponse × ReplyState → Type 0
IsReplyOutcome user source body state out =
    ((out.1.db ≡ state.db)
      ⊎ ((content : Text) × (uuid : Option ℕ) × (body ≡ reply_body content uuid)
          × (is_encrypted content ≡ true)
          × IsStored user source content state out))
    × KeepsFiles source state out.1
