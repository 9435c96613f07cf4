-- ===== src/Replies.antt =====
-- Replies that journalists send encrypted (securedrop/journalist_app/api.py, `all_source_replies` on POST;
-- securedrop/store.py, `save_pre_encrypted_reply`; models.py, `Reply.__init__`). The database is taken as it is
-- committed: what a request changes and does not commit is dropped at its end. A number stands for the text of a uuid,
-- and `is_uuid` tells for which of them `uuid.UUID` raises nothing; a reply in the body is a text.
pub mod Stored
mod Tests
use ab.Base.{
  ℕ, ◌+◌, Bool, true, false, not, ◌&&◌, ◌||◌, Option, none, some, List, [], ◌∷◌, ◌++◌, find, map,
  any, select, ltb, ◌==◌, if◌then◌else◌,
}
use ab.Base.Text.{Text, codes, text_eq, text_in, is_empty}
use ab.Models.{Source, Reply, Seen, Db}
use ab.Sessions.{starts_with}
use ab.Store.{journalist_filename, reply_name}
use ab.Items.{seen_row}

pub record StoredFile : Type 0 where
  pub directory : Text
  pub name : Text
  pub content : Text

-- The database, and the directories and the files of the store.
pub record ReplyState : Type 0 where
  pub db : Db
  pub directories : List Text
  pub files : List StoredFile

-- The body of the request: no JSON, no "reply" in it, or a reply and perhaps a uuid.
pub data ReplyBody : Type 0 where
  no_json : ReplyBody
  no_reply : ReplyBody
  reply_body : Text → Option ℕ → ReplyBody

-- FileNotFoundError of `open` is not caught.
pub data ReplyResponse : Type 0 where
  source_not_found : ReplyResponse
  send_valid_json : ReplyResponse
  reply_not_found : ReplyResponse
  reply_is_empty : ReplyResponse
  must_encrypt : ReplyResponse
  no_directory : ReplyResponse
  not_a_uuid : ReplyResponse
  uuid_in_use : ReplyResponse
  reply_stored : ℕ → Text → ReplyResponse

-- s.split("\n")[0]
unfoldable pub first_line : Text → Text
first_line [] = []
first_line (c ∷ s) = let rest = first_line s in if c == 10 then [] else c ∷ rest

-- t in s
unfoldable pub contains : Text → Text → Bool
contains t [] = is_empty t
contains t (c ∷ s) = starts_with t (c ∷ s) || contains t s

unfoldable pub is_encrypted : Text → Bool
is_encrypted content = contains (codes "-----BEGIN PGP MESSAGE-----") (first_line content)

-- The bytes of a file with a text.
unfoldable pub utf8_length : Text → ℕ
utf8_length [] = 0
utf8_length (c ∷ s) =
    (if ltb c 128 then 1 else if ltb c 2048 then 2 else if ltb c 65536 then 3 else 4)
    + utf8_length s

abbrev pub is_stored_at : Text → Text → StoredFile → Bool
is_stored_at directory name f = text_eq f.directory directory && text_eq f.name name

abbrev pub content_of : Option StoredFile → Option Text
content_of none = none
content_of (some f) = some f.content

unfoldable pub read_file : Text → Text → List StoredFile → Option Text
read_file directory name files = content_of (find (is_stored_at directory name) files)

-- open(path, "w").write(content)
unfoldable pub write_file : Text → Text → Text → List StoredFile → List StoredFile
write_file directory name content files =
    record { directory = directory; name = name; content = content }
    ∷ select (λ f. not (is_stored_at directory name f)) files

abbrev pub next_reply_name : Source → Text
next_reply_name source =
    reply_name (source.interaction_count + 1) (journalist_filename source.journalist_designation)

abbrev pub save_reply : Source → Text → ReplyState → ReplyState
save_reply source content state = record state {
  files = write_file source.filesystem_id (next_reply_name source) content state.files;
}

-- Reply.__init__, with the uuid that is set afterwards
unfoldable pub new_reply : ℕ → ℕ → ℕ → Source → Text → Reply
new_reply id uuid user source content = record {
  id = id;
  uuid = uuid;
  journalist_id = user;
  source_id = source.id;
  filename = next_reply_name source;
  size = utf8_length content;
  checksum = none;
  deleted_by_source = false;
}

abbrev pub has_source_uuid : ℕ → Source → Bool
has_source_uuid uuid s = s.uuid == uuid

abbrev pub has_reply_uuid : ℕ → Reply → Bool
has_reply_uuid uuid r = r.uuid == uuid

abbrev pub counted : Source → Source → Source
counted source s =
    if has_source_uuid source.uuid s
    then record s { interaction_count = source.interaction_count + 1 }
    else s

-- The rows that are committed together.
unfoldable pub add_reply : ℕ → ℕ → Source → Text → Db → Db
add_reply user uuid source content db = record db {
  sources = map (counted source) db.sources;
  replies = db.replies ++ (new_reply db.next_id uuid user source content ∷ []);
  seen_replies = seen_row db.next_id user ∷ db.seen_replies;
  next_id = db.next_id + 1;
}

abbrev pub commit_reply : ℕ → ℕ → Source → Text → ReplyState → ReplyResponse × ReplyState
commit_reply user uuid source content state =
    if any (has_reply_uuid uuid) state.db.replies then (uuid_in_use, state) else (
      reply_stored uuid (next_reply_name source),
      record state { db = add_reply user uuid source content state.db },
    )

module _ (is_uuid : ℕ → Bool) where
  -- The uuid of the body, or else the random one.
  abbrev pub with_uuid : ℕ → ℕ → Option ℕ → Source → Text → ReplyState → ReplyResponse × ReplyState
  with_uuid user random none source content state = commit_reply user random source content state
  with_uuid user random (some uuid) source content state =
      if is_uuid uuid then commit_reply user uuid source content state else (not_a_uuid, state)

  -- Storage.path finds a place in the directory of the source, as the name is valid.
  abbrev pub reply_to : ℕ → ℕ → ReplyBody → Source → ReplyState → ReplyResponse × ReplyState
  reply_to user random no_json source state = (send_valid_json, state)
  reply_to user random no_reply source state = (reply_not_found, state)
  reply_to user random (reply_body content uuid) source state =
      if is_empty content
      then (reply_is_empty, state)
      else if not (is_encrypted content)
      then (must_encrypt, state)
      else if not (text_in source.filesystem_id state.directories)
      then (no_directory, state)
      else with_uuid user random uuid source content (save_reply source content state)

  abbrev pub reply_or_404 :
      ℕ → ℕ → ReplyBody → ReplyState → Option Source → ReplyResponse × ReplyState
  reply_or_404 user random body state none = (source_not_found, state)
  reply_or_404 user random body state (some source) = reply_to user random body source state

  unfoldable pub all_source_replies :
      ℕ → ℕ → ℕ → ReplyBody → ReplyState → ReplyResponse × ReplyState
  all_source_replies user random source_uuid body state =
      reply_or_404 user random body state (find (has_source_uuid source_uuid) state.db.sources)
