-- ===== src/Submit.antt =====
-- What a source sends (securedrop/source_app/main.py, `submit`, from a form that has passed its checks;
-- securedrop/source_app/utils.py, `codename_detected`). The encryption and the text of the files are not
-- modelled: the store is the list of their names, by the file system id of the source.
pub mod Names
pub mod Replies
mod Tests
use ab.Base.{
  ℕ, zero, suc, ◌+◌, Bool, true, false, not, ◌&&◌, ◌||◌, Option, none, some, is_some, List, [], ◌∷◌,
  ◌++◌, map, length, ltb, ◌==◌, if◌then◌else◌,
}
use ab.Base.Text.{Text, text_eq, is_empty, is_space}
use ab.Models.{Source, Submission}
use ab.Store.{message_name, file_name, journalist_filename}
use ab.Config.{ConfigRow}

-- str.strip
unfoldable pub lstrip : Text → Text
lstrip [] = []
lstrip (c ∷ s) = let rest = lstrip s in if is_space c then rest else c ∷ s

unfoldable pub rstrip : Text → Text
rstrip [] = []
rstrip (c ∷ s) = let rest = rstrip s in if is_empty rest && is_space c then [] else c ∷ rest

unfoldable pub strip : Text → Text
strip s = rstrip (lstrip s)

unfoldable pub codename_detected : Text → Text → Bool
codename_detected message codename = text_eq (strip (strip message)) codename

-- The form: the message, the uploaded file, the codename of a new user's session, and the time.
pub record SubmitRequest : Type 0 where
  pub msg : Text
  pub uploaded : Bool
  pub new_user_codename : Option Text
  pub now : ℕ

-- The row of the source, its submissions, the files of the store, and the next key. A uuid is the key.
pub record Inbox : Type 0 where
  pub source : Source
  pub submissions : List Submission
  pub files : List (Text × Text)
  pub next_id : ℕ

pub data SubmitResponse : Type 0 where
  nothing_to_submit : SubmitResponse
  message_too_short : ℕ → SubmitResponse
  codename_submitted : SubmitResponse
  first_received : SubmitResponse
  message_received : SubmitResponse
  file_received : SubmitResponse
  both_received : SubmitResponse

-- allow_document_uploads and "fh" in request.files
abbrev pub has_file : ConfigRow → SubmitRequest → Bool
has_file config req = config.allow_document_uploads && req.uploaded

-- The checks of a first submission.
unfoldable pub is_too_short : ConfigRow → SubmitRequest → Bool
is_too_short config req =
    ltb 0 config.initial_message_min_len
    && (not (is_empty req.msg) && not (has_file config req))
    && ltb (length req.msg) config.initial_message_min_len

unfoldable pub is_codename : ConfigRow → SubmitRequest → Bool
is_codename config req = elim req.new_user_codename [
  | none ↦ false
  | some codename ↦ config.reject_message_with_codename && codename_detected req.msg codename
]

unfoldable pub first_refusal : ConfigRow → SubmitRequest → Option SubmitResponse
first_refusal config req =
    if is_too_short config req
    then some (message_too_short config.initial_message_min_len)
    else if is_codename config req
    then some codename_submitted
    else none

unfoldable pub refusal : ConfigRow → SubmitRequest → Source → Option SubmitResponse
refusal config req source =
    if is_empty req.msg && not (has_file config req)
    then some nothing_to_submit
    else if source.interaction_count == 0
    then first_refusal config req
    else none

-- The names that are given, and the interaction count after them.
abbrev pub message_names : Text → ℕ → Bool → List Text × ℕ
message_names name count false = ([], count)
message_names name count true = (message_name (count + 1) name ∷ [], count + 1)

abbrev pub file_names : Text → ℕ → Bool → List Text × ℕ
file_names name count false = ([], count)
file_names name count true = (file_name (count + 1) name ∷ [], count + 1)

unfoldable pub given_names : Text → ℕ → Bool → Bool → List Text × ℕ
given_names name count message file =
    let (ms, middle) = message_names name count message in
    let (fs, last) = file_names name middle file in (ms ++ fs, last)

-- Submission.__init__; `size` is what `os.stat` says of a file.
abbrev pub new_submission : (Text → ℕ) → ℕ → ℕ → Text → Submission
new_submission size source_id id filename = record {
  id = id;
  uuid = id;
  source_id = source_id;
  filename = filename;
  size = size filename;
  downloaded = false;
  checksum = none;
}

unfoldable pub new_submissions : (Text → ℕ) → ℕ → ℕ → List Text → List Submission
new_submissions size source_id id [] = []
new_submissions size source_id id (f ∷ fs) =
    new_submission size source_id id f ∷ new_submissions size source_id (id + 1) fs

unfoldable pub received : Bool → Bool → Bool → SubmitResponse
received true message file = first_received
received false true false = message_received
received false false file = file_received
received false true true = both_received

unfoldable pub store_submissions : (Text → ℕ) → ℕ → List Text × ℕ → Inbox → Inbox
store_submissions size now (names, count) inbox = record {
  source = record inbox.source {
    interaction_count = count;
    pending = false;
    last_updated = some now;
  };
  submissions = inbox.submissions ++ new_submissions size inbox.source.id inbox.next_id names;
  files = inbox.files ++ map (λ f. (inbox.source.filesystem_id, f)) names;
  next_id = inbox.next_id + length names;
}

unfoldable pub submit : (Text → ℕ) → ConfigRow → SubmitRequest → Inbox → SubmitResponse × Inbox
submit size config req inbox = elim (refusal config req inbox.source) [
  | some response ↦ (response, inbox)
  | none ↦ (
    received (inbox.source.interaction_count == 0) (not (is_empty req.msg)) (has_file config req),
    store_submissions size req.now
        (given_names (journalist_filename inbox.source.journalist_designation)
          inbox.source.interaction_count (not (is_empty req.msg)) (has_file config req))
        inbox,
  )
]
