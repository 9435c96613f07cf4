-- ===== src/Deletion.antt =====
-- Deleting a journalist (securedrop/models.py, `Journalist.get_deleted` and `Journalist.delete`;
-- securedrop/journalist_app/admin.py, `delete_user`): what the account wrote and read passes to the
-- account named "deleted".
pub mod Rows
pub mod Delete
mod Tests
use ab.Base.{
  ℕ, ◌+◌, Bool, true, false, not, ◌&&◌, Option, none, some, List, [], ◌∷◌, ◌++◌, map, any, select,
  find, ◌==◌, if◌then◌else◌, Result, ok, err, Exec, pure, lift, gets, raise, modify, ◌>>=◌, ◌>>◌,
}
use ab.Base.Text.{Text, codes, text_eq}
use ab.Errors.{Error}
use ab.Models.{Journalist, JournalistLoginAttempt, Reply, Seen, Db}
use ab.Accounts.{Hasher}
use ab.Accounts.Creation.{NewJournalist, new_journalist}
use ab.Accounts.Login.{find_journalist}

abbrev pub deleted_username : Text
deleted_username = codes "deleted"

unfoldable pub is_deleted_user : Journalist → Bool
is_deleted_user user = text_eq user.username deleted_username

-- What is drawn when the account "deleted" is made: its uuid, passphrase, secret and salt.
pub record Drawn : Type 0 where
  pub uuid : ℕ
  pub passphrase : Text
  pub default_secret : Text
  pub salt : ℕ

abbrev pub placeholder : Drawn → ℕ → NewJournalist
placeholder drawn id = record {
  username = codes "placeholder";
  password = some drawn.passphrase;
  first_name = none;
  last_name = none;
  is_admin = false;
  otp_secret = none;
  id = id;
  uuid = drawn.uuid;
  default_secret = drawn.default_secret;
  salt = drawn.salt;
}

abbrev pub add_journalist : Journalist → Db → Db
add_journalist user db = record db {
  journalists = db.journalists ++ (user ∷ []);
  next_id = db.next_id + 1;
}

-- The row gets its key at the flush before the next query.
unfoldable pub create_deleted : Hasher → Drawn → Exec Error Db Journalist
create_deleted hasher drawn = do
  id ← gets (λ db. db.next_id)
  user ← lift (new_journalist hasher (placeholder drawn id))
  let deleted = record user { username = deleted_username }
  modify (add_journalist deleted)
  pure deleted

unfoldable pub get_deleted : Hasher → Drawn → Exec Error Db Journalist
get_deleted hasher drawn db = elim (find_journalist deleted_username db.journalists) [
  | none ↦ create_deleted hasher drawn db
  | some deleted ↦ (ok deleted, db)
]

-- Whether a journalist has seen an item.
unfoldable pub has_seen : ℕ → ℕ → List Seen → Bool
has_seen item journalist = any (λ r. (r.item_id == item) && (r.journalist_id == journalist))

-- The loop over the rows of the journalist `user`; `already` tells what "deleted" has seen.
unfoldable pub move_seen : (ℕ → Bool) → ℕ → ℕ → List Seen → List Seen
move_seen already deleted user [] = []
move_seen already deleted user (r ∷ rows) =
    let rest = move_seen already deleted user rows in
    if r.journalist_id == user
    then (if already r.item_id
        then rest
        else record { item_id = r.item_id; journalist_id = deleted } ∷ rest)
    else r ∷ rest

unfoldable pub reassign_seen : ℕ → ℕ → List Seen → List Seen
reassign_seen deleted user rows = move_seen (λ item. has_seen item deleted rows) deleted user rows

abbrev pub reassign_reply : ℕ → ℕ → Reply → Reply
reassign_reply deleted user reply =
    if reply.journalist_id == user then record reply { journalist_id = deleted } else reply

unfoldable pub reassign_replies : ℕ → ℕ → List Reply → List Reply
reassign_replies deleted user = map (reassign_reply deleted user)

-- The row itself, and the login attempts that go with it by cascade.
abbrev pub remove_journalist : ℕ → Db → Db
remove_journalist user db = record db {
  journalists = select (λ j. not (j.id == user)) db.journalists;
  login_attempts = select (λ a. not (a.journalist_id == user)) db.login_attempts;
}

unfoldable pub move_to_deleted : ℕ → ℕ → Db → Db
move_to_deleted deleted user db = record db {
  replies = reassign_replies deleted user db.replies;
  seen_files = reassign_seen deleted user db.seen_files;
  seen_messages = reassign_seen deleted user db.seen_messages;
  seen_replies = reassign_seen deleted user db.seen_replies;
}

abbrev pub hand_over : Journalist → Journalist → Exec Error Db (Unit {0})
hand_over user deleted = do
  modify (move_to_deleted deleted.id user.id)
  modify (remove_journalist user.id)

unfoldable pub delete : Hasher → Drawn → Journalist → Exec Error Db (Unit {0})
delete hasher drawn user = get_deleted hasher drawn >>= hand_over user

-- The answers of the handler: the page, or one of the two refusals.
pub data DeleteUserResponse : Type 0 where
  own_account : DeleteUserResponse
  not_found : DeleteUserResponse
  system_account : DeleteUserResponse
  user_deleted : DeleteUserResponse

unfoldable pub find_by_id : ℕ → List Journalist → Option Journalist
find_by_id id = find (λ j. j.id == id)

-- `current` is the id of the admin who is signed in. The sessions of the deleted user end as well.
unfoldable pub delete_user : Hasher → Drawn → ℕ → ℕ → Exec Error Db DeleteUserResponse
delete_user hasher drawn current user_id db =
    if user_id == current then (ok own_account, db) else (elim (find_by_id user_id db.journalists) [
      | none ↦ (ok not_found, db)
      | some user ↦
          if is_deleted_user user
          then (ok system_account, db)
          else (delete hasher drawn user >>= λ _. pure user_deleted) db
    ])
