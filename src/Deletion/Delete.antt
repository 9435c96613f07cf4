-- ===== src/Deletion/Delete.antt =====
-- What deleting a journalist leaves in the database (securedrop/models.py, `Journalist.delete`).
use ab.Base.{
  find-select, any-select-not, ℕ, ◌<◌, ◌≡◌, ◌≢◌, refl, Bool, true, false, not, ◌&&◌, none, some,
  List, [], ◌∷◌, ◌++◌, any, find, length, ◌==◌, arith, Bool-cases, Option-cases, Result-cases,
  bind-ok, bind-err, ok, err, inl, ◌⊎◌, inr, All,
}
use ab.Base.Text.{text_eq, text_eq_refl}
use ab.Errors.{Error}
use ab.Models.{Journalist, Reply, Db}
use ab.Accounts.{Hasher}
use ab.Accounts.Creation.{new_journalist, new_journalist-id}
use ab.Accounts.Login.{find_journalist}
use ab.Deletion.{
  deleted_username, is_deleted_user, Drawn, create_deleted, get_deleted, reassign_replies,
  placeholder, add_journalist, remove_journalist, move_to_deleted, hand_over, delete,
}
use ab.Deletion.Rows.{UniqueSeen, HandedOver, reassign_seen-HandedOver}

-- No row of the user is that of the account "deleted".
abbrev pub NotDeleted : ℕ → Journalist → Type 0
NotDeleted user j = ((j.id == user) && is_deleted_user j) ≡ false

-- The database before: keys below the next one, and the constraints on the seen items.
pub record Tidy (user : ℕ) (db : Db) : Type 0 where
  pub below : user < db.next_id
  pub not_deleted : All (NotDeleted user) db.journalists
  pub unique_files : UniqueSeen db.seen_files
  pub unique_messages : UniqueSeen db.seen_messages
  pub unique_replies : UniqueSeen db.seen_replies

abbrev pub written_by : ℕ → Reply → Bool
written_by user reply = reply.journalist_id == user

-- The database after: nothing refers to the user, and "deleted" has what the user had.
pub record Gone (user deleted : ℕ) (before after : Db) : Type 0 where
  pub account : any (λ j. j.id == user) after.journalists ≡ false
  pub attempts : any (λ a. a.journalist_id == user) after.login_attempts ≡ false
  pub replies : any (written_by user) after.replies ≡ false
  pub all_replies : length after.replies ≡ length before.replies
  pub files : HandedOver deleted user before.seen_files after.seen_files
  pub messages : HandedOver deleted user before.seen_messages after.seen_messages
  pub seen_replies : HandedOver deleted user before.seen_replies after.seen_replies

reassign_replies-none :
    (deleted user : ℕ) (replies : List Reply)
    → deleted ≢ user
    → any (written_by user) (reassign_replies deleted user replies) ≡ false
unfolding reassign_replies
reassign_replies-none deleted user [] n = refl
reassign_replies-none deleted user (r ∷ replies) n =
    ground (arith, reassign_replies-none deleted user replies n)

length-reassign_replies :
    (deleted user : ℕ) (replies : List Reply)
    → length (reassign_replies deleted user replies) ≡ length replies
unfolding reassign_replies
length-reassign_replies deleted user [] = refl
length-reassign_replies deleted user (r ∷ replies) =
    omega (arith, length-reassign_replies deleted user replies)

-- The two changes, whichever account "deleted" is.
moved-Gone :
    (user deleted : ℕ) (db : Db)
    → deleted ≢ user
    → UniqueSeen db.seen_files
    → UniqueSeen db.seen_messages
    → UniqueSeen db.seen_replies
    → Gone user deleted db (remove_journalist user (move_to_deleted deleted user db))
unfolding move_to_deleted
moved-Gone user deleted db n f m r = record {
  account = any-select-not (λ j. j.id == user) db.journalists;
  attempts = any-select-not (λ a. a.journalist_id == user) db.login_attempts;
  replies = reassign_replies-none deleted user db.replies n;
  all_replies = length-reassign_replies deleted user db.replies;
  files = reassign_seen-HandedOver deleted user db.seen_files n f;
  messages = reassign_seen-HandedOver deleted user db.seen_messages n m;
  seen_replies = reassign_seen-HandedOver deleted user db.seen_replies n r;
}

-- A new row of `journalists` is not among what is handed over.
added-Gone :
    (user deleted : ℕ) (d : Journalist) (db after : Db)
    → Gone user deleted (add_journalist d db) after
    → Gone user deleted db after
added-Gone user deleted d db after g = record {
  account = g.account;
  attempts = g.attempts;
  replies = g.replies;
  all_replies = g.all_replies;
  files = g.files;
  messages = g.messages;
  seen_replies = g.seen_replies;
}

find-NotDeleted :
    (user : ℕ) (js : List Journalist) (d : Journalist)
    → All (NotDeleted user) js
    → find_journalist deleted_username js ≡ some d
    → d.id ≢ user
unfolding find_journalist is_deleted_user
find-NotDeleted user [] d h found = absurd (cc)
find-NotDeleted user (j ∷ js) d h found = elim (Bool-cases (text_eq j.username deleted_username)) [
  | inl named ↦ let e : j.id ≡ d.id = ground arith in λ same. absurd (ground arith)
  | inr other ↦ find-NotDeleted user js d h.1 (ground arith)
]

find-append_none :
    {A : Type 0} (p : A → Bool) (xs : List A) (a : A)
    → find p xs ≡ none
    → p a ≡ true
    → find p (xs ++ (a ∷ [])) ≡ some a
find-append_none p [] a h k = ground arith
find-append_none p (x ∷ xs) a h k = ground (arith, find-append_none p xs a)

-- The account that `get_deleted` returns.
record IsDeletedAccount (user : ℕ) (d : Journalist) (db : Db) : Type 0 where
  found : find_journalist deleted_username db.journalists ≡ some d
  apart : d.id ≢ user

create_deleted-IsDeletedAccount :
    (hasher : Hasher) (drawn : Drawn) (user : ℕ) (db : Db)
    → user < db.next_id
    → find_journalist deleted_username db.journalists ≡ none
    → ((e : Error) × (create_deleted hasher drawn db ≡ (err e, db)))
      ⊎ ((d : Journalist) × (create_deleted hasher drawn db ≡ (ok d, add_journalist d db))
          × IsDeletedAccount user d (add_journalist d db))
unfolding create_deleted find_journalist
create_deleted-IsDeletedAccount hasher drawn user db below missing =
    elim (Result-cases (new_journalist hasher (placeholder drawn db.next_id))) [
      | inl (u, h) ↦
          let d = record u { username = deleted_username } in
          let id = new_journalist-id hasher (placeholder drawn db.next_id) u h in
          inr (
            d,
            rw h refl,
            record {
              found =
                  find-append_none (λ j. text_eq j.username deleted_username) db.journalists d
                    missing (text_eq_refl deleted_username);
              apart = λ e. absurd (omega arith);
            },
          )
      | inr (e, h) ↦ inl (e, rw h refl)
    ]

get_deleted-IsDeletedAccount :
    (hasher : Hasher) (drawn : Drawn) (user : ℕ) (db : Db)
    → Tidy user db
    → ((e : Error) × (get_deleted hasher drawn db ≡ (err e, db)))
      ⊎ ((d : Journalist) × (db' : Db) × (get_deleted hasher drawn db ≡ (ok d, db'))
          × IsDeletedAccount user d db'
          × ((db' ≡ db) ⊎ (db' ≡ add_journalist d db)))
unfolding get_deleted
get_deleted-IsDeletedAccount hasher drawn user db t =
    elim (Option-cases (find_journalist deleted_username db.journalists)) [
      | inl missing ↦ elim (create_deleted-IsDeletedAccount hasher drawn user db t.below missing) [
        | inl (e, h) ↦ inl (e, rw (missing, get_deleted) h)
        | inr (d, h, is) ↦ inr (d, add_journalist d db, rw (missing, get_deleted) h, is, inr refl)
      ]
      | inr (d, found) ↦ inr (
        d,
        db,
        rw (found, get_deleted) refl,
        record { found = found; apart = find-NotDeleted user db.journalists d t.not_deleted found },
        inl refl,
      )
    ]

find-removed :
    (user : ℕ) (d : Journalist) (db : Db)
    → IsDeletedAccount user d db
    → find_journalist deleted_username
        (remove_journalist user (move_to_deleted d.id user db)).journalists
      ≡ some d
unfolding find_journalist move_to_deleted
find-removed user d db is =
    find-select (λ j. text_eq j.username deleted_username) (λ j. not (j.id == user)) db.journalists
      d is.found (let n = is.apart in ground arith)

-- Deleting a journalist either fails, when the account "deleted" cannot be made, and changes nothing, or
-- leaves no row that refers to the user. Then the replies number as many as before, an item that the user
-- had seen is seen by "deleted", the others have seen what they had, and no one has seen an item
-- twice.
pub delete_hands_over :
    (hasher : Hasher) (drawn : Drawn) (user : Journalist) (db : Db)
    → Tidy user.id db
    → ((e : Error) × (delete hasher drawn user db ≡ (err e, db)))
      ⊎ ((d : Journalist) × (after : Db) × (delete hasher drawn user db ≡ (ok tt, after))
          × (find_journalist deleted_username after.journalists ≡ some d)
          × Gone user.id d.id db after)
unfolding delete
delete_hands_over hasher drawn user db t =
    elim (get_deleted-IsDeletedAccount hasher drawn user.id db t) [
      | inl (e, h) ↦ inl (e, bind-err (get_deleted hasher drawn) (hand_over user) db db e h)
      | inr (d, db', h, is, same) ↦ inr (
        d,
        remove_journalist user.id (move_to_deleted d.id user.id db'),
        bind-ok (get_deleted hasher drawn) (hand_over user) db db' d h,
        find-removed user.id d db' is,
        elim same [
          | inl e ↦ rw e (
              moved-Gone user.id d.id db is.apart t.unique_files t.unique_messages t.unique_replies)
          | inr e ↦ rw e (
              added-Gone user.id d.id d db _ (
                moved-Gone user.id d.id (add_journalist d db) is.apart t.unique_files
                  t.unique_messages t.unique_replies))
        ],
      )
    ]
