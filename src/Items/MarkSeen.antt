-- ===== src/Items/MarkSeen.antt =====
-- Marking items as seen (securedrop/journalist_app/utils.py, `mark_seen`).
use ab.Base.{
  ℕ, ◌≡◌, refl, ap, Bool, true, not, ◌||◌, List, [], ◌∷◌, all, ◌==◌, arith, if◌then◌else◌,
  Bool-cases, inl, inr, All,
}
use ab.Models.{Submission, Seen, Db}
use ab.Deletion.{has_seen}
use ab.Deletion.Rows.{UniqueSeen}
use ab.Store.{Item, submission, reply, is_file, is_message}
use ab.Items.{seen_row, set_downloaded, mark_item, mark_seen}

-- A submission is downloaded wherever it stands.
abbrev pub all_downloaded : ℕ → List Submission → Bool
all_downloaded id = all (λ s. not (s.id == id) || s.downloaded)

-- Whether nothing is left to mark: a file, a message or a reply is seen by the user, any other submission
-- is downloaded.
unfoldable pub is_marked : ℕ → Item → Db → Bool
is_marked user (submission s) db =
    if is_file s.filename
    then has_seen s.id user db.seen_files
    else if is_message s.filename
    then has_seen s.id user db.seen_messages
    else all_downloaded s.id db.submissions
is_marked user (reply r) db = has_seen r.id user db.seen_replies

set_downloaded-fixed :
    (id : ℕ) (ss : List Submission) → all_downloaded id ss ≡ true → set_downloaded id ss ≡ ss
unfolding set_downloaded
set_downloaded-fixed id [] h = refl
set_downloaded-fixed id (s ∷ ss) h =
    let rest = set_downloaded-fixed id ss (ground arith) in ground arith

all_downloaded-set_downloaded :
    (id : ℕ) (ss : List Submission) → all_downloaded id (set_downloaded id ss) ≡ true
unfolding set_downloaded
all_downloaded-set_downloaded id [] = refl
all_downloaded-set_downloaded id (s ∷ ss) = ground (arith, all_downloaded-set_downloaded id ss)

all_downloaded-kept :
    (id other : ℕ) (ss : List Submission)
    → all_downloaded id ss ≡ true
    → all_downloaded id (set_downloaded other ss) ≡ true
unfolding set_downloaded
all_downloaded-kept id other [] h = refl
all_downloaded-kept id other (s ∷ ss) h = ground (arith, all_downloaded-kept id other ss)

has_seen-head_row :
    (item user : ℕ) (rows : List Seen) → has_seen item user (seen_row item user ∷ rows) ≡ true
unfolding has_seen
has_seen-head_row item user rows = ground arith

has_seen-tail_row :
    (item user : ℕ) (r : Seen) (rows : List Seen)
    → has_seen item user rows ≡ true
    → has_seen item user (r ∷ rows) ≡ true
unfolding has_seen
has_seen-tail_row item user r rows h = ground arith

mark_item-is_marked :
    (user : ℕ) (item : Item) (db : Db) → is_marked user item (mark_item user item db) ≡ true
unfolding is_marked mark_item
mark_item-is_marked user (submission s) db = ground (
  arith,
  has_seen-head_row s.id user db.seen_files,
  has_seen-head_row s.id user db.seen_messages,
  all_downloaded-set_downloaded s.id db.submissions,
)
mark_item-is_marked user (reply r) db = ground (arith, has_seen-head_row r.id user db.seen_replies)

-- An item that is marked is left as it is.
mark_item-fixed :
    (user : ℕ) (item : Item) (db : Db) → is_marked user item db ≡ true → mark_item user item db ≡ db
unfolding is_marked mark_item
mark_item-fixed user (submission s) db h = elim (Bool-cases (is_file s.filename)) [
  | inl f ↦ let seen : has_seen s.id user db.seen_files ≡ true = rw f at h in rw (f, seen) refl
  | inr f ↦ elim (Bool-cases (is_message s.filename)) [
    | inl m ↦
        let seen : has_seen s.id user db.seen_messages ≡ true = rw (f, m) at h in
        rw (f, m, seen) refl
    | inr m ↦
        let all : all_downloaded s.id db.submissions ≡ true = rw (f, m) at h in
        rw (f, m)
          (ap (λ ss. record db { submissions = ss }) (set_downloaded-fixed s.id db.submissions all))
  ]
]
mark_item-fixed user (reply r) db h = rw h refl

-- Marking one item leaves the marks of the others.
mark_item-kept :
    (user : ℕ) (item other : Item) (db : Db)
    → is_marked user other db ≡ true
    → is_marked user other (mark_item user item db) ≡ true
unfolding is_marked mark_item
mark_item-kept user (submission s) (submission t) db h = ground (
  arith,
  has_seen-tail_row t.id user (seen_row s.id user) db.seen_files,
  has_seen-tail_row t.id user (seen_row s.id user) db.seen_messages,
  all_downloaded-kept t.id s.id db.submissions,
)
mark_item-kept user (submission s) (reply r) db h = ground arith
mark_item-kept user (reply r) (submission t) db h = ground arith
mark_item-kept user (reply r) (reply q) db h =
    ground (arith, has_seen-tail_row q.id user (seen_row r.id user) db.seen_replies)

-- No one has seen an item twice.
unfoldable pub SeenOnce : Db → Type 0
SeenOnce db = UniqueSeen db.seen_files × UniqueSeen db.seen_messages × UniqueSeen db.seen_replies

mark_item-SeenOnce :
    (user : ℕ) (item : Item) (db : Db) → SeenOnce db → SeenOnce (mark_item user item db)
unfolding mark_item SeenOnce
mark_item-SeenOnce user (submission s) db (a, b, c) = elim (Bool-cases (is_file s.filename)) [
  | inl f ↦ elim (Bool-cases (has_seen s.id user db.seen_files)) [
    | inl seen ↦ rw (f, seen) (a, b, c)
    | inr new ↦ rw (f, new) ((new, a), b, c)
  ]
  | inr f ↦ elim (Bool-cases (is_message s.filename)) [
    | inl m ↦ elim (Bool-cases (has_seen s.id user db.seen_messages)) [
      | inl seen ↦ rw (f, m, seen) (a, b, c)
      | inr new ↦ rw (f, m, new) (a, (new, b), c)
    ]
    | inr m ↦ rw (f, m) (a, b, c)
  ]
]
mark_item-SeenOnce user (reply r) db (a, b, c) =
    elim (Bool-cases (has_seen r.id user db.seen_replies)) [
      | inl seen ↦ rw seen (a, b, c)
      | inr new ↦ rw new (a, b, (new, c))
    ]

mark_seen-kept :
    (user : ℕ) (items : List Item) (other : Item) (db : Db)
    → is_marked user other db ≡ true
    → is_marked user other (mark_seen user items db) ≡ true
unfolding mark_seen
mark_seen-kept user [] other db h = h
mark_seen-kept user (item ∷ items) other db h =
    mark_seen-kept user items other (mark_item user item db) (mark_item-kept user item other db h)

mark_seen-is_marked :
    (user : ℕ) (items : List Item) (db : Db)
    → All (λ i. is_marked user i (mark_seen user items db) ≡ true) items
unfolding mark_seen
mark_seen-is_marked user [] db = tt
mark_seen-is_marked user (item ∷ items) db = (
  mark_seen-kept user items item (mark_item user item db) (mark_item-is_marked user item db),
  mark_seen-is_marked user items (mark_item user item db),
)

mark_seen-SeenOnce :
    (user : ℕ) (items : List Item) (db : Db) → SeenOnce db → SeenOnce (mark_seen user items db)
unfolding mark_seen
mark_seen-SeenOnce user [] db h = h
mark_seen-SeenOnce user (item ∷ items) db h =
    mark_seen-SeenOnce user items (mark_item user item db) (mark_item-SeenOnce user item db h)

mark_seen-fixed :
    (user : ℕ) (items : List Item) (db : Db)
    → All (λ i. is_marked user i db ≡ true) items
    → mark_seen user items db ≡ db
unfolding mark_seen
mark_seen-fixed user [] db h = refl
mark_seen-fixed user (item ∷ items) db h =
    rw (mark_item-fixed user item db h.0) (mark_seen-fixed user items db h.1)

-- After a call of `mark_seen` every item of it is marked for the user, whatever its kind, no one has seen an
-- item twice if that was so before, and the same call again changes nothing.
pub mark_seen_lem :
    (user : ℕ) (items : List Item) (db : Db)
    → SeenOnce db
    → All (λ i. is_marked user i (mark_seen user items db) ≡ true) items
      × SeenOnce (mark_seen user items db)
      × (mark_seen user items (mark_seen user items db) ≡ mark_seen user items db)
mark_seen_lem user items db h =
    let marked = mark_seen-is_marked user items db in
    (
      marked,
      mark_seen-SeenOnce user items db h,
      mark_seen-fixed user items (mark_seen user items db) marked,
    )
