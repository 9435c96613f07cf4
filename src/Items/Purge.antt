-- ===== src/Items/Purge.antt =====
-- What purging the sources that are marked for deletion leaves in the store
-- (securedrop/journalist_app/utils.py, `purge_deleted_sources`).
use ab.Base.{
  any-select-not, any-select-false, Option-cases, ◌≡◌, refl, ap, ◌∙◌, Bool, true, false, not, List,
  [], ◌∷◌, any, select, leb, arith, Bool-cases, inl, inr, All,
}
use ab.Base.Text.{Text, text_eq, text_eq_sound}
use ab.Models.{Source, Db}
use ab.Sources.{is_kept}
use ab.Items.{Web, same_file, exists}
use ab.Items.Collections.{
  get_any_source, delete_collection, deletion_time, insert_source, by_deletion_time, purge_each,
  purge_deleted_sources,
}

-- A directory of the store is empty.
abbrev pub has_files : Text → Web → Bool
has_files filesystem_id web = any (λ f. text_eq f.0 filesystem_id) web.files

has_files-delete_collection :
    (key_error : Bool) (filesystem_id : Text) (web : Web)
    → has_files filesystem_id (delete_collection key_error filesystem_id web).1 ≡ false
unfolding delete_collection
has_files-delete_collection true filesystem_id web =
    any-select-not (λ f. text_eq f.0 filesystem_id) web.files
has_files-delete_collection false filesystem_id web =
    elim (Option-cases (get_any_source filesystem_id web.db)) [
      | inl missing ↦ rw missing (any-select-not (λ f. text_eq f.0 filesystem_id) web.files)
      | inr (s, found) ↦ rw found (any-select-not (λ f. text_eq f.0 filesystem_id) web.files)
    ]

files-delete_collection :
    (key_error : Bool) (filesystem_id : Text) (web : Web)
    → (delete_collection key_error filesystem_id web).1.files
      ≡ select (λ f. not (text_eq f.0 filesystem_id)) web.files
unfolding delete_collection
files-delete_collection true filesystem_id web = refl
files-delete_collection false filesystem_id web =
    elim (Option-cases (get_any_source filesystem_id web.db)) [
      | inl missing ↦ rw missing refl
      | inr (s, found) ↦ rw found refl
    ]

has_files-purge_each :
    (key_error : Text → Bool) (ss : List Source) (filesystem_id : Text) (web : Web)
    → has_files filesystem_id web ≡ false
    → has_files filesystem_id (purge_each key_error ss web) ≡ false
unfolding purge_each
has_files-purge_each key_error [] filesystem_id web h = h
has_files-purge_each key_error (s ∷ ss) filesystem_id web h =
    has_files-purge_each key_error ss filesystem_id _ (
      rw (files-delete_collection (key_error s.filesystem_id) s.filesystem_id web) (
        any-select-false (λ f. text_eq f.0 filesystem_id) (λ f. not (text_eq f.0 s.filesystem_id))
          web.files h))

purge_each-has_files :
    (key_error : Text → Bool) (ss : List Source) (web : Web)
    → All (λ s. has_files s.filesystem_id (purge_each key_error ss web) ≡ false) ss
unfolding purge_each
purge_each-has_files key_error [] web = tt
purge_each-has_files key_error (s ∷ ss) web =
    let web' = (delete_collection (key_error s.filesystem_id) s.filesystem_id web).1 in
    (
      has_files-purge_each key_error ss s.filesystem_id web'
          (has_files-delete_collection (key_error s.filesystem_id) s.filesystem_id web),
      purge_each-has_files key_error ss web',
    )

-- A file of another directory is not touched.
exists-select_other :
    (f : Text × Text) (filesystem_id : Text) (files : List (Text × Text))
    → text_eq f.0 filesystem_id ≡ false
    → exists f (select (λ g. not (text_eq g.0 filesystem_id)) files) ≡ exists f files
unfolding exists
exists-select_other f filesystem_id [] h = refl
exists-select_other f filesystem_id (g ∷ files) h = elim (Bool-cases (same_file g f)) [
  | inl same ↦
      let e = text_eq_sound g.0 f.0 (ground arith) in
      let k : text_eq g.0 filesystem_id ≡ false = rw e h in
      let ih = exists-select_other f filesystem_id files h in rw (k, same) refl
  | inr other ↦ let ih = exists-select_other f filesystem_id files h in ground arith
]

exists-purge_each :
    (key_error : Text → Bool) (ss : List Source) (f : Text × Text) (web : Web)
    → All (λ s. text_eq f.0 s.filesystem_id ≡ false) ss
    → exists f (purge_each key_error ss web).files ≡ exists f web.files
unfolding purge_each
exists-purge_each key_error [] f web h = refl
exists-purge_each key_error (s ∷ ss) f web h =
    exists-purge_each key_error ss f
      (delete_collection (key_error s.filesystem_id) s.filesystem_id web).1 h.1
    ∙ ap (exists f) (files-delete_collection (key_error s.filesystem_id) s.filesystem_id web)
    ∙ exists-select_other f s.filesystem_id web.files h.0

module _ (P : Source → Type 0) where
  insert_source-All : (s : Source) (ts : List Source) → P s → All P ts → All P (insert_source s ts)
  unfolding insert_source
  insert_source-All s [] p a = (p, tt)
  insert_source-All s (t ∷ ts) p a = elim (Bool-cases (leb (deletion_time s) (deletion_time t))) [
    | inl first ↦ rw first (p, a)
    | inr later ↦ rw later (a.0, insert_source-All s ts p a.1)
  ]

  All-insert_source : (s : Source) (ts : List Source) → All P (insert_source s ts) → P s × All P ts
  unfolding insert_source
  All-insert_source s [] a = (a.0, tt)
  All-insert_source s (t ∷ ts) a = elim (Bool-cases (leb (deletion_time s) (deletion_time t))) [
    | inl first ↦ let b : All P (s ∷ t ∷ ts) = rw first at a in b
    | inr later ↦
        let b : All P (t ∷ insert_source s ts) = rw later at a in
        let (p, c) = All-insert_source s ts b.1 in (p, (b.0, c))
  ]

  by_deletion_time-All : (ss : List Source) → All P ss → All P (by_deletion_time ss)
  unfolding by_deletion_time
  by_deletion_time-All [] a = tt
  by_deletion_time-All (s ∷ ss) a =
      insert_source-All s (by_deletion_time ss) a.0 (by_deletion_time-All ss a.1)

  All-by_deletion_time : (ss : List Source) → All P (by_deletion_time ss) → All P ss
  unfolding by_deletion_time
  All-by_deletion_time [] a = tt
  All-by_deletion_time (s ∷ ss) a =
      let (p, b) = All-insert_source s (by_deletion_time ss) a in (p, All-by_deletion_time ss b)

-- The sources that are marked for deletion.
abbrev pub marked_sources : Db → List Source
marked_sources db = select (λ s. not (is_kept s.deleted_at)) db.sources

-- After purging, no source that was marked for deletion has a file in the store, even if the deletion of key
-- pairs raises for some of them, and a file in a directory of no such source is there exactly if it was
-- before.
pub purge_deleted_sources_lem :
    (key_error : Text → Bool) (web : Web) (f : Text × Text)
    → All (λ s. text_eq f.0 s.filesystem_id ≡ false) (marked_sources web.db)
    → All
        (λ s. has_files s.filesystem_id (purge_deleted_sources key_error web) ≡ false)
        (marked_sources web.db)
      × (exists f (purge_deleted_sources key_error web).files ≡ exists f web.files)
unfolding purge_deleted_sources
purge_deleted_sources_lem key_error web f h =
    let ss = by_deletion_time (marked_sources web.db) in
    (
      All-by_deletion_time (λ s. has_files s.filesystem_id (purge_each key_error ss web) ≡ false)
          (marked_sources web.db) (purge_each-has_files key_error ss web),
      exists-purge_each key_error ss f web (
          by_deletion_time-All (λ s. text_eq f.0 s.filesystem_id ≡ false) (marked_sources web.db)
            h),
    )
