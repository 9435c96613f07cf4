-- ===== src/Rm/Deleted.antt =====
-- Secure deletion deletes what is below a path and nothing else (securedrop/rm.py, `secure_delete`).
use ab.Base.{
  ◌≡◌, refl, sym, ap, ◌∙◌, Bool, true, false, not, ◌||◌, some, List, [], ◌∷◌, ◌++◌, select, arith,
  ok, Bool-cases, inl, inr, All, select_keep, select_none, select-append, bind-ok, IsDistinct,
}
use mathlib.Core.List.{append-nil}
use ab.Base.Text.{Text, text_eq, text_in, text_eq_refl, text_eq_sound}
use ab.Rm.{
  FileSystem, Entries, is_below, walk, directories_of, targets_of, descending, rmdir_all, shred_all,
  secure_delete,
}
use ab.Rm.Order.{descending-IsDescending, text_in-descending}
use ab.Rm.Loops.{done, All_members, rmdir_all-ok, shred_all-ok}
use ab.Rm.Tree.{
  files_of, dirs_of, text_in-append, text_in-targets, text_in-directories, is_below_trans,
  files_of-below, dirs_of-below,
}

-- A statement about members, for each element.
pub All-of_members :
    (P : Text → Type 0) (xs : List Text) → ((p : Text) → text_in p xs ≡ true → P p) → All P xs
unfolding text_in
All-of_members P [] h = tt
All-of_members P (x ∷ xs) h =
    (h x (ground (arith, text_eq_refl x)), All-of_members P xs (λ p m. h p (ground arith)))

-- Dropping the second part of a list, by a list of its members.
pub select_first :
    (xs ys gone : List Text)
    → ((p : Text) → text_in p xs ≡ true → text_in p gone ≡ false)
    → ((p : Text) → text_in p ys ≡ true → text_in p gone ≡ true)
    → select (λ p. not (text_in p gone)) (xs ++ ys) ≡ xs
select_first xs ys gone other all =
    select-append (λ p. not (text_in p gone)) xs ys
    ∙ ap (λ l. select (λ p. not (text_in p gone)) xs ++ l)
        (select_none (λ p. not (text_in p gone)) ys
          (All-of_members (λ p. not (text_in p gone) ≡ false) ys (λ p m. rw (all p m) refl)))
    ∙ append-nil _
    ∙ select_keep (λ p. not (text_in p gone)) xs
        (All-of_members (λ p. not (text_in p gone) ≡ true) xs (λ p m. rw (other p m) refl))

-- The path itself, or what is below it.
abbrev pub is_at : Text → Text → Bool
is_at path p = text_eq p path || is_below path p

-- Nothing of a file system is at a path.
pub record IsOutside (path : Text) (outside : FileSystem) : Type 0 where
  pub files : (p : Text) → text_in p outside.files ≡ true → is_at path p ≡ false
  pub dirs : (p : Text) → text_in p outside.dirs ≡ true → is_at path p ≡ false

-- A file system with a tree at a path.
abbrev pub with_tree : Text → Entries → FileSystem → FileSystem
with_tree path entries outside = record {
  files = outside.files ++ files_of path entries;
  dirs = outside.dirs ++ (path ∷ dirs_of path entries);
}

module _ (path : Text) (entries : Entries) where
  pub files_at : (p : Text) → text_in p (files_of path entries) ≡ true → is_at path p ≡ true
  files_at p m =
      let below =
        All_members (λ p. is_below path p ≡ true) (files_of path entries)
          (files_of-below path entries) p m in
      ground arith

  pub dirs_at : (p : Text) → text_in p (path ∷ dirs_of path entries) ≡ true → is_at path p ≡ true
  unfolding text_in
  dirs_at p m = elim (Bool-cases (text_eq p path)) [
    | inl same ↦ rw same refl
    | inr other ↦
        let below =
          All_members (λ p. is_below path p ≡ true) (dirs_of path entries)
            (dirs_of-below path entries) p (ground arith) in
        ground arith
  ]

  -- What is below a directory of the tree is at the path.
  below_at :
      (d p : Text)
      → text_in d (path ∷ dirs_of path entries) ≡ true
      → is_below d p ≡ true
      → is_at path p ≡ true
  below_at d p m h = elim (Bool-cases (text_eq d path)) [
    | inl same ↦
        let e : is_below d p ≡ is_below path p =
          ap (λ q. is_below q p) (text_eq_sound d path same) in
        ground arith
    | inr other ↦
        let at : is_at path d ≡ true = dirs_at d m in ground (arith, is_below_trans path d p)
  ]

  -- An outside path is not below a directory of the tree.
  pub outside_not_below :
      (d p : Text)
      → text_in d (path ∷ dirs_of path entries) ≡ true
      → is_at path p ≡ false
      → is_below d p ≡ false
  outside_not_below d p m out = elim (Bool-cases (is_below d p)) [
    | inr above ↦ above
    | inl below ↦ let at : is_at path p ≡ true = below_at d p m below in absurd (ground arith)
  ]

module _ (shreds : Text → Bool) (path : Text) (entries : Entries) (outside : FileSystem) where
  abbrev listed : List Text
  listed = descending (directories_of (walk path entries))

  text_in-listed : (p : Text) → text_in p listed ≡ text_in p (path ∷ dirs_of path entries)
  text_in-listed p =
      text_in-descending p (directories_of (walk path entries)) ∙ text_in-directories p path entries

  -- The directories go, from the bottom, when the files are gone.
  dirs_removed :
      IsOutside path outside
      → rmdir_all listed (record (with_tree path entries outside) { files = outside.files })
        ≡ (ok tt, outside)
  dirs_removed out =
      rmdir_all-ok listed (record (with_tree path entries outside) { files = outside.files })
        (descending-IsDescending (directories_of (walk path entries)))
        (λ d m.
          ground
            (arith, text_in-append d outside.dirs (path ∷ dirs_of path entries), text_in-listed d))
        (λ d p m h. outside_not_below path entries d p (sym (text_in-listed d) ∙ m) (out.files p h))
        (λ d p m h. elim (Bool-cases (text_in p (path ∷ dirs_of path entries))) [
          | inl inside ↦ inl (text_in-listed p ∙ inside)
          | inr other ↦
              let there : text_in p outside.dirs ≡ true =
                ground (arith, text_in-append p outside.dirs (path ∷ dirs_of path entries)) in
              inr
                (outside_not_below path entries d p (sym (text_in-listed d) ∙ m) (out.dirs p there))
        ])
      ∙ ap (λ l. done (record outside { dirs = l }))
          (select_first outside.dirs (path ∷ dirs_of path entries) listed
            (λ p m.
              let at : is_at path p ≡ false = out.dirs p m in
              elim (Bool-cases (text_in p (path ∷ dirs_of path entries))) [
                | inr other ↦ text_in-listed p ∙ other
                | inl inside ↦
                    let at' : is_at path p ≡ true = dirs_at path entries p inside in
                    absurd (ground arith)
              ])
            (λ p m. text_in-listed p ∙ m))

  -- The files go first.
  pub files_shredded :
      IsOutside path outside
      → IsDistinct (λ (p : Text). p) (targets_of (walk path entries))
      → ((p : Text) → text_in p (files_of path entries) ≡ true → shreds p ≡ true)
      → shred_all shreds (targets_of (walk path entries)) (with_tree path entries outside)
        ≡ (ok tt, record (with_tree path entries outside) { files = outside.files })
  files_shredded out distinct works =
      shred_all-ok shreds (targets_of (walk path entries)) (with_tree path entries outside) distinct
        (λ t m. ground (
          arith,
          text_in-append t outside.files (files_of path entries),
          text_in-targets t path entries,
        ))
        (λ t m. works t (sym (text_in-targets t path entries) ∙ m))
      ∙ ap (λ l. done (record (with_tree path entries outside) { files = l }))
          (select_first outside.files (files_of path entries) (targets_of (walk path entries))
            (λ p m.
              let at : is_at path p ≡ false = out.files p m in
              elim (Bool-cases (text_in p (files_of path entries))) [
                | inr other ↦ text_in-targets p path entries ∙ other
                | inl inside ↦
                    let at' : is_at path p ≡ true = files_at path entries p inside in
                    absurd (ground arith)
              ])
            (λ p m. text_in-targets p path entries ∙ m))

  -- Secure deletion of a directory raises nothing, deletes every file and every directory of the tree at the path, and
  -- leaves the rest of the file system as it was: if the rest has nothing at the path, if the walk meets
  -- no file twice and if the program works on each file.
  pub secure_delete_lem :
      IsOutside path outside
      → IsDistinct (λ (p : Text). p) (targets_of (walk path entries))
      → ((p : Text) → text_in p (files_of path entries) ≡ true → shreds p ≡ true)
      → secure_delete shreds path (some entries) (with_tree path entries outside) ≡ (ok tt, outside)
  unfolding secure_delete
  secure_delete_lem out distinct works =
      bind-ok (shred_all shreds (targets_of (walk path entries))) (λ u. rmdir_all listed)
        (with_tree path entries outside)
        (record (with_tree path entries outside) { files = outside.files }) tt
        (files_shredded out distinct works)
      ∙ dirs_removed out
