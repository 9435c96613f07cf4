-- ===== src/Rm/Cleared.antt =====
-- Clearing the shredder deletes all that is in it (securedrop/store.py, `clear_shredder`).
use mathlib.Core.List.{append_assoc}
use ab.Base.{
  select_keep, ◌≡◌, refl, sym, ap, ◌∙◌, Bool, true, false, not, ◌||◌, none, List, [], ◌∷◌, ◌++◌,
  map, select, arith, Result, ok, err, Exec, pure, Bool-cases, inl, inr, bind-ok, IsDistinct, ◌>>=◌,
  ◌>>◌,
}
use ab.Base.Text.{Text, text_eq, text_in, text_eq_refl, text_eq_sound}
use ab.Rm.{
  shredder_contains, RmError, shred, text_lt, FileSystem, Entries, nothing, file, dir, join, Walked,
  subdir_names, is_below, walk_below, walk, targets_of, subdirs_of, descending, rmdir_all,
  shred_all, secure_delete, secure_delete_all, clear_shredder,
}
use ab.Rm.Order.{descending-IsDescending, text_in-descending}
use ab.Rm.Loops.{done, All_members, not_below, rmdir_all-ok}
use ab.Rm.Tree.{text_in-targets, dirs_of, files_of, text_in-append, is_below_trans, dirs_of-below}
use ab.Rm.Deleted.{
  All-of_members, files_at, is_at, IsOutside, with_tree, select_first, dirs_at, outside_not_below,
  files_shredded,
}

abbrev RmM : Type 0
RmM = Exec RmError FileSystem (Unit {0})

text_eq_or : (p : Text) → (text_eq p p || text_lt p p) ≡ true
text_eq_or p = rw (text_eq_refl p) refl

module _ where
  subdirs_of-append :
      (p : Text) (vs ws : List Walked)
      → text_in p (subdirs_of (vs ++ ws)) ≡ (text_in p (subdirs_of vs) || text_in p (subdirs_of ws))
  unfolding text_in
  subdirs_of-append p [] ws = refl
  subdirs_of-append p (v ∷ vs) ws = ground (
    arith,
    subdirs_of-append p vs ws,
    text_in-append p (map (join v.directory) v.subdirs) (subdirs_of (vs ++ ws)),
    text_in-append p (map (join v.directory) v.subdirs) (subdirs_of vs),
  )

  subdirs_below :
      (p path : Text) (entries : Entries)
      → (text_in p (map (join path) (subdir_names entries))
          || text_in p (subdirs_of (walk_below path entries)))
        ≡ text_in p (dirs_of path entries)
  unfolding dirs_of walk_below text_in
  subdirs_below p path nothing = refl
  subdirs_below p path (file name rest) = ground (arith, subdirs_below p path rest)
  subdirs_below p path (dir name inside rest) = ground (
    arith,
    subdirs_below p path rest,
    subdirs_below p (join path name) inside,
    text_in-append p (dirs_of (join path name) inside) (dirs_of path rest),
    text_in-append p (map (join (join path name)) (subdir_names inside))
        (subdirs_of (walk_below (join path name) inside ++ walk_below path rest)),
    subdirs_of-append p (walk_below (join path name) inside) (walk_below path rest),
  )

  -- The subdirectories that the loop collects are those of the tree, without the path itself.
  text_in-subdirs :
      (p path : Text) (entries : Entries)
      → text_in p (subdirs_of (walk path entries)) ≡ text_in p (dirs_of path entries)
  unfolding walk
  text_in-subdirs p path entries =
      text_in-append p (map (join path) (subdir_names entries)) _ ∙ subdirs_below p path entries

module _ (shreds : Text → Bool) where
  -- A step of a chain, from its outcome.
  abbrev then_run :
      RmM → Result RmError (Unit {0}) × FileSystem → Result RmError (Unit {0}) × FileSystem
  then_run rest o = ((λ (s : FileSystem). o) >>= λ u. rest) o.1

  then_run_congr :
      (f g : RmM) (o : Result RmError (Unit {0}) × FileSystem)
      → ((s : FileSystem) → f s ≡ g s)
      → then_run f o ≡ then_run g o
  then_run_congr f g (ok u, s) h = h s
  then_run_congr f g (err e, s) h = refl

  pure_after :
      (o : Result RmError (Unit {0}) × FileSystem) → then_run (pure tt) (then_run (pure tt) o) ≡ o
  pure_after (ok u, s) = refl
  pure_after (err e, s) = refl

  secure_delete-file :
      (t : Text) (fs : FileSystem) → secure_delete shreds t none fs ≡ shred shreds t fs
  unfolding secure_delete shred_all rmdir_all descending
  secure_delete-file t fs = pure_after (shred shreds t fs)

  -- Deleting files one by one is shredding them.
  secure_delete_all-shred_all :
      (ts : List Text) (fs : FileSystem) → secure_delete_all shreds ts fs ≡ shred_all shreds ts fs
  unfolding secure_delete_all shred_all
  secure_delete_all-shred_all [] fs = refl
  secure_delete_all-shred_all (t ∷ ts) fs =
      ap (then_run (secure_delete_all shreds ts)) (secure_delete-file t fs)
      ∙ then_run_congr (secure_delete_all shreds ts) (shred_all shreds ts) (shred shreds t fs)
          (secure_delete_all-shred_all ts)

module _ (path : Text) (entries : Entries) where
  abbrev subdirs : List Text
  subdirs = descending (subdirs_of (walk path entries))

  text_in-subdirs_sorted : (p : Text) → text_in p subdirs ≡ text_in p (dirs_of path entries)
  text_in-subdirs_sorted p =
      text_in-descending p (subdirs_of (walk path entries)) ∙ text_in-subdirs p path entries

  abbrev Within : Text → Type 0
  Within d = text_in d (path ∷ dirs_of path entries) ≡ true

  Within-of : (d : Text) → text_in d subdirs ≡ true → Within d
  unfolding text_in
  Within-of d m = ground (arith, text_in-subdirs_sorted d)

  -- The shredder's own path is below none of its directories.
  path_not_below : (d : Text) → text_in d subdirs ≡ true → is_below d path ≡ false
  path_not_below d m = elim (Bool-cases (is_below d path)) [
    | inr above ↦ above
    | inl below ↦
        let inside : is_below path d ≡ true =
          All_members (λ p. is_below path p ≡ true) (dirs_of path entries)
            (dirs_of-below path entries) d (sym (text_in-subdirs_sorted d) ∙ m) in
        let round : is_below path path ≡ true = is_below_trans path d path inside below in
        absurd (ground (arith, round, not_below path path (text_eq_or path)))
  ]

  Within-of_dirs : (d : Text) → text_in d (dirs_of path entries) ≡ true → Within d
  unfolding text_in
  Within-of_dirs d m = ground arith

  own_path_outside :
      (p : Text) → text_in p (dirs_of path entries) ≡ true → text_eq p path ≡ true → ⊥
  own_path_outside p m same =
      let inside : is_below path p ≡ true =
        All_members (λ p. is_below path p ≡ true) (dirs_of path entries)
          (dirs_of-below path entries) p m in
      let e : is_below path p ≡ is_below path path =
        ap (is_below path) (text_eq_sound p path same) in
      ground (arith, not_below path path (text_eq_or path))

  all_contained :
      (l : List Text)
      → ((p : Text) → text_in p l ≡ true → is_at path p ≡ true)
      → select (shredder_contains path) l ≡ l
  all_contained l at =
      select_keep (shredder_contains path) l
        (All-of_members (λ p. shredder_contains path p ≡ true) l at)

  targets_contained :
      select (shredder_contains path) (targets_of (walk path entries))
      ≡ targets_of (walk path entries)
  targets_contained =
      all_contained (targets_of (walk path entries))
        (λ p m. files_at path entries p (sym (text_in-targets p path entries) ∙ m))

  subdirs_contained :
      select (shredder_contains path) (subdirs_of (walk path entries))
      ≡ subdirs_of (walk path entries)
  subdirs_contained = all_contained (subdirs_of (walk path entries)) (λ p m.
      dirs_at path entries p
        (Within-of p (text_in-descending p (subdirs_of (walk path entries)) ∙ m)))

module _ (shreds : Text → Bool) (path : Text) (entries : Entries) (outside : FileSystem) where
  abbrev cleared : FileSystem
  cleared = record outside { dirs = outside.dirs ++ (path ∷ []) }

  abbrev emptied : FileSystem
  emptied = record (with_tree path entries outside) { files = outside.files }

  abbrev clear_shredder_of : List Text → List Text → RmM
  clear_shredder_of targets directories = do
    secure_delete_all shreds targets
    rmdir_all (descending directories)

  text_in-kept :
      (p : Text)
      → text_in p (outside.dirs ++ (path ∷ [])) ≡ (text_in p outside.dirs || text_eq p path)
  unfolding text_in
  text_in-kept p = ground (arith, text_in-append p outside.dirs (path ∷ []))

  kept_dirs :
      IsOutside path outside
      → (p : Text) → text_in p (outside.dirs ++ (path ∷ [])) ≡ true
      → text_in p (dirs_of path entries) ≡ false
  kept_dirs out p m = elim (Bool-cases (text_in p (dirs_of path entries))) [
    | inr other ↦ other
    | inl inside ↦
        let at : is_at path p ≡ true =
          dirs_at path entries p (Within-of_dirs path entries p inside) in
        elim (Bool-cases (text_in p outside.dirs)) [
          | inl there ↦ let off : is_at path p ≡ false = out.dirs p there in absurd (ground arith)
          | inr gone ↦
              let same : text_eq p path ≡ true = ground (arith, text_in-kept p) in
              absurd (own_path_outside path entries p inside same)
        ]
  ]

  own_path :
      (p : Text)
      → text_in p (outside.dirs ++ (path ∷ dirs_of path entries)) ≡ true
      → text_in p (subdirs path entries) ≡ false
      → text_in p outside.dirs ≡ false
      → text_eq p path ≡ true
  unfolding text_in
  own_path p h other gone = ground (
    arith,
    text_in-append p outside.dirs (path ∷ dirs_of path entries),
    text_in-subdirs_sorted path entries p,
  )

  subdirs_removed :
      IsOutside path outside → rmdir_all (subdirs path entries) emptied ≡ (ok tt, cleared)
  subdirs_removed out =
      rmdir_all-ok (subdirs path entries) emptied
        (descending-IsDescending (subdirs_of (walk path entries)))
        (λ d m. ground (
          arith,
          text_in-append d outside.dirs (path ∷ dirs_of path entries),
          Within-of path entries d m,
        ))
        (λ d p m h. outside_not_below path entries d p (Within-of path entries d m) (out.files p h))
        (λ d p m h. elim (Bool-cases (text_in p (subdirs path entries))) [
          | inl inside ↦ inl inside
          | inr other ↦ inr (elim (Bool-cases (text_in p outside.dirs)) [
            | inl there ↦
                outside_not_below path entries d p (Within-of path entries d m) (out.dirs p there)
            | inr gone ↦
                let same : text_eq p path ≡ true = own_path p h other gone in
                ap (is_below d) (text_eq_sound p path same) ∙ path_not_below path entries d m
          ])
        ])
      ∙ ap (λ l. done (record outside { dirs = l }))
          (ap (select (λ p. not (text_in p (subdirs path entries))))
              (sym (append_assoc outside.dirs (path ∷ []) (dirs_of path entries)))
            ∙ select_first (outside.dirs ++ (path ∷ [])) (dirs_of path entries)
                (subdirs path entries)
                (λ p m. text_in-subdirs_sorted path entries p ∙ kept_dirs out p m)
                (λ p m. text_in-subdirs_sorted path entries p ∙ m))

  -- Clearing the shredder raises nothing, deletes every file and every directory in it, and leaves the shredder's own
  -- directory and the rest of the file system as they were: if the rest has nothing at the path, if the walk
  -- meets no file twice and if the program works on each file.
  pub clear_shredder_lem :
      IsOutside path outside
      → IsDistinct (λ (p : Text). p) (targets_of (walk path entries))
      → ((p : Text) → text_in p (files_of path entries) ≡ true → shreds p ≡ true)
      → clear_shredder shreds path entries (with_tree path entries outside)
        ≡ (ok tt, record outside { dirs = outside.dirs ++ (path ∷ []) })
  unfolding clear_shredder
  clear_shredder_lem out distinct works =
      ap
        (λ l.
          clear_shredder_of l (select (shredder_contains path) (subdirs_of (walk path entries)))
            (with_tree path entries outside))
        (targets_contained path entries)
      ∙ ap
          (λ l.
            clear_shredder_of (targets_of (walk path entries)) l (with_tree path entries outside))
          (subdirs_contained path entries)
      ∙ bind-ok (secure_delete_all shreds (targets_of (walk path entries)))
          (λ u. rmdir_all (subdirs path entries)) (with_tree path entries outside) emptied tt
          (secure_delete_all-shred_all shreds (targets_of (walk path entries))
              (with_tree path entries outside)
            ∙ files_shredded shreds path entries outside out distinct works)
      ∙ subdirs_removed out
