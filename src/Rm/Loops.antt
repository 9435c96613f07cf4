-- ===== src/Rm/Loops.antt =====
-- The two loops of secure deletion (securedrop/rm.py): when they raise nothing, and what is left.
use mathlib.Core.Path.{subst}
use ab.Base.{
  ◌≡◌, ◌≢◌, refl, sym, ap, ◌∙◌, Bool, true, false, not, ◌&&◌, ◌||◌, List, [], ◌∷◌, any, select,
  arith, Result, ok, Bool-cases, inl, inr, ◌⊎◌, All, All-intro, select_keep, select_congr,
  select-select, bind-ok, IsDistinct,
}
use ab.Base.Text.{Text, text_eq, text_in, text_eq_refl, text_eq_sound}
use ab.Rm.{RmError, FileSystem, is_below, text_lt, without_path, rmdir, rmdir_all, shred, shred_all}
use ab.Rm.Order.{IsDescending, below_lt, text_lt_irrefl, text_lt_trans}

abbrev pub done : FileSystem → Result RmError (Unit {0}) × FileSystem
done fs = (ok tt, fs)

-- A test that no member passes.
pub any-false :
    (p : Text → Bool) (xs : List Text)
    → ((x : Text) → text_in x xs ≡ true → p x ≡ false)
    → any p xs ≡ false
unfolding text_in
any-false p [] h = refl
any-false p (x ∷ xs) h =
    let head : p x ≡ false = h x (ground (arith, text_eq_refl x)) in
    let rest : any p xs ≡ false = any-false p xs (λ y m. h y (ground arith)) in ground arith

pub All_members :
    (P : Text → Type 0) (xs : List Text) → All P xs → (x : Text) → text_in x xs ≡ true → P x
unfolding text_in
All_members P [] h x m = absurd (cc)
All_members P (y ∷ xs) h x m = elim (Bool-cases (text_eq x y)) [
  | inl same ↦ subst P (sym (text_eq_sound x y same)) h.0
  | inr other ↦ All_members P xs h.1 x (ground arith)
]

text_in-without :
    (x path : Text) (xs : List Text)
    → text_in x (without_path path xs) ≡ (not (text_eq x path) && text_in x xs)
unfolding text_in
text_in-without x path [] = ground arith
text_in-without x path (y ∷ xs) = elim (Bool-cases (text_eq y path)) [
  | inl same ↦
      let e : text_eq x y ≡ text_eq x path = ap (text_eq x) (text_eq_sound y path same) in
      ground (arith, text_in-without x path xs)
  | inr other ↦ elim (Bool-cases (text_eq x y)) [
    | inl hit ↦
        let e : text_eq x path ≡ text_eq y path =
          ap (λ s. text_eq s path) (text_eq_sound x y hit) in
        ground (arith, text_in-without x path xs)
    | inr miss ↦ ground (arith, text_in-without x path xs)
  ]
]

lt_ne : (s t : Text) → text_lt s t ≡ true → text_eq s t ≡ false
lt_ne s t lt = elim (Bool-cases (text_eq s t)) [
  | inr other ↦ other
  | inl same ↦
      let e : text_lt s t ≡ text_lt t t = ap (λ u. text_lt u t) (text_eq_sound s t same) in
      absurd (ground (arith, text_lt_irrefl t))
]

text_ne : (s t : Text) → s ≢ t → text_eq s t ≡ false
text_ne s t ne = elim (Bool-cases (text_eq s t)) [
  | inr other ↦ other
  | inl same ↦ absurd (ne (text_eq_sound s t same))
]

rmdir-ok :
    (d : Text) (fs : FileSystem)
    → text_in d fs.dirs ≡ true
    → any (is_below d) fs.files ≡ false
    → any (is_below d) fs.dirs ≡ false
    → rmdir d fs ≡ (ok tt, record fs { dirs = without_path d fs.dirs })
unfolding rmdir
rmdir-ok d fs there no_files no_dirs = ground arith

-- Nothing that comes before a directory, nor itself, is below it.
pub not_below : (d p : Text) → (text_eq p d || text_lt p d) ≡ true → is_below d p ≡ false
not_below d p h = elim (Bool-cases (is_below d p)) [
  | inr no_path ↦ no_path
  | inl below ↦
      let later : text_lt d p ≡ true = below_lt d p below in
      absurd (elim (Bool-cases (text_eq p d)) [
        | inl same ↦
            let e : text_lt d p ≡ text_lt d d = ap (text_lt d) (text_eq_sound p d same) in
            ground (arith, text_lt_irrefl d)
        | inr other ↦
            let earlier : text_lt p d ≡ true = ground arith in
            ground (arith, text_lt_trans d p d later earlier, text_lt_irrefl d)
      ])
]

-- Directories that are removed in descending order are empty when their turn comes, if no file and no other directory is
-- below one of them.
pub rmdir_all-ok :
    (ds : List Text) (fs : FileSystem)
    → IsDescending ds
    → ((d : Text) → text_in d ds ≡ true → text_in d fs.dirs ≡ true)
    → ((d p : Text) → text_in d ds ≡ true → text_in p fs.files ≡ true → is_below d p ≡ false)
    → ((d p : Text)
        → text_in d ds ≡ true
        → text_in p fs.dirs ≡ true
        → (text_in p ds ≡ true) ⊎ (is_below d p ≡ false))
    → rmdir_all ds fs ≡ (ok tt, record fs { dirs = select (λ p. not (text_in p ds)) fs.dirs })
unfolding rmdir_all text_in
rmdir_all-ok [] fs desc there files dirs =
    let same : select (λ p. not (text_in p [])) fs.dirs ≡ fs.dirs =
      select_keep (λ p. not (text_in p [])) fs.dirs
        (All-intro (λ p. not (text_in p []) ≡ true) (λ p. refl) fs.dirs) in
    ground arith
rmdir_all-ok (d ∷ ds) fs desc there files dirs =
    let now : text_in d (d ∷ ds) ≡ true = ground (arith, text_eq_refl d) in
    let no_files : any (is_below d) fs.files ≡ false =
      any-false (is_below d) fs.files (λ p m. files d p now m) in
    let no_dirs : any (is_below d) fs.dirs ≡ false = any-false (is_below d) fs.dirs (λ p m.
      elim (dirs d p now m) [
        | inr below ↦ below
        | inl listed ↦ not_below d p (elim (Bool-cases (text_eq p d)) [
          | inl same ↦ rw same refl
          | inr other ↦ rw other (All_members (λ q. text_lt q d ≡ true) ds desc.0 p (ground arith))
        ])
      ]) in
    let next : FileSystem = record fs { dirs = without_path d fs.dirs } in
    let step = rmdir-ok d fs (there d now) no_files no_dirs in
    let rest =
      rmdir_all-ok ds next desc.1
        (λ e m.
          let lt : text_lt e d ≡ true = All_members (λ q. text_lt q d ≡ true) ds desc.0 e m in
          let ne : text_eq e d ≡ false = lt_ne e d lt in
          let old : text_in e fs.dirs ≡ true = there e (ground arith) in
          ground (arith, text_in-without e d fs.dirs))
        (λ e p m h. files e p (ground arith) h)
        (λ e p m h.
          let both : (not (text_eq p d) && text_in p fs.dirs) ≡ true =
            sym (text_in-without p d fs.dirs) ∙ h in
          elim (dirs e p (ground arith) (ground arith)) [
            | inr below ↦ inr below
            | inl listed ↦ inl (ground arith)
          ]) in
    let left : select (λ p. not (text_in p ds)) (without_path d fs.dirs)
        ≡ select (λ p. not (text_in p (d ∷ ds))) fs.dirs =
      select-select (λ p. not (text_in p ds)) (λ p. not (text_eq p d)) fs.dirs
      ∙ select_congr _ _ fs.dirs (
          All-intro (λ p. (not (text_eq p d) && not (text_in p ds)) ≡ not (text_in p (d ∷ ds)))
            (λ p. ground arith) fs.dirs) in
    bind-ok (rmdir d) (λ u. rmdir_all ds) fs next tt step
    ∙ rest
    ∙ ap (λ l. done (record fs { dirs = l })) left

module _ (shreds : Text → Bool) where
  pub shred-ok :
      (t : Text) (fs : FileSystem)
      → text_in t fs.files ≡ true
      → shreds t ≡ true
      → shred shreds t fs ≡ (ok tt, record fs { files = without_path t fs.files })
  unfolding shred
  shred-ok t fs there works = ground arith

  -- Files that are there, once each, are deleted where the program works.
  pub shred_all-ok :
      (ts : List Text) (fs : FileSystem)
      → IsDistinct (λ (p : Text). p) ts
      → ((t : Text) → text_in t ts ≡ true → text_in t fs.files ≡ true)
      → ((t : Text) → text_in t ts ≡ true → shreds t ≡ true)
      → shred_all shreds ts fs
        ≡ (ok tt, record fs { files = select (λ p. not (text_in p ts)) fs.files })
  unfolding shred_all text_in
  shred_all-ok [] fs distinct there works =
      let same : select (λ p. not (text_in p [])) fs.files ≡ fs.files =
        select_keep (λ p. not (text_in p [])) fs.files
          (All-intro (λ p. not (text_in p []) ≡ true) (λ p. refl) fs.files) in
      ground arith
  shred_all-ok (t ∷ ts) fs distinct there works =
      let now : text_in t (t ∷ ts) ≡ true = ground (arith, text_eq_refl t) in
      let next : FileSystem = record fs { files = without_path t fs.files } in
      let step = shred-ok t fs (there t now) (works t now) in
      let rest =
        shred_all-ok ts next distinct.1
          (λ u m.
            let ne : text_eq u t ≡ false =
              text_ne u t (All_members (λ y. y ≢ t) ts distinct.0 u m) in
            let old : text_in u fs.files ≡ true = there u (ground arith) in
            ground (arith, text_in-without u t fs.files))
          (λ u m. works u (ground arith)) in
      let left : select (λ p. not (text_in p ts)) (without_path t fs.files)
          ≡ select (λ p. not (text_in p (t ∷ ts))) fs.files =
        select-select (λ p. not (text_in p ts)) (λ p. not (text_eq p t)) fs.files
        ∙ select_congr _ _ fs.files (
            All-intro (λ p. (not (text_eq p t) && not (text_in p ts)) ≡ not (text_in p (t ∷ ts)))
              (λ p. ground arith) fs.files) in
      bind-ok (shred shreds t) (λ u. shred_all shreds ts) fs next tt step
      ∙ rest
      ∙ ap (λ l. done (record fs { files = l })) left
