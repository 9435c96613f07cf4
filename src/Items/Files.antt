-- ===== src/Items/Files.antt =====
-- Files on their way from the store to the shredder (securedrop/store.py, `Storage.move_to_shredder`).
use ab.Base.{
  any-select-false, any-select-not, ◌≡◌, refl, Bool, true, false, not, ◌&&◌, ◌||◌, List, [], ◌∷◌,
  any, select, arith, if◌then◌else◌, Bool-cases, inl, inr,
}
use ab.Base.Text.{Text, text_eq_sound}
use ab.Items.{Web, same_file, exists, shred}

abbrev pub moved : Text × Text → Web → Web
moved f web = if exists f web.files then shred f web else web

-- The file of an item that is removed is not in the store.
pub exists-moved : (f : Text × Text) (web : Web) → exists f (moved f web).files ≡ false
unfolding exists
exists-moved f web = elim (Bool-cases (any (λ g. same_file g f) web.files)) [
  | inl there ↦ rw there (any-select-not (λ g. same_file g f) web.files)
  | inr missing ↦ rw missing missing
]

pub exists-select-false :
    (g : Text × Text) (q : Text × Text → Bool) (files : List (Text × Text))
    → exists g files ≡ false
    → exists g (select q files) ≡ false
unfolding exists
exists-select-false g q files h = any-select-false (λ x. same_file x g) q files h

pub exists-moved_kept :
    (f g : Text × Text) (web : Web)
    → exists g web.files ≡ false
    → exists g (moved f web).files ≡ false
exists-moved_kept f g web h = elim (Bool-cases (exists f web.files)) [
  | inl there ↦ rw there (exists-select-false g (λ x. not (same_file x f)) web.files h)
  | inr missing ↦ rw missing h
]

-- A file is in the store or waits in the shredder.
abbrev pub is_anywhere : Text × Text → Web → Bool
is_anywhere f web = exists f web.files || exists f web.shredder

pub same_file-eq : (f g h : Text × Text) → same_file h f ≡ true → same_file h g ≡ same_file f g
same_file-eq f g h e =
    let a = text_eq_sound h.0 f.0 (ground arith) in
    let b = text_eq_sound h.1 f.1 (ground arith) in rw (a, b) refl

or_taken : (x y s r : Bool) → (x || (y && s)) ≡ r → (x || (true && s)) ≡ (s || r)
or_taken true y true r h = refl
or_taken false y true r h = refl
or_taken true y false r h = h
or_taken false true false r h = h
or_taken false false false r h = h

or_left : (a x y r : Bool) → (x || y) ≡ r → ((a || x) || y) ≡ (a || r)
or_left true x y r h = refl
or_left false x y r h = h

-- Taking one file out of a list of files.
pub exists-split :
    (f g : Text × Text) (files : List (Text × Text))
    → (exists g (select (λ x. not (same_file x f)) files) || (exists f files && same_file f g))
      ≡ exists g files
unfolding exists
exists-split f g [] = refl
exists-split f g (h ∷ files) = elim (Bool-cases (same_file h f)) [
  | inl same ↦
      let e = same_file-eq f g h same in
      let ih = exists-split f g files in
      rw (same, e)
        (or_taken (exists g (select (λ x. not (same_file x f)) files)) (exists f files)
          (same_file f g) (exists g files) ih)
  | inr other ↦
      let ih = exists-split f g files in
      rw other (
        or_left (same_file h g) (exists g (select (λ x. not (same_file x f)) files))
          (exists f files && same_file f g) (exists g files) ih)
]

pub exists-cons :
    (f g : Text × Text) (files : List (Text × Text))
    → exists g (f ∷ files) ≡ (same_file f g || exists g files)
unfolding exists
exists-cons f g files = refl

pub is_anywhere-moved :
    (f g : Text × Text) (web : Web) → is_anywhere g (moved f web) ≡ is_anywhere g web
is_anywhere-moved f g web = elim (Bool-cases (exists f web.files)) [
  | inl there ↦
      let split = exists-split f g web.files in
      rw (there, exists-cons f g web.shredder) (ground arith)
  | inr missing ↦ rw missing refl
]

pub moved-db : (f : Text × Text) (web : Web) → (moved f web).db ≡ web.db
moved-db f web = elim (Bool-cases (exists f web.files)) [
  | inl there ↦ rw there refl
  | inr missing ↦ rw missing refl
]
