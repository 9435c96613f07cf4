-- ===== src/Rm/Tree.antt =====
-- What the walk over a directory finds (securedrop/rm.py): every file and every directory below it.
use ab.Base.{
  ◌≡◌, refl, ap, ◌∙◌, true, ◌||◌, List, [], ◌∷◌, ◌++◌, map, arith, All, All-append, All-map,
}
use ab.Base.Text.{Text, text_eq, text_in}
use ab.Sessions.{starts_with}
use ab.Rm.{
  Entries, nothing, file, dir, join, is_below, Walked, subdir_names, file_names, walk_below, walk,
  directories_of, targets_of,
}

-- The paths that a tree stands for.
unfoldable pub files_of : Text → Entries → List Text
files_of path nothing = []
files_of path (file name rest) = join path name ∷ files_of path rest
files_of path (dir name inside rest) = files_of (join path name) inside ++ files_of path rest

unfoldable pub dirs_of : Text → Entries → List Text
dirs_of path nothing = []
dirs_of path (file name rest) = dirs_of path rest
dirs_of path (dir name inside rest) =
    join path name ∷ (dirs_of (join path name) inside ++ dirs_of path rest)

pub text_in-append :
    (p : Text) (xs ys : List Text) → text_in p (xs ++ ys) ≡ (text_in p xs || text_in p ys)
unfolding text_in
text_in-append p [] ys = refl
text_in-append p (x ∷ xs) ys = ground (arith, text_in-append p xs ys)

targets_of-append :
    (p : Text) (vs ws : List Walked)
    → text_in p (targets_of (vs ++ ws)) ≡ (text_in p (targets_of vs) || text_in p (targets_of ws))
unfolding targets_of text_in
targets_of-append p [] ws = refl
targets_of-append p (v ∷ vs) ws = ground (
  arith,
  targets_of-append p vs ws,
  text_in-append p (map (join v.directory) v.files) (targets_of (vs ++ ws)),
  text_in-append p (map (join v.directory) v.files) (targets_of vs),
)

directories_of-append :
    (p : Text) (vs ws : List Walked)
    → text_in p (directories_of (vs ++ ws))
      ≡ (text_in p (directories_of vs) || text_in p (directories_of ws))
unfolding directories_of text_in
directories_of-append p [] ws = refl
directories_of-append p (v ∷ vs) ws = ground (
  arith,
  directories_of-append p vs ws,
  text_in-append p (map (join v.directory) v.subdirs) (directories_of (vs ++ ws)),
  text_in-append p (map (join v.directory) v.subdirs) (directories_of vs),
)

targets_below :
    (p path : Text) (entries : Entries)
    → (text_in p (map (join path) (file_names entries))
        || text_in p (targets_of (walk_below path entries)))
      ≡ text_in p (files_of path entries)
unfolding files_of walk_below text_in targets_of
targets_below p path nothing = refl
targets_below p path (file name rest) = ground (arith, targets_below p path rest)
targets_below p path (dir name inside rest) = ground (
  arith,
  targets_below p path rest,
  targets_below p (join path name) inside,
  text_in-append p (files_of (join path name) inside) (files_of path rest),
  text_in-append p (map (join (join path name)) (file_names inside))
      (targets_of (walk_below (join path name) inside ++ walk_below path rest)),
  targets_of-append p (walk_below (join path name) inside) (walk_below path rest),
)

directories_below :
    (p path : Text) (entries : Entries)
    → (text_in p (map (join path) (subdir_names entries))
        || text_in p (directories_of (walk_below path entries)))
      ≡ text_in p (dirs_of path entries)
unfolding dirs_of walk_below text_in directories_of
directories_below p path nothing = refl
directories_below p path (file name rest) = ground (arith, directories_below p path rest)
directories_below p path (dir name inside rest) = ground (
  arith,
  directories_below p path rest,
  directories_below p (join path name) inside,
  text_in-append p (dirs_of (join path name) inside) (dirs_of path rest),
  text_in-append p (map (join (join path name)) (subdir_names inside))
      (directories_of (walk_below (join path name) inside ++ walk_below path rest)),
  directories_of-append p (walk_below (join path name) inside) (walk_below path rest),
)

-- The targets are the files, and the directories those of the tree and the path itself.
pub text_in-targets :
    (p path : Text) (entries : Entries)
    → text_in p (targets_of (walk path entries)) ≡ text_in p (files_of path entries)
unfolding walk targets_of
text_in-targets p path entries =
    text_in-append p (map (join path) (file_names entries)) _ ∙ targets_below p path entries

pub text_in-directories :
    (p path : Text) (entries : Entries)
    → text_in p (directories_of (walk path entries)) ≡ text_in p (path ∷ dirs_of path entries)
unfolding walk directories_of text_in
text_in-directories p path entries =
    ap (λ b. text_eq p path || b)
      (text_in-append p (map (join path) (subdir_names entries)) _
        ∙ directories_below p path entries)

-- A path below one that is below another.
starts_with_trans :
    (s t r u : Text)
    → starts_with s t ≡ true
    → starts_with (t ++ r) u ≡ true
    → starts_with s u ≡ true
unfolding starts_with
starts_with_trans [] t r u h k = refl
starts_with_trans (c ∷ s) [] r u h k = absurd (cc)
starts_with_trans (c ∷ s) (d ∷ t) r [] h k = k
starts_with_trans (c ∷ s) (d ∷ t) r (e ∷ u) h k = ground (arith, starts_with_trans s t r u)

pub is_below_trans :
    (a b p : Text) → is_below a b ≡ true → is_below b p ≡ true → is_below a p ≡ true
unfolding is_below
is_below_trans a b p h k = starts_with_trans (a ++ (b'/' ∷ [])) b (b'/' ∷ []) p h k

is_below-join : (path name : Text) → is_below path (join path name) ≡ true
unfolding is_below starts_with
is_below-join [] name = refl
is_below-join (c ∷ path) name = ground (arith, is_below-join path name)

pub files_of-below :
    (path : Text) (entries : Entries) → All (λ p. is_below path p ≡ true) (files_of path entries)
unfolding files_of
files_of-below path nothing = tt
files_of-below path (file name rest) = (is_below-join path name, files_of-below path rest)
files_of-below path (dir name inside rest) =
    All-append (λ p. is_below path p ≡ true) (files_of (join path name) inside) (files_of path rest)
      (All-map {P = λ p. is_below (join path name) p ≡ true} {Q = λ p. is_below path p ≡ true}
        (λ p h. is_below_trans path (join path name) p (is_below-join path name) h)
        (files_of (join path name) inside) (files_of-below (join path name) inside))
      (files_of-below path rest)

pub dirs_of-below :
    (path : Text) (entries : Entries) → All (λ p. is_below path p ≡ true) (dirs_of path entries)
unfolding dirs_of
dirs_of-below path nothing = tt
dirs_of-below path (file name rest) = dirs_of-below path rest
dirs_of-below path (dir name inside rest) = (
  is_below-join path name,
  All-append (λ p. is_below path p ≡ true) (dirs_of (join path name) inside) (dirs_of path rest)
      (All-map {P = λ p. is_below (join path name) p ≡ true} {Q = λ p. is_below path p ≡ true}
        (λ p h. is_below_trans path (join path name) p (is_below-join path name) h)
        (dirs_of (join path name) inside) (dirs_of-below (join path name) inside))
      (dirs_of-below path rest),
)
