-- ===== src/Rm.antt =====
-- Secure deletion (securedrop/rm.py; securedrop/store.py, `clear_shredder`). The file system is the paths of its files
-- and of its directories, and what is below a path is a tree of names; links are not modelled, and `shred` is a
-- program that may fail.
pub mod Order
pub mod Loops
pub mod Tree
pub mod Deleted
pub mod Cleared
mod Tests
use ab.Base.{
  ℕ, Bool, true, false, not, ◌&&◌, ◌||◌, Option, none, some, List, [], ◌∷◌, ◌++◌, map, any, select,
  ltb, ◌==◌, if◌then◌else◌, Result, ok, err, Exec, pure, gets, modify, raise_if, ◌>>=◌, ◌>>◌,
}
use ab.Base.Text.{Text, text_eq, text_in}
use ab.Sessions.{starts_with}

-- OSError, ValueError and CalledProcessError of `shred`; OSError of `os.rmdir`.
pub data RmError : Type 0 where
  missing_path : RmError
  not_a_file : RmError
  shred_failed : RmError
  not_removed : RmError

pub record FileSystem : Type 0 where
  pub files : List Text
  pub dirs : List Text

-- What a directory contains.
pub data Entries : Type 0 where
  nothing : Entries
  file : Text → Entries → Entries
  dir : Text → Entries → Entries → Entries

-- os.path.join(directory, name)
abbrev pub join : Text → Text → Text
join directory name = directory ++ (b'/' ∷ name)

-- A path in a directory or further below.
unfoldable pub is_below : Text → Text → Bool
is_below directory path = starts_with (directory ++ (b'/' ∷ [])) path

-- One triple that `os.walk` yields.
pub record Walked : Type 0 where
  pub directory : Text
  pub subdirs : List Text
  pub files : List Text

abbrev pub subdir_names : Entries → List Text
subdir_names nothing = []
subdir_names (file name rest) = subdir_names rest
subdir_names (dir name inside rest) = name ∷ subdir_names rest

abbrev pub file_names : Entries → List Text
file_names nothing = []
file_names (file name rest) = name ∷ file_names rest
file_names (dir name inside rest) = file_names rest

abbrev pub walked : Text → Entries → Walked
walked path entries = record {
  directory = path;
  subdirs = subdir_names entries;
  files = file_names entries;
}

unfoldable pub walk_below : Text → Entries → List Walked
walk_below path nothing = []
walk_below path (file name rest) = walk_below path rest
walk_below path (dir name inside rest) =
    walked (join path name) inside ∷ (walk_below (join path name) inside ++ walk_below path rest)

-- os.walk(path), from the top
unfoldable pub walk : Text → Entries → List Walked
walk path entries = walked path entries ∷ walk_below path entries

-- The two lists that the loop over the walk collects.
unfoldable pub directories_of : List Walked → List Text
directories_of [] = []
directories_of (w ∷ ws) = (w.directory ∷ map (join w.directory) w.subdirs) ++ directories_of ws

unfoldable pub targets_of : List Walked → List Text
targets_of [] = []
targets_of (w ∷ ws) = map (join w.directory) w.files ++ targets_of ws

-- s < t, by code points
unfoldable pub text_lt : Text → Text → Bool
text_lt s [] = false
text_lt [] (d ∷ t) = true
text_lt (c ∷ s) (d ∷ t) = ltb c d || ((c == d) && text_lt s t)

-- reversed(sorted(set(paths)))
unfoldable pub insert_descending : Text → List Text → List Text
insert_descending p [] = p ∷ []
insert_descending p (q ∷ qs) =
    let rest = insert_descending p qs in
    if text_eq p q then q ∷ qs else if text_lt q p then p ∷ q ∷ qs else q ∷ rest

unfoldable pub descending : List Text → List Text
descending [] = []
descending (p ∷ ps) = insert_descending p (descending ps)

abbrev pub without_path : Text → List Text → List Text
without_path path = select (λ p. not (text_eq p path))

unfoldable pub rmdir : Text → Exec RmError FileSystem (Unit {0})
rmdir path = do
  fs ← gets (λ fs. fs)
  raise_if
      (not (text_in path fs.dirs) || (any (is_below path) fs.files || any (is_below path) fs.dirs))
      not_removed
  modify (λ fs. record fs { dirs = without_path path fs.dirs })

-- for d in directories: os.rmdir(d)
unfoldable pub rmdir_all : List Text → Exec RmError FileSystem (Unit {0})
rmdir_all [] = pure tt
rmdir_all (d ∷ ds) = do rmdir d; rmdir_all ds

-- Storage.shredder_contains
abbrev pub shredder_contains : Text → Text → Bool
shredder_contains shredder_path path = text_eq path shredder_path || is_below shredder_path path

-- The directories that `clear_shredder` looks at.
abbrev pub subdirs_of : List Walked → List Text
subdirs_of [] = []
subdirs_of (w ∷ ws) = map (join w.directory) w.subdirs ++ subdirs_of ws

-- `shreds` tells for which paths the program succeeds.
module _ (shreds : Text → Bool) where
  unfoldable pub shred : Text → Exec RmError FileSystem (Unit {0})
  shred path = do
    fs ← gets (λ fs. fs)
    raise_if (not (text_in path fs.files || text_in path fs.dirs)) missing_path
    raise_if (not (text_in path fs.files)) not_a_file
    raise_if (not (shreds path)) shred_failed
    modify (λ fs. record fs { files = without_path path fs.files })

  unfoldable pub shred_all : List Text → Exec RmError FileSystem (Unit {0})
  shred_all [] = pure tt
  shred_all (t ∷ ts) = do shred t; shred_all ts

  -- `none` for a path that is no directory.
  unfoldable pub secure_delete : Text → Option Entries → Exec RmError FileSystem (Unit {0})
  secure_delete path none = do shred_all (path ∷ []); rmdir_all (descending [])
  secure_delete path (some entries) = do
    shred_all (targets_of (walk path entries))
    rmdir_all (descending (directories_of (walk path entries)))

  -- Each file is deleted by `secure_delete`.
  unfoldable pub secure_delete_all : List Text → Exec RmError FileSystem (Unit {0})
  secure_delete_all [] = pure tt
  secure_delete_all (t ∷ ts) = do secure_delete t none; secure_delete_all ts

  -- The directory of the shredder itself stays.
  unfoldable pub clear_shredder : Text → Entries → Exec RmError FileSystem (Unit {0})
  clear_shredder shredder_path entries = do
    secure_delete_all
        (select (shredder_contains shredder_path) (targets_of (walk shredder_path entries)))
    rmdir_all (
        descending
          (select (shredder_contains shredder_path) (subdirs_of (walk shredder_path entries))))
