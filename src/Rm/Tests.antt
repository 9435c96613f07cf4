-- ===== src/Rm/Tests.antt =====
-- A directory with a file and a directory in it, and an instance of the theorem.
use ab.Rm.Cleared.{clear_shredder_lem}
use ab.Base.{◌++◌, ◌≡◌, refl, true, false, some, none, [], ◌∷◌, ok, err, IsDistinct}
use ab.Base.Text.{Text, codes, text_eq, text_in}
use ab.Sessions.{starts_with}
use ab.Rm.{
  clear_shredder, FileSystem, Entries, nothing, file, dir, is_below, walk, walk_below,
  directories_of, targets_of, descending, insert_descending, text_lt, shred, shred_all,
  secure_delete, missing_path,
}
use ab.Rm.Loops.{All_members}
use ab.Rm.Deleted.{is_at, IsOutside, with_tree, secure_delete_lem}

abbrev entries : Entries
entries = file (codes "a") (dir (codes "b") (file (codes "c") nothing) nothing)

abbrev outside : FileSystem
outside = record { files = codes "/s/ta" ∷ []; dirs = codes "/" ∷ codes "/s" ∷ [] }

-- The deeper directory comes first.
order_test :
    descending (directories_of (walk (codes "/s/t") entries)) ≡ codes "/s/t/b" ∷ codes "/s/t" ∷ []
unfolding descending insert_descending text_lt text_eq directories_of walk walk_below
order_test = refl

missing_test : secure_delete (λ p. true) (codes "/s/x") none outside ≡ (err missing_path, outside)
unfolding secure_delete shred_all shred text_in text_eq
missing_test = refl

targets-IsDistinct : IsDistinct (λ (p : Text). p) (targets_of (walk (codes "/s/t") entries))
unfolding targets_of walk walk_below
targets-IsDistinct = (((λ e. cc), tt), (tt, tt))

outside-IsOutside : IsOutside (codes "/s/t") outside
unfolding is_below starts_with text_eq
outside-IsOutside = record {
  files = All_members (λ p. is_at (codes "/s/t") p ≡ false) (codes "/s/ta" ∷ []) (refl, tt);
  dirs =
      All_members (λ p. is_at (codes "/s/t") p ≡ false) (codes "/" ∷ codes "/s" ∷ [])
        (refl, (refl, tt));
}

secure_delete_lem_example :
    secure_delete
      (λ p. true)
      (codes "/s/t")
      (some entries)
      (with_tree (codes "/s/t") entries outside)
    ≡ (ok tt, outside)
secure_delete_lem_example =
    secure_delete_lem (λ p. true) (codes "/s/t") entries outside outside-IsOutside
      targets-IsDistinct (λ p m. refl)

clear_shredder_lem_example :
    clear_shredder (λ p. true) (codes "/s/t") entries (with_tree (codes "/s/t") entries outside)
    ≡ (ok tt, record outside { dirs = outside.dirs ++ (codes "/s/t" ∷ []) })
clear_shredder_lem_example =
    clear_shredder_lem (λ p. true) (codes "/s/t") entries outside outside-IsOutside
      targets-IsDistinct (λ p m. refl)
