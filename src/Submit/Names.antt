-- ===== src/Submit/Names.antt =====
-- What is stored of a submission (securedrop/source_app/main.py, `submit`): the numbers in the names are
-- the interactions, each used once.
use ab.Base.{ℕ, ◌+◌, ◌≡◌, some, List, [], ◌∷◌}
use ab.Base.Text.{Text}
use ab.Store.{file_index}

-- Names that carry the numbers after one up to another, in order.
abbrev pub Numbered : ℕ → List Text → Type 0
Numbered from [] = Unit
Numbered from (f ∷ fs) = (file_index f ≡ some (from + 1)) × Numbered (from + 1) fs
