-- ===== src/Admin/Confirmed.antt =====
-- What a change of passphrase means (securedrop/journalist_app/utils.py, `set_diceware_password`; `new_password` of
-- securedrop/journalist_app/admin.py).
use ab.Base.{ℕ, ◌≡◌, true, some, List, arith, ok, Option-cases, inl, inr}
use ab.Base.Text.{Text}
use ab.Models.{Journalist}
use ab.Accounts.{Hasher, set_password}
use ab.Admin.{AdminState, user_key, find_pending, verify_pending_password}

pub verify_pending_password-ok :
    (hasher : Hasher) (key passphrase : Text) (pending : List (Text × Text))
    → verify_pending_password hasher key passphrase pending ≡ ok tt
    → (hash : Text) × (find_pending key pending ≡ some hash)
      × (hasher.verify hash passphrase ≡ true)
unfolding verify_pending_password
verify_pending_password-ok hasher key passphrase pending h =
    elim (Option-cases (find_pending key pending)) [
      | inl missing ↦ absurd (ground arith)
      | inr (hash, e) ↦ (hash, e, ground arith)
    ]

module _ (hasher : Hasher) where
  -- What a passphrase that is stored has passed.
  record IsConfirmed (salt : ℕ) (user u : Journalist) (p : Text) (s : AdminState) : Type 0 where
    shown : verify_pending_password hasher (user_key user.id) p s.pending ≡ ok tt
    stored : set_password hasher salt user (some p) ≡ ok u
