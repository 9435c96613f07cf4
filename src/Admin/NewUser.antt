-- ===== src/Admin/NewUser.antt =====
-- What a new account is (securedrop/journalist_app/admin.py, `add_user`).
use ab.Base.{◌≡◌, none, ok}
use ab.Base.Text.{Text}
use ab.Models.{Journalist}
use ab.Accounts.{Hasher}
use ab.Accounts.Creation.{new_journalist}
use ab.Accounts.Login.{find_journalist}
use ab.Deletion.{Drawn, add_journalist}
use ab.Admin.{AdminState, new_key, verify_pending_password, NewUserForm, new_user, in_db}

module _ (hasher : Hasher) (drawn : Drawn) (form : NewUserForm) where
  -- What a new account has passed.
  record IsCreated (u : Journalist) (s s' : AdminState) : Type 0 where
    shown : verify_pending_password hasher new_key form.password s.pending ≡ ok tt
    made : new_journalist hasher (new_user drawn form s.db.next_id) ≡ ok u
    free : find_journalist form.username s.db.journalists ≡ none
    after : s' ≡ in_db (add_journalist u) s
