-- ===== src/Accounts/Login/Replay.antt =====
-- One-time tokens are used once (securedrop/models.py, `last_token` in `Journalist.login`).
use ab.Base.{◌≡◌, false, some}
use ab.Base.Text.{Text, text_in}
use ab.Models.{Journalist, Db}
use ab.TwoFactor.{OtpLibrary}
use ab.Accounts.{Hasher, invalid_usernames}
use ab.Accounts.Login.{find_journalist, LoginRequest}

module _ (lib : OtpLibrary) (hasher : Hasher) (req : LoginRequest) where
  -- The row of a name, with its last token.
  abbrev LastToken : Text → Text → Db → Type 0
  LastToken name token db =
      (u : Journalist) × (find_journalist name db.journalists ≡ some u)
      × (u.last_token ≡ some token)
      × (text_in u.username invalid_usernames ≡ false)
