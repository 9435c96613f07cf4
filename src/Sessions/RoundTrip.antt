-- ===== src/Sessions/RoundTrip.antt =====
-- A session that was saved is opened again (securedrop/journalist_app/sessions.py), where the signer reads what it
-- signed.
use ab.Base.{◌≡◌, false, some, List, ◌++◌}
use ab.Base.Text.{Text, is_empty}
use ab.Models.{Journalist}
use ab.Sessions.{Signer, SessionData, RedisEntry, SessionInterface, ServerSideSession, redis_get}

-- A signer reads back what it signed, and signs with some text.
pub record IsSigner (signer : Signer) : Type 0 where
  pub loads-dumps : (salt s : Text) → signer.loads salt (signer.dumps salt s) ≡ some s
  pub dumps_some : (salt s : Text) → is_empty (signer.dumps salt s) ≡ false

-- The key under which a session is found, and what is found there.
pub record IsStored (interface : SessionInterface) (sid : Text) (value : SessionData) : Type 0 where
  pub entry : RedisEntry
  pub found : redis_get (interface.key_prefix ++ sid) interface.redis ≡ some entry
  pub same : entry.value ≡ some value

module _ (signer : Signer) (journalists : List Journalist) (laws : IsSigner signer) where
  record IsKept (s k : ServerSideSession) : Type 0 where
    sid : k.sid ≡ s.sid
    token : k.token ≡ s.token
    new : k.new ≡ s.new
    regenerate : k.to_regenerate ≡ s.to_regenerate
    api : k.is_api ≡ s.is_api
    uid : k.stored.uid ≡ s.stored.uid
