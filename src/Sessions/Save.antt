-- ===== src/Sessions/Save.antt =====
-- The end of a request (securedrop/journalist_app/sessions.py, `SessionInterface.save_session`): renewing,
-- regenerating and destroying a session. The time that Redis answers for a key is in seconds; the headers
-- of the response are the cookie.
use ab.Base.{
  ◌≡◌, arith, ℕ, zero, suc, ◌+◌, ◌-◌, ◌*◌, Bool, true, false, not, ◌&&◌, ◌||◌, Option, none, some,
  List, ◌∷◌, ◌++◌, map, select, ltb, if◌then◌else◌, Result, ok, err,
}
use ab.Base.Fallible.{◌>>=◌}
use ab.Base.Text.{Text, text_eq}
use ab.Models.{Journalist}
use ab.Sessions.{
  Signer, SessionData, RedisEntry, SessionInterface, ServerSideSession, redis_get, new_session,
}

-- `ResponseError` of Redis: "invalid expire time".
pub data RedisError : Type 0 where
  invalid_expire : RedisError

unfoldable pub redis_delete : Text → List RedisEntry → List RedisEntry
redis_delete key = select (λ e. not (text_eq e.key key))

abbrev pub ttl_of : Option RedisEntry → Option ℕ
ttl_of none = none
ttl_of (some e) = some e.ttl

-- redis.ttl; `none` is -2, for a key that is not there.
unfoldable pub redis_ttl : Text → List RedisEntry → Option ℕ
redis_ttl key redis = ttl_of (redis_get key redis)

-- redis.setex; the time must be positive.
unfoldable pub redis_setex :
    Text → SessionData → Option ℕ → List RedisEntry → Result RedisError (List RedisEntry)
redis_setex key value none redis = err invalid_expire
redis_setex key value (some zero) redis = err invalid_expire
redis_setex key value (some (suc t)) redis =
    ok (record { key = key; value = some value; ttl = suc t } ∷ redis_delete key redis)

abbrev pub overwrite : Text → SessionData → ℕ → RedisEntry → RedisEntry
overwrite key value time e =
    if text_eq e.key key then record e { value = some value; ttl = time } else e

-- redis.set with `xx=True`: only a key that is there is written.
unfoldable pub redis_set_xx :
    Text → SessionData → Option ℕ → List RedisEntry → Result RedisError (List RedisEntry)
redis_set_xx key value none redis = err invalid_expire
redis_set_xx key value (some zero) redis = err invalid_expire
redis_set_xx key value (some (suc t)) redis = ok (map (overwrite key value (suc t)) redis)

-- expires < (30 * 60)
abbrev pub is_soon : Option ℕ → Bool
is_soon none = true
is_soon (some t) = ltb t (30 * 60)

-- expires += self.lifetime, from -2 for a key that is not there.
abbrev pub extended : ℕ → Option ℕ → Option ℕ
extended lifetime none = some (lifetime - 2)
extended lifetime (some t) = some (t + lifetime)

abbrev pub with_count : ℕ → ServerSideSession → ServerSideSession
with_count n session = record session {
  stored = record session.stored { renew_count = n };
  modified = true;
}

-- The count and the time of a session that is saved, by what Redis says of its key.
unfoldable pub renewed :
    SessionInterface → Option ℕ → ServerSideSession → ServerSideSession × Option ℕ
renewed interface expires session =
    if session.new
    then (with_count interface.renew_count session, some interface.lifetime)
    else if is_soon expires && ltb 0 session.stored.renew_count
    then (with_count (session.stored.renew_count - 1) session, extended interface.lifetime expires)
    else (session, expires)

pub record Saved : Type 0 where
  pub interface : SessionInterface
  pub cookie : Option Text

module _ (signer : Signer) (journalists : List Journalist) where
  -- A destroyed session of the pages is replaced by a new one.
  unfoldable pub destroyed :
      Text → ServerSideSession → SessionInterface → ServerSideSession × SessionInterface
  destroyed fresh session interface =
      if session.to_destroy
      then (let left = record interface {
        redis = redis_delete (interface.key_prefix ++ session.sid) interface.redis;
      } in
          (
            if session.is_api then session else new_session signer journalists left fresh false,
            left,
          ))
      else (session, interface)

  -- A session that is regenerated gets a new id; its value was read before.
  abbrev pub regenerated :
      Text → ServerSideSession → SessionInterface → ServerSideSession × SessionInterface
  regenerated fresh session interface =
      if session.to_regenerate
      then (
        record session { sid = fresh; token = signer.dumps interface.salt fresh },
        record interface {
          redis = redis_delete (interface.key_prefix ++ session.sid) interface.redis;
        },
      )
      else (session, interface)

  unfoldable pub stored_session :
      SessionData
      → Option ℕ
      → ServerSideSession
      → SessionInterface
      → Result RedisError (List RedisEntry)
  stored_session value expires session interface =
      if session.new || session.to_regenerate
      then redis_setex (interface.key_prefix ++ session.sid) value expires interface.redis
      else if session.modified
      then redis_set_xx (interface.key_prefix ++ session.sid) value expires interface.redis
      else ok interface.redis

  abbrev pub cookie_of : ServerSideSession → Option Text
  cookie_of session =
      if not session.is_api && (session.new || session.to_regenerate)
      then some session.token
      else none

  -- From the session that is left after the destruction.
  unfoldable pub save_left : Text → ServerSideSession → SessionInterface → Result RedisError Saved
  save_left fresh session interface =
      let (kept, expires) =
        renewed interface (redis_ttl (interface.key_prefix ++ session.sid) interface.redis)
          session in
      let (given, left) = regenerated fresh kept interface in
      (do
        redis ← stored_session kept.stored expires given left
        ok (record { interface = record left { redis = redis }; cookie = cookie_of given }))

  -- `fresh` and `fresh'` are what `_generate_sid` draws.
  unfoldable pub save_session :
      Text → Text → ServerSideSession → SessionInterface → Result RedisError Saved
  save_session fresh fresh' session interface =
      let (kept, left) = destroyed fresh session interface in save_left fresh' kept left

  -- The interface without the key of a session.
  abbrev pub without : ServerSideSession → SessionInterface → SessionInterface
  without session interface = record interface {
    redis = redis_delete (interface.key_prefix ++ session.sid) interface.redis;
  }

  pub destroyed_not :
      (fresh : Text) (session : ServerSideSession) (interface : SessionInterface)
      → session.to_destroy ≡ false
      → destroyed fresh session interface ≡ (session, interface)
  unfolding destroyed
  destroyed_not fresh session interface e = ground arith

  pub destroyed_api :
      (fresh : Text) (session : ServerSideSession) (interface : SessionInterface)
      → session.to_destroy ≡ true
      → session.is_api ≡ true
      → destroyed fresh session interface ≡ (session, without session interface)
  unfolding destroyed
  destroyed_api fresh session interface e api = ground arith

  pub destroyed_page :
      (fresh : Text) (session : ServerSideSession) (interface : SessionInterface)
      → session.to_destroy ≡ true
      → session.is_api ≡ false
      → destroyed fresh session interface ≡ (
        new_session signer journalists (without session interface) fresh false,
        without session interface,
      )
  unfolding destroyed
  destroyed_page fresh session interface e page = ground arith
