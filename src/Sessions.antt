-- ===== src/Sessions.antt =====
-- Sessions of journalists (securedrop/journalist_app/sessions.py): `ServerSideSession` and
-- `SessionInterface`, one object of which serves all requests of a process. Redis is a list of keys with
-- their values and the seconds they have left; the signer of itsdangerous is a parameter. Flashed
-- messages and the locale are not modelled.
pub mod Logout
pub mod Save
pub mod RoundTrip
pub mod Renewal
mod Tests
use ab.Base.{
  ℕ, ◌+◌, ◌-◌, ◌*◌, Bool, true, false, not, ◌&&◌, ◌||◌, Option, none, some, List, [], ◌∷◌, ◌++◌,
  map, select, find, is_some, length, ltb, ◌==◌, if◌then◌else◌, Result, ok, err,
}
use ab.Base.Text.{Text, codes, text_eq, is_empty}
use ab.Models.{Journalist}
use ab.Deletion.{find_by_id}

-- `dumps` and `loads` of a `URLSafeTimedSerializer`, with its salt; `loads` fails on a bad signature.
pub record Signer : Type 0 where
  pub dumps : Text → Text → Text
  pub loads : Text → Text → Option Text

-- What is stored of a session; a `uid` that is missing is `none`.
pub record SessionData : Type 0 where
  pub uid : Option ℕ
  pub renew_count : ℕ

-- A value of Redis: `none` is a text that is no JSON.
pub record RedisEntry : Type 0 where
  pub key : Text
  pub value : Option SessionData
  pub ttl : ℕ

pub record SessionInterface : Type 0 where
  pub redis : List RedisEntry
  pub lifetime : ℕ
  pub renew_count : ℕ
  pub key_prefix : Text
  pub api_key_prefix : Text
  pub salt : Text
  pub api_salt : Text

-- SessionInterface.__init__
abbrev pub new_interface : ℕ → ℕ → List RedisEntry → Text → Text → SessionInterface
new_interface lifetime renew_count redis key_prefix salt = record {
  redis = redis;
  lifetime = lifetime;
  renew_count = renew_count;
  key_prefix = key_prefix;
  api_key_prefix = codes "api_" ++ key_prefix;
  salt = salt;
  api_salt = codes "api_" ++ salt;
}

pub record ServerSideSession : Type 0 where
  pub sid : Text
  pub token : Text
  pub stored : SessionData
  pub user : Option Journalist
  pub lifetime : ℕ
  pub is_api : Bool
  pub to_destroy : Bool
  pub to_regenerate : Bool
  pub modified : Bool
  pub new : Bool

abbrev pub no_data : SessionData
no_data = record { uid = none; renew_count = 0 }

abbrev pub user_of : Option ℕ → List Journalist → Option Journalist
user_of none journalists = none
user_of (some uid) journalists = find_by_id uid journalists

-- ServerSideSession.__init__; what `set_user` sets of `to_destroy` is overwritten.
unfoldable pub server_side_session :
    List Journalist → Text → Text → ℕ → SessionData → ServerSideSession
server_side_session journalists sid token lifetime stored = record {
  sid = sid;
  token = token;
  stored = stored;
  user = user_of stored.uid journalists;
  lifetime = lifetime;
  is_api = false;
  to_destroy = false;
  to_regenerate = false;
  modified = false;
  new = false;
}

-- The attribute `uid`, which is unset if there is no such user.
abbrev pub session_uid : ServerSideSession → Option ℕ
session_uid session = elim session.user [ none ↦ none | some user ↦ some user.id ]

abbrev pub logged_in : ServerSideSession → Bool
logged_in session = is_some (session_uid session)

pub record Request : Type 0 where
  pub path : Text
  pub authorization : Option Text
  pub cookie : Option Text

-- s.split(c)
unfoldable pub split_at : ℕ → Text → List Text
split_at sep [] = [] ∷ []
split_at sep (c ∷ s) = elim (split_at sep s) [
  | [] ↦ []
  | p ∷ ps ↦ if c == sep then [] ∷ p ∷ ps else (c ∷ p) ∷ ps
]

-- request.path.split("/")[1] == "api"
abbrev pub second_is_api : List Text → Bool
second_is_api (a ∷ b ∷ rest) = text_eq b (codes "api")
second_is_api parts = false

unfoldable pub is_api_request : Request → Bool
is_api_request request = second_is_api (split_at b'/' request.path)

-- The two parts of "Token <token>".
abbrev pub token_part : List Text → Option Text
token_part (scheme ∷ token ∷ []) = if text_eq scheme (codes "Token") then some token else none
token_part parts = none

abbrev pub header_token : Option Text → Option Text
header_token none = none
header_token (some []) = none
header_token (some (c ∷ header)) = token_part (split_at b' ' (c ∷ header))

unfoldable pub redis_get : Text → List RedisEntry → Option RedisEntry
redis_get key = find (λ e. text_eq e.key key)

module _ (signer : Signer) (journalists : List Journalist) where
  -- `fresh` is what `_generate_sid` draws.
  unfoldable pub new_session : SessionInterface → Text → Bool → ServerSideSession
  new_session interface fresh is_api =
      record (server_side_session journalists fresh (signer.dumps interface.salt fresh)
        interface.lifetime no_data) { is_api = is_api; new = true }

  -- The session of a signed id, by what Redis holds under it.
  abbrev pub restored :
      SessionInterface → Text → Bool → Text → Option RedisEntry → ServerSideSession
  restored interface fresh is_api sid none = new_session interface fresh is_api
  restored interface fresh is_api sid (some entry) = elim entry.value [
    | none ↦ new_session interface fresh is_api
    | some stored ↦ server_side_session journalists sid (signer.dumps interface.salt sid) 0 stored
  ]

  abbrev pub signed_session : SessionInterface → Text → Bool → Option Text → ServerSideSession
  signed_session interface fresh is_api none = new_session interface fresh is_api
  signed_session interface fresh is_api (some []) = new_session interface fresh is_api
  signed_session interface fresh is_api (some (c ∷ sid)) =
      restored interface fresh is_api (c ∷ sid)
        (redis_get (interface.key_prefix ++ (c ∷ sid)) interface.redis)

  abbrev pub unsigned : SessionInterface → Option Text → Option Text
  unsigned interface none = none
  unsigned interface (some []) = none
  unsigned interface (some (c ∷ token)) = signer.loads interface.salt (c ∷ token)

  -- The interface itself is changed by an API request.
  abbrev pub for_api : SessionInterface → SessionInterface
  for_api interface = record interface {
    key_prefix = interface.api_key_prefix;
    salt = interface.api_salt;
  }

  unfoldable pub open_session :
      Text → Request → SessionInterface → ServerSideSession × SessionInterface
  open_session fresh request interface =
      if is_api_request request
      then (let api = for_api interface in
          (signed_session api fresh true (unsigned api (header_token request.authorization)), api))
      else (signed_session interface fresh false (unsigned interface request.cookie), interface)

-- Redis's keys(prefix + "*") followed by the deletion of those that hold the user.
unfoldable pub starts_with : Text → Text → Bool
starts_with [] s = true
starts_with (c ∷ p) [] = false
starts_with (c ∷ p) (d ∷ s) = (c == d) && starts_with p s

abbrev pub holds_uid : ℕ → Option SessionData → Bool
holds_uid uid none = false
holds_uid uid (some stored) = elim stored.uid [ none ↦ false | some u ↦ u == uid ]

abbrev pub is_session_of : Text → ℕ → RedisEntry → Bool
is_session_of key_prefix uid e =
    (starts_with key_prefix e.key || starts_with (codes "api_" ++ key_prefix) e.key)
    && holds_uid uid e.value

-- A value under one of the keys that is no JSON would raise; the interface writes none.
unfoldable pub logout_user : ℕ → SessionInterface → SessionInterface
logout_user uid interface = record interface {
  redis = select (λ e. not (is_session_of interface.key_prefix uid e)) interface.redis;
}
