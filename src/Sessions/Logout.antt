-- ===== src/Sessions/Logout.antt =====
-- Ending the sessions of a user (securedrop/journalist_app/sessions.py, `logout_user`), and what an API
-- request to the same process makes of it.
use ab.Base.{
  find-select, any-select-not, ℕ, ◌≡◌, refl, true, false, not, some, List, [], ◌∷◌, ◌++◌, any,
  arith,
}
use ab.Base.Text.{Text, codes, text_eq}
use ab.Models.{Journalist}
use ab.Sessions.{
  Signer, RedisEntry, SessionInterface, Request, is_api_request, redis_get, for_api, open_session,
  starts_with, is_session_of, logout_user,
}

starts_with-append : (p q s : Text) → starts_with p s ≡ false → starts_with (p ++ q) s ≡ false
unfolding starts_with
starts_with-append [] q s h = absurd (cc)
starts_with-append (c ∷ p) q [] h = refl
starts_with-append (c ∷ p) q (d ∷ s) h = ground (arith, starts_with-append p q s)

pub logout_user_lem :
    (uid : ℕ) (interface : SessionInterface) (e : RedisEntry)
    → is_session_of interface.key_prefix uid e ≡ false
    → redis_get e.key interface.redis ≡ some e
    → (any (is_session_of interface.key_prefix uid) (logout_user uid interface).redis ≡ false)
      × (redis_get e.key (logout_user uid interface).redis ≡ some e)
unfolding logout_user redis_get
logout_user_lem uid interface e other found = (
  any-select-not (is_session_of interface.key_prefix uid) interface.redis,
  find-select (λ x. text_eq x.key e.key) (λ x. not (is_session_of interface.key_prefix uid x))
      interface.redis e found (rw other refl),
)

open_session-api :
    (signer : Signer) (journalists : List Journalist) (fresh : Text) (request : Request)
    (interface : SessionInterface)
    → is_api_request request ≡ true
    → (open_session signer journalists fresh request interface).1
      ≡ for_api signer journalists interface
unfolding open_session
open_session-api signer journalists fresh request interface h = rw h refl

-- After a request to the API, the same process no longer finds the sessions of the journalist interface
-- when it is to end those of a user: an entry whose key does not begin with "api_" stays, whomever it
-- belongs to.
pub logout_user_after_api :
    (signer : Signer) (journalists : List Journalist) (fresh : Text) (request : Request)
    (interface : SessionInterface) (prefix : Text) (uid : ℕ) (e : RedisEntry)
    → is_api_request request ≡ true
    → interface.api_key_prefix ≡ codes "api_" ++ prefix
    → starts_with (codes "api_") e.key ≡ false
    → redis_get e.key interface.redis ≡ some e
    → redis_get e.key
        (logout_user uid (open_session signer journalists fresh request interface).1).redis
      ≡ some e
logout_user_after_api signer journalists fresh request interface prefix uid e api same other found =
    let after = for_api signer journalists interface in
    let p : starts_with after.key_prefix e.key ≡ false =
      rw same (starts_with-append (codes "api_") prefix e.key other) in
    let q : starts_with (codes "api_" ++ after.key_prefix) e.key ≡ false =
      starts_with-append (codes "api_") after.key_prefix e.key other in
    let apart : is_session_of after.key_prefix uid e ≡ false = rw (p, q) refl in
    rw (open_session-api signer journalists fresh request interface api)
      (logout_user_lem uid after e apart found).1
