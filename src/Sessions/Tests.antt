-- ===== src/Sessions/Tests.antt =====
-- Sessions on a small Redis, and instances of the theorems.
use ab.Base.{ℕ, arith, true, All, ok, ◌≡◌, refl, false, none, some, [], ◌∷◌, ◌++◌}
use ab.Base.Text.{codes, text_eq}
use ab.Sessions.{
  ServerSideSession, Signer, RedisEntry, SessionInterface, new_interface, Request, split_at,
  is_api_request, redis_get, open_session, starts_with, logout_user,
}
use ab.Sessions.Save.{
  Saved, save_session, save_left, destroyed, renewed, stored_session, redis_setex, redis_ttl,
  redis_delete,
}
use ab.Sessions.Renewal.{IsWithin, IsBounded, save_session-IsBounded}
use ab.Sessions.Logout.{logout_user_after_api}

-- A stand-in for the signer: the salt and the text.
abbrev signer : Signer
signer = record { dumps = λ salt s. salt ++ s; loads = λ salt token. none }

abbrev first : RedisEntry
first = record {
  key = codes "session:aa";
  value = some (record { uid = some 1; renew_count = 5 });
  ttl = 7200;
}

abbrev second : RedisEntry
second = record {
  key = codes "session:bb";
  value = some (record { uid = some 2; renew_count = 5 });
  ttl = 7200;
}

abbrev interface : SessionInterface
interface = new_interface 7200 5 (first ∷ second ∷ []) (codes "session:") (codes "session")

abbrev api_call : Request
api_call = record { path = codes "/api/v1/sources"; authorization = none; cookie = none }

split_at_test : split_at b'/' (codes "/api/v1") ≡ [] ∷ codes "api" ∷ codes "v1" ∷ []
unfolding split_at
split_at_test = refl

logout_user_after_api_example :
    redis_get
      (codes "session:aa")
      (logout_user 1 (open_session signer [] (codes "cc") api_call interface).1).redis
    ≡ some first
unfolding is_api_request split_at starts_with redis_get text_eq
logout_user_after_api_example =
    logout_user_after_api signer [] (codes "cc") api_call interface (codes "session:") 1 first refl
      refl refl refl

-- A signer that puts a mark before the text.
abbrev mark : Signer
mark = record {
  dumps = λ salt s. b'x' ∷ s;
  loads = λ salt token. elim token [ [] ↦ none | c ∷ s ↦ some s ];
}

-- A request for a page, by a user who has logged in.
abbrev old_session : ServerSideSession
old_session = record {
  sid = codes "aa";
  token = codes "xaa";
  stored = record { uid = some 1; renew_count = 5 };
  user = none;
  lifetime = 0;
  is_api = false;
  to_destroy = false;
  to_regenerate = true;
  modified = true;
  new = false;
}

abbrev late : SessionInterface
late = record interface { redis = record first { ttl = 60 } ∷ second ∷ [] }

abbrev saved : Saved
saved = record {
  interface = record late {
    redis =
        record {
          key = codes "session:dd";
          value = some (record { uid = some 1; renew_count = 4 });
          ttl = 7260;
        }
        ∷ second
        ∷ [];
  };
  cookie = some (codes "xdd");
}

saved_lem : save_session mark [] (codes "cc") (codes "dd") old_session late ≡ ok saved
unfolding save_session save_left destroyed renewed stored_session redis_setex redis_ttl redis_delete
    redis_get text_eq
saved_lem = refl

abbrev page : Request
page = record { path = codes "/col"; authorization = none; cookie = some (codes "xdd") }

within_lem :
    (u : ℕ)
    → old_session.new ≡ false
    → redis_ttl (codes "session:aa") late.redis ≡ some u
    → IsWithin 5 late u
unfolding redis_ttl redis_get text_eq
within_lem u old h = let e : ◌≡◌ {A = ℕ} 60 u = cc in omega (arith, e)

save_session-IsBounded_example : All (IsBounded late) saved.interface.redis
save_session-IsBounded_example =
    save_session-IsBounded mark [] late (codes "cc") (codes "dd") old_session saved (omega arith)
      within_lem (omega arith) saved_lem
