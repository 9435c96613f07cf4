-- ===== src/Sessions/Renewal.antt =====
-- How long a session can last (securedrop/journalist_app/sessions.py, `save_session`): the seconds it has left and
-- the renewals that are left are bounded together.
use mathlib.Core.Path.{subst}
use ab.Base.{
  ℕ, zero, suc, ◌+◌, ◌-◌, ◌*◌, ◌≤◌, ◌<◌, ◌≡◌, refl, ap, true, false, not, ◌||◌, Option, none, some,
  List, [], ◌∷◌, ◌++◌, map, arith, if◌then◌else◌, ok, Bool-cases, inl, inr, All, All-select_of,
}
use ab.Base.Fallible.{>>=-eq-ok, ok_inj}
use ab.Base.Text.{Text, text_eq}
use ab.Models.{Journalist}
use ab.Sessions.{
  redis_get, Signer, SessionData, RedisEntry, SessionInterface, ServerSideSession, new_session,
  server_side_session,
}
use ab.Sessions.Save.{
  destroyed_not, destroyed_api, destroyed_page, redis_delete, redis_ttl, redis_setex, redis_set_xx,
  overwrite, renewed, Saved, regenerated, stored_session, cookie_of, save_left, save_session,
}

-- The time that `renew_count` renewals give a session.
abbrev pub longest_life : SessionInterface → ℕ
longest_life interface = (interface.renew_count + 1) * interface.lifetime

-- The time left and that of the renewals left.
abbrev pub IsWithin : ℕ → SessionInterface → ℕ → Type 0
IsWithin count interface t = t + count * interface.lifetime ≤ longest_life interface

abbrev pub IsBounded : SessionInterface → RedisEntry → Type 0
IsBounded interface e = elim e.value [
  | none ↦ Unit
  | some v ↦ IsWithin v.renew_count interface e.ttl
]

suc_mul : (n l : ℕ) → (n + 1) * l ≡ n * l + l
suc_mul n l = grind arith

pred_mul : (n l : ℕ) → 0 < n → (n - 1) * l + l ≡ n * l
pred_mul zero l h = absurd (omega arith)
pred_mul (suc n) l h = grind arith

mul_mono : (m n l : ℕ) → m ≤ n → m * l ≤ n * l
mul_mono m n l h = grind arith

renewed-IsWithin :
    (interface : SessionInterface) (expires : Option ℕ) (s : ServerSideSession) (t : ℕ)
    → s.stored.renew_count ≤ interface.renew_count
    → ((u : ℕ) → s.new ≡ false → expires ≡ some u → IsWithin s.stored.renew_count interface u)
    → (renewed interface expires s).1 ≡ some t
    → IsWithin (renewed interface expires s).0.stored.renew_count interface t
unfolding renewed
renewed-IsWithin interface none s t few within h = ground (
  arith,
  pred_mul s.stored.renew_count interface.lifetime,
  mul_mono s.stored.renew_count interface.renew_count interface.lifetime few,
  suc_mul interface.renew_count interface.lifetime,
)
renewed-IsWithin interface (some u) s t few within h = ground (
  arith,
  pred_mul s.stored.renew_count interface.lifetime,
  within u,
  suc_mul interface.renew_count interface.lifetime,
)

redis_delete-IsBounded :
    (interface : SessionInterface) (key : Text) (redis : List RedisEntry)
    → All (IsBounded interface) redis
    → All (IsBounded interface) (redis_delete key redis)
unfolding redis_delete
redis_delete-IsBounded interface key redis h =
    All-select_of (IsBounded interface) (λ e. not (text_eq e.key key)) redis h

ttl_deleted : (key : Text) (redis : List RedisEntry) → redis_ttl key (redis_delete key redis) ≡ none
unfolding redis_ttl redis_delete redis_get
ttl_deleted key [] = refl
ttl_deleted key (e ∷ redis) = ground (arith, ttl_deleted key redis)

overwrite-IsBounded :
    (interface : SessionInterface) (key : Text) (value : SessionData) (t : ℕ)
    (redis : List RedisEntry)
    → IsWithin value.renew_count interface t
    → All (IsBounded interface) redis
    → All (IsBounded interface) (map (overwrite key value t) redis)
overwrite-IsBounded interface key value t [] w h = tt
overwrite-IsBounded interface key value t (e ∷ redis) w h = (
  elim (text_eq e.key key)
      as (λ b. IsBounded interface (if b then record e { value = some value; ttl = t } else e)) [
        | true ↦ w
        | false ↦ h.0
      ],
  overwrite-IsBounded interface key value t redis w h.1,
)

module _ (interface : SessionInterface) where
  abbrev Bounded : List RedisEntry → Type 0
  Bounded = All (IsBounded interface)

  redis_setex-Bounded :
      (key : Text) (value : SessionData) (expires : Option ℕ) (redis redis' : List RedisEntry)
      → ((t : ℕ) → expires ≡ some t → IsWithin value.renew_count interface t)
      → Bounded redis
      → redis_setex key value expires redis ≡ ok redis'
      → Bounded redis'
  unfolding redis_setex
  redis_setex-Bounded key value none redis redis' w b h = absurd (cc)
  redis_setex-Bounded key value (some zero) redis redis' w b h = absurd (cc)
  redis_setex-Bounded key value (some (suc t)) redis redis' w b h =
      subst Bounded (ok_inj h) (w (suc t) refl, redis_delete-IsBounded interface key redis b)

  redis_set_xx-Bounded :
      (key : Text) (value : SessionData) (expires : Option ℕ) (redis redis' : List RedisEntry)
      → ((t : ℕ) → expires ≡ some t → IsWithin value.renew_count interface t)
      → Bounded redis
      → redis_set_xx key value expires redis ≡ ok redis'
      → Bounded redis'
  unfolding redis_set_xx
  redis_set_xx-Bounded key value none redis redis' w b h = absurd (cc)
  redis_set_xx-Bounded key value (some zero) redis redis' w b h = absurd (cc)
  redis_set_xx-Bounded key value (some (suc t)) redis redis' w b h =
      subst Bounded (ok_inj h)
        (overwrite-IsBounded interface key value (suc t) redis (w (suc t) refl) b)

module _ (signer : Signer) (journalists : List Journalist) (interface : SessionInterface) where
  -- What is stored of a session is bounded, if its count and time are.
  stored_session-Bounded :
      (value : SessionData) (expires : Option ℕ) (given : ServerSideSession)
      (left : SessionInterface) (redis : List RedisEntry)
      → ((t : ℕ) → expires ≡ some t → IsWithin value.renew_count interface t)
      → Bounded interface left.redis
      → stored_session signer journalists value expires given left ≡ ok redis
      → Bounded interface redis
  unfolding stored_session
  stored_session-Bounded value expires given left redis w b h =
      let key : Text = left.key_prefix ++ given.sid in
      elim (Bool-cases (given.new || given.to_regenerate)) [
        | inl e ↦
            let set : redis_setex key value expires left.redis ≡ ok redis = ground arith in
            redis_setex-Bounded interface key value expires left.redis redis w b set
        | inr e ↦ elim (Bool-cases given.modified) [
          | inl m ↦
              let set : redis_set_xx key value expires left.redis ≡ ok redis = ground arith in
              redis_set_xx-Bounded interface key value expires left.redis redis w b set
          | inr m ↦ let same : left.redis ≡ redis = ground arith in subst (Bounded interface) same b
        ]
      ]

  regenerated-Bounded :
      (fresh : Text) (k : ServerSideSession) (left : SessionInterface)
      → Bounded interface left.redis
      → Bounded interface (regenerated signer journalists fresh k left).1.redis
  regenerated-Bounded fresh k left b = elim (Bool-cases k.to_regenerate) [
    | inl e ↦
        let same : redis_delete (left.key_prefix ++ k.sid) left.redis
            ≡ (regenerated signer journalists fresh k left).1.redis =
          ground arith in
        subst (Bounded interface) same (redis_delete-IsBounded interface _ left.redis b)
    | inr e ↦
        let same : left.redis ≡ (regenerated signer journalists fresh k left).1.redis =
          ground arith in
        subst (Bounded interface) same b
  ]

  -- The interface with other contents of Redis.
  abbrev holding : List RedisEntry → SessionInterface
  holding old = record interface { redis = old }

  save_left-Bounded :
      (fresh : Text) (s : ServerSideSession) (old : List RedisEntry) (saved : Saved)
      → s.stored.renew_count ≤ interface.renew_count
      → ((u : ℕ)
          → s.new ≡ false
          → redis_ttl (interface.key_prefix ++ s.sid) old ≡ some u
          → IsWithin s.stored.renew_count interface u)
      → Bounded interface old
      → save_left signer journalists fresh s (holding old) ≡ ok saved
      → Bounded interface saved.interface.redis
  unfolding save_left
  save_left-Bounded fresh s old saved few within b h =
      let left : SessionInterface = holding old in
      let expires = redis_ttl (left.key_prefix ++ s.sid) old in
      let k : ServerSideSession = (renewed left expires s).0 in
      let time : Option ℕ = (renewed left expires s).1 in
      let given : ServerSideSession = (regenerated signer journalists fresh k left).0 in
      let rest : SessionInterface = (regenerated signer journalists fresh k left).1 in
      let (redis, stored, made) =
        >>=-eq-ok (stored_session signer journalists k.stored time given rest)
          (λ redis. ok (record {
            interface = record rest { redis = redis };
            cookie = cookie_of signer journalists given;
          }))
          h in
      let kept : Bounded interface redis =
        stored_session-Bounded k.stored time given rest redis
          (λ t e. renewed-IsWithin left expires s t few within e)
          (regenerated-Bounded fresh k left b) stored in
      subst (Bounded interface) (ap (λ (o : Saved). o.interface.redis) (ok_inj made)) kept

  -- Saving keeps every session bounded: the seconds it has left and those of the renewals it has left are together at
  -- most a lifetime for each renewal and one more. So it is if the session has at most the renewals of a
  -- new one, and if its count fits the time of its key, as it does where no other request has saved
  -- it in between.
  pub save_session-IsBounded :
      (fresh fresh' : Text) (session : ServerSideSession) (saved : Saved)
      → session.stored.renew_count ≤ interface.renew_count
      → ((u : ℕ)
          → session.new ≡ false
          → redis_ttl (interface.key_prefix ++ session.sid) interface.redis ≡ some u
          → IsWithin session.stored.renew_count interface u)
      → All (IsBounded interface) interface.redis
      → save_session signer journalists fresh fresh' session interface ≡ ok saved
      → All (IsBounded interface) saved.interface.redis
  unfolding save_session new_session server_side_session
  save_session-IsBounded fresh fresh' session saved few within b h =
      let key : Text = interface.key_prefix ++ session.sid in
      let left : List RedisEntry = redis_delete key interface.redis in
      let shorter : Bounded interface left =
        redis_delete-IsBounded interface key interface.redis b in
      elim (Bool-cases session.to_destroy) [
        | inr stays ↦
            save_left-Bounded fresh' session interface.redis saved few within b
              (rw (destroyed_not signer journalists fresh session interface stays) at h)
        | inl gone ↦ elim (Bool-cases session.is_api) [
          | inl api ↦
              save_left-Bounded fresh' session left saved few
                (λ u old e. let no_key = ttl_deleted key interface.redis in absurd (cc)) shorter
                (rw (destroyed_api signer journalists fresh session interface gone api) at h)
          | inr page ↦
              save_left-Bounded fresh' (new_session signer journalists (holding left) fresh false)
                left saved (omega arith) (λ u old e. absurd (cc)) shorter
                (rw (destroyed_page signer journalists fresh session interface gone page) at h)
        ]
      ]
