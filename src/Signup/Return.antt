-- ===== src/Signup/Return.antt =====
-- A generated codename is accepted by the form, and logs its source in (securedrop/source_app/main.py, `login`).
use mathlib.Core.Path.{subst}
use ab.Base.{
  ℕ, ◌+◌, ◌*◌, ◌<◌, ◌≡◌, refl, sym, ap, ◌∙◌, Bool, true, false, not, ◌&&◌, Option, none, some, List,
  [], ◌∷◌, map, all, find, if◌then◌else◌, arith, ok, Bool-cases, inl, inr, All, All-map,
  Option-cases,
}
use ab.Base.Fallible.{ok_inj}
use ab.Base.Text.{Text, text_eq, is_empty, is_space}
use ab.Submit.{strip}
use ab.Passphrases.Acceptable.{is_solid, generate_passphrase-words}
use ab.Models.{Source, Db}
use ab.Passphrases.{WordLists, PassphraseGenerator, new_generator, generate_passphrase}
use ab.Sources.{
  SourceSetup, SourceUser, has_filesystem_id, is_kept, derive_source_filesystem_id,
  derive_source_gpg_secret, authenticated, authenticate_source_user,
}
use ab.Sources.Session.{SourceSession, get_logged_in_user}
use ab.Signup.{Cookie}
use ab.Signup.Created.{get_logged_in_user-logged_in}
use ab.Signup.Login.{
  valid_codename_field, GpgKeys, LoginResponse, redirect_from_login, has_source_id, change_source,
  with_new_keys, fingerprint_of, with_secret_key, migrated_from, migrated, migrate, after_attempt,
  login,
}
use ab.Signup.Form.{
  is_word_char, all-implied, is_word_char-both, strip-join_spaces, join_spaces-valid,
}

first_hit :
    (p : Source → Bool) (s : Source) (ss : List Source) → p s ≡ true → find p (s ∷ ss) ≡ some s
first_hit p s ss h = rw h refl

first_miss :
    (p : Source → Bool) (s : Source) (ss : List Source) → p s ≡ false → find p (s ∷ ss) ≡ find p ss
first_miss p s ss h = rw h refl

find-some :
    (p : Source → Bool) (ss : List Source) (s : Source)
    → find p ss ≡ some s
    → (q : Source → Bool) → q s ≡ true
    → (t : Source) × (find q ss ≡ some t)
find-some p [] s h q k = absurd (cc)
find-some p (t ∷ ss) s h q k = elim (Bool-cases (q t)) [
  | inl hit ↦ (t, rw hit refl)
  | inr miss ↦ elim (Bool-cases (p t)) [
    | inl found ↦ let e : t ≡ s = ground arith in absurd (let l = ap q e in ground arith)
    | inr other ↦ let (u, later) = find-some p ss s (rw other at h) q k in (u, rw miss later)
  ]
]

-- The row by which somebody was authenticated is there.
row_there :
    (setup : SourceSetup) (codename : Text) (user : SourceUser) (db : Db)
    → authenticate_source_user setup codename db ≡ ok user
    → (s : Source) × (find (has_source_id user.db_record_id) db.sources ≡ some s)
unfolding authenticate_source_user
row_there setup codename user db h =
    let p : Source → Bool = λ s.
      has_filesystem_id (derive_source_filesystem_id setup codename) s && is_kept s.deleted_at in
    elim (Option-cases (find p db.sources)) [
      | inl missing ↦ absurd (let none_there = ap (authenticated setup codename) missing in cc)
      | inr (s, found) ↦
          let same : authenticated setup codename (some s) ≡ ok user =
            sym (ap (authenticated setup codename) found) ∙ h in
          find-some p db.sources s found (has_source_id user.db_record_id) (
            let id : s.id ≡ user.db_record_id =
              ap (λ (u : SourceUser). u.db_record_id) (ok_inj same) in
            ground arith)
    ]

-- Two rows of one source, that may have different keys.
abbrev IsSameSource : Source → Source → Type 0
IsSameSource s t =
    (t.id ≡ s.id) × (t.filesystem_id ≡ s.filesystem_id) × (t.deleted_at ≡ s.deleted_at)

find-map_same :
    (setup : SourceSetup) (codename : Text) (f : Source → Source)
    → ((s : Source) → IsSameSource s (f s))
    → (ss : List Source)
    → let p : Source → Bool = λ s.
      has_filesystem_id (derive_source_filesystem_id setup codename) s && is_kept s.deleted_at in
      authenticated setup codename (find p (map f ss)) ≡ authenticated setup codename (find p ss)
find-map_same setup codename f same [] = refl
find-map_same setup codename f same (s ∷ ss) =
    let p : Source → Bool = λ s.
      has_filesystem_id (derive_source_filesystem_id setup codename) s && is_kept s.deleted_at in
    let (id, filesystem, kept) = same s in
    let as_before : p (f s) ≡ p s =
      ap (λ i. text_eq i (derive_source_filesystem_id setup codename) && is_kept (f s).deleted_at)
        filesystem
      ∙ ap (λ k. has_filesystem_id (derive_source_filesystem_id setup codename) s && is_kept k)
          kept in
    let out = authenticated setup codename in
    elim (Bool-cases (p s)) [
      | inl hit ↦
          ap out (first_hit p (f s) (map f ss) (as_before ∙ hit))
          ∙ ap
              (λ i. ok (record {
                db_record_id = i;
                filesystem_id = derive_source_filesystem_id setup codename;
                gpg_secret = derive_source_gpg_secret setup codename;
              }))
              id
          ∙ sym (ap out (first_hit p s ss hit))
      | inr miss ↦
          ap out (first_miss p (f s) (map f ss) (as_before ∙ miss))
          ∙ find-map_same setup codename f same ss
          ∙ sym (ap out (first_miss p s ss miss))
    ]

-- What the form takes has no blanks.
solid_words :
    (lists : WordLists)
    → All (λ l. All (λ w. all is_word_char w ≡ true) l.1) lists
    → All (λ l. All (λ w. is_solid w ≡ true) l.1) lists
solid_words lists chars =
    All-map {P = λ l. All (λ w. all is_word_char w ≡ true) l.1}
      {Q = λ l. All (λ w. is_solid w ≡ true) l.1}
      (λ l h.
        All-map {P = λ w. all is_word_char w ≡ true} {Q = λ w. is_solid w ≡ true}
          (λ w k.
            all-implied is_word_char (λ c. not (is_space c)) (λ c m. (is_word_char-both c m).1) w k)
          l.1 h)
      lists chars

module _ (setup : SourceSetup) (keys : GpgKeys) where
  with_secret_key-IsSame :
      (key : Option Text) (s : Source) → IsSameSource s (with_secret_key setup keys key s)
  with_secret_key-IsSame none s = (refl, refl, refl)
  with_secret_key-IsSame (some key) s = elim (Bool-cases (is_empty key)) [
    | inl empty ↦ rw empty (refl, refl, refl)
    | inr full ↦ rw full (refl, refl, refl)
  ]

  migrated_from-IsSame :
      (user : SourceUser) (fingerprint secret : Option Text) (s : Source)
      → IsSameSource s (migrated_from setup keys user fingerprint secret s)
  unfolding with_new_keys
  migrated_from-IsSame user none secret s = (refl, refl, refl)
  migrated_from-IsSame user (some fingerprint) (some secret) s = (refl, refl, refl)
  migrated_from-IsSame user (some fingerprint) none s = with_secret_key-IsSame _ s

  -- A login changes nothing about whom a codename authenticates.
  authenticate-change_source :
      (user : SourceUser) (codename : Text) (id : ℕ) (db : Db)
      → authenticate_source_user setup codename (change_source id (migrated setup keys user) db)
        ≡ authenticate_source_user setup codename db
  unfolding authenticate_source_user migrated
  authenticate-change_source user codename id db =
      find-map_same setup codename
        (λ s. if has_source_id id s then migrated setup keys user s else s)
        (λ s. elim (Bool-cases (has_source_id id s)) [
          | inl hit ↦
              rw hit (migrated_from-IsSame user (fingerprint_of setup keys s) s.pgp_secret_key s)
          | inr miss ↦ rw miss (refl, refl, refl)
        ])
        db.sources

  module _ (session_expiration_minutes now : ℕ) (cookie : Cookie) (db : Db) where
    abbrev attempt : Option Text → LoginResponse × Cookie × Db
    attempt codename = login setup keys session_expiration_minutes now codename cookie db

    abbrev entered : Text → SourceSession
    entered codename = record {
      codename = some codename;
      expires = some (now + session_expiration_minutes * 60);
    }

    login-ok :
        (codename : Text) (user : SourceUser)
        → 0 < session_expiration_minutes
        → valid_codename_field codename ≡ true
        → strip codename ≡ codename
        → authenticate_source_user setup codename db ≡ ok user
        → attempt (some codename) ≡ (
          redirect_from_login,
          record cookie { source_session = entered codename },
          change_source user.db_record_id (migrated setup keys user) db,
        )
    unfolding login
    login-ok codename user some_time valid stripped authentic =
        let after = record cookie { source_session = entered codename } in
        let logged =
          (get_logged_in_user-logged_in setup session_expiration_minutes now codename db user
            cookie.source_session some_time authentic).0 in
        let (s, there) = row_there setup codename user db authentic in
        rw valid (
          rw stripped (
            ap (after_attempt setup keys cookie db) logged
            ∙ ap (λ found. migrate setup keys user found after db) there))

    -- A source can come back with the codename that was generated for it, at any time and whatever language was
    -- preferred: if the words of the lists are made of what the form accepts and have no blanks, the
    -- form takes the codename, and if it authenticates a source, that source is then logged in. The
    -- keys that the login may give the source change nothing about whom a codename authenticates.
    pub login-generate_passphrase :
        (draw : ℕ → ℕ) (lists : WordLists) (fallback : Text) (g : PassphraseGenerator)
        (preferred : Option Text) (user : SourceUser)
        → new_generator lists fallback ≡ ok g
        → All (λ l. All (λ w. all is_word_char w ≡ true) l.1) lists
        → 0 < session_expiration_minutes
        → authenticate_source_user setup (generate_passphrase draw g preferred) db ≡ ok user
        → let out = attempt (some (generate_passphrase draw g preferred)) in
          (out.0 ≡ redirect_from_login)
          × (get_logged_in_user setup session_expiration_minutes now out.2 out.1.source_session
              ≡ (ok user, out.1.source_session))
          × ((other : Text)
              → authenticate_source_user setup other out.2
                ≡ authenticate_source_user setup other db)
    login-generate_passphrase draw lists fallback g preferred user h chars some_time authentic =
        let (ws, joined, seven, words, accepted) =
          generate_passphrase-words (λ w. all is_word_char w ≡ true) draw lists fallback g preferred
            h (solid_words lists chars) chars in
        let codename = generate_passphrase draw g preferred in
        let done =
          login-ok codename user some_time
            (ap valid_codename_field joined ∙ join_spaces-valid ws seven words accepted)
            (ap strip joined ∙ strip-join_spaces ws words ∙ sym joined) authentic in
        let new_db = change_source user.db_record_id (migrated setup keys user) db in
        let same = λ (other : Text). authenticate-change_source user other user.db_record_id db in
        (
          ap (λ (o : LoginResponse × Cookie × Db). o.0) done,
          subst
              (λ (o : LoginResponse × Cookie × Db).
                get_logged_in_user setup session_expiration_minutes now o.2 o.1.source_session
                ≡ (ok user, o.1.source_session))
              (sym done)
              (get_logged_in_user-logged_in setup session_expiration_minutes now codename new_db
                user cookie.source_session some_time (same codename ∙ authentic)).1,
          λ other.
              ap (λ (o : LoginResponse × Cookie × Db). authenticate_source_user setup other o.2)
                done
              ∙ same other,
        )
