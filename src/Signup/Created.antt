-- ===== src/Signup/Created.antt =====
-- An account is made for the codename that the page showed (securedrop/source_app/main.py, `generate` and `create`).
use mathlib.Core.Path.{subst}
use ab.Base.{
  ℕ, ◌+◌, ◌*◌, ◌<◌, ◌≤◌, ◌≡◌, refl, sym, ap, ◌∙◌, Bool, true, false, Option, none, some, leb, arith,
  Result, ok, err, Bool-cases, inl, inr, ◌⊎◌,
}
use ab.Base.Text.{Text, text_eq, codes}
use ab.Models.{Db}
use ab.Passphrases.{PassphraseGenerator, generate_passphrase}
use ab.Sources.{
  SourceError, invalid_passphrase, designation_collision, passphrase_collision, multiple_results,
  file_exists, value_error, SourceSetup, SourceState, SourceUser, authenticate_source_user,
  create_source_user,
}
use ab.Sources.Create.{create_source_user-authenticate}
use ab.Sources.Session.{
  SourceSession, SessionError, log_user_in, get_logged_in_user, is_logged_in, is_user_logged_in,
  fetched,
}
use ab.Signup.{
  unless_refused, Codenames, fit_codenames_into_cookie, set_codename, codename_of,
  codenames_or_empty, Cookie, GenerateRequest, GenerateResponse, forbidden, tor2web_warning,
  codename_page, generate_get, generate_post, check_tor2web, generate, generate_unless,
  unless_refused, CreateResponse, source_created, created_or_refused, codenames_expired, create,
  after_creation, after_login,
}
use ab.Signup.Cookies.{codename_of-fit_codenames_into_cookie}

check_tor2web-cases :
    (request : GenerateRequest)
    → (check_tor2web request ≡ none)
      ⊎ ((check_tor2web request ≡ some forbidden) ⊎ (check_tor2web request ≡ some tor2web_warning))
unfolding check_tor2web
check_tor2web-cases generate_get = inl refl
check_tor2web-cases (generate_post none) = inr (inl refl)
check_tor2web-cases (generate_post (some check)) =
    elim (Bool-cases (text_eq check (codes "href=\"fake.onion\""))) [
      | inl same ↦ inl (rw same refl)
      | inr other ↦ inr (inr (rw other refl))
    ]

module _ (setup : SourceSetup) (session_expiration_minutes : ℕ) where
  abbrev empty_session : SourceSession
  empty_session = record { codename = none; expires = none }

  -- Who is not logged in has an empty session afterwards.
  fetched-logged_out :
      (r : Result SourceError SourceUser) (session : SourceSession)
      → is_logged_in setup session_expiration_minutes
          (fetched setup session_expiration_minutes r session).0
        ≡ ok false
      → (fetched setup session_expiration_minutes r session).1 ≡ empty_session
  fetched-logged_out (ok user) session h = absurd (cc)
  fetched-logged_out (err invalid_passphrase) session h = refl
  fetched-logged_out (err designation_collision) session h = absurd (cc)
  fetched-logged_out (err passphrase_collision) session h = absurd (cc)
  fetched-logged_out (err multiple_results) session h = absurd (cc)
  fetched-logged_out (err file_exists) session h = absurd (cc)
  fetched-logged_out (err value_error) session h = absurd (cc)

  -- Likewise for the whole of it, by the fields of the session.
  logged_out_by_fields :
      (now : ℕ) (db : Db) (codename : Option Text) (expires : Option ℕ)
      → let session : SourceSession = record { codename = codename; expires = expires } in
        is_logged_in setup session_expiration_minutes
            (get_logged_in_user setup session_expiration_minutes now db session).0
          ≡ ok false
        → (get_logged_in_user setup session_expiration_minutes now db session).1 ≡ empty_session
  unfolding get_logged_in_user
  logged_out_by_fields now db none expires h = refl
  logged_out_by_fields now db (some passphrase) none h = refl
  logged_out_by_fields now db (some passphrase) (some expires) h =
      elim (Bool-cases (leb expires now)) [
        | inl late ↦ rw late refl
        | inr early ↦
            let same : get_logged_in_user setup session_expiration_minutes now db
                  (record { codename = some passphrase; expires = some expires })
                ≡ fetched setup session_expiration_minutes
                    (authenticate_source_user setup passphrase db)
                    (record { codename = some passphrase; expires = some expires }) =
              rw early refl in
            ap (λ (o : Result SessionError SourceUser × SourceSession). o.1) same
            ∙ fetched-logged_out (authenticate_source_user setup passphrase db)
                (record { codename = some passphrase; expires = some expires })
                (ap
                    (λ (o : Result SessionError SourceUser × SourceSession).
                      is_logged_in setup session_expiration_minutes o.0)
                    (sym same)
                  ∙ h)
      ]

  is_user_logged_in-empty :
      (now : ℕ) (db : Db) (session : SourceSession)
      → (is_user_logged_in setup session_expiration_minutes now db session).0 ≡ ok false
      → (is_user_logged_in setup session_expiration_minutes now db session).1 ≡ empty_session
  unfolding is_user_logged_in
  is_user_logged_in-empty now db session h =
      logged_out_by_fields now db session.codename session.expires h

  abbrev page_cookie : ℕ → Text → Text → Cookie → Cookie
  page_cookie now tab_id codename cookie = record {
    source_session = empty_session;
    codenames = some (
        fit_codenames_into_cookie
          (set_codename tab_id codename (codenames_or_empty cookie.codenames)));
    codenames_expire = some (now + session_expiration_minutes * 60);
    new_user_codename = cookie.new_user_codename;
  }

  shows_page :
      (now : ℕ) (tab_id codename drawn : Text) (cookie after : Cookie)
      (out : Result SessionError Bool × SourceSession)
      → (out.0 ≡ ok false → out.1 ≡ empty_session)
      → generate_unless setup session_expiration_minutes now tab_id drawn cookie out
        ≡ (codename_page tab_id codename, after)
      → (codename ≡ drawn) × (after ≡ page_cookie now tab_id codename cookie)
  shows_page now tab_id codename drawn cookie after (err e, session) empty h = absurd (cc)
  shows_page now tab_id codename drawn cookie after (ok true, session) empty h = absurd (cc)
  shows_page now tab_id codename drawn cookie after (ok false, session) empty h =
      let e : session ≡ empty_session = empty refl in
      let c : drawn ≡ codename = cc in
      (sym c, sym (ap (λ (o : GenerateResponse × Cookie). o.1) h) ∙ rw e (rw c refl))

  module _ (now : ℕ) (tab_id : Text) (draw : ℕ → ℕ) (generator : PassphraseGenerator)
      (language : Option Text) (request : GenerateRequest) (db : Db) (cookie : Cookie) where
    abbrev generated : GenerateResponse × Cookie
    generated =
        generate setup session_expiration_minutes now tab_id draw generator language request db
          cookie

    generate-passed :
        check_tor2web request ≡ none
        → generated
          ≡ generate_unless setup session_expiration_minutes now tab_id
              (generate_passphrase draw generator language)
              cookie
              (is_user_logged_in setup session_expiration_minutes now db cookie.source_session)
    unfolding generate
    generate-passed h =
        ap
          (unless_refused setup session_expiration_minutes cookie (
            generate_unless setup session_expiration_minutes now tab_id
              (generate_passphrase draw generator language) cookie
              (is_user_logged_in setup session_expiration_minutes now db cookie.source_session)))
          h

    generate-refused :
        (r : GenerateResponse) → check_tor2web request ≡ some r → generated ≡ (r, cookie)
    unfolding generate
    generate-refused r h =
        ap
          (unless_refused setup session_expiration_minutes cookie (
            generate_unless setup session_expiration_minutes now tab_id
              (generate_passphrase draw generator language) cookie
              (is_user_logged_in setup session_expiration_minutes now db cookie.source_session)))
          h

  -- What a page with a codename leaves in the cookie.
  generate-cookie :
      (now : ℕ) (tab_id codename : Text) (draw : ℕ → ℕ) (generator : PassphraseGenerator)
      (language : Option Text) (request : GenerateRequest) (db : Db) (cookie after : Cookie)
      → generate setup session_expiration_minutes now tab_id draw generator language request db
          cookie
        ≡ (codename_page tab_id codename, after)
      → (codename ≡ generate_passphrase draw generator language)
        × (after ≡ page_cookie now tab_id codename cookie)
  unfolding generate
  generate-cookie now tab_id codename draw generator language request db cookie after h =
      elim (check_tor2web-cases request) [
        | inl passed ↦
            shows_page now tab_id codename (generate_passphrase draw generator language) cookie
              after
              (is_user_logged_in setup session_expiration_minutes now db cookie.source_session)
              (is_user_logged_in-empty now db cookie.source_session)
              (sym (generate-passed now tab_id draw generator language request db cookie passed)
                ∙ h)
        | inr (inl forbids) ↦ absurd (
            let other =
              sym (
                generate-refused now tab_id draw generator language request db cookie forbidden
                  forbids)
              ∙ h in
            cc)
        | inr (inr warns) ↦ absurd (
            let other =
              sym (
                generate-refused now tab_id draw generator language request db cookie
                  tor2web_warning warns)
              ∙ h in
            cc)
      ]

  -- What `create` does with such a cookie.
  create-created :
      (now uuid expire : ℕ) (draw : ℕ → ℕ × ℕ) (tab_id codename : Text) (codenames : Codenames)
      (new_user : Option Text) (state : SourceState)
      → codename_of tab_id codenames ≡ some codename
      → now < expire
      → create setup session_expiration_minutes now draw uuid
          (some tab_id)
          (record {
            source_session = empty_session;
            codenames = some codenames;
            codenames_expire = some expire;
            new_user_codename = new_user;
          })
          state
        ≡ after_creation setup session_expiration_minutes now codename
            (record {
              source_session = empty_session;
              codenames = none;
              codenames_expire = some expire;
              new_user_codename = new_user;
            })
            (create_source_user setup draw uuid codename state)
  unfolding create is_user_logged_in get_logged_in_user codenames_expired
  create-created now uuid expire draw tab_id codename codenames new_user state found early =
      let open' : leb expire now ≡ false = ground arith in rw open' (rw found refl)

  -- The session that a login leaves is that of the user.
  pub get_logged_in_user-logged_in :
      (now : ℕ) (codename : Text) (db : Db) (user : SourceUser) (session : SourceSession)
      → 0 < session_expiration_minutes
      → authenticate_source_user setup codename db ≡ ok user
      → let after : SourceSession = record {
        codename = some codename;
        expires = some (now + session_expiration_minutes * 60);
      } in
        (log_user_in setup session_expiration_minutes now codename db session ≡ (ok user, after))
        × (get_logged_in_user setup session_expiration_minutes now db after ≡ (ok user, after))
  unfolding log_user_in get_logged_in_user
  get_logged_in_user-logged_in now codename db user session some_time authentic =
      let early : leb (now + session_expiration_minutes * 60) now ≡ false = ground arith in
      (rw authentic refl, rw early (rw authentic refl))

  -- What comes of a creation, and of the answer to the request for it.
  abbrev pub IsOutcome :
      ℕ
      → Text
      → Result SourceError SourceUser × SourceState
      → CreateResponse × Cookie × SourceState
      → Type 0
  IsOutcome later codename made out =
      (out.2 ≡ made.1)
      × (((user : SourceUser) × (made.0 ≡ ok user)
            × (out.0 ≡ source_created)
            × (out.1.new_user_codename ≡ some codename)
            × (authenticate_source_user setup codename out.2.db ≡ ok user)
            × (get_logged_in_user setup session_expiration_minutes later out.2.db
                  out.1.source_session
                ≡ (ok user, out.1.source_session)))
          ⊎ ((e : SourceError) × (made.0 ≡ err e)
              × (out.0 ≡ created_or_refused e)
              × (out.1.source_session ≡ empty_session)))

  after_creation-IsOutcome :
      (later : ℕ) (codename : Text) (cookie : Cookie)
      (made : Result SourceError SourceUser × SourceState)
      → 0 < session_expiration_minutes
      → cookie.source_session ≡ empty_session
      → ((user : SourceUser)
          → made.0 ≡ ok user
          → authenticate_source_user setup codename made.1.db ≡ ok user)
      → IsOutcome later codename made
          (after_creation setup session_expiration_minutes later codename cookie made)
  after_creation-IsOutcome later codename cookie (err e, state) some_time empty authentic =
      (refl, inr (e, refl, refl, empty))
  after_creation-IsOutcome later codename cookie (ok user, state) some_time empty authentic =
      let (entered, logged) =
        get_logged_in_user-logged_in later codename state.db user cookie.source_session some_time
          (authentic user refl) in
      let run =
        ap
          (after_login setup session_expiration_minutes
            (record cookie { new_user_codename = some codename }) state)
          entered in
      let final : Cookie = record cookie {
        source_session = record {
          codename = some codename;
          expires = some (later + session_expiration_minutes * 60);
        };
        new_user_codename = some codename;
      } in
      subst (IsOutcome later codename (ok user, state)) (sym run)
        (refl, inl (user, refl, refl, refl, authentic user refl, logged))

  -- An account is made for the codename that the page has shown, if the form is sent from that page before the codenames
  -- expire and if the tab's id was not in use: `create` does what `create_source_user` does for that codename. Where it
  -- makes a source, that source is then logged in, and its codename, which is the generated passphrase,
  -- authenticates it; where it does not, the answer is that of the exception, and nobody is logged in.
  pub create-generate :
      (now later uuid : ℕ) (tab_id codename : Text) (draw : ℕ → ℕ) (draw' : ℕ → ℕ × ℕ)
      (generator : PassphraseGenerator) (language : Option Text) (request : GenerateRequest)
      (db : Db) (cookie page : Cookie) (state : SourceState)
      → generate setup session_expiration_minutes now tab_id draw generator language request db
          cookie
        ≡ (codename_page tab_id codename, page)
      → codename_of tab_id (codenames_or_empty cookie.codenames) ≡ none
      → now ≤ later
      → later < now + session_expiration_minutes * 60
      → let made = create_source_user setup draw' uuid codename state in
        let out =
          create setup session_expiration_minutes later draw' uuid (some tab_id) page state in
        (codename ≡ generate_passphrase draw generator language) × IsOutcome later codename made out
  create-generate now later uuid tab_id codename draw draw' generator language request db cookie
        page state h unused order early =
      let (drawn, left) =
        generate-cookie now tab_id codename draw generator language request db cookie page h in
      let made = create_source_user setup draw' uuid codename state in
      let kept =
        fit_codenames_into_cookie
          (set_codename tab_id codename (codenames_or_empty cookie.codenames)) in
      let run =
        ap (λ c. create setup session_expiration_minutes later draw' uuid (some tab_id) c state)
          left
        ∙ create-created later uuid (now + session_expiration_minutes * 60) draw' tab_id codename
            kept cookie.new_user_codename state
            (codename_of-fit_codenames_into_cookie tab_id codename
              (codenames_or_empty cookie.codenames) unused)
            early in
      (
        drawn,
        subst (IsOutcome later codename made) (sym run) (
            after_creation-IsOutcome later codename
              (record {
                source_session = empty_session;
                codenames = none;
                codenames_expire = some (now + session_expiration_minutes * 60);
                new_user_codename = cookie.new_user_codename;
              })
              made (omega arith) refl
              (λ user e.
                (create_source_user-authenticate setup draw' uuid codename state made.1 user
                  (ap (λ r. (r, made.1)) e)).0)),
      )
