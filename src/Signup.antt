-- ===== src/Signup.antt =====
-- How a source gets an account (securedrop/source_app/main.py, `generate` and `create`, from requests that have passed
-- the hooks of the application; `fit_codenames_into_cookie` and `clear_session_and_redirect_to_logged_out_page` of
-- its utils.py). The random tab id and the random choices enter as arguments.
pub mod Cookies
pub mod Created
pub mod Login
pub mod Form
pub mod Return
mod Tests
use ab.Base.{
  ℕ, ◌+◌, ◌*◌, Bool, true, false, not, ◌&&◌, ◌||◌, Option, none, some, List, [], ◌∷◌, ◌++◌, find,
  map, length, ltb, leb, ◌==◌, if◌then◌else◌, Result, ok, err, Exec,
}
use ab.Base.Text.{Text, text_eq, codes}
use ab.Models.{Db}
use ab.Passphrases.{PassphraseGenerator, generate_passphrase}
use ab.Sources.{
  SourceError, passphrase_collision, designation_collision, SourceSetup, SourceState, SourceUser,
  create_source_user,
}
use ab.Sources.Session.{
  SourceSession, SessionError, other_error, log_user_out, log_user_in, is_user_logged_in,
}

-- A dictionary of texts, in the order of its insertions.
abbrev pub Codenames : Type 0
Codenames = List (Text × Text)

-- The session cookie of a source.
pub record Cookie : Type 0 where
  pub source_session : SourceSession
  pub codenames : Option Codenames
  pub codenames_expire : Option ℕ
  pub new_user_codename : Option Text

abbrev pub cleared_cookie : Cookie
cleared_cookie = record {
  source_session = record { codename = none; expires = none };
  codenames = none;
  codenames_expire = none;
  new_user_codename = none;
}

-- What `json.dumps` writes for one character: itself, a short escape, \uXXXX, or two of those.
unfoldable pub escaped_length : ℕ → ℕ
escaped_length c =
    if (c == 34) || (c == 92) || (c == 10) || (c == 13) || (c == 9) || (c == 8) || (c == 12)
    then 2
    else if leb 32 c && leb c 126
    then 1
    else if leb c 65535
    then 6
    else 12

unfoldable pub string_length : Text → ℕ
string_length [] = 2
string_length (c ∷ s) = escaped_length c + string_length s

-- len(json.dumps(codenames).encode()): {"a": "b", "c": "d"}
unfoldable pub entries_length : Codenames → ℕ
entries_length [] = 0
entries_length (e ∷ []) = string_length e.0 + 2 + string_length e.1
entries_length (e ∷ f ∷ es) =
    string_length e.0 + 2 + string_length e.1 + 2 + entries_length (f ∷ es)

unfoldable pub serialized_length : Codenames → ℕ
serialized_length codenames = 2 + entries_length codenames

unfoldable pub fit_codenames_into_cookie : Codenames → Codenames
fit_codenames_into_cookie [] = []
fit_codenames_into_cookie (e ∷ es) =
    let rest = fit_codenames_into_cookie es in
    if ltb 1 (length (e ∷ es)) && ltb 4000 (serialized_length (e ∷ es)) then rest else e ∷ es

-- codenames[tab_id] = codename
unfoldable pub set_codename : Text → Text → Codenames → Codenames
set_codename tab_id codename [] = (tab_id, codename) ∷ []
set_codename tab_id codename (e ∷ es) =
    let rest = set_codename tab_id codename es in
    if text_eq e.0 tab_id then (e.0, codename) ∷ es else e ∷ rest

-- codenames[tab_id]
unfoldable pub codename_of : Text → Codenames → Option Text
codename_of tab_id [] = none
codename_of tab_id (e ∷ es) =
    let rest = codename_of tab_id es in if text_eq e.0 tab_id then some e.1 else rest

abbrev pub codenames_or_empty : Option Codenames → Codenames
codenames_or_empty none = []
codenames_or_empty (some codenames) = codenames

-- A request for a page with a codename: by the form of the index page, with its field, or by its address.
pub data GenerateRequest : Type 0 where
  generate_post : Option Text → GenerateRequest
  generate_get : GenerateRequest

pub data GenerateResponse : Type 0 where
  forbidden : GenerateResponse
  tor2web_warning : GenerateResponse
  already_logged_in : GenerateResponse
  codename_page : Text → Text → GenerateResponse
  generate_failed : SessionError → GenerateResponse

unfoldable pub check_tor2web : GenerateRequest → Option GenerateResponse
check_tor2web generate_get = none
check_tor2web (generate_post none) = some forbidden
check_tor2web (generate_post (some check)) =
    if text_eq check (codes "href=\"fake.onion\"") then none else some tor2web_warning

-- The form has the tab's id; a form without it is a bad request. An unknown id is a KeyError.
pub data CreateResponse : Type 0 where
  redirect_to_lookup : CreateResponse
  logged_out_page : CreateResponse
  bad_request : CreateResponse
  key_error : CreateResponse
  temporary_problem : CreateResponse
  source_created : CreateResponse
  session_failed : SessionError → CreateResponse
  source_failed : SourceError → CreateResponse

-- not date_codenames_expire or now >= date_codenames_expire
unfoldable pub codenames_expired : ℕ → Option ℕ → Bool
codenames_expired now none = true
codenames_expired now (some expire) = leb expire now

abbrev pub created_or_refused : SourceError → CreateResponse
created_or_refused passphrase_collision = temporary_problem
created_or_refused designation_collision = temporary_problem
created_or_refused e = source_failed e

module _ (setup : SourceSetup) (session_expiration_minutes : ℕ) where
  -- `tab_id` and `draw` are random.
  abbrev pub new_codename : ℕ → Text → Text → Cookie → GenerateResponse × Cookie
  new_codename now tab_id codename cookie = (
    codename_page tab_id codename,
    record cookie {
      codenames = some (
          fit_codenames_into_cookie
            (set_codename tab_id codename (codenames_or_empty cookie.codenames)));
      codenames_expire = some (now + session_expiration_minutes * 60);
    },
  )

  abbrev pub generate_unless :
      ℕ
      → Text
      → Text
      → Cookie
      → Result SessionError Bool × SourceSession
      → GenerateResponse × Cookie
  generate_unless now tab_id codename cookie (err e, session) =
      (generate_failed e, record cookie { source_session = session })
  generate_unless now tab_id codename cookie (ok true, session) =
      (already_logged_in, record cookie { source_session = session })
  generate_unless now tab_id codename cookie (ok false, session) =
      new_codename now tab_id codename (record cookie { source_session = session })

  -- `passed` is what the rest of the handler comes to.
  abbrev pub unless_refused :
      Cookie → GenerateResponse × Cookie → Option GenerateResponse → GenerateResponse × Cookie
  unless_refused cookie passed none = passed
  unless_refused cookie passed (some response) = (response, cookie)

  unfoldable pub generate :
      ℕ
      → Text
      → (ℕ → ℕ)
      → PassphraseGenerator
      → Option Text
      → GenerateRequest
      → Db
      → Cookie
      → GenerateResponse × Cookie
  generate now tab_id draw generator language request db cookie =
      unless_refused cookie
        (generate_unless now tab_id (generate_passphrase draw generator language) cookie
          (is_user_logged_in setup session_expiration_minutes now db cookie.source_session))
        (check_tor2web request)

  -- The login of the new source.
  abbrev pub after_login :
      Cookie
      → SourceState
      → Result SourceError SourceUser × SourceSession
      → CreateResponse × Cookie × SourceState
  after_login cookie state (ok user, session) =
      (source_created, record cookie { source_session = session }, state)
  after_login cookie state (err e, session) =
      (source_failed e, record cookie { source_session = session }, state)

  abbrev pub after_creation :
      ℕ
      → Text
      → Cookie
      → Result SourceError SourceUser × SourceState
      → CreateResponse × Cookie × SourceState
  after_creation now codename cookie (err e, state) = (created_or_refused e, cookie, state)
  after_creation now codename cookie (ok user, state) =
      after_login (record cookie { new_user_codename = some codename }) state
        (log_user_in setup session_expiration_minutes now codename state.db cookie.source_session)

  abbrev pub create_with :
      ℕ
      → (ℕ → ℕ × ℕ)
      → ℕ
      → Option Text
      → Cookie
      → SourceState
      → CreateResponse × Cookie × SourceState
  create_with now draw uuid none cookie state = (key_error, cookie, state)
  create_with now draw uuid (some codename) cookie state =
      after_creation now codename (record cookie { codenames = none })
        (create_source_user setup draw uuid codename state)

  abbrev pub create_from_tab :
      ℕ
      → (ℕ → ℕ × ℕ)
      → ℕ
      → Option Text
      → Cookie
      → SourceState
      → CreateResponse × Cookie × SourceState
  create_from_tab now draw uuid none cookie state = (bad_request, cookie, state)
  create_from_tab now draw uuid (some tab_id) cookie state = elim cookie.codenames [
    | none ↦ (key_error, cookie, state)
    | some codenames ↦ create_with now draw uuid (codename_of tab_id codenames) cookie state
  ]

  abbrev pub create_unless :
      ℕ
      → (ℕ → ℕ × ℕ)
      → ℕ
      → Option Text
      → Cookie
      → SourceState
      → Result SessionError Bool
      → CreateResponse × Cookie × SourceState
  create_unless now draw uuid tab_id cookie state (err e) = (session_failed e, cookie, state)
  create_unless now draw uuid tab_id cookie state (ok true) = (redirect_to_lookup, cookie, state)
  create_unless now draw uuid tab_id cookie state (ok false) =
      if codenames_expired now cookie.codenames_expire
      then (logged_out_page, cleared_cookie, state)
      else create_from_tab now draw uuid tab_id cookie state

  unfoldable pub create :
      ℕ
      → (ℕ → ℕ × ℕ)
      → ℕ
      → Option Text
      → Cookie
      → SourceState
      → CreateResponse × Cookie × SourceState
  create now draw uuid tab_id cookie state =
      let (logged_in, session) =
        is_user_logged_in setup session_expiration_minutes now state.db cookie.source_session in
      create_unless now draw uuid tab_id (record cookie { source_session = session }) state
        logged_in
