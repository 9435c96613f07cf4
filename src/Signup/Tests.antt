-- ===== src/Signup/Tests.antt =====
-- A page with a codename and the account that is made from it, and instances of the theorems.
use ab.Signup.Form.{is_word_char}
use ab.Signup.Return.{login-generate_passphrase}
use ab.Signup.Login.{
  is_codename_char, valid_codename_field, GpgKeys, LoginResponse, login_page, redirect_from_login,
  login,
}
use ab.Encoding.{b32encode}
use ab.Base.{
  List, false, ok, zero, suc, all, All, true, ℕ, ◌<◌, ◌≤◌, ◌≡◌, ◌⊎◌, refl, arith, none, some, [],
  ◌∷◌, ◌++◌, drop, length,
}
use ab.Base.Text.{is_space, Text, codes, text_eq}
use ab.Models.{Source, Db}
use ab.Passphrases.{
  WordLists, longest, shortest, check_lengths, check_word_list, check_word_lists, new_generator,
  PassphraseGenerator, generate_passphrase, choose_words, word_list, words_of,
}
use ab.TwoFactor.{is_ascii, join_spaces}
use ab.Sources.{
  SourceUser, derive_source_filesystem_id, derive_source_gpg_secret, authenticate_source_user,
  SourceSetup, SourceState, create_source_user,
}
use ab.Sources.Session.{get_logged_in_user, is_user_logged_in}
use ab.Signup.{
  Codenames, escaped_length, string_length, entries_length, serialized_length,
  fit_codenames_into_cookie, set_codename, Cookie, cleared_cookie, generate_get, check_tor2web,
  generate, create, codename_of, generate_post, forbidden,
}
use ab.Signup.Cookies.{IsLarge, fit_codenames_into_cookie_lem}
use ab.Signup.Created.{IsOutcome, create-generate}

abbrev setup : SourceSetup
setup = record {
  scrypt = λ salt passphrase. salt ++ passphrase;
  generate_source_key_pair =
      λ secret id. record { public_key = id; secret_key = secret; fingerprint = [] };
  manager = record { salt_for_gpg_secret = 1 ∷ []; salt_for_filesystem_id = 2 ∷ [] };
  designations = record { nouns = codes "fox" ∷ []; adjectives = codes "red" ∷ [] };
}

abbrev empty_db : Db
empty_db = record {
  journalists = [];
  login_attempts = [];
  sources = [];
  submissions = [];
  replies = [];
  source_stars = [];
  seen_files = [];
  seen_messages = [];
  seen_replies = [];
  next_id = 1;
}

abbrev no_sources : SourceState
no_sources = record { db = empty_db; directories = [] }

abbrev words : PassphraseGenerator
words = record {
  language_to_words = (codes "en", codes "a" ∷ []) ∷ [];
  fallback_language = codes "en";
}

abbrev codename : Text
codename = codes "a a a a a a a"

abbrev page : Cookie
page = record cleared_cookie {
  codenames = some ((codes "t", codename) ∷ []);
  codenames_expire = some 7300;
}

-- {"t": "a\"\u00e9"}
serialized_test : serialized_length ((codes "t", 97 ∷ 34 ∷ 233 ∷ []) ∷ []) ≡ 18
unfolding serialized_length entries_length string_length escaped_length
serialized_test = refl

forbidden_test :
    generate setup 120 100
      (codes "t")
      (λ i. 0)
      words
      none
      (generate_post none)
      empty_db
      cleared_cookie
    ≡ (forbidden, cleared_cookie)
unfolding generate check_tor2web
forbidden_test = refl

create-generate_example :
    (codename ≡ generate_passphrase (λ i. 0) words none)
    × IsOutcome setup 120 200 codename
        (create_source_user setup (λ n. (0, 0)) 7 codename no_sources)
        (create setup 120 200 (λ n. (0, 0)) 7 (some (codes "t")) page no_sources)
unfolding generate check_tor2web is_user_logged_in get_logged_in_user generate_passphrase
    choose_words word_list words_of join_spaces fit_codenames_into_cookie set_codename codename_of
    text_eq serialized_length entries_length string_length escaped_length
create-generate_example =
    create-generate setup 120 100 200 7 (codes "t") codename (λ i. 0) (λ n. (0, 0)) words none
      generate_get empty_db cleared_cookie page no_sources refl refl (omega arith) (omega arith)

abbrev two_tabs : Codenames
two_tabs = (codes "t", codename) ∷ (codes "u", codename) ∷ []

fit_codenames_into_cookie_lem_example :
    (n : ℕ) × (fit_codenames_into_cookie two_tabs ≡ drop n two_tabs)
    × ((length (drop n two_tabs) ≤ 1) ⊎ (serialized_length (drop n two_tabs) ≤ 4000))
    × ((m : ℕ) → m < n → IsLarge (drop m two_tabs))
fit_codenames_into_cookie_lem_example = fit_codenames_into_cookie_lem two_tabs

abbrev repeat : ℕ → Text → List Text
repeat zero w = []
repeat (suc n) w = w ∷ repeat n w

abbrev english : WordLists
english = (codes "en", repeat 7300 (codes "up-to")) ∷ []

abbrev generator : PassphraseGenerator
generator = record { language_to_words = english; fallback_language = codes "en" }

repeat-All :
    (n : ℕ) (w : Text)
    → all is_word_char w ≡ true
    → All (λ v. all is_word_char v ≡ true) (repeat n w)
repeat-All zero w h = tt
repeat-All (suc n) w h = (h, repeat-All n w h)

abbrev shown : Text
shown = codes "up-to up-to up-to up-to up-to up-to up-to"

-- A source of an older version, whose keys are still to be made.
abbrev old_source : Source
old_source = record {
  id = 4;
  uuid = 7;
  filesystem_id = derive_source_filesystem_id setup shown;
  journalist_designation = codes "red fox";
  last_updated = none;
  pending = false;
  interaction_count = 1;
  deleted_at = none;
  pgp_public_key = none;
  pgp_secret_key = none;
  pgp_fingerprint = none;
}

abbrev no_keys : GpgKeys
no_keys = record {
  get_source_key_fingerprint = λ id. none;
  export_keys = λ fingerprint passphrase. [];
  is_valid_secret_key = λ key passphrase. none;
}

abbrev old_db : Db
old_db = record empty_db { sources = old_source ∷ [] }

abbrev returned : LoginResponse × Cookie × Db
returned =
    login setup no_keys 120 50 (some (generate_passphrase (λ i. 0) generator none)) cleared_cookie
      old_db

abbrev old_user : SourceUser
old_user = record {
  db_record_id = 4;
  filesystem_id = derive_source_filesystem_id setup shown;
  gpg_secret = derive_source_gpg_secret setup shown;
}

rejected_test :
    login setup no_keys 120 50 (some (codes "it's")) cleared_cookie old_db
    ≡ (login_page, cleared_cookie, old_db)
unfolding login valid_codename_field is_codename_char is_space
rejected_test = refl

login-generate_passphrase_example :
    (returned.0 ≡ redirect_from_login)
    × (get_logged_in_user setup 120 50 returned.2 returned.1.source_session
        ≡ (ok old_user, returned.1.source_session))
    × ((other : Text)
        → authenticate_source_user setup other returned.2
          ≡ authenticate_source_user setup other old_db)
unfolding new_generator words_of text_eq check_word_lists check_word_list is_ascii check_lengths
    longest shortest is_space is_codename_char authenticate_source_user derive_source_filesystem_id
    derive_source_gpg_secret b32encode generate_passphrase choose_words word_list join_spaces
login-generate_passphrase_example =
    login-generate_passphrase setup no_keys 120 50 cleared_cookie old_db (λ i. 0) english
      (codes "en") generator none old_user refl (repeat-All 7300 (codes "up-to") refl, tt)
      (omega arith) refl
