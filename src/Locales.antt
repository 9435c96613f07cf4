-- ===== src/Locales.antt =====
-- The locale of a request (securedrop/i18n.py). A locale of the package babel is known by its identifier; parsing and
-- negotiation are parameters; the error that is logged for a locale that is not usable is left out.
pub mod Negotiated
mod Tests
use ab.Base.{
  ℕ, ◌+◌, Bool, true, false, not, ◌&&◌, ◌||◌, Option, none, some, is_some, List, [], ◌∷◌, ◌++◌, any,
  select, length, ltb, if◌then◌else◌, Result, ok, err,
}
use ab.Base.Text.{Text, codes, text_eq, text_in, is_empty}
use ab.Rm.{text_lt}

pub data LocaleError : Type 0 where
  -- ValueError and UnknownLocaleError of `Locale.parse`.
  not_a_locale : LocaleError
  no_default_locale : LocaleError
  no_usable_locale : LocaleError

-- str(Locale.parse(code)) and str(Locale.parse(code, "-")), or that they raise; the language and the script of a locale,
-- the locale of those two, and `negotiate_locale`.
pub record Babel : Type 0 where
  pub parse : Text → Option Text
  pub parse_tag : Text → Option Text
  pub language : Text → Text
  pub script : Text → Option Text
  pub of_script : Text → Text → Text
  pub negotiate_locale : List Text → List Text → Option Text

pub record LocaleConfig : Type 0 where
  pub supported_locales : List Text
  pub default_locale : Text

abbrev pub fallback_locale : Text
fallback_locale = codes "en_US"

-- sorted(list(set(codes)))
unfoldable pub insert_code : Text → List Text → List Text
insert_code p [] = p ∷ []
insert_code p (q ∷ qs) =
    let rest = insert_code p qs in
    if text_eq p q then q ∷ qs else if text_lt p q then p ∷ q ∷ qs else q ∷ rest

unfoldable pub sorted_codes : List Text → List Text
sorted_codes [] = []
sorted_codes (p ∷ ps) = insert_code p (sorted_codes ps)

-- An entry of the map: the identifier, and whether the display name is used.
abbrev pub LocaleMap : Type 0
LocaleMap = List (Text × Bool)

abbrev pub keys_of : LocaleMap → List Text
keys_of [] = []
keys_of (e ∷ es) = e.0 ∷ keys_of es

-- locale_map[str(locale)] = locale
unfoldable pub set_entry : Text → Bool → LocaleMap → LocaleMap
set_entry key shown [] = (key, shown) ∷ []
set_entry key shown (e ∷ es) =
    let rest = set_entry key shown es in if text_eq e.0 key then (key, shown) ∷ es else e ∷ rest

module _ (babel : Babel) where
  abbrev pub add_parsed :
      Option Text → Result LocaleError (List Text) → Result LocaleError (List Text)
  add_parsed none rest = err not_a_locale
  add_parsed (some l) (err e) = err e
  add_parsed (some l) (ok ls) = ok (l ∷ ls)

  unfoldable pub parse_locale_set : List Text → Result LocaleError (List Text)
  parse_locale_set [] = ok []
  parse_locale_set (c ∷ cs) = add_parsed (babel.parse c) (parse_locale_set cs)

  abbrev pub check_defaults :
      List Text → Result LocaleError (List Text) → Result LocaleError (List Text)
  check_defaults usable (err e) = err e
  check_defaults usable (ok defaults) =
      if any (λ l. text_in l usable) defaults then ok usable else err no_default_locale

  abbrev pub usable_of :
      List Text → LocaleConfig → Result LocaleError (List Text) → Result LocaleError (List Text)
  usable_of available config (err e) = err e
  usable_of available config (ok configured) =
      check_defaults (select (λ l. text_in l available) configured)
        (parse_locale_set (config.default_locale ∷ fallback_locale ∷ []))

  -- `available` is babel.list_translations() with the fallback locale.
  unfoldable pub validate_locale_configuration :
      List Text → LocaleConfig → Result LocaleError (List Text)
  validate_locale_configuration available config =
      usable_of available config (parse_locale_set config.supported_locales)

  abbrev pub same_language : Text → Text → Bool
  same_language l code = elim (babel.parse code) [
    | none ↦ false
    | some m ↦ text_eq (babel.language l) (babel.language m)
  ]

  -- language_locale_counts[locale.language] > 1
  unfoldable pub is_ambiguous : List Text → Text → Bool
  is_ambiguous supported l = ltb 1 (length (select (same_language l) supported))

  abbrev pub add_locale : List Text → List Text → Option Text → LocaleMap → LocaleMap
  add_locale supported usable none m = m
  add_locale supported usable (some l) m =
      if text_in l usable then set_entry l (is_ambiguous supported l) m else m

  -- The loop over the codes, with what the map holds so far.
  unfoldable pub locale_map : List Text → List Text → List Text → LocaleMap → LocaleMap
  locale_map supported usable [] m = m
  locale_map supported usable (c ∷ cs) m =
      locale_map supported usable cs (add_locale supported usable (babel.parse c) m)

  -- After the validation every supported code is known to parse.
  unfoldable pub map_locale_display_names : LocaleConfig → List Text → LocaleMap
  map_locale_display_names config usable =
      let supported = sorted_codes config.supported_locales in
      locale_map supported usable supported []

  abbrev pub with_script : Text → Option Text → List Text
  with_script l none = []
  with_script l (some script) =
      if text_eq (babel.language l) (codes "zh") && not (is_empty script)
      then babel.of_script (babel.language l) script ∷ []
      else []

  abbrev pub accepted_locales : Option Text → List Text
  accepted_locales none = []
  accepted_locales (some l) = l ∷ with_script l (babel.script l)

  unfoldable pub get_accepted_languages : List Text → List Text
  get_accepted_languages [] = []
  get_accepted_languages (c ∷ cs) =
      accepted_locales (babel.parse_tag c) ++ get_accepted_languages cs

  abbrev pub truthy_code : Option Text → List Text
  truthy_code none = []
  truthy_code (some c) = if is_empty c then [] else c ∷ []

  abbrev pub or_accepted : List Text → List Text → List Text
  or_accepted [] languages = get_accepted_languages languages
  or_accepted (p ∷ ps) languages = p ∷ ps

  -- The argument "l", the locale of the session, and the values of the Accept-Language header.
  unfoldable pub preferences_of : LocaleConfig → Option Text → Option Text → List Text → List Text
  preferences_of config argument session languages =
      or_accepted (truthy_code argument ++ truthy_code session) languages
      ++ (config.default_locale ∷ fallback_locale ∷ [])

  abbrev pub or_no_locale : Option Text → Result LocaleError Text
  or_no_locale none = err no_usable_locale
  or_no_locale (some l) = if is_empty l then err no_usable_locale else ok l

  unfoldable pub get_locale :
      LocaleConfig → LocaleMap → Option Text → Option Text → List Text → Result LocaleError Text
  get_locale config locales argument session languages =
      or_no_locale (
        babel.negotiate_locale (preferences_of config argument session languages) (keys_of locales))
