-- ===== src/Locales/Tests.antt =====
-- A stand-in for the package, which offers the first preferred locale that is available, and an instance of the theorem.
use ab.Base.{
  ◌≡◌, refl, sym, ap, ◌∙◌, true, false, not, ◌&&◌, Option, none, some, List, [], ◌∷◌, ok, err,
  arith, if◌then◌else◌, Bool-cases, inl, inr,
}
use ab.Base.Text.{Text, codes, text_eq, text_eq_sound, text_in, is_empty}
use ab.Rm.{text_lt}
use ab.Locales.{
  Babel, LocaleConfig, no_default_locale, insert_code, sorted_codes, set_entry, parse_locale_set,
  validate_locale_configuration, is_ambiguous, locale_map, map_locale_display_names, get_locale,
}
use ab.Locales.Negotiated.{get_locale_lem}

abbrev first_offered : List Text → List Text → Option Text
first_offered [] offered = none
first_offered (p ∷ ps) offered =
    let rest = first_offered ps offered in
    if text_in p offered && not (is_empty p) then some p else rest

first_offered-some :
    (preferred offered : List Text) (l : Text)
    → text_in l preferred ≡ true
    → text_in l offered ≡ true
    → is_empty l ≡ false
    → (found : Text) × (first_offered preferred offered ≡ some found) × (is_empty found ≡ false)
unfolding text_in
first_offered-some [] offered l h k e = absurd (cc)
first_offered-some (p ∷ ps) offered l h k e =
    elim (Bool-cases (text_in p offered && not (is_empty p))) [
      | inl hit ↦ (p, rw hit refl, ground arith)
      | inr miss ↦ elim (Bool-cases (text_eq l p)) [
        | inr other ↦
            let (found, rest, full) = first_offered-some ps offered l (ground arith) k e in
            (found, rw miss rest, full)
        | inl same ↦
            let there : text_in p offered ≡ true =
              ap (λ x. text_in x offered) (sym (text_eq_sound l p same)) ∙ k in
            let full : is_empty p ≡ false = ap is_empty (sym (text_eq_sound l p same)) ∙ e in
            absurd (ground arith)
      ]
    ]

abbrev babel : Babel
babel = record {
  parse = λ c. some c;
  parse_tag = λ c. some c;
  language = λ l. l;
  script = λ l. none;
  of_script = λ language script. language;
  negotiate_locale = first_offered;
}

abbrev config : LocaleConfig
config = record {
  supported_locales = codes "fr_FR" ∷ codes "en_US" ∷ [];
  default_locale = codes "fr_FR";
}

abbrev usable : List Text
usable = codes "fr_FR" ∷ codes "en_US" ∷ []

map_test :
    map_locale_display_names babel config usable
    ≡ (codes "en_US", false) ∷ (codes "fr_FR", false) ∷ []
unfolding map_locale_display_names locale_map sorted_codes insert_code set_entry is_ambiguous
    text_in text_eq text_lt
map_test = refl

no_default_test : validate_locale_configuration babel [] config ≡ err no_default_locale
unfolding validate_locale_configuration parse_locale_set text_in
no_default_test = refl

get_locale_lem_example :
    (l : Text) × (get_locale babel config
        (map_locale_display_names babel config usable)
        (some (codes "de_DE"))
        none
        []
      ≡ ok l)
unfolding validate_locale_configuration parse_locale_set text_in text_eq
get_locale_lem_example =
    get_locale_lem babel usable config usable (some (codes "de_DE")) none [] first_offered-some refl
      refl refl refl
