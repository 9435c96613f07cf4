-- ===== src/Locales/Negotiated.antt =====
-- Every request gets a locale (securedrop/i18n.py, `get_locale` after `configure`).
use ab.Base.{
  ◌≡◌, refl, sym, ap, ◌∙◌, Bool, true, false, ◌||◌, Option, none, some, List, [], ◌∷◌, ◌++◌, any,
  select, arith, Result, ok, err, Bool-cases, Result-cases, inl, inr,
}
use ab.Base.Fallible.{ok_inj}
use ab.Base.Text.{Text, text_eq, text_eq_refl, text_eq_sound, text_in, is_empty}
use ab.Rm.Tree.{text_in-append}
use ab.Locales.{
  LocaleError, Babel, LocaleConfig, fallback_locale, insert_code, sorted_codes, LocaleMap, keys_of,
  set_entry, add_parsed, parse_locale_set, check_defaults, usable_of, validate_locale_configuration,
  is_ambiguous, add_locale, locale_map, map_locale_display_names, or_accepted, truthy_code,
  preferences_of, or_no_locale, get_locale,
}

text_in-insert_code :
    (c p : Text) (qs : List Text) → text_in c (insert_code p qs) ≡ (text_eq c p || text_in c qs)
unfolding insert_code text_in
text_in-insert_code c p [] = refl
text_in-insert_code c p (q ∷ qs) = elim (Bool-cases (text_eq p q)) [
  | inl same ↦
      let e : text_eq c p ≡ text_eq c q = ap (text_eq c) (text_eq_sound p q same) in ground arith
  | inr other ↦ ground (arith, text_in-insert_code c p qs)
]

text_in-sorted_codes : (c : Text) (cs : List Text) → text_in c (sorted_codes cs) ≡ text_in c cs
unfolding sorted_codes text_in
text_in-sorted_codes c [] = refl
text_in-sorted_codes c (p ∷ ps) =
    text_in-insert_code c p (sorted_codes ps)
    ∙ ap (λ b. text_eq c p || b) (text_in-sorted_codes c ps)

text_in-set_entry :
    (k key : Text) (shown : Bool) (m : LocaleMap)
    → text_in k (keys_of (set_entry key shown m)) ≡ (text_eq k key || text_in k (keys_of m))
unfolding set_entry text_in
text_in-set_entry k key shown [] = refl
text_in-set_entry k key shown (e ∷ es) = elim (Bool-cases (text_eq e.0 key)) [
  | inl same ↦
      let s : text_eq k e.0 ≡ text_eq k key = ap (text_eq k) (text_eq_sound e.0 key same) in
      ground arith
  | inr other ↦ ground (arith, text_in-set_entry k key shown es)
]

text_in-select_both :
    (p : Text → Bool) (l : Text) (ls : List Text)
    → text_in l (select p ls) ≡ true
    → text_in l ls ≡ true
unfolding text_in
text_in-select_both p l [] h = h
text_in-select_both p l (m ∷ ls) h = ground (arith, text_in-select_both p l ls)

-- The two locales at the end of the preferences.
text_in-defaults :
    (d f : Text) (first : List Text)
    → (text_in d (first ++ (d ∷ f ∷ [])) ≡ true) × (text_in f (first ++ (d ∷ f ∷ [])) ≡ true)
unfolding text_in
text_in-defaults d f first = (
  ground (arith, text_in-append d first (d ∷ f ∷ []), text_eq_refl d),
  ground (arith, text_in-append f first (d ∷ f ∷ []), text_eq_refl f),
)

module _ (babel : Babel) where
  add_parsed-ok :
      (found : Option Text) (rest : Result LocaleError (List Text)) (ls : List Text)
      → add_parsed babel found rest ≡ ok ls
      → (l : Text) × (ms : List Text) × (found ≡ some l) × (rest ≡ ok ms) × (l ∷ ms ≡ ls)
  add_parsed-ok none rest ls h = absurd (cc)
  add_parsed-ok (some l) (err e) ls h = absurd (cc)
  add_parsed-ok (some l) (ok ms) ls h = (l, ms, refl, refl, ok_inj h)

  -- A locale of a parsed list comes from a code.
  code_of :
      (codes ls : List Text) (l : Text)
      → parse_locale_set babel codes ≡ ok ls
      → text_in l ls ≡ true
      → (c : Text) × (text_in c codes ≡ true) × (babel.parse c ≡ some l)
  unfolding parse_locale_set text_in
  code_of [] ls l h m =
      let e : [] ≡ ls = ok_inj h in absurd (let n = ap (text_in l) e in ground arith)
  code_of (c ∷ codes) ls l h m =
      let (l', ms, found, rest, e) =
        add_parsed-ok (babel.parse c) (parse_locale_set babel codes) ls h in
      let m' : (text_eq l l' || text_in l ms) ≡ true = ap (text_in l) e ∙ m in
      elim (Bool-cases (text_eq l l')) [
        | inl same ↦
            (c, ground (arith, text_eq_refl c), found ∙ ap some (sym (text_eq_sound l l' same)))
        | inr other ↦
            let (d, listed, parsed) = code_of codes ms l rest (ground arith) in
            (d, ground arith, parsed)
      ]

  module _ (supported usable : List Text) where
    kept_by_add :
        (k : Text) (found : Option Text) (m : LocaleMap)
        → text_in k (keys_of m) ≡ true
        → text_in k (keys_of (add_locale babel supported usable found m)) ≡ true
    kept_by_add k none m h = h
    kept_by_add k (some l) m h =
        ground (arith, text_in-set_entry k l (is_ambiguous babel supported l) m)

    kept_by_map :
        (k : Text) (cs : List Text) (m : LocaleMap)
        → text_in k (keys_of m) ≡ true
        → text_in k (keys_of (locale_map babel supported usable cs m)) ≡ true
    unfolding locale_map
    kept_by_map k [] m h = h
    kept_by_map k (c ∷ cs) m h =
        kept_by_map k cs (add_locale babel supported usable (babel.parse c) m)
          (kept_by_add k (babel.parse c) m h)

    -- A usable locale of a code gets into the map.
    added_by_map :
        (c l : Text) (cs : List Text) (m : LocaleMap)
        → text_in c cs ≡ true
        → babel.parse c ≡ some l
        → text_in l usable ≡ true
        → text_in l (keys_of (locale_map babel supported usable cs m)) ≡ true
    unfolding locale_map text_in
    added_by_map c l [] m h parsed among = absurd (cc)
    added_by_map c l (d ∷ cs) m h parsed among = elim (Bool-cases (text_eq c d)) [
      | inr other ↦
          added_by_map c l cs (add_locale babel supported usable (babel.parse d) m) (ground arith)
            parsed among
      | inl same ↦
          let here : babel.parse d ≡ some l =
            ap babel.parse (sym (text_eq_sound c d same)) ∙ parsed in
          kept_by_map l cs (add_locale babel supported usable (babel.parse d) m) (
            ap (λ o. text_in l (keys_of (add_locale babel supported usable o m))) here
            ∙ (ground
                (arith, text_in-set_entry l l (is_ambiguous babel supported l) m, text_eq_refl l)))
    ]

  check_defaults-ok :
      (chosen defaults usable : List Text)
      → check_defaults babel chosen (ok defaults) ≡ ok usable
      → (chosen ≡ usable) × (any (λ l. text_in l chosen) defaults ≡ true)
  check_defaults-ok chosen defaults usable h =
      elim (Bool-cases (any (λ l. text_in l chosen) defaults)) [
        | inl some_default ↦ (ok_inj (rw some_default at h), some_default)
        | inr none_usable ↦ absurd (let f = rw none_usable at h in cc)
      ]

  -- What an accepted configuration has.
  accepted_configuration :
      (available : List Text) (config : LocaleConfig) (usable : List Text)
      → validate_locale_configuration babel available config ≡ ok usable
      → babel.parse config.default_locale ≡ some config.default_locale
      → babel.parse fallback_locale ≡ some fallback_locale
      → (configured : List Text) × (parse_locale_set babel config.supported_locales ≡ ok configured)
        × (select (λ l. text_in l available) configured ≡ usable)
        × ((text_in config.default_locale usable || text_in fallback_locale usable) ≡ true)
  unfolding validate_locale_configuration parse_locale_set
  accepted_configuration available config usable h default fallback =
      elim (Result-cases (parse_locale_set babel config.supported_locales)) [
        | inr (e, raised) ↦
            absurd (let f = sym (ap (usable_of babel available config) raised) ∙ h in cc)
        | inl (configured, parsed) ↦
            let f = sym (ap (usable_of babel available config) parsed) ∙ h in
            let chosen = select (λ l. text_in l available) configured in
            let both : parse_locale_set babel (config.default_locale ∷ fallback_locale ∷ [])
                ≡ ok (config.default_locale ∷ fallback_locale ∷ []) =
              rw default (rw fallback refl) in
            let (same, any_usable) =
              check_defaults-ok chosen (config.default_locale ∷ fallback_locale ∷ []) usable
                (sym (ap (check_defaults babel chosen) both) ∙ f) in
            let d : text_in config.default_locale chosen ≡ text_in config.default_locale usable =
              ap (text_in config.default_locale) same in
            let e : text_in fallback_locale chosen ≡ text_in fallback_locale usable =
              ap (text_in fallback_locale) same in
            (configured, parsed, same, ground arith)
      ]

  -- The locales of the map are those that are usable, and all of these.
  text_in-map_locale_display_names :
      (available : List Text) (config : LocaleConfig) (usable configured : List Text) (l : Text)
      → parse_locale_set babel config.supported_locales ≡ ok configured
      → select (λ l. text_in l available) configured ≡ usable
      → text_in l usable ≡ true
      → text_in l (keys_of (map_locale_display_names babel config usable)) ≡ true
  unfolding map_locale_display_names
  text_in-map_locale_display_names available config usable configured l parsed same there =
      let chosen = ap (text_in l) same ∙ there in
      let (c, listed, parses) =
        code_of config.supported_locales configured l parsed
          (text_in-select_both (λ l. text_in l available) l configured chosen) in
      added_by_map (sorted_codes config.supported_locales) usable c l
        (sorted_codes config.supported_locales) []
        (text_in-sorted_codes c config.supported_locales ∙ listed) parses there

  -- Every request gets a locale, whatever it asks for, if the configuration was accepted at the start and the codes of the
  -- default and of the fallback locale are the identifiers of their locales: if negotiation finds one
  -- wherever a preferred identifier is among the available ones.
  pub get_locale_lem :
      (available : List Text) (config : LocaleConfig) (usable : List Text)
      (argument session : Option Text) (languages : List Text)
      → ((preferred offered : List Text) (l : Text)
          → text_in l preferred ≡ true
          → text_in l offered ≡ true
          → is_empty l ≡ false
          → (found : Text) × (babel.negotiate_locale preferred offered ≡ some found)
            × (is_empty found ≡ false))
      → babel.parse config.default_locale ≡ some config.default_locale
      → babel.parse fallback_locale ≡ some fallback_locale
      → is_empty config.default_locale ≡ false
      → validate_locale_configuration babel available config ≡ ok usable
      → (l : Text) × (get_locale babel config
            (map_locale_display_names babel config usable)
            argument
            session
            languages
          ≡ ok l)
  unfolding get_locale preferences_of
  get_locale_lem available config usable argument session languages finds default fallback full h =
      let (configured, parsed, same, one) =
        accepted_configuration available config usable h default fallback in
      let wanted = preferences_of babel config argument session languages in
      let offered = keys_of (map_locale_display_names babel config usable) in
      let first =
        or_accepted babel (truthy_code babel argument ++ truthy_code babel session) languages in
      let found : (l : Text) × (babel.negotiate_locale wanted offered ≡ some l)
          × (is_empty l ≡ false) =
        elim (Bool-cases (text_in config.default_locale usable)) [
          | inl usable_default ↦
              finds wanted offered config.default_locale
                (text_in-defaults config.default_locale fallback_locale first).0
                (text_in-map_locale_display_names available config usable configured
                  config.default_locale parsed same usable_default)
                full
          | inr other ↦
              finds wanted offered fallback_locale
                (text_in-defaults config.default_locale fallback_locale first).1
                (text_in-map_locale_display_names available config usable configured fallback_locale
                  parsed same (ground arith))
                refl
        ] in
      let (l, negotiated, nonempty) = found in
      (l, ap (or_no_locale babel) negotiated ∙ rw nonempty refl)
