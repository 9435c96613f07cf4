-- ===== src/Signup/Cookies.antt =====
-- The codenames that are kept in the cookie (securedrop/source_app/utils.py, `fit_codenames_into_cookie`).
use ab.Base.{
  ℕ, zero, suc, ◌<◌, ◌≤◌, ◌≡◌, refl, ap, ◌∙◌, false, ◌&&◌, none, some, [], ◌∷◌, drop, length, ltb,
  arith, Bool-cases, inl, inr, ◌⊎◌,
}
use ab.Base.Text.{Text, text_eq, text_eq_refl}
use ab.Signup.{Codenames, serialized_length, fit_codenames_into_cookie, set_codename, codename_of}

-- A cookie that the loop makes smaller.
abbrev pub IsLarge : Codenames → Type 0
IsLarge codenames = (1 < length codenames) × (4000 < serialized_length codenames)

IsLarge-drop-suc :
    (n : ℕ) (e : Text × Text) (es : Codenames)
    → IsLarge (e ∷ es)
    → ((m : ℕ) → m < n → IsLarge (drop m es))
    → (m : ℕ) → m < suc n
    → IsLarge (drop m (e ∷ es))
IsLarge-drop-suc n e es large later zero h = large
IsLarge-drop-suc n e es large later (suc m) h = later m (omega arith)

fits_or :
    (codenames : Codenames)
    → (ltb 1 (length codenames) && ltb 4000 (serialized_length codenames)) ≡ false
    → (length codenames ≤ 1) ⊎ (serialized_length codenames ≤ 4000)
fits_or codenames h = elim (Bool-cases (ltb 1 (length codenames))) [
  | inl more ↦ inr (ground arith)
  | inr one ↦ inl (ground arith)
]

-- The codenames that fit are the newest ones, as many as fit, and one at least: of the codenames so many of the oldest
-- are dropped, as few as leave one, or a cookie of no more than 4000 bytes.
pub fit_codenames_into_cookie_lem :
    (codenames : Codenames)
    → (n : ℕ) × (fit_codenames_into_cookie codenames ≡ drop n codenames)
      × ((length (drop n codenames) ≤ 1) ⊎ (serialized_length (drop n codenames) ≤ 4000))
      × ((m : ℕ) → m < n → IsLarge (drop m codenames))
unfolding fit_codenames_into_cookie
fit_codenames_into_cookie_lem [] = (0, refl, inl (omega arith), λ m h. absurd (omega arith))
fit_codenames_into_cookie_lem (e ∷ es) =
    elim (Bool-cases (ltb 1 (length (e ∷ es)) && ltb 4000 (serialized_length (e ∷ es)))) [
      | inr fits ↦ (0, rw fits refl, fits_or (e ∷ es) fits, λ m h. absurd (omega arith))
      | inl large ↦
          let (n, same, small, least) = fit_codenames_into_cookie_lem es in
          (suc n, rw large same, small, IsLarge-drop-suc n e es (ground arith, ground arith) least)
    ]

fit_keeps :
    (tab_id codename : Text) (e : Text × Text) (es : Codenames)
    → codename_of tab_id (fit_codenames_into_cookie es) ≡ some codename
    → codename_of tab_id (e ∷ es) ≡ some codename
    → codename_of tab_id (fit_codenames_into_cookie (e ∷ es)) ≡ some codename
unfolding fit_codenames_into_cookie
fit_keeps tab_id codename e es rest all =
    elim (Bool-cases (ltb 1 (length (e ∷ es)) && ltb 4000 (serialized_length (e ∷ es)))) [
      | inl large ↦ rw large rest
      | inr fits ↦ rw fits all
    ]

codename_of-set_codename :
    (tab_id codename : Text) (codenames : Codenames)
    → codename_of tab_id (set_codename tab_id codename codenames) ≡ some codename
unfolding set_codename codename_of
codename_of-set_codename tab_id codename [] = rw (text_eq_refl tab_id) refl
codename_of-set_codename tab_id codename (e ∷ es) = elim (Bool-cases (text_eq e.0 tab_id)) [
  | inl same ↦ ground (arith)
  | inr other ↦ ground (arith, codename_of-set_codename tab_id codename es)
]

-- A codename under a new tab id comes last, and is kept.
pub codename_of-fit_codenames_into_cookie :
    (tab_id codename : Text) (codenames : Codenames)
    → codename_of tab_id codenames ≡ none
    → codename_of tab_id (fit_codenames_into_cookie (set_codename tab_id codename codenames))
      ≡ some codename
unfolding fit_codenames_into_cookie set_codename codename_of
codename_of-fit_codenames_into_cookie tab_id codename [] h = rw (text_eq_refl tab_id) refl
codename_of-fit_codenames_into_cookie tab_id codename (e ∷ es) h =
    elim (Bool-cases (text_eq e.0 tab_id)) [
      | inl same ↦ absurd (ground arith)
      | inr other ↦
          let none_later : codename_of tab_id es ≡ none = ground arith in
          let skip : set_codename tab_id codename (e ∷ es) ≡ e ∷ set_codename tab_id codename es =
            rw other refl in
          ap (λ l. codename_of tab_id (fit_codenames_into_cookie l)) skip
          ∙ fit_keeps tab_id codename e (set_codename tab_id codename es)
              (codename_of-fit_codenames_into_cookie tab_id codename es none_later)
              (let found = codename_of-set_codename tab_id codename es in ground arith)
    ]
