-- ===== src/Rm/Order.antt =====
-- The order in which directories are removed (securedrop/rm.py): a directory after all that is below it.
use ab.Base.{
  ◌≡◌, refl, ap, ◌∙◌, true, false, ◌||◌, List, [], ◌∷◌, if◌then◌else◌, arith, Bool-cases, inl, inr,
  All, All-map,
}
use ab.Base.Text.{Text, text_eq, text_in, text_eq_sound}
use ab.Sessions.{starts_with}
use ab.Rm.{is_below, text_lt, insert_descending, descending}

text_lt_total : (s t : Text) → text_eq s t ≡ false → text_lt t s ≡ false → text_lt s t ≡ true
unfolding text_lt text_eq
text_lt_total [] [] e h = cc
text_lt_total [] (d ∷ t) e h = refl
text_lt_total (c ∷ s) [] e h = cc
text_lt_total (c ∷ s) (d ∷ t) e h = ground (arith, text_lt_total s t)

pub text_lt_trans : (s t u : Text) → text_lt s t ≡ true → text_lt t u ≡ true → text_lt s u ≡ true
unfolding text_lt
text_lt_trans s t [] h k = cc
text_lt_trans s [] (e ∷ u) h k = absurd (cc)
text_lt_trans [] (d ∷ t) (e ∷ u) h k = refl
text_lt_trans (c ∷ s) (d ∷ t) (e ∷ u) h k = ground (arith, text_lt_trans s t u)

pub text_lt_irrefl : (s : Text) → text_lt s s ≡ false
unfolding text_lt
text_lt_irrefl [] = refl
text_lt_irrefl (c ∷ s) = ground (arith, text_lt_irrefl s)

-- What is below a directory comes after it.
pub below_lt : (d p : Text) → is_below d p ≡ true → text_lt d p ≡ true
unfolding text_lt is_below starts_with
below_lt [] [] h = cc
below_lt (b ∷ d) [] h = cc
below_lt [] (c ∷ p) h = refl
below_lt (b ∷ d) (c ∷ p) h = ground (arith, below_lt d p)

-- Each path comes before the one that stands in front of it.
abbrev pub IsDescending : List Text → Type 0
IsDescending [] = Unit
IsDescending (p ∷ ps) = All (λ q. text_lt q p ≡ true) ps × IsDescending ps

All-insert :
    (P : Text → Type 0) (p : Text) (qs : List Text)
    → P p
    → All P qs
    → All P (insert_descending p qs)
unfolding insert_descending
All-insert P p [] h k = (h, tt)
All-insert P p (q ∷ qs) h k =
    elim (text_eq p q)
      as (λ b.
        All P
          (if b then q ∷ qs else if text_lt q p then p ∷ q ∷ qs else q ∷ insert_descending p qs)) [
            | true ↦ k
            | false ↦
                elim (text_lt q p)
                  as (λ b. All P (if b then p ∷ q ∷ qs else q ∷ insert_descending p qs)) [
                    | true ↦ (h, k)
                    | false ↦ (k.0, All-insert P p qs h k.1)
                  ]
          ]

insert-IsDescending :
    (p : Text) (qs : List Text) → IsDescending qs → IsDescending (insert_descending p qs)
unfolding insert_descending
insert-IsDescending p [] h = (tt, tt)
insert-IsDescending p (q ∷ qs) h = elim (Bool-cases (text_eq p q)) [
  | inl same ↦ rw same h
  | inr other ↦ rw other (elim (Bool-cases (text_lt q p)) [
    | inl above ↦ rw above (
      (
        above,
        All-map {P = λ r. text_lt r q ≡ true} {Q = λ r. text_lt r p ≡ true}
            (λ r lt. text_lt_trans r q p lt above) qs h.0,
      ),
      h,
    )
    | inr below ↦ rw below (
      All-insert (λ r. text_lt r q ≡ true) p qs (text_lt_total p q other below) h.0,
      insert-IsDescending p qs h.1,
    )
  ])
]

pub descending-IsDescending : (ps : List Text) → IsDescending (descending ps)
unfolding descending
descending-IsDescending [] = tt
descending-IsDescending (p ∷ ps) =
    insert-IsDescending p (descending ps) (descending-IsDescending ps)

text_in-insert :
    (r p : Text) (qs : List Text)
    → text_in r (insert_descending p qs) ≡ (text_eq r p || text_in r qs)
unfolding insert_descending text_in
text_in-insert r p [] = refl
text_in-insert r p (q ∷ qs) = elim (Bool-cases (text_eq p q)) [
  | inl same ↦
      let e : p ≡ q = text_eq_sound p q same in
      let f : text_eq r p ≡ text_eq r q = ap (text_eq r) e in ground arith
  | inr other ↦ ground (arith, text_in-insert r p qs)
]

-- The same paths, once each.
pub text_in-descending : (r : Text) (ps : List Text) → text_in r (descending ps) ≡ text_in r ps
unfolding descending text_in
text_in-descending r [] = refl
text_in-descending r (p ∷ ps) =
    text_in-insert r p (descending ps) ∙ ap (λ b. text_eq r p || b) (text_in-descending r ps)
