-- ===== src/Config/Rows.antt =====
-- The rows of the configuration table (securedrop/models.py, `InstanceConfig`): no two of them are valid
-- until the same time, and one at most is current.
use ab.Base.{
  ℕ, ◌<◌, ◌≡◌, ◌≢◌, refl, sym, ◌∙◌, Bool, true, false, List, [], ◌∷◌, ◌++◌, any, select, ◌==◌,
  arith, inl, inr, ◌⊎◌,
}
use native.Mathlib.Decide.{ℕ_discrete}
use ab.Config.{ConfigRow, is_current, distinct, expire}

-- A row is valid until a time.
abbrev pub has_until : ℕ → List ConfigRow → Bool
has_until t = any (λ s. s.valid_until == t)

pub has_until-expire_other :
    (t now : ℕ) (rows : List ConfigRow)
    → t ≢ 0
    → t ≢ now
    → has_until t (expire now rows) ≡ has_until t rows
unfolding expire
has_until-expire_other t now [] n m = refl
has_until-expire_other t now (r ∷ rows) n m = ground (arith, has_until-expire_other t now rows n m)

pub expire-none :
    (now : ℕ) (rows : List ConfigRow) → has_until 0 rows ≡ false → expire now rows ≡ rows
unfolding expire
expire-none now [] h = refl
expire-none now (r ∷ rows) h = ground (arith, expire-none now rows)

pub has_until-expire_zero :
    (now : ℕ) (rows : List ConfigRow) → 0 < now → has_until 0 (expire now rows) ≡ false
unfolding expire
has_until-expire_zero now [] h = refl
has_until-expire_zero now (r ∷ rows) h = ground (arith, has_until-expire_zero now rows h)

pub expire-cons_current :
    (now : ℕ) (r : ConfigRow) (rows : List ConfigRow)
    → is_current r ≡ true
    → expire now (r ∷ rows) ≡ record r { valid_until = now } ∷ expire now rows
unfolding expire
expire-cons_current now r rows h = rw h refl

pub expire-cons_past :
    (now : ℕ) (r : ConfigRow) (rows : List ConfigRow)
    → is_current r ≡ false
    → expire now (r ∷ rows) ≡ r ∷ expire now rows
unfolding expire
expire-cons_past now r rows h = rw h refl

pub distinct-tail :
    (r : ConfigRow) (rows : List ConfigRow)
    → distinct (r ∷ rows) ≡ true
    → (has_until r.valid_until rows ≡ false) × (distinct rows ≡ true)
unfolding distinct
distinct-tail r rows h = ground arith

pub distinct-cons :
    (r : ConfigRow) (rows : List ConfigRow)
    → has_until r.valid_until rows ≡ false
    → distinct rows ≡ true
    → distinct (r ∷ rows) ≡ true
unfolding distinct
distinct-cons r rows f d = ground arith

pub has_until-tail :
    (t : ℕ) (r : ConfigRow) (rows : List ConfigRow)
    → has_until t (r ∷ rows) ≡ false
    → (r.valid_until ≢ t) × (has_until t rows ≡ false)
has_until-tail t r rows h = (λ e. absurd (ground arith), ground arith)

pub distinct-expire :
    (now : ℕ) (rows : List ConfigRow)
    → has_until now rows ≡ false
    → distinct rows ≡ true
    → distinct (expire now rows) ≡ true
distinct-expire now [] f d = rw (expire-none now [] refl) d
distinct-expire now (r ∷ rows) f d =
    let (fresh, d') = distinct-tail r rows d in
    let (apart, f') = has_until-tail now r rows f in
    let rest = distinct-expire now rows f' d' in
    elim (ℕ_discrete r.valid_until 0) [
      | yes zero_r ↦
          let none0 : has_until 0 rows ≡ false = rw zero_r at fresh in
          rw (expire-cons_current now r rows (ground arith)) (
            distinct-cons (record r { valid_until = now }) (expire now rows)
              (rw (expire-none now rows none0) f') rest)
      | no past ↦ rw (expire-cons_past now r rows (ground arith)) (
          distinct-cons r (expire now rows)
            (has_until-expire_other r.valid_until now rows past apart ∙ fresh) rest)
    ]

pub has_until-snoc :
    (t : ℕ) (rows : List ConfigRow) (r : ConfigRow)
    → has_until t rows ≡ false
    → r.valid_until ≢ t
    → has_until t (rows ++ (r ∷ [])) ≡ false
has_until-snoc t [] r f n = ground arith
has_until-snoc t (s ∷ rows) r f n = ground (arith, has_until-snoc t rows r)

pub distinct-snoc :
    (rows : List ConfigRow) (r : ConfigRow)
    → has_until r.valid_until rows ≡ false
    → distinct rows ≡ true
    → distinct (rows ++ (r ∷ [])) ≡ true
distinct-snoc [] r f d = distinct-cons r [] refl d
distinct-snoc (s ∷ rows) r f d =
    let (fresh, d') = distinct-tail s rows d in
    let (apart, f') = has_until-tail r.valid_until s rows f in
    distinct-cons s (rows ++ (r ∷ []))
      (has_until-snoc s.valid_until rows r fresh (λ e. apart (sym e))) (distinct-snoc rows r f' d')

pub select-none : (rows : List ConfigRow) → has_until 0 rows ≡ false → select is_current rows ≡ []
select-none [] h = refl
select-none (r ∷ rows) h = ground (arith, select-none rows)

-- The rows that are current: none, or one.
pub select_current-cases :
    (rows : List ConfigRow)
    → distinct rows ≡ true
    → ((select is_current rows ≡ []) × (has_until 0 rows ≡ false))
      ⊎ ((r : ConfigRow) × (select is_current rows ≡ r ∷ []))
select_current-cases [] d = inl (refl, refl)
select_current-cases (r ∷ rows) d =
    let (fresh, d') = distinct-tail r rows d in
    elim (ℕ_discrete r.valid_until 0) [
      | yes zero_r ↦
          let none0 : has_until 0 rows ≡ false = rw zero_r at fresh in
          let e = select-none rows none0 in inr (r, ground arith)
      | no past ↦ elim (select_current-cases rows d') [
        | inl (e, none0) ↦ inl (ground arith, ground arith)
        | inr (s, e) ↦ inr (s, ground arith)
      ]
    ]

pub select-snoc :
    (rows : List ConfigRow) (r : ConfigRow)
    → has_until 0 rows ≡ false
    → r.valid_until ≡ 0
    → select is_current (rows ++ (r ∷ [])) ≡ r ∷ []
select-snoc [] r f z = ground arith
select-snoc (s ∷ rows) r f z = ground (arith, select-snoc rows r)
