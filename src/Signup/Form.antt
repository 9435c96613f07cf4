-- ===== src/Signup/Form.antt =====
-- The login form takes a codename of seven words as it is (securedrop/source_app/forms.py, LoginForm; `login` of main.py).
use mathlib.Core.List.{append-nil}
use ab.Base.{
  ℕ, ◌≤◌, ◌≡◌, refl, sym, ap, ◌∙◌, Bool, true, false, not, ◌&&◌, List, [], ◌∷◌, ◌++◌, all, length,
  leb, arith, All,
}
use ab.Base.Text.{Text, is_empty, is_space}
use ab.TwoFactor.{join_spaces}
use ab.Submit.{lstrip, rstrip, strip}
use ab.Passphrases.Acceptable.{IsWord, is_solid, join_spaces-count}
use ab.Signup.Login.{is_codename_char, valid_codename_field}

-- A character of a word that the form accepts.
abbrev pub is_word_char : ℕ → Bool
is_word_char c = is_codename_char c && not (is_space c)

all-append : (p : ℕ → Bool) (s t : Text) → all p s ≡ true → all p t ≡ true → all p (s ++ t) ≡ true
all-append p [] t h k = k
all-append p (c ∷ s) t h k = ground (arith, all-append p s t)

pub all-implied :
    (p q : ℕ → Bool) (f : (c : ℕ) → p c ≡ true → q c ≡ true) (s : Text)
    → all p s ≡ true
    → all q s ≡ true
all-implied p q f [] h = refl
all-implied p q f (c ∷ s) h =
    let head : q c ≡ true = f c (ground arith) in ground (arith, all-implied p q f s)

pub is_word_char-both :
    (c : ℕ) → is_word_char c ≡ true → (is_codename_char c ≡ true) × (not (is_space c) ≡ true)
is_word_char-both c h = (ground arith, ground arith)

-- A blank is accepted by the form.
is_codename_char-blank : is_codename_char b' ' ≡ true
unfolding is_codename_char is_space
is_codename_char-blank = refl

join_spaces-accepted :
    (ws : List Text)
    → All (λ w. all is_word_char w ≡ true) ws
    → all is_codename_char (join_spaces ws) ≡ true
unfolding join_spaces
join_spaces-accepted [] h = refl
join_spaces-accepted (w ∷ []) h =
    all-implied is_word_char is_codename_char (λ c k. (is_word_char-both c k).0) w h.0
join_spaces-accepted (w ∷ v ∷ ws) h =
    all-append is_codename_char w (b' ' ∷ join_spaces (v ∷ ws))
      (all-implied is_word_char is_codename_char (λ c k. (is_word_char-both c k).0) w h.0)
      (let rest = join_spaces-accepted (v ∷ ws) h.1 in ground (arith, is_codename_char-blank))

rstrip-nil : rstrip [] ≡ []
unfolding rstrip
rstrip-nil = refl

rstrip-word : (w t : Text) → is_solid w ≡ true → rstrip t ≡ t → rstrip (w ++ t) ≡ w ++ t
unfolding rstrip
rstrip-word [] t h k = k
rstrip-word (c ∷ w) t h k = ground (arith, rstrip-word w t)

rstrip-blank : (t : Text) → is_empty t ≡ false → rstrip t ≡ t → rstrip (b' ' ∷ t) ≡ b' ' ∷ t
unfolding rstrip
rstrip-blank t full k = rw k (rw full refl)

is_empty-join_spaces :
    (w : Text) (ws : List Text) → 2 ≤ length w → is_empty (join_spaces (w ∷ ws)) ≡ false
unfolding join_spaces
is_empty-join_spaces [] ws h = absurd (omega arith)
is_empty-join_spaces (c ∷ w) [] h = refl
is_empty-join_spaces (c ∷ w) (v ∷ ws) h = refl

rstrip-join_spaces : (ws : List Text) → All IsWord ws → rstrip (join_spaces ws) ≡ join_spaces ws
unfolding join_spaces
rstrip-join_spaces [] h = rstrip-nil
rstrip-join_spaces (w ∷ []) h =
    ap rstrip (sym (append-nil w)) ∙ rstrip-word w [] h.0.2 rstrip-nil ∙ append-nil w
rstrip-join_spaces (w ∷ v ∷ ws) h = rstrip-word w (b' ' ∷ join_spaces (v ∷ ws)) h.0.2 (
    rstrip-blank (join_spaces (v ∷ ws)) (is_empty-join_spaces v ws h.1.0.0)
      (rstrip-join_spaces (v ∷ ws) h.1))

lstrip-join_spaces : (ws : List Text) → All IsWord ws → lstrip (join_spaces ws) ≡ join_spaces ws
unfolding join_spaces lstrip
lstrip-join_spaces [] h = refl
lstrip-join_spaces ([] ∷ ws) h = absurd (omega (arith, h.0.0))
lstrip-join_spaces ((c ∷ w) ∷ []) h = let solid = h.0.2 in ground arith
lstrip-join_spaces ((c ∷ w) ∷ v ∷ ws) h = let solid = h.0.2 in ground arith

pub strip-join_spaces : (ws : List Text) → All IsWord ws → strip (join_spaces ws) ≡ join_spaces ws
unfolding strip
strip-join_spaces ws h = ap rstrip (lstrip-join_spaces ws h) ∙ rstrip-join_spaces ws h

-- A passphrase of seven such words passes the form.
pub join_spaces-valid :
    (ws : List Text)
    → length ws ≡ 7
    → All IsWord ws
    → All (λ w. all is_word_char w ≡ true) ws
    → valid_codename_field (join_spaces ws) ≡ true
unfolding valid_codename_field
join_spaces-valid [] seven words chars = absurd (omega arith)
join_spaces-valid (w ∷ ws) seven words chars =
    let (count, low, high) = join_spaces-count w ws words in
    let full = is_empty-join_spaces w ws words.0.0 in
    let accepted = join_spaces-accepted (w ∷ ws) chars in
    let short : leb (length (join_spaces (w ∷ ws))) 128 ≡ true = ground arith in ground arith
