-- ===== src/TwoFactor/Secret.antt =====
-- Secrets (securedrop/two_factor.py): a fresh one fits both classes, and the shown form loses nothing.
use mathlib.Core.List.{map-append, append-nil}
use ab.Base.{
  ℕ, zero, suc, ◌%◌, ◌≡◌, refl, sym, ap, true, not, List, [], ◌∷◌, ◌++◌, map, arith, ok, all,
  all-range, range, length, select-append, select-all, ◌∙◌,
}
use ab.Base.Text.{Text, lower_char, is_space, despace}
use ab.Encoding.{b32decode}
use ab.Encoding.Alphabet.{is_base32_char, b32decode-alphabet}
use ab.TwoFactor.{
  new_hotp, new_totp, base32_alphabet, nth_char, choose_chars, random_base32, chunks, join_spaces,
  format_secret,
}

alphabet-base32 : all (λ i. is_base32_char (nth_char base32_alphabet i)) (range 0 32) ≡ true
alphabet-base32 = refl

nth_char-base32 : (i : ℕ) → is_base32_char (nth_char base32_alphabet (i % 32)) ≡ true
nth_char-base32 i =
    all-range (λ j. is_base32_char (nth_char base32_alphabet j)) 0 32 (i % 32) alphabet-base32
      (omega arith) (omega arith)

choose_chars-base32 : (draw : ℕ → ℕ) (n : ℕ) → all is_base32_char (choose_chars draw n) ≡ true
unfolding choose_chars
choose_chars-base32 draw zero = refl
choose_chars-base32 draw (suc n) = rw (nth_char-base32 (draw n)) (choose_chars-base32 draw n)

length-choose_chars : (draw : ℕ → ℕ) (n : ℕ) → length (choose_chars draw n) ≡ n
unfolding choose_chars
length-choose_chars draw zero = refl
length-choose_chars draw (suc n) = ap suc (length-choose_chars draw n)

pub new_hotp-ok :
    (s : Text) (bytes : List ℕ)
    → length s ≡ 32
    → b32decode s ≡ ok bytes
    → new_hotp s ≡ ok (record { key = bytes })
unfolding new_hotp
new_hotp-ok s bytes len e = rw (len, e)

new_totp-ok :
    (s : Text) (bytes : List ℕ)
    → length s ≡ 32
    → b32decode s ≡ ok bytes
    → new_totp s ≡ ok (record { key = bytes })
unfolding new_totp
new_totp-ok s bytes len e = rw (len, e)

-- A new secret of the default length is 32 characters long and, whatever is drawn, both classes
-- accept it and hold the same key for it.
pub random_base32_fits :
    (draw : ℕ → ℕ)
    → (s : Text) × (bytes : List ℕ) × (random_base32 draw 32 ≡ ok s)
      × (length s ≡ 32)
      × (new_hotp s ≡ ok (record { key = bytes }))
      × (new_totp s ≡ ok (record { key = bytes }))
unfolding random_base32
random_base32_fits draw =
    let s = choose_chars draw 32 in
    let len : length s ≡ 32 = length-choose_chars draw 32 in
    let (bytes, e) = b32decode-alphabet 4 s (choose_chars-base32 draw 32) len in
    (s, bytes, refl, len, new_hotp-ok s bytes len e, new_totp-ok s bytes len e)

lower_char-space : (c : ℕ) → is_space (lower_char c) ≡ is_space c
unfolding lower_char is_space
lower_char-space c = ground arith

-- Lowering and then dropping white space, as one function on texts.
shown : Text → Text
shown s = despace (map lower_char s)

shown-append : (s t : Text) → shown (s ++ t) ≡ shown s ++ shown t
unfolding shown despace
shown-append s t =
    rw (map-append) (select-append (λ c. not (is_space c)) (map lower_char s) (map lower_char t))

shown-space : (t : Text) → shown (b' ' ∷ t) ≡ shown t
unfolding shown despace lower_char is_space
shown-space t = refl

shown-nil : shown [] ≡ []
unfolding shown despace
shown-nil = refl

shown-join :
    (p : Text) (ps : List Text) → shown (join_spaces (p ∷ ps)) ≡ shown p ++ shown (join_spaces ps)
unfolding join_spaces
shown-join p [] = rw (shown-nil) (sym (append-nil (shown p)))
shown-join p (q ∷ ps) =
    shown-append p (b' ' ∷ join_spaces (q ∷ ps))
    ∙ ap (λ t. shown p ++ t) (shown-space (join_spaces (q ∷ ps)))

shown-chunks : (s : Text) → shown (join_spaces (chunks s)) ≡ shown s
unfolding chunks
shown-chunks [] = unfold join_spaces in refl
shown-chunks (a ∷ []) = unfold join_spaces in refl
shown-chunks (a ∷ b ∷ []) = unfold join_spaces in refl
shown-chunks (a ∷ b ∷ c ∷ []) = unfold join_spaces in refl
shown-chunks (a ∷ b ∷ c ∷ d ∷ s) =
    shown-join (a ∷ b ∷ c ∷ d ∷ []) (chunks s)
    ∙ ap (λ t. shown (a ∷ b ∷ c ∷ d ∷ []) ++ t) (shown-chunks s)
    ∙ sym (shown-append (a ∷ b ∷ c ∷ d ∷ []) s)

all-lower_char :
    (s : Text)
    → all (λ c. not (is_space c)) s ≡ true
    → all (λ c. not (is_space c)) (map lower_char s) ≡ true
all-lower_char [] h = refl
all-lower_char (c ∷ s) h = ground (arith, lower_char-space c, all-lower_char s)

-- Dropping the spaces of the shown form of a secret without white space gives the secret in lower
-- case: the grouping by four loses and reorders nothing.
despace-format_secret :
    (secret : Text)
    → all (λ c. not (is_space c)) secret ≡ true
    → despace (format_secret secret) ≡ map lower_char secret
unfolding format_secret shown despace
despace-format_secret secret h =
    shown-chunks secret
    ∙ select-all (λ c. not (is_space c)) (map lower_char secret) (all-lower_char secret h)
