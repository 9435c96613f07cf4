-- ===== src/Passphrases/Acceptable.antt =====
-- Generated passphrases are acceptable for journalists (securedrop/passphrases.py,
-- `generate_passphrase`, and securedrop/models.py, `Journalist.check_password_acceptable`).
use ab.Base.{
  ℕ, zero, suc, ◌*◌, ◌%◌, ◌≤◌, ◌<◌, ◌≡◌, refl, ap, ◌∙◌, Bool, true, false, not, Option, some,
  Option-cases, List, [], ◌∷◌, ◌++◌, all, length, length-append, ltb, ltb→lt, arith, All,
  Bool-cases, ok, is_some, inl, inr,
}
use ab.Base.Fallible.{raise_when, >>=-eq-ok}
use ab.Base.Text.{Text, text_eq, is_space, count_words}
use ab.TwoFactor.{is_ascii, join_spaces}
use ab.Accounts.{check_password_acceptable, truthy}
use ab.Accounts.Password.{check_password_acceptable_iff}
use ab.Passphrases.{
  missing_fallback, too_few_words, not_ascii, WordLists, words_of, longest, shortest, check_lengths,
  check_word_list, check_word_lists, PassphraseGenerator, new_generator, or_else, word_list,
  nth_word, choose_words, generate_passphrase,
}

-- No white space, as in the word lists that come with the program.
abbrev pub is_solid : Text → Bool
is_solid = all (λ c. not (is_space c))

-- A word of a list that passed the checks.
abbrev pub IsWord : Text → Type 0
IsWord w = (2 ≤ length w) × (length w ≤ 17) × (is_solid w ≡ true)

count_words_inside :
    (w t : Text) → is_solid w ≡ true → count_words true (w ++ (b' ' ∷ t)) ≡ count_words false t
unfolding count_words
count_words_inside [] t h = refl
count_words_inside (c ∷ w) t h = ground (arith, count_words_inside w t)

count_words_last : (w : Text) → is_solid w ≡ true → count_words true w ≡ 0
unfolding count_words
count_words_last [] h = refl
count_words_last (c ∷ w) h = ground (arith, count_words_last w)

count_words-only : (c : ℕ) (w : Text) → is_solid (c ∷ w) ≡ true → count_words false (c ∷ w) ≡ 1
unfolding count_words
count_words-only c w h = ground (arith, count_words_last w)

count_words-first :
    (c : ℕ) (w t : Text)
    → is_solid (c ∷ w) ≡ true
    → count_words false (c ∷ w ++ (b' ' ∷ t)) ≡ suc (count_words false t)
unfolding count_words
count_words-first c w t h = ground (arith, count_words_inside w t)

-- A passphrase of so many words.
pub join_spaces-count :
    (w : Text) (ws : List Text)
    → All IsWord (w ∷ ws)
    → (count_words false (join_spaces (w ∷ ws)) ≡ suc (length ws))
      × (3 * suc (length ws) ≤ suc (length (join_spaces (w ∷ ws))))
      × (suc (length (join_spaces (w ∷ ws))) ≤ 18 * suc (length ws))
unfolding join_spaces
join_spaces-count [] ws h = absurd (omega arith)
join_spaces-count (c ∷ w) [] h = (count_words-only c w h.0.2, omega arith, omega arith)
join_spaces-count (c ∷ w) (v ∷ ws) h =
    let (count, low, high) = join_spaces-count v ws h.1 in
    let l = length-append w (b' ' ∷ join_spaces (v ∷ ws)) in
    (count_words-first c w (join_spaces (v ∷ ws)) h.0.2 ∙ ap suc count, omega arith, omega arith)

longest-bound : (n b : ℕ) (ws : List Text) → longest n ws ≤ b → (n ≤ b) × All (λ w. length w ≤ b) ws
unfolding longest
longest-bound n b [] h = (h, tt)
longest-bound n b (w ∷ ws) h = elim (Bool-cases (ltb n (length w))) [
  | inl longer ↦
      let (k, a) = longest-bound (length w) b ws (rw longer at h) in
      (omega (arith, ltb→lt n (length w) longer), (k, a))
  | inr shorter ↦ let (k, a) = longest-bound n b ws (rw shorter at h) in (k, (ground arith, a))
]

shortest-bound :
    (n b : ℕ) (ws : List Text) → b ≤ shortest n ws → (b ≤ n) × All (λ w. b ≤ length w) ws
unfolding shortest
shortest-bound n b [] h = (h, tt)
shortest-bound n b (w ∷ ws) h = elim (Bool-cases (ltb (length w) n)) [
  | inl smaller ↦
      let (k, a) = shortest-bound (length w) b ws (rw smaller at h) in
      (omega (arith, ltb→lt (length w) n smaller), (k, a))
  | inr larger ↦ let (k, a) = shortest-bound n b ws (rw larger at h) in (k, (ground arith, a))
]

check_lengths-bounds :
    (language : Text) (w : Text) (ws : List Text)
    → check_lengths language (w ∷ ws) ≡ ok tt
    → (longest (length w) ws ≤ 17) × (2 ≤ shortest (length w) ws)
unfolding check_lengths
check_lengths-bounds language w ws h = ground arith

All-both :
    {A : Type 0} {P Q R : A → Type 0} (f : (a : A) → P a → Q a → R a) (xs : List A)
    → All P xs
    → All Q xs
    → All R xs
All-both f [] p q = tt
All-both f (x ∷ xs) p q = (f x p.0 q.0, All-both f xs p.1 q.1)

-- The words of a list that passed the checks; the list is not empty.
check_word_list-words :
    (l : Text × List Text)
    → check_word_list l ≡ ok tt
    → All (λ w. is_solid w ≡ true) l.1
    → All IsWord l.1 × (0 < length l.1)
unfolding check_word_list
check_word_list-words (language, []) h solid = absurd (cc)
check_word_list-words (language, w ∷ ws) h solid =
    let (_, _, h1) =
      >>=-eq-ok (raise_when (ltb (length (w ∷ ws)) 7300) (too_few_words language)) _ h in
    let (_, _, h2) = >>=-eq-ok (raise_when (not (all is_ascii (w ∷ ws))) not_ascii) _ h1 in
    let (long, short) = check_lengths-bounds language w ws h2 in
    let (low, lows) = shortest-bound (length w) 2 ws short in
    let (high, highs) = longest-bound (length w) 17 ws long in
    let sizes : All (λ v. (2 ≤ length v) × (length v ≤ 17)) (w ∷ ws) =
      ((low, high), All-both (λ v a b. (a, b)) ws lows highs) in
    (All-both (λ v a b. (a.0, a.1, b)) (w ∷ ws) sizes solid, omega arith)

-- The condition on a list of words.
abbrev IsWordList : List Text → Type 0
IsWordList ws = All IsWord ws × (0 < length ws)

check_word_lists-words :
    (lists : WordLists)
    → check_word_lists lists ≡ ok tt
    → All (λ l. All (λ w. is_solid w ≡ true) l.1) lists
    → All (λ l. IsWordList l.1) lists
unfolding check_word_lists
check_word_lists-words [] h solid = tt
check_word_lists-words (l ∷ lists) h solid =
    let (_, one, rest) = >>=-eq-ok (check_word_list l) _ h in
    (check_word_list-words l one solid.0, check_word_lists-words lists rest solid.1)

words_of-IsWordList :
    (language : Text) (lists : WordLists) (ws : List Text)
    → All (λ l. IsWordList l.1) lists
    → words_of language lists ≡ some ws
    → IsWordList ws
unfolding words_of
words_of-IsWordList language [] ws a h = absurd (cc)
words_of-IsWordList language (l ∷ lists) ws a h = elim (Bool-cases (text_eq l.0 language)) [
  | inl found ↦ let e : l.1 ≡ ws = ground arith in rw (← e) a.0
  | inr other ↦ words_of-IsWordList language lists ws a.1 (ground arith)
]

word_list-IsWordList :
    (g : PassphraseGenerator) (preferred : Option Text) (fallback : List Text)
    → All (λ l. IsWordList l.1) g.language_to_words
    → words_of g.fallback_language g.language_to_words ≡ some fallback
    → IsWordList (word_list g preferred)
unfolding word_list
word_list-IsWordList g preferred fallback a h =
    elim (Option-cases
      (words_of (or_else g.fallback_language (truthy preferred)) g.language_to_words)) [
        | inl missing ↦
            rw (missing, h)
              (words_of-IsWordList g.fallback_language g.language_to_words fallback a h)
        | inr (ws, found) ↦ rw found (words_of-IsWordList _ g.language_to_words ws a found)
      ]

new_generator-checked :
    (lists : WordLists) (fallback : Text) (g : PassphraseGenerator)
    → new_generator lists fallback ≡ ok g
    → (ws : List Text) × (words_of fallback lists ≡ some ws)
      × (check_word_lists lists ≡ ok tt)
      × (record { language_to_words = lists; fallback_language = fallback } ≡ g)
unfolding new_generator
new_generator-checked lists fallback g h = elim (Option-cases (words_of fallback lists)) [
  | inl missing ↦ absurd (ground arith)
  | inr (ws, found) ↦
      let (_, _, h1) =
        >>=-eq-ok (raise_when (not (is_some (words_of fallback lists))) missing_fallback) _ h in
      let (_, checked, h2) = >>=-eq-ok (check_word_lists lists) _ h1 in (ws, found, checked, cc)
]

length-choose_words : (draw : ℕ → ℕ) (ws : List Text) (n : ℕ) → length (choose_words draw ws n) ≡ n
unfolding choose_words
length-choose_words draw ws zero = refl
length-choose_words draw ws (suc n) = ap suc (length-choose_words draw ws n)

join_spaces-acceptable :
    (ws : List Text)
    → All IsWord ws
    → length ws ≡ 7
    → check_password_acceptable (join_spaces ws) ≡ ok tt
join_spaces-acceptable [] a h = absurd (omega arith)
join_spaces-acceptable (w ∷ ws) a h =
    let (count, low, high) = join_spaces-count w ws a in
    (check_password_acceptable_iff (join_spaces (w ∷ ws))).1
      (omega arith, omega arith, omega (arith, count))

-- What is so of all words of the lists, is so of a word that is found in one.
words_of-All :
    (P : Text → Type 0) (language : Text) (lists : WordLists) (ws : List Text)
    → All (λ l. All P l.1) lists
    → words_of language lists ≡ some ws
    → All P ws
unfolding words_of
words_of-All P language [] ws a h = absurd (cc)
words_of-All P language (l ∷ lists) ws a h = elim (Bool-cases (text_eq l.0 language)) [
  | inl found ↦ let e : l.1 ≡ ws = ground arith in rw (← e) a.0
  | inr other ↦ words_of-All P language lists ws a.1 (ground arith)
]

word_list-All :
    (P : Text → Type 0) (g : PassphraseGenerator) (preferred : Option Text) (fallback : List Text)
    → All (λ l. All P l.1) g.language_to_words
    → words_of g.fallback_language g.language_to_words ≡ some fallback
    → All P (word_list g preferred)
unfolding word_list
word_list-All P g preferred fallback a h =
    elim (Option-cases
      (words_of (or_else g.fallback_language (truthy preferred)) g.language_to_words)) [
        | inl missing ↦
            rw (missing, h) (words_of-All P g.fallback_language g.language_to_words fallback a h)
        | inr (ws, found) ↦ rw found (words_of-All P _ g.language_to_words ws a found)
      ]

nth_word-All :
    (P : Text → Type 0) (ws : List Text) (i : ℕ) → All P ws → i < length ws → P (nth_word ws i)
nth_word-All P [] i a h = absurd (omega arith)
nth_word-All P (w ∷ ws) zero a h = a.0
nth_word-All P (w ∷ ws) (suc i) a h = nth_word-All P ws i a.1 (omega arith)

choose_words-All :
    (P : Text → Type 0) (draw : ℕ → ℕ) (ws : List Text) (n : ℕ)
    → All P ws
    → 0 < length ws
    → All P (choose_words draw ws n)
unfolding choose_words
choose_words-All P draw ws zero a h = tt
choose_words-All P draw ws (suc n) a h =
    (nth_word-All P ws (draw n % length ws) a (omega arith), choose_words-All P draw ws n a h)

-- A generated passphrase is seven words of the lists.
pub generate_passphrase-words :
    (P : Text → Type 0) (draw : ℕ → ℕ) (lists : WordLists) (fallback : Text)
    (g : PassphraseGenerator) (preferred : Option Text)
    → new_generator lists fallback ≡ ok g
    → All (λ l. All (λ w. is_solid w ≡ true) l.1) lists
    → All (λ l. All P l.1) lists
    → (ws : List Text) × (generate_passphrase draw g preferred ≡ join_spaces ws)
      × (length ws ≡ 7)
      × All IsWord ws
      × All P ws
unfolding generate_passphrase
generate_passphrase-words P draw lists fallback g preferred h solid each =
    let (ws, found, checked, e) = new_generator-checked lists fallback g h in
    let words = check_word_lists-words lists checked solid in
    let list : IsWordList (word_list g preferred) =
      word_list-IsWordList g preferred ws (rw (← e) words) (rw (← e) found) in
    let each' : All P (word_list g preferred) =
      word_list-All P g preferred ws (rw (← e) each) (rw (← e) found) in
    (
      choose_words draw (word_list g preferred) 7,
      refl,
      length-choose_words draw (word_list g preferred) 7,
      choose_words-All IsWord draw (word_list g preferred) 7 list.0 list.1,
      choose_words-All P draw (word_list g preferred) 7 each' list.1,
    )

-- Every passphrase that a generator makes is acceptable for a journalist, whatever is drawn and whatever
-- language is preferred, if the words have no white space in them.
pub generate_passphrase_acceptable :
    (draw : ℕ → ℕ) (lists : WordLists) (fallback : Text) (g : PassphraseGenerator)
    (preferred : Option Text)
    → new_generator lists fallback ≡ ok g
    → All (λ l. All (λ w. is_solid w ≡ true) l.1) lists
    → check_password_acceptable (generate_passphrase draw g preferred) ≡ ok tt
generate_passphrase_acceptable draw lists fallback g preferred h solid =
    let (ws, joined, seven, words, _) =
      generate_passphrase-words (λ w. is_solid w ≡ true) draw lists fallback g preferred h solid
        solid in
    rw joined (join_spaces-acceptable ws words seven)
