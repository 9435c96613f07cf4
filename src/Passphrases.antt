-- ===== src/Passphrases.antt =====
-- Generated passphrases (securedrop/passphrases.py, `PassphraseGenerator`). The random choices enter as a
-- function that gives the number drawn at each place.
pub mod Acceptable
mod Tests
use ab.Base.{
  ℕ, zero, suc, ◌+◌, ◌*◌, ◌%◌, Bool, true, false, not, ◌&&◌, Option, none, some, List, [], ◌∷◌,
  ◌++◌, map, all, find, length, ltb, leb, ◌==◌, if◌then◌else◌, Result, ok, err, is_some,
}
use ab.Base.Fallible.{◌>>=◌, ◌>>◌, raise_when}
use ab.Base.Text.{Text, text_eq}
use ab.TwoFactor.{is_ascii, join_spaces}
use ab.Accounts.{truthy}

abbrev pub passphrase_words_count : ℕ
passphrase_words_count = 7

abbrev pub max_passphrase_length : ℕ
max_passphrase_length = 128

abbrev pub min_passphrase_length : ℕ
min_passphrase_length = 20

abbrev pub word_list_minimum_size : ℕ
word_list_minimum_size = 7300

-- The reasons for which `InvalidWordListError` is raised.
pub data WordListError : Type 0 where
  missing_fallback : WordListError
  too_few_words : Text → WordListError
  not_ascii : WordListError
  word_too_long : Text → WordListError
  word_too_short : Text → WordListError

-- The dictionary from languages to word lists, in its order.
abbrev pub WordLists : Type 0
WordLists = List (Text × List Text)

unfoldable pub words_of : Text → WordLists → Option (List Text)
words_of language [] = none
words_of language (l ∷ lists) =
    let rest = words_of language lists in if text_eq l.0 language then some l.1 else rest

-- len(max(words, key=len)) and len(min(words, key=len)), for words after the first
unfoldable pub longest : ℕ → List Text → ℕ
longest n [] = n
longest n (w ∷ ws) = longest (if ltb n (length w) then length w else n) ws

unfoldable pub shortest : ℕ → List Text → ℕ
shortest n [] = n
shortest n (w ∷ ws) = shortest (if ltb (length w) n then length w else n) ws

-- The two checks of lengths; `max` and `min` of no word would raise, but the size is checked before.
unfoldable pub check_lengths : Text → List Text → Result WordListError (Unit {0})
check_lengths language [] = err (too_few_words language)
check_lengths language (w ∷ ws) = do
  raise_when
      (leb max_passphrase_length
        (longest (length w) ws * passphrase_words_count + passphrase_words_count))
      (word_too_long language)
  raise_when
      (leb (shortest (length w) ws * passphrase_words_count + passphrase_words_count)
        min_passphrase_length)
      (word_too_short language)

unfoldable pub check_word_list : Text × List Text → Result WordListError (Unit {0})
check_word_list l = do
  raise_when (ltb (length l.1) word_list_minimum_size) (too_few_words l.0)
  raise_when (not (all is_ascii l.1)) not_ascii
  check_lengths l.0 l.1

unfoldable pub check_word_lists : WordLists → Result WordListError (Unit {0})
check_word_lists [] = ok tt
check_word_lists (l ∷ lists) = do check_word_list l; check_word_lists lists

pub record PassphraseGenerator : Type 0 where
  pub language_to_words : WordLists
  pub fallback_language : Text

unfoldable pub new_generator : WordLists → Text → Result WordListError PassphraseGenerator
new_generator lists fallback = do
  raise_when (not (is_some (words_of fallback lists))) missing_fallback
  check_word_lists lists
  ok (record { language_to_words = lists; fallback_language = fallback })

abbrev pub or_else : Text → Option Text → Text
or_else fallback none = fallback
or_else fallback (some language) = language

abbrev pub words_or_else : List Text → Option (List Text) → List Text
words_or_else words none = words
words_or_else words (some ws) = ws

-- The list of the preferred language, or of the fallback language; the second lookup cannot fail.
unfoldable pub word_list : PassphraseGenerator → Option Text → List Text
word_list g preferred =
    words_or_else (words_or_else [] (words_of g.fallback_language g.language_to_words))
      (words_of (or_else g.fallback_language (truthy preferred)) g.language_to_words)

abbrev pub nth_word : List Text → ℕ → Text
nth_word [] i = []
nth_word (w ∷ ws) zero = w
nth_word (w ∷ ws) (suc i) = nth_word ws i

-- [choice(words) for _ in range(n)], the last of which draws `draw 0`
unfoldable pub choose_words : (ℕ → ℕ) → List Text → ℕ → List Text
choose_words draw words zero = []
choose_words draw words (suc n) = nth_word words (draw n % length words) ∷ choose_words draw words n

unfoldable pub generate_passphrase : (ℕ → ℕ) → PassphraseGenerator → Option Text → Text
generate_passphrase draw g preferred =
    join_spaces (choose_words draw (word_list g preferred) passphrase_words_count)
