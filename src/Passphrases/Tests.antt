-- ===== src/Passphrases/Tests.antt =====
-- A generator with a word list of the least size, and an instance of the theorem.
use ab.Base.{ℕ, zero, suc, ◌≡◌, refl, true, some, List, [], ◌∷◌, ok, err, All}
use ab.Base.Text.{Text, codes, text_eq, is_space}
use ab.TwoFactor.{is_ascii}
use ab.Accounts.{check_password_acceptable}
use ab.Passphrases.{
  WordLists, words_of, longest, shortest, check_lengths, check_word_list, check_word_lists,
  missing_fallback, PassphraseGenerator, new_generator, generate_passphrase,
}
use ab.Passphrases.Acceptable.{is_solid, generate_passphrase_acceptable}

abbrev repeat : ℕ → Text → List Text
repeat zero w = []
repeat (suc n) w = w ∷ repeat n w

abbrev english : WordLists
english = (codes "en", repeat 7300 (codes "word")) ∷ []

abbrev generator : PassphraseGenerator
generator = record { language_to_words = english; fallback_language = codes "en" }

solid_repeat : (n : ℕ) (w : Text) → is_solid w ≡ true → All (λ v. is_solid v ≡ true) (repeat n w)
solid_repeat zero w h = tt
solid_repeat (suc n) w h = (h, solid_repeat n w h)

new_generator-missing_fallback : new_generator english (codes "fr") ≡ err missing_fallback
unfolding new_generator words_of text_eq
new_generator-missing_fallback = refl

generate_passphrase_acceptable_example :
    check_password_acceptable (generate_passphrase (λ i. i) generator (some (codes "fr"))) ≡ ok tt
unfolding new_generator words_of text_eq check_word_lists check_word_list is_ascii check_lengths
    longest shortest is_space
generate_passphrase_acceptable_example =
    generate_passphrase_acceptable (λ i. i) english (codes "en") generator (some (codes "fr")) refl
      (solid_repeat 7300 (codes "word") refl, tt)
