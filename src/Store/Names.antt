-- ===== src/Store/Names.antt =====
-- The names that the store gives (securedrop/store.py, `save_*`) and the tests that it and the tables
-- make of names: `VALIDATE_FILENAME`, `Submission.is_file` and `Submission.is_message`.
use ab.Base.{
  ℕ, suc, ◌+◌, ◌-◌, ◌≤◌, ◌≡◌, refl, sym, ap, ◌∙◌, Bool, true, false, ◌&&◌, List, [], ◌∷◌, ◌++◌, all,
  any, select, length, length-append, take, drop, take-append-drop, leb, ltb, arith, Bool-cases,
  inl, inr,
}
use mathlib.Core.List.{append_assoc}
use ab.Base.Text.{Text, codes, text_eq, text_eq_sound, text_eq_refl, text_in}
use ab.Store.{
  decimal, more_digit_zeros, is_digit, is_name_char, is_file_type, matches_tail, matches_digits,
  validate_filename, journalist_filename, stored_name, message_name, file_name, reply_name,
  ends_with, is_file, is_message,
}
use ab.Store.Decimal.{is_ascii_digit, decimal_fuel-digits, length-decimal_fuel}

all-select : {A : Type 0} (p : A → Bool) (xs : List A) → all p (select p xs) ≡ true
all-select p [] = refl
all-select p (x ∷ xs) = ground (arith, all-select p xs)

any-head : {A : Type 0} (p : A → Bool) (x : A) (xs : List A) → p x ≡ true → any p (x ∷ xs) ≡ true
any-head p x xs h = rw h refl

is_digit_ascii : (c : ℕ) → is_ascii_digit c ≡ true → is_digit c ≡ true
unfolding is_digit
is_digit_ascii c h = any-head (λ z. leb z c && ltb c (z + 10)) 48 more_digit_zeros (ground arith)

is_digit_dash : is_digit b'-' ≡ false
unfolding is_digit
is_digit_dash = refl

matches_tail-append :
    (s t : Text) → all is_name_char s ≡ true → matches_tail t ≡ true → matches_tail (s ++ t) ≡ true
unfolding matches_tail
matches_tail-append [] t h k = k
matches_tail-append (c ∷ s) t h k = ground (arith, matches_tail-append s t)

matches_digits-append :
    (s t : Text)
    → all is_ascii_digit s ≡ true
    → matches_tail t ≡ true
    → matches_digits (s ++ (b'-' ∷ t)) ≡ true
unfolding matches_digits
matches_digits-append [] t h k = rw is_digit_dash k
matches_digits-append (c ∷ s) t h k = ground (arith, is_digit_ascii c, matches_digits-append s t)

validate_filename-append :
    (s t : Text)
    → all is_ascii_digit s ≡ true
    → 1 ≤ length s
    → matches_tail t ≡ true
    → validate_filename (s ++ (b'-' ∷ t)) ≡ true
unfolding validate_filename
validate_filename-append [] t h l k = absurd (omega arith)
validate_filename-append (c ∷ s) t h l k =
    ground (arith, is_digit_ascii c, matches_digits-append s t)

-- An ending after a dash.
IsEnding : Text → Type 0
IsEnding ending = matches_tail (b'-' ∷ ending) ≡ true

stored_name_valid :
    (count : ℕ) (designation ending : Text)
    → IsEnding ending
    → validate_filename (stored_name count (journalist_filename designation) ending) ≡ true
unfolding IsEnding decimal journalist_filename
stored_name_valid count designation ending h =
    validate_filename-append (decimal count) (journalist_filename designation ++ (b'-' ∷ ending))
      (decimal_fuel-digits (suc count) count) (length-decimal_fuel count count)
      (matches_tail-append (journalist_filename designation) (b'-' ∷ ending)
        (all-select is_name_char _) h)

-- Every name that the store gives is one that it lets pass later, whatever the source is called and however
-- many interactions there have been.
pub saved_names_valid :
    (count : ℕ) (designation : Text)
    → let name = journalist_filename designation in
      (validate_filename (message_name count name) ≡ true)
      × (validate_filename (file_name count name) ≡ true)
      × (validate_filename (reply_name count name) ≡ true)
unfolding message_name file_name reply_name IsEnding matches_tail is_file_type is_name_char text_in
    text_eq
saved_names_valid count designation = (
  stored_name_valid count designation (codes "msg.gpg") refl,
  stored_name_valid count designation (codes "doc.gz.gpg") refl,
  stored_name_valid count designation (codes "reply.gpg") refl,
)

drop-append : (s t : Text) (k : ℕ) → drop (length s + k) (s ++ t) ≡ drop k t
drop-append [] t k = ap (λ n. drop n t) (omega arith)
drop-append (c ∷ s) t k =
    let e : length (c ∷ s) + k ≡ suc (length s + k) = omega arith in
    ap (λ n. drop n (c ∷ s ++ t)) e ∙ drop-append s t k

ends_with-append : (t s u : Text) → length t ≤ length u → ends_with t (s ++ u) ≡ ends_with t u
unfolding ends_with
ends_with-append t s u h =
    let e : length (s ++ u) - length t ≡ length s + (length u - length t) =
      omega (arith, length-append s u) in
    let d : drop (length (s ++ u) - length t) (s ++ u) ≡ drop (length u - length t) u =
      ap (λ n. drop n (s ++ u)) e ∙ drop-append s u (length u - length t) in
    ap (λ v. leb (length t) (length (s ++ u)) && text_eq v t) d ∙ ground (arith, length-append s u)

ends_with_self : (t : Text) → ends_with t t ≡ true
unfolding ends_with
ends_with_self t =
    let z : length t - length t ≡ 0 = omega arith in
    let e : drop (length t - length t) t ≡ t = ap (λ n. drop n t) z in
    rw (e, text_eq_refl t) (ground arith)

-- A text that ends with `u ++ t` ends with `t`.
ends_with_shorter : (u t s : Text) → ends_with t s ≡ false → ends_with (u ++ t) s ≡ false
unfolding ends_with
ends_with_shorter u t s h = elim (Bool-cases (ends_with (u ++ t) s)) [
  | inr n ↦ n
  | inl y ↦
      let k = length s - length (u ++ t) in
      let e : drop k s ≡ u ++ t = text_eq_sound (drop k s) (u ++ t) (ground arith) in
      let whole : (take k s ++ u) ++ t ≡ s =
        append_assoc (take k s) u t ∙ ap (λ v. take k s ++ v) (sym e) ∙ take-append-drop k s in
      let ends : ends_with t s ≡ true =
        ap (ends_with t) (sym whole)
        ∙ ends_with-append t (take k s ++ u) t (omega arith)
        ∙ ends_with_self t in
      absurd (cc)
]

-- The ending of a stored name decides what it ends with.
ends_with-stored_name :
    (t : Text) (count : ℕ) (name ending : Text)
    → length t ≤ length ending
    → ends_with t (stored_name count name ending) ≡ ends_with t ending
ends_with-stored_name t count name ending h =
    let tail = b'-' ∷ ending in
    ends_with-append t (decimal count) (b'-' ∷ name ++ tail)
      (omega (arith, length-append name tail))
    ∙ ends_with-append t (b'-' ∷ name) tail (omega arith)
    ∙ ends_with-append t (b'-' ∷ []) ending h

is_file-stored_name :
    (count : ℕ) (name ending : Text)
    → 7 ≤ length ending
    → ends_with (codes "gz.gpg") ending ≡ false
    → ends_with (codes "zip.gpg") ending ≡ false
    → is_file (stored_name count name ending) ≡ false
unfolding is_file
is_file-stored_name count name ending long g z =
    let stored = stored_name count name ending in
    let no_gz : ends_with (codes "doc.gz.gpg") stored ≡ false =
      ends_with_shorter (codes "doc.") (codes "gz.gpg") stored
        (ends_with-stored_name (codes "gz.gpg") count name ending (omega arith) ∙ g) in
    let no_zip : ends_with (codes "doc.zip.gpg") stored ≡ false =
      ends_with_shorter (codes "doc.") (codes "zip.gpg") stored
        (ends_with-stored_name (codes "zip.gpg") count name ending (omega arith) ∙ z) in
    rw (no_gz, no_zip) refl

-- The tests that the tables make of a name tell what was stored under it: a message, a file, or neither for a
-- reply, whatever the source is called.
saved_names_kinds :
    (count : ℕ) (name : Text)
    → ((is_message (message_name count name) ≡ true) × (is_file (message_name count name) ≡ false))
      × ((is_message (file_name count name) ≡ false) × (is_file (file_name count name) ≡ true))
      × ((is_message (reply_name count name) ≡ false) × (is_file (reply_name count name) ≡ false))
unfolding is_message is_file message_name file_name reply_name ends_with text_eq
saved_names_kinds count name =
    let at : (t ending : Text)
        → length t ≤ length ending
        → ends_with t (stored_name count name ending) ≡ ends_with t ending =
      λ t ending h. ends_with-stored_name t count name ending h in
    let doc = at (codes "doc.gz.gpg") (codes "doc.gz.gpg") (omega arith) in
    (
      (
        at (codes "msg.gpg") (codes "msg.gpg") (omega arith),
        is_file-stored_name count name (codes "msg.gpg") (omega arith) refl refl,
      ),
      (at (codes "msg.gpg") (codes "doc.gz.gpg") (omega arith), ground (arith, doc)),
      (
        at (codes "msg.gpg") (codes "reply.gpg") (omega arith),
        is_file-stored_name count name (codes "reply.gpg") (omega arith) refl refl,
      ),
    )
