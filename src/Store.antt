-- ===== src/Store.antt =====
-- Names of stored files (securedrop/store.py, `VALIDATE_FILENAME` and the `save_*` methods;
-- securedrop/models.py, `Source.journalist_filename`, `Source.collection`, `Submission.is_file` and
-- `Submission.is_message`). What is written into the files is not modelled.
pub mod Decimal
pub mod Names
pub mod Order
mod Tests
use ab.Base.{
  ℕ, zero, suc, ◌+◌, ◌-◌, ◌*◌, ◌/◌, ◌%◌, Bool, true, false, not, ◌&&◌, ◌||◌, Option, none, some,
  List, [], ◌∷◌, ◌++◌, map, any, select, length, take, drop, ltb, leb, ◌==◌, if◌then◌else◌,
}
use ab.Base.Text.{Text, codes, text_eq, text_in, lower_char}
use mathlib.Core.Option
use ab.Models.{Source, Submission, Reply}

-- str(n), by its digits; the fuel is more than the number of digits.
unfoldable pub decimal_fuel : ℕ → ℕ → Text
decimal_fuel zero n = []
decimal_fuel (suc fuel) n =
    let front = decimal_fuel fuel (n / 10) in
    if ltb n 10 then (n + 48) ∷ [] else front ++ ((n % 10 + 48) ∷ [])

unfoldable pub decimal : ℕ → Text
decimal n = decimal_fuel (suc n) n

abbrev pub digit_value : ℕ → Option ℕ
digit_value c = if leb 48 c && leb c 57 then some (c - 48) else none

abbrev pub next_value : ℕ → Option ℕ → Option ℕ
next_value acc none = none
next_value acc (some d) = some (10 * acc + d)

-- int(s) for a text of ASCII digits; other texts that `int` takes are not considered.
unfoldable pub digits_value : Option ℕ → Text → Option ℕ
digits_value none s = none
digits_value (some acc) [] = some acc
digits_value (some acc) (c ∷ s) = digits_value (next_value acc (digit_value c)) s

-- s.split("-")[0]
unfoldable pub before_dash : Text → Text
before_dash [] = []
before_dash (c ∷ s) = let rest = before_dash s in if c == b'-' then [] else c ∷ rest

abbrev pub nonempty_value : Text → Option ℕ
nonempty_value [] = none
nonempty_value (c ∷ s) = digits_value (some 0) (c ∷ s)

-- The key by which `collection` sorts; `none` is a `ValueError`.
unfoldable pub file_index : Text → Option ℕ
file_index filename = nonempty_value (before_dash filename)

-- The digit zero of each block of decimal digits in Unicode after ASCII, which the expression's \d
-- takes.
abbrev pub more_digit_zeros : List ℕ
more_digit_zeros =
    1632 ∷ 1776 ∷ 1984 ∷ 2406 ∷ 2534 ∷ 2662 ∷ 2790 ∷ 2918 ∷ 3046 ∷ 3174 ∷ 3302 ∷ 3430 ∷ 3558 ∷ 3664
    ∷ 3792 ∷ 3872 ∷ 4160 ∷ 4240 ∷ 6112 ∷ 6160 ∷ 6470 ∷ 6608 ∷ 6784 ∷ 6800 ∷ 6992 ∷ 7088 ∷ 7232
    ∷ 7248 ∷ 42528 ∷ 43216 ∷ 43264 ∷ 43472 ∷ 43504 ∷ 43600 ∷ 44016 ∷ 65296 ∷ 66720 ∷ 68912 ∷ 69734
    ∷ 69872 ∷ 69942 ∷ 70096 ∷ 70384 ∷ 70736 ∷ 70864 ∷ 71248 ∷ 71360 ∷ 71472 ∷ 71904 ∷ 72016 ∷ 72784
    ∷ 73040 ∷ 73120 ∷ 92768 ∷ 92864 ∷ 93008 ∷ 120782 ∷ 120792 ∷ 120802 ∷ 120812 ∷ 120822 ∷ 123200
    ∷ 123632 ∷ 125264 ∷ 130032 ∷ []

unfoldable pub is_digit : ℕ → Bool
is_digit c = any (λ z. leb z c && ltb c (z + 10)) (48 ∷ more_digit_zeros)

-- [a-z0-9-_]
unfoldable pub is_name_char : ℕ → Bool
is_name_char c =
    (leb b'a' c && leb c b'z') || (leb b'0' c && leb c b'9') || (c == b'-') || (c == b'_')

abbrev pub file_types : List Text
file_types = codes "msg.gpg" ∷ codes "doc.gz.gpg" ∷ codes "doc.zip.gpg" ∷ codes "reply.gpg" ∷ []

-- The end of the expression: `$` also matches before a line break that ends the text.
unfoldable pub is_file_type : Text → Bool
is_file_type s = text_in s file_types || text_in s (map (λ t. t ++ (10 ∷ [])) file_types)

-- [a-z0-9-_]*(msg|doc\.(gz|zip)|reply)\.gpg$
unfoldable pub matches_tail : Text → Bool
matches_tail [] = false
matches_tail (c ∷ s) = let rest = matches_tail s in is_file_type (c ∷ s) || (is_name_char c && rest)

-- The rest of \d+\-, after the first digit.
unfoldable pub matches_digits : Text → Bool
matches_digits [] = false
matches_digits (c ∷ s) =
    let rest = matches_digits s in if is_digit c then rest else (c == b'-') && matches_tail s

unfoldable pub validate_filename : Text → Bool
validate_filename [] = false
validate_filename (c ∷ s) = is_digit c && matches_digits s

-- str.lower, for what `journalist_filename` keeps of it: outside ASCII, only the Kelvin sign and the
-- capital I with a dot have a lower case with one of the valid characters in it.
unfoldable pub lower_kept : ℕ → ℕ
lower_kept c = if c == 8490 then b'k' else if c == 304 then b'i' else lower_char c

abbrev pub blank_to_underscore : ℕ → ℕ
blank_to_underscore c = if c == b' ' then b'_' else c

-- The valid characters are those of the expression.
unfoldable pub journalist_filename : Text → Text
journalist_filename designation =
    select is_name_char (map (λ c. blank_to_underscore (lower_kept c)) designation)

-- f"{count}-{journalist_filename}-" and one of the endings
abbrev pub stored_name : ℕ → Text → Text → Text
stored_name count name ending = decimal count ++ (b'-' ∷ name ++ (b'-' ∷ ending))

unfoldable pub message_name : ℕ → Text → Text
message_name count name = stored_name count name (codes "msg.gpg")

unfoldable pub file_name : ℕ → Text → Text
file_name count name = stored_name count name (codes "doc.gz.gpg")

unfoldable pub reply_name : ℕ → Text → Text
reply_name count name = stored_name count name (codes "reply.gpg")

-- s.endswith(t)
unfoldable pub ends_with : Text → Text → Bool
ends_with t s = leb (length t) (length s) && text_eq (drop (length s - length t) s) t

unfoldable pub is_file : Text → Bool
is_file filename =
    ends_with (codes "doc.gz.gpg") filename || ends_with (codes "doc.zip.gpg") filename

unfoldable pub is_message : Text → Bool
is_message filename = ends_with (codes "msg.gpg") filename

-- An element of a source's collection.
pub data Item : Type 0 where
  submission : Submission → Item
  reply : Reply → Item

abbrev pub item_filename : Item → Text
item_filename (submission s) = s.filename
item_filename (reply r) = r.filename

abbrev pub cons_keyed : Option ℕ → Item → Option (List (ℕ × Item)) → Option (List (ℕ × Item))
cons_keyed none item rest = none
cons_keyed (some key) item none = none
cons_keyed (some key) item (some rest) = some ((key, item) ∷ rest)

-- The keys are computed first; a name without one raises.
unfoldable pub keyed : List Item → Option (List (ℕ × Item))
keyed [] = some []
keyed (item ∷ items) = cons_keyed (file_index (item_filename item)) item (keyed items)

-- list.sort is stable: an element goes before those of a greater or the same key.
unfoldable pub insert : ℕ × Item → List (ℕ × Item) → List (ℕ × Item)
insert entry [] = entry ∷ []
insert entry (e ∷ es) =
    let rest = insert entry es in if leb entry.0 e.0 then entry ∷ e ∷ es else e ∷ rest

unfoldable pub sort : List (ℕ × Item) → List (ℕ × Item)
sort [] = []
sort (entry ∷ entries) = insert entry (sort entries)

-- Submissions before replies, then sorted.
unfoldable pub collection : List Submission → List Reply → Option (List Item)
collection submissions replies =
    Option.map (λ entries. map (λ (e : ℕ × Item). e.1) (sort entries))
      (keyed (map submission submissions ++ map reply replies))
