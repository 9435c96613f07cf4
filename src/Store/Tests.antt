-- ===== src/Store/Tests.antt =====
-- Names of stored files on small inputs, and instances of the theorems.
use ab.Base.{◌≡◌, refl, Bool, true, false, none, some, List, [], ◌∷◌, ◌++◌, map, All}
use ab.Base.Text.{codes, text_eq, text_in, lower_char}
use ab.Models.{Submission, Reply}
use ab.Store.{
  decimal, decimal_fuel, file_index, before_dash, digits_value, validate_filename, matches_digits,
  matches_tail, is_digit, is_file_type, is_name_char, lower_kept, journalist_filename, message_name,
  file_name, reply_name, Item, submission, reply, collection, keyed, sort, insert,
}
use ab.Store.Names.{saved_names_valid}
use ab.Store.Order.{Entry, IsKeyed, Ascending, count, collection-Ascending}

decimal_2023 : decimal 2023 ≡ codes "2023"
unfolding decimal decimal_fuel
decimal_2023 = refl

journalist_filename_test : journalist_filename (codes "Quixotic Fox's") ≡ codes "quixotic_foxs"
unfolding journalist_filename lower_kept lower_char is_name_char
journalist_filename_test = refl

validate_filename_line_break : validate_filename (codes "1-fox-msg.gpg" ++ (10 ∷ [])) ≡ true
unfolding validate_filename matches_digits matches_tail is_digit is_file_type is_name_char text_in
    text_eq
validate_filename_line_break = refl

validate_filename_upper_case : validate_filename (codes "1-Fox-msg.gpg") ≡ false
unfolding validate_filename matches_digits matches_tail is_digit is_file_type is_name_char text_in
    text_eq
validate_filename_upper_case = refl

saved_names_valid_example :
    (validate_filename (message_name 3 (journalist_filename (codes "Quixotic Fox"))) ≡ true)
    × (validate_filename (file_name 3 (journalist_filename (codes "Quixotic Fox"))) ≡ true)
    × (validate_filename (reply_name 3 (journalist_filename (codes "Quixotic Fox"))) ≡ true)
saved_names_valid_example = saved_names_valid 3 (codes "Quixotic Fox")

abbrev second : Submission
second = record {
  id = 1;
  uuid = 1;
  source_id = 1;
  filename = codes "10-fox-msg.gpg";
  size = 5;
  downloaded = false;
  checksum = none;
}

abbrev first : Reply
first = record {
  id = 1;
  uuid = 2;
  journalist_id = 1;
  source_id = 1;
  filename = codes "9-fox-reply.gpg";
  size = 5;
  checksum = none;
  deleted_by_source = false;
}

-- Ten comes after nine.
collection_test :
    collection (second ∷ []) (first ∷ []) ≡ some (reply first ∷ submission second ∷ [])
unfolding collection keyed sort insert file_index before_dash digits_value
collection_test = refl

collection-Ascending_example :
    (entries : List Entry) × (collection (second ∷ []) (first ∷ [])
      ≡ some (map (λ (e : Entry). e.1) entries))
    × All IsKeyed entries
    × Ascending entries
    × ((p : Item → Bool)
        → count p (map (λ (e : Entry). e.1) entries)
          ≡ count p (submission second ∷ reply first ∷ []))
unfolding file_index before_dash digits_value
collection-Ascending_example =
    collection-Ascending (second ∷ []) (first ∷ []) ((10, refl), ((9, refl), tt))
