-- ===== src/Submit/Tests.antt =====
-- Submissions to a small inbox and replies to two sources, with an instance of each theorem.
use ab.Base.{◌∷◌, ℕ, ◌≡◌, refl, true, false, none, some, List, []}
use ab.Base.Text.{Text, codes, text_eq, is_space}
use ab.Models.{Reply}
use ab.Config.{ConfigRow, default_row}
use ab.Submit.{
  lstrip, rstrip, strip, codename_detected, SubmitRequest, Inbox, submit, refusal, first_refusal,
  is_too_short, is_codename, codename_submitted,
}

abbrev inbox : Inbox
inbox = record {
  source = record {
    id = 1;
    uuid = 1;
    filesystem_id = codes "AAAA";
    journalist_designation = codes "red fox";
    last_updated = none;
    pending = true;
    interaction_count = 0;
    deleted_at = none;
    pgp_public_key = none;
    pgp_secret_key = none;
    pgp_fingerprint = none;
  };
  submissions = [];
  files = [];
  next_id = 1;
}

abbrev config : ConfigRow
config = record (default_row 1) { reject_message_with_codename = true }

abbrev request : SubmitRequest
request = record {
  msg = codes " a b ";
  uploaded = true;
  new_user_codename = some (codes "a b");
  now = 60;
}

abbrev sizes : Text → ℕ
sizes s = 9

codename_refused : submit sizes config request inbox ≡ (codename_submitted, inbox)
unfolding submit refusal first_refusal is_too_short is_codename codename_detected strip lstrip
    rstrip is_space text_eq
codename_refused = refl

abbrev answer : ℕ → Reply
answer source = record {
  id = 3;
  uuid = 14;
  journalist_id = 1;
  source_id = source;
  filename = codes "2-fox-reply.gpg";
  size = 9;
  checksum = none;
  deleted_by_source = false;
}

abbrev answers : List Reply
answers = answer 1 ∷ answer 2 ∷ []
