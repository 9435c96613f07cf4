-- ===== src/Config/Tests.antt =====
-- Changing the configuration, and an instance of the theorem.
use ab.Base.{◌≡◌, ◌⊎◌, refl, arith, some, true, false, [], ◌∷◌, ◌++◌, select, ok, err}
use ab.Base.Text.{Text, codes}
use ab.Config.{
  ConfigRow, ConfigDb, invalid_name_length, is_current, distinct, default_row, get_current,
  check_name_acceptable, copy, expire, rename_to, update_submission_prefs, append_row, commit,
  failed_to_update, preferences_saved, update_org_name,
}
use ab.Config.Versions.{update_org_name_lem}

abbrev fresh : ConfigDb
fresh = record { rows = default_row 1 ∷ []; committed = default_row 1 ∷ []; next_version = 2 }

update_submission_prefs_test :
    (update_submission_prefs 50 false 10 true fresh).1.committed
    ≡ record (default_row 1) { valid_until = 50 }
      ∷ record (default_row 2) {
        allow_document_uploads = false;
        initial_message_min_len = 10;
        reject_message_with_codename = true;
      }
      ∷ []
unfolding update_submission_prefs get_current expire append_row commit distinct
update_submission_prefs_test = refl

update_org_name_lem_example :
    (old : ConfigRow) × (db1 : ConfigDb) × (get_current fresh ≡ (ok old, db1))
    × (((check_name_acceptable (some (codes "News")) ≡ err invalid_name_length)
          × (update_org_name 50 (some (codes "News")) fresh ≡ (failed_to_update, db1)))
        ⊎ ((n : Text) × (check_name_acceptable (some (codes "News")) ≡ ok n)
            × ((update_org_name 50 (some (codes "News")) fresh).0 ≡ preferences_saved)
            × ((update_org_name 50 (some (codes "News")) fresh).1.committed
                ≡ expire 50 db1.rows ++ (rename_to n (copy old db1.next_version) ∷ []))
            × (select is_current (update_org_name 50 (some (codes "News")) fresh).1.committed
                ≡ rename_to n (copy old db1.next_version) ∷ [])))
unfolding distinct
update_org_name_lem_example =
    update_org_name_lem 50 (some (codes "News")) fresh (omega arith)
      (record { saved = refl; once = refl; unused = refl })
