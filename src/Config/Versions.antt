-- ===== src/Config/Versions.antt =====
-- Changes of the configuration (securedrop/models.py, `InstanceConfig`): there is one current version, the
-- others stay as they were, and a refused name changes nothing.
use ab.Base.{
  ℕ, ◌+◌, ◌<◌, ◌≡◌, refl, ap, ◌∙◌, true, false, Option, none, some, [], ◌∷◌, ◌++◌, select, arith,
  ok, err, Result-cases, inl, inr, ◌⊎◌, bind-ok, bind-err, lift, pure,
}
use ab.Base.Text.{Text}
use ab.Config.{
  ConfigRow, ConfigError, invalid_name_length, ConfigDb, is_current, distinct, commit, add_row,
  default_row, create_default, get_current, rename_from, check_name_acceptable, expire,
  expire_current, copy, append_row, rename_to, set_organization_name, preferences_saved,
  failed_to_update, update_org_name,
}
use ab.Config.Rows.{
  has_until, has_until-expire_zero, distinct-expire, has_until-snoc, distinct-snoc,
  select_current-cases, select-snoc,
}

-- Adding a current row to rows that are all past.
append_row-ok :
    (change : ConfigRow → ConfigRow) (old : ConfigRow) (db : ConfigDb)
    → (change (copy old db.next_version)).valid_until ≡ 0
    → has_until 0 db.rows ≡ false
    → distinct db.rows ≡ true
    → let new = change (copy old db.next_version) in
      append_row change old db ≡ (
        ok tt,
        record {
          rows = db.rows ++ (new ∷ []);
          committed = db.rows ++ (new ∷ []);
          next_version = db.next_version + 1;
        },
      )
unfolding append_row commit
append_row-ok change old db z f d =
    let new = change (copy old db.next_version) in
    let dd : distinct (db.rows ++ (new ∷ [])) ≡ true = distinct-snoc db.rows new (rw z f) d in
    rw dd refl

-- A table as a request finds it.
pub record Committed (now : ℕ) (db : ConfigDb) : Type 0 where
  pub saved : db.committed ≡ db.rows
  pub once : distinct db.rows ≡ true
  pub unused : has_until now db.rows ≡ false

commit-ok :
    (db : ConfigDb)
    → distinct db.rows ≡ true
    → commit db ≡ (ok tt, record db { committed = db.rows })
unfolding commit
commit-ok db h = rw h refl

check_name_acceptable-err :
    (name : Option Text) (e : ConfigError)
    → check_name_acceptable name ≡ err e
    → e ≡ invalid_name_length
unfolding check_name_acceptable
check_name_acceptable-err none e h = ground arith
check_name_acceptable-err (some n) e h = ground arith

create_default-Committed :
    (now : ℕ) (db : ConfigDb)
    → 0 < now
    → Committed now db
    → has_until 0 db.rows ≡ false
    → let new = default_row db.next_version in
      let after : ConfigDb = record {
        rows = db.rows ++ (new ∷ []);
        committed = db.rows ++ (new ∷ []);
        next_version = db.next_version + 1;
      } in
      (create_default db ≡ (ok new, after)) × Committed now after
unfolding create_default
create_default-Committed now db p c f =
    let new = default_row db.next_version in
    let dd : distinct (db.rows ++ (new ∷ [])) ≡ true = distinct-snoc db.rows new f c.once in
    let added = add_row new db in
    (
      bind-ok commit (λ _. pure new) added (record added { committed = added.rows }) tt
          (commit-ok added dd),
      record {
        saved = refl;
        once = dd;
        unused = has_until-snoc now db.rows new c.unused (λ e. absurd (omega arith));
      },
    )

-- There is always a current row to start from.
get_current-Committed :
    (now : ℕ) (db : ConfigDb)
    → 0 < now
    → Committed now db
    → (old : ConfigRow) × (db1 : ConfigDb) × (get_current db ≡ (ok old, db1)) × Committed now db1
unfolding get_current
get_current-Committed now db p c = elim (select_current-cases db.rows c.once) [
  | inl (e, f) ↦
      let (made, c') = create_default-Committed now db p c f in
      (default_row db.next_version, _, rw e made, c')
  | inr (r, e) ↦ (r, db, rw e refl, c)
]

rename_from-ok :
    (now : ℕ) (name : Option Text) (n : Text) (old : ConfigRow) (db : ConfigDb)
    → 0 < now
    → Committed now db
    → check_name_acceptable name ≡ ok n
    → let new = rename_to n (copy old db.next_version) in
      rename_from now name old db ≡ (
        ok tt,
        record {
          rows = expire now db.rows ++ (new ∷ []);
          committed = expire now db.rows ++ (new ∷ []);
          next_version = db.next_version + 1;
        },
      )
rename_from-ok now name n old db p c h =
    bind-ok (lift (check_name_acceptable name)) (λ a. append_row (rename_to a) old)
      (expire_current now db) (expire_current now db) n (ap (λ r. (r, expire_current now db)) h)
    ∙ append_row-ok (rename_to n) old (expire_current now db) refl
        (has_until-expire_zero now db.rows p) (distinct-expire now db.rows c.unused c.once)

rename_from-err :
    (now : ℕ) (name : Option Text) (e : ConfigError) (old : ConfigRow) (db : ConfigDb)
    → check_name_acceptable name ≡ err e
    → rename_from now name old db ≡ (err e, expire_current now db)
rename_from-err now name e old db h =
    bind-err (lift (check_name_acceptable name)) (λ a. append_row (rename_to a) old)
      (expire_current now db) (expire_current now db) e (ap (λ r. (r, expire_current now db)) h)

-- Renaming the organisation, from a table that is committed and in which no row is valid until now: there is
-- a current row, made from the defaults if need be. If the name is empty, missing or longer than 64
-- characters, the table is left with that row; else the row is valid until now, and the one current
-- row is its copy with the next version and the new name.
pub update_org_name_lem :
    (now : ℕ) (name : Option Text) (db : ConfigDb)
    → 0 < now
    → Committed now db
    → (old : ConfigRow) × (db1 : ConfigDb) × (get_current db ≡ (ok old, db1))
      × (((check_name_acceptable name ≡ err invalid_name_length)
            × (update_org_name now name db ≡ (failed_to_update, db1)))
          ⊎ ((n : Text) × (check_name_acceptable name ≡ ok n)
              × ((update_org_name now name db).0 ≡ preferences_saved)
              × ((update_org_name now name db).1.committed
                  ≡ expire now db1.rows ++ (rename_to n (copy old db1.next_version) ∷ []))
              × (select is_current (update_org_name now name db).1.committed
                  ≡ rename_to n (copy old db1.next_version) ∷ [])))
unfolding update_org_name set_organization_name
update_org_name_lem now name db p c =
    let (old, db1, found, c1) = get_current-Committed now db p c in
    (
      old,
      db1,
      found,
      elim (Result-cases (check_name_acceptable name)) [
        | inl (n, h) ↦
            let e =
              bind-ok get_current (rename_from now name) db db1 old found
              ∙ rename_from-ok now name n old db1 p c1 h in
            inr (
              n,
              h,
              rw e refl,
              rw e refl,
              rw e
                  (select-snoc (expire now db1.rows) _ (has_until-expire_zero now db1.rows p) refl),
            )
        | inr (x, h) ↦
            let e =
              bind-ok get_current (rename_from now name) db db1 old found
              ∙ rename_from-err now name x old db1 h in
            inl (
              h ∙ ap err (check_name_acceptable-err name x h),
              rw e (ap (λ rows. (failed_to_update, record db1 { rows = rows })) c1.saved),
            )
      ],
    )
