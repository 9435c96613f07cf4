-- ===== src/Sources/Create.antt =====
-- What creating a source leaves (securedrop/source_user.py, `create_source_user` and
-- `authenticate_source_user`).
use ab.Base.{
  ℕ, zero, suc, ◌≡◌, refl, sym, ap, ◌∙◌, Bool, true, false, ◌&&◌, Option, none, some, List, [], ◌∷◌,
  ◌++◌, any, select, find, arith, Bool-cases, Result-cases, Result, ok, err, inl, inr, ◌⊎◌, Exec,
  lift, bind-ok, bind-err,
}
use ab.Base.Text.{Text, text_eq, text_eq_refl, text_in}
use ab.Models.{Source, Db}
use ab.Sources.{
  SourceError, passphrase_collision, make_home, DesignationGenerator,
  generate_journalist_designation, SourceSetup, SourceState, SourceUser, is_designated,
  has_filesystem_id, is_kept, one_or_none, next_round, find_designation, designation_attempts,
  add_source, derive_source_gpg_secret, derive_source_filesystem_id, authenticated,
  authenticate_source_user, new_source, commit_source, make_directory, store_source,
  store_designated, create_source_user,
}

any-select_nil : {A : Type 0} (p : A → Bool) (xs : List A) → select p xs ≡ [] → any p xs ≡ false
any-select_nil p [] h = refl
any-select_nil p (x ∷ xs) h = ground (arith, any-select_nil p xs)

one_or_none-nil : (ss : List Source) → one_or_none ss ≡ ok none → ss ≡ []
unfolding one_or_none
one_or_none-nil [] h = refl
one_or_none-nil (s ∷ []) h = absurd (cc)
one_or_none-nil (s ∷ t ∷ ss) h = absurd (cc)

next_round-fresh :
    (designation d : Text) (found : Result SourceError (Option Source))
    (rest : Result SourceError Text)
    → next_round designation found rest ≡ ok d
    → ((found ≡ ok none) × (designation ≡ d)) ⊎ (rest ≡ ok d)
next_round-fresh designation d (err e) rest h = absurd (cc)
next_round-fresh designation d (ok none) rest h = inl (refl, cc)
next_round-fresh designation d (ok (some s)) rest h = inr h

-- A designation that was found is not in use.
find_designation-fresh :
    (g : DesignationGenerator) (draw : ℕ → ℕ × ℕ) (attempts : ℕ) (sources : List Source) (d : Text)
    → find_designation g draw attempts sources ≡ ok d
    → any (is_designated d) sources ≡ false
unfolding find_designation
find_designation-fresh g draw zero sources d h = absurd (cc)
find_designation-fresh g draw (suc attempts) sources d h =
    let designation = generate_journalist_designation g (draw attempts) in
    elim (next_round-fresh designation d (one_or_none (select (is_designated designation) sources))
      (find_designation g draw attempts sources) h) [
        | inl (free, e) ↦ rw (← e) (
            any-select_nil (is_designated designation) sources
              (one_or_none-nil (select (is_designated designation) sources) free))
        | inr later ↦ find_designation-fresh g draw attempts sources d later
      ]

find-append :
    {A : Type 0} (p q : A → Bool) (xs : List A) (a : A)
    → any p xs ≡ false
    → p a ≡ true
    → q a ≡ true
    → find (λ x. p x && q x) (xs ++ (a ∷ [])) ≡ some a
find-append p q [] a h k l = ground arith
find-append p q (x ∷ xs) a h k l = ground (arith, find-append p q xs a)

find-append_other :
    {A : Type 0} (p : A → Bool) (xs : List A) (a : A)
    → p a ≡ false
    → find p (xs ++ (a ∷ [])) ≡ find p xs
find-append_other p [] a h = ground arith
find-append_other p (x ∷ xs) a h = ground (arith, find-append_other p xs a)

-- A last step that only returns leaves the state as it is.
state_kept :
    {E S A B : Type 0} (b : B) (out : Result E A × S)
    → (elim out.0 as (λ _. Result E B × S) [ ok a ↦ (ok b, out.1) | err e ↦ (err e, out.1) ]).1
      ≡ out.1
state_kept b (ok a, s) = refl
state_kept b (err e, s) = refl

module _ (setup : SourceSetup) where
  -- The two ways in which storing a row goes once the designation is known.
  store_source-ok :
      (passphrase : Text) (source : Source) (state after : SourceState) (user : SourceUser)
      → store_source setup passphrase source state ≡ (ok user, after)
      → (any (has_filesystem_id source.filesystem_id) state.db.sources ≡ false)
        × (after.db.sources ≡ state.db.sources ++ (source ∷ []))
        × (record {
          db_record_id = source.id;
          filesystem_id = source.filesystem_id;
          gpg_secret = derive_source_gpg_secret setup passphrase;
        }
            ≡ user)
  unfolding store_source commit_source make_directory
  store_source-ok passphrase source state after user h = ground arith

  authenticate-added :
      (id uuid : ℕ) (passphrase designation : Text) (db : Db) (sources : List Source)
      → let source = new_source setup id uuid passphrase designation in
        any (has_filesystem_id source.filesystem_id) sources ≡ false
        → db.sources ≡ sources ++ (source ∷ [])
        → authenticate_source_user setup passphrase db
          ≡ ok (record {
            db_record_id = id;
            filesystem_id = source.filesystem_id;
            gpg_secret = derive_source_gpg_secret setup passphrase;
          })
  unfolding authenticate_source_user new_source
  authenticate-added id uuid passphrase designation db sources fresh e =
      let source = new_source setup id uuid passphrase designation in
      let found : find (λ s. has_filesystem_id source.filesystem_id s && is_kept s.deleted_at)
            db.sources
          ≡ some source =
        ap (find (λ s. has_filesystem_id source.filesystem_id s && is_kept s.deleted_at)) e
        ∙ find-append (has_filesystem_id source.filesystem_id) (λ s. is_kept s.deleted_at) sources
            source fresh (text_eq_refl source.filesystem_id) refl in
      ap (authenticated setup passphrase) found

  -- What a successful creation consists of.
  create_source_user-steps :
      (draw : ℕ → ℕ × ℕ) (uuid : ℕ) (passphrase : Text) (state after : SourceState)
      (user : SourceUser)
      → create_source_user setup draw uuid passphrase state ≡ (ok user, after)
      → (designation : Text) × (find_designation setup.designations draw designation_attempts
            state.db.sources
          ≡ ok designation)
        × (store_source setup passphrase
              (new_source setup state.db.next_id uuid passphrase designation)
              state
            ≡ (ok user, after))
  unfolding create_source_user
  create_source_user-steps draw uuid passphrase state after user h =
      let found = find_designation setup.designations draw designation_attempts state.db.sources in
      let next = store_designated setup uuid passphrase in
      elim (Result-cases found) [
        | inl (designation, e) ↦ (
          designation,
          e,
          sym (bind-ok (lift found) next state state designation (ap (λ r. (r, state)) e)) ∙ h,
        )
        | inr (e, f) ↦ absurd (
            let f' = sym (bind-err (lift found) next state state e (ap (λ r. (r, state)) f)) ∙ h in
            cc)
      ]

  -- A source that was created is in the database under a designation that no source had, and its
  -- passphrase authenticates it.
  pub create_source_user-authenticate :
      (draw : ℕ → ℕ × ℕ) (uuid : ℕ) (passphrase : Text) (state after : SourceState)
      (user : SourceUser)
      → create_source_user setup draw uuid passphrase state ≡ (ok user, after)
      → (authenticate_source_user setup passphrase after.db ≡ ok user)
        × ((source : Source) × (after.db.sources ≡ state.db.sources ++ (source ∷ []))
            × (source.id ≡ user.db_record_id)
            × (any (is_designated source.journalist_designation) state.db.sources ≡ false))
  unfolding new_source
  create_source_user-authenticate draw uuid passphrase state after user h =
      let (designation, found, stored) =
        create_source_user-steps draw uuid passphrase state after user h in
      let id = state.db.next_id in
      let source = new_source setup id uuid passphrase designation in
      let (fresh, added, same) = store_source-ok passphrase source state after user stored in
      (
        authenticate-added id uuid passphrase designation after.db state.db.sources fresh added
            ∙ ap ok same,
        (
          source,
          added,
          ap (λ (u : SourceUser). u.db_record_id) same,
          find_designation-fresh setup.designations draw designation_attempts state.db.sources
              designation found,
        ),
      )

  make_directory-db :
      (filesystem_id : Text) (state : SourceState)
      → (make_directory setup filesystem_id state).1.db ≡ state.db
  unfolding make_directory
  make_directory-db filesystem_id state =
      elim (Bool-cases (text_in filesystem_id state.directories)) [
        | inl there ↦ rw there refl
        | inr missing ↦ rw missing refl
      ]

  make_home-sources :
      (passphrase : Text) (source : Source) (state : SourceState)
      → (make_home setup passphrase source state).1.db ≡ state.db
  make_home-sources passphrase source state =
      ap (λ (st : SourceState). st.db)
        (state_kept _ (make_directory setup source.filesystem_id state))
      ∙ make_directory-db source.filesystem_id state

  commit_source-taken :
      (source : Source) (state : SourceState)
      → any (has_filesystem_id source.filesystem_id) state.db.sources ≡ true
      → commit_source setup source state ≡ (err passphrase_collision, state)
  unfolding commit_source
  commit_source-taken source state h = rw h refl

  commit_source-free :
      (source : Source) (state : SourceState)
      → any (has_filesystem_id source.filesystem_id) state.db.sources ≡ false
      → commit_source setup source state ≡ (ok tt, add_source source state)
  unfolding commit_source
  commit_source-free source state h = rw h refl

  abbrev sources_of : Result SourceError SourceUser × SourceState → List Source
  sources_of out = out.1.db.sources

  store_source-sources :
      (passphrase : Text) (source : Source) (state : SourceState)
      → ((store_source setup passphrase source state).1.db.sources ≡ state.db.sources)
        ⊎ ((store_source setup passphrase source state).1.db.sources
            ≡ state.db.sources ++ (source ∷ []))
  unfolding store_source
  store_source-sources passphrase source state =
      let next : Unit {0} → Exec SourceError SourceState SourceUser =
        λ _. make_home setup passphrase source in
      elim (Bool-cases (any (has_filesystem_id source.filesystem_id) state.db.sources)) [
        | inl taken ↦ inl (
            ap sources_of (
              bind-err (commit_source setup source) next state state passphrase_collision
                (commit_source-taken source state taken)))
        | inr free ↦ inr (
            ap sources_of (
              bind-ok (commit_source setup source) next state (add_source source state) tt
                (commit_source-free source state free))
            ∙ ap (λ (db : Db). db.sources)
                (make_home-sources passphrase source (add_source source state)))
      ]

  authenticate_source_user-sources :
      (other : Text) (db db' : Db)
      → db.sources ≡ db'.sources
      → authenticate_source_user setup other db ≡ authenticate_source_user setup other db'
  unfolding authenticate_source_user
  authenticate_source_user-sources other db db' e =
      ap
        (λ ss. authenticated setup other (
          find
            (λ s.
              has_filesystem_id (derive_source_filesystem_id setup other) s && is_kept s.deleted_at)
            ss))
        e

  authenticate_source_user-added :
      (other : Text) (source : Source) (db db' : Db)
      → text_eq source.filesystem_id (derive_source_filesystem_id setup other) ≡ false
      → db'.sources ≡ db.sources ++ (source ∷ [])
      → authenticate_source_user setup other db' ≡ authenticate_source_user setup other db
  unfolding authenticate_source_user
  authenticate_source_user-added other source db db' apart e =
      let p : Source → Bool = λ s.
        has_filesystem_id (derive_source_filesystem_id setup other) s && is_kept s.deleted_at in
      ap (authenticated setup other)
        (ap (find p) e ∙ find-append_other p db.sources source (rw apart refl))

  -- Creating a source, whether it succeeds or not, does not change what another passphrase authenticates
  -- if the two have different file system ids.
  pub create_source_user-others :
      (draw : ℕ → ℕ × ℕ) (uuid : ℕ) (passphrase other : Text) (state : SourceState)
      → text_eq
          (derive_source_filesystem_id setup passphrase)
          (derive_source_filesystem_id setup other)
        ≡ false
      → authenticate_source_user setup other
          (create_source_user setup draw uuid passphrase state).1.db
        ≡ authenticate_source_user setup other state.db
  unfolding new_source create_source_user
  create_source_user-others draw uuid passphrase other state apart =
      let found = find_designation setup.designations draw designation_attempts state.db.sources in
      let next = store_designated setup uuid passphrase in
      elim (Result-cases found) [
        | inl (designation, e) ↦
            let source = new_source setup state.db.next_id uuid passphrase designation in
            let after =
              bind-ok (lift found) next state state designation (ap (λ r. (r, state)) e) in
            elim (store_source-sources passphrase source state) [
              | inl same ↦
                  authenticate_source_user-sources other _ state.db (ap sources_of after ∙ same)
              | inr added ↦
                  authenticate_source_user-added other source state.db _ apart
                    (ap sources_of after ∙ added)
            ]
        | inr (e, f) ↦
            authenticate_source_user-sources other _ state.db
              (ap sources_of (bind-err (lift found) next state state e (ap (λ r. (r, state)) f)))
      ]
