-- ===== src/Admin/Usernames.antt =====
-- The table of journalists stays a table (securedrop/journalist_app/admin.py, `add_user` and `edit_user`): names and
-- keys occur once.
use ab.Base.{
  IsDistinct, IsDistinct-append, All-zip, All-find, All-find-none, All-map_to, ℕ, ◌+◌, ◌<◌, ◌≡◌,
  ◌≢◌, ◌⊎◌, sym, ap, ◌∙◌, false, none, some, List, [], ◌∷◌, map, ◌==◌, arith, Bool-cases, inl, inr,
  All, All-append, All-map,
}
use native.Mathlib.Decide.{ℕ_discrete}
use ab.Base.Text.{Text, text_eq, text_eq_refl}
use ab.Models.{Journalist, Db}
use ab.Accounts.Login.{find_journalist, save, save_rows, replace_row}
use ab.Deletion.{add_journalist, find_by_id}

abbrev name : Journalist → Text
name j = j.username

abbrev key : Journalist → ℕ
key j = j.id

pub record IsTable (db : Db) : Type 0 where
  pub names : IsDistinct (λ (j : Journalist). j.username) db.journalists
  pub keys : IsDistinct (λ (j : Journalist). j.id) db.journalists
  pub given : All (λ (j : Journalist). j.id < db.next_id) db.journalists

-- A name that is not found is nobody's.
names_of_none :
    (username : Text) (js : List Journalist)
    → find_journalist username js ≡ none
    → All (λ (j : Journalist). j.username ≢ username) js
unfolding find_journalist
names_of_none username js h =
    All-map {P = λ (j : Journalist). text_eq j.username username ≡ false}
      {Q = λ (j : Journalist). j.username ≢ username}
      (λ j miss same. ground (arith, text_eq_refl username, ap (λ s. text_eq s username) same)) js
      (All-find-none (λ (j : Journalist). text_eq j.username username) js h)

pub add_journalist-IsTable :
    (u : Journalist) (db : Db)
    → u.id ≡ db.next_id
    → find_journalist u.username db.journalists ≡ none
    → IsTable db
    → IsTable (add_journalist u db)
add_journalist-IsTable u db fresh free t = record {
  names =
      IsDistinct-append name db.journalists u t.names
        (names_of_none u.username db.journalists free);
  keys = IsDistinct-append key db.journalists u t.keys (
      All-map {P = λ (j : Journalist). j.id < db.next_id} {Q = λ (j : Journalist). j.id ≢ u.id}
        (λ j lt same. omega arith) db.journalists t.given);
  given =
      All-append (λ (j : Journalist). j.id < db.next_id + 1) db.journalists (u ∷ [])
        (All-map {P = λ (j : Journalist). j.id < db.next_id}
          {Q = λ (j : Journalist). j.id < db.next_id + 1} (λ j lt. omega arith) db.journalists
          t.given)
        (omega arith, tt);
}

-- No other row has the name of a row.
abbrev OthersDiffer : Journalist → Journalist → Type 0
OthersDiffer v y = y.id ≢ v.id → y.username ≢ v.username

keys_replaced :
    (v : Journalist) (js : List Journalist)
    → IsDistinct key js
    → IsDistinct key (map (replace_row v) js)
keys_replaced v [] d = tt
keys_replaced v (x ∷ xs) d = (
  All-map_to (λ (y : Journalist). y.id ≢ (replace_row v x).id) (replace_row v) xs
      (All-map {P = λ (y : Journalist). y.id ≢ x.id}
        {Q = λ y. (replace_row v y).id ≢ (replace_row v x).id} (λ y ne same. ne (ground arith)) xs
        d.0),
  keys_replaced v xs d.1,
)

replace-hit : (v y : Journalist) → y.id ≡ v.id → replace_row v y ≡ v
replace-hit v y e = ground arith

replace-miss : (v y : Journalist) → y.id ≢ v.id → replace_row v y ≡ y
replace-miss v y ne = ground arith

differ :
    (v x y : Journalist)
    → y.username ≢ x.username
    → y.id ≢ x.id
    → OthersDiffer v y
    → OthersDiffer v x
    → (replace_row v y).username ≢ (replace_row v x).username
differ v x y names keys of_y of_x same = elim (ℕ_discrete x.id v.id) [
  | yes hit ↦
      let other : y.id ≢ v.id = λ e. keys (e ∙ sym hit) in
      of_y other (ap name (sym (replace-miss v y other)) ∙ same ∙ ap name (replace-hit v x hit))
  | no miss ↦ elim (ℕ_discrete y.id v.id) [
    | yes hit ↦
        of_x miss
          (sym (ap name (sym (replace-hit v y hit)) ∙ same ∙ ap name (replace-miss v x miss)))
    | no other ↦
        names (ap name (sym (replace-miss v y other)) ∙ same ∙ ap name (replace-miss v x miss))
  ]
]

names_replaced :
    (v : Journalist) (js : List Journalist)
    → IsDistinct name js
    → IsDistinct key js
    → All (OthersDiffer v) js
    → IsDistinct name (map (replace_row v) js)
names_replaced v [] d k o = tt
names_replaced v (x ∷ xs) d k o = (
  All-map_to (λ (y : Journalist). y.username ≢ (replace_row v x).username) (replace_row v) xs
      (All-map
        {P = λ (y : Journalist). (y.username ≢ x.username) × ((y.id ≢ x.id) × OthersDiffer v y)}
        {Q = λ y. (replace_row v y).username ≢ (replace_row v x).username}
        (λ y h. differ v x y h.0 h.1.0 h.1.1 o.0) xs (All-zip _ _ xs d.0 (All-zip _ _ xs k.0 o.1))),
  names_replaced v xs d.1 k.1 o.1,
)

keys_given :
    (bound : ℕ) (v : Journalist) (js : List Journalist)
    → v.id < bound
    → All (λ (j : Journalist). j.id < bound) js
    → All (λ (j : Journalist). j.id < bound) (map (replace_row v) js)
keys_given bound v js lt h =
    All-map_to (λ (j : Journalist). j.id < bound) (replace_row v) js
      (All-map {P = λ (j : Journalist). j.id < bound} {Q = λ j. (replace_row v j).id < bound}
        (λ j below. ground arith) js h)

-- In a table, no other row has the name of one that is found by its key.
others_differ :
    (js : List Journalist) (user : Journalist)
    → IsDistinct name js
    → IsDistinct key js
    → find_by_id user.id js ≡ some user
    → All (OthersDiffer user) js
unfolding find_by_id
others_differ [] user d k found = tt
others_differ (x ∷ xs) user d k found = elim (Bool-cases (x.id == user.id)) [
  | inl hit ↦
      let same : x ≡ user = ground arith in
      (
        (λ ne. absurd (ground arith)),
        All-map {P = λ (y : Journalist). y.username ≢ x.username} {Q = OthersDiffer user}
            (λ y ne other e. ne (e ∙ ap name (sym same))) xs d.0,
      )
  | inr miss ↦
      let rest : find_by_id user.id xs ≡ some user = ground arith in
      (
        (λ ne e.
            All-find (λ (y : Journalist). y.username ≢ x.username) (λ j. j.id == user.id) xs user
              d.0 rest (sym e)),
        others_differ xs user d.1 k.1 rest,
      )
]

pub save-IsTable :
    (user v : Journalist) (db : Db)
    → find_by_id user.id db.journalists ≡ some user
    → v.id ≡ user.id
    → (v.username ≡ user.username) ⊎ (find_journalist v.username db.journalists ≡ none)
    → IsTable db
    → IsTable (save v db)
unfolding save_rows find_by_id
save-IsTable user v db found same (inl kept) t = record {
  names = names_replaced v db.journalists t.names t.keys (
      All-map {P = OthersDiffer user} {Q = OthersDiffer v}
        (λ y differ ne e. differ (λ k. ne (k ∙ sym same)) (e ∙ kept)) db.journalists
        (others_differ db.journalists user t.names t.keys found));
  keys = keys_replaced v db.journalists t.keys;
  given =
      keys_given db.next_id v db.journalists
        (rw same (
          All-find (λ (j : Journalist). j.id < db.next_id) (λ j. j.id == user.id) db.journalists
            user t.given found))
        t.given;
}
save-IsTable user v db found same (inr free) t = record {
  names = names_replaced v db.journalists t.names t.keys (
      All-map {P = λ (y : Journalist). y.username ≢ v.username} {Q = OthersDiffer v}
        (λ y ne other. ne) db.journalists (names_of_none v.username db.journalists free));
  keys = keys_replaced v db.journalists t.keys;
  given =
      keys_given db.next_id v db.journalists
        (rw same (
          All-find (λ (j : Journalist). j.id < db.next_id) (λ j. j.id == user.id) db.journalists
            user t.given found))
        t.given;
}
