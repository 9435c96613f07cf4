-- ===== src/Admin/Table.antt =====
-- The table of journalists stays a table, whatever an admin sends (securedrop/journalist_app/admin.py, `add_user` and
-- `edit_user`).
use ab.Base.{
  ℕ, ◌≡◌, ◌⊎◌, sym, ap, ◌∙◌, Option, none, some, List, arith, Result, ok, err, Result-cases,
  Option-cases, Bool-cases, inl, inr,
}
use ab.Base.Fallible.{◌>>=◌, >>=-eq-ok}
use ab.Base.Text.{Text, text_eq}
use ab.Errors.{Error}
use ab.Models.{Journalist}
use ab.Accounts.{Hasher, check_username_acceptable, check_name_acceptable, truthy}
use ab.Accounts.Creation.{new_journalist, new_journalist-id}
use ab.Accounts.Login.{find_journalist}
use ab.Deletion.{Drawn, find_by_id}
use ab.Admin.{
  AdminState, new_key, verify_pending_password, NewUserForm, validate_on_submit, new_user,
  create_user, add_user_flash, show_form, add_user_response, add_user,
}
use ab.Admin.EditUser.{EditUserForm, renamed, edit_username, edited, edit_response, edit_user}
use ab.Admin.Usernames.{IsTable, add_journalist-IsTable, save-IsTable}

module _ (hasher : Hasher) (drawn : Drawn) (form : NewUserForm) where
  create_user-IsTable :
      (s : AdminState) → IsTable s.db → IsTable (create_user hasher drawn form s).1.db
  unfolding create_user
  create_user-IsTable s t =
      elim (Result-cases (verify_pending_password hasher new_key form.password s.pending)) [
        | inr (e, refused) ↦ rw refused t
        | inl (u, shown) ↦
            rw shown
              (elim (Result-cases (new_journalist hasher (new_user drawn form s.db.next_id))) [
                | inr (e, refused) ↦ rw refused t
                | inl (v, made) ↦
                    let (same_id, same_name) =
                      new_journalist-id hasher (new_user drawn form s.db.next_id) v made in
                    rw made (elim (Option-cases (find_journalist form.username s.db.journalists)) [
                      | inr (w, taken) ↦ rw taken t
                      | inl free ↦ rw free (
                          add_journalist-IsTable v s.db same_id
                            (ap (λ n. find_journalist n s.db.journalists) same_name ∙ free) t)
                    ])
              ])
      ]

  response-IsTable :
      (salt : ℕ) (shown : Text) (o : Result Error Journalist × AdminState)
      → IsTable o.1.db
      → IsTable (add_user_response hasher drawn salt shown o).1.db
  unfolding show_form
  response-IsTable salt shown (ok v, s) t = t
  response-IsTable salt shown (err e, s) t = elim (Option-cases (add_user_flash e)) [
    | inl uncaught ↦ rw (uncaught, add_user_response) t
    | inr (flash, caught) ↦ rw (caught, add_user_response) t
  ]

  -- The names and the keys of the journalists are distinct, and below the next key, after any form that is sent to
  -- add a user, if they were before.
  pub add_user-IsTable :
      (salt : ℕ) (shown : Text) (s : AdminState)
      → IsTable s.db
      → IsTable (add_user hasher drawn salt shown form s).1.db
  unfolding add_user show_form
  add_user-IsTable salt shown s t = elim (Bool-cases (validate_on_submit form)) [
    | inr bad ↦ rw bad t
    | inl good ↦ rw good (response-IsTable salt shown _ (create_user-IsTable s t))
  ]

-- The name that an edited row has: the old one, or one that nobody had.
edit_username-ok :
    (journalists : List Journalist) (user v : Journalist) (username : Option Text)
    → edit_username journalists user username ≡ ok v
    → (v.id ≡ user.id)
      × ((v.username ≡ user.username) ⊎ (find_journalist v.username journalists ≡ none))
unfolding edit_username
edit_username-ok journalists user v username h = elim (Option-cases (truthy username)) [
  | inl missing ↦
      let same : user ≡ v = ground arith in
      (
        ap (λ (j : Journalist). j.id) (sym same),
        inl (ap (λ (j : Journalist). j.username) (sym same)),
      )
  | inr (name, given) ↦
      let h' : (check_username_acceptable name >>= λ _. renamed journalists user name) ≡ ok v =
        rw (given, edit_username) at h in
      let (_, acceptable, last) = >>=-eq-ok (check_username_acceptable name) _ h' in
      elim (Bool-cases (text_eq name user.username)) [
        | inl own ↦
            let same : user ≡ v = ground arith in
            (
              ap (λ (j : Journalist). j.id) (sym same),
              inl (ap (λ (j : Journalist). j.username) (sym same)),
            )
        | inr new ↦ elim (Option-cases (find_journalist name journalists)) [
          | inr (w, taken) ↦ absurd (ground arith)
          | inl free ↦
              let same : ◌≡◌ {A = Journalist} (record user { username = name }) v = ground arith in
              (
                ap (λ (j : Journalist). j.id) (sym same),
                inr (
                    ap (λ (j : Journalist). find_journalist j.username journalists) (sym same)
                    ∙ free),
              )
        ]
      ]
]

edited-ok :
    (journalists : List Journalist) (user v : Journalist) (form : EditUserForm)
    → edited journalists user form ≡ ok v
    → (v.id ≡ user.id)
      × ((v.username ≡ user.username) ⊎ (find_journalist v.username journalists ≡ none))
unfolding edited
edited-ok journalists user v form h =
    let (named, n, h1) = >>=-eq-ok (edit_username journalists user form.username) _ h in
    let (_, first, h2) = >>=-eq-ok (check_name_acceptable form.first_name) _ h1 in
    let (_, last, h3) = >>=-eq-ok (check_name_acceptable form.last_name) _ h2 in
    let (same_id, name) = edit_username-ok journalists user named form.username n in
    let id_v : named.id ≡ v.id = cc in
    let name_v : named.username ≡ v.username = cc in
    (
      sym id_v ∙ same_id,
      elim name [
        | inl kept ↦ inl (sym name_v ∙ kept)
        | inr free ↦ inr (ap (λ n. find_journalist n journalists) (sym name_v) ∙ free)
      ],
    )

-- So they are after any form that is sent to edit a user of the table.
pub edit_user-IsTable :
    (hasher : Hasher) (salt : ℕ) (shown : Text) (user : Journalist) (form : EditUserForm)
    (s : AdminState)
    → find_by_id user.id s.db.journalists ≡ some user
    → IsTable s.db
    → IsTable (edit_user hasher salt shown user form s).1.db
unfolding edit_user
edit_user-IsTable hasher salt shown user form s found t =
    elim (Result-cases (edited s.db.journalists user form)) [
      | inr (e, refused) ↦ rw (refused, edit_response) t
      | inl (v, done) ↦
          let (same, name) = edited-ok s.db.journalists user v form done in
          rw (done, edit_response) (save-IsTable user v s.db found same name t)
    ]
