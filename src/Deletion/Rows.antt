-- ===== src/Deletion/Rows.antt =====
-- The rows of seen items when a journalist is deleted (securedrop/models.py, `Journalist.delete`):
-- the constraint of uniqueness holds on, and nothing that was seen becomes unseen.
use ab.Base.{
  ℕ, ◌≡◌, ◌≢◌, refl, ap, Bool, true, false, not, ◌&&◌, ◌||◌, List, [], ◌∷◌, ◌==◌, arith, Bool-cases,
  inl, inr, if◌then◌else◌,
}
use native.Mathlib.Decide.{ℕ_discrete}
use ab.Models.{Seen}
use ab.Deletion.{has_seen, move_seen, reassign_seen}

-- UniqueConstraint on the item and the journalist.
abbrev pub UniqueSeen : List Seen → Type 0
UniqueSeen [] = Unit
UniqueSeen (r ∷ rows) = (has_seen r.item_id r.journalist_id rows ≡ false) × UniqueSeen rows

has_seen-later :
    (item j : ℕ) (r : Seen) (rows : List Seen)
    → has_seen item j rows ≡ true
    → has_seen item j (r ∷ rows) ≡ true
unfolding has_seen
has_seen-later item j r rows h = ground arith

has_seen-head :
    (j : ℕ) (r : Seen) (rows : List Seen)
    → r.journalist_id ≡ j
    → has_seen r.item_id j (r ∷ rows) ≡ true
unfolding has_seen
has_seen-head j r rows e = ground arith

module _ (already : ℕ → Bool) (deleted user : ℕ) (apart : deleted ≢ user) where
  has_seen-move_seen_other :
      (item j : ℕ) (rows : List Seen)
      → j ≢ deleted
      → j ≢ user
      → has_seen item j (move_seen already deleted user rows) ≡ has_seen item j rows
  unfolding has_seen move_seen
  has_seen-move_seen_other item j [] n m = refl
  has_seen-move_seen_other item j (r ∷ rows) n m =
      ground (arith, has_seen-move_seen_other item j rows n m)

  has_seen-move_seen-user :
      (item : ℕ) (rows : List Seen)
      → has_seen item user (move_seen already deleted user rows) ≡ false
  unfolding has_seen move_seen
  has_seen-move_seen-user item [] = refl
  has_seen-move_seen-user item (r ∷ rows) = ground (arith, has_seen-move_seen-user item rows)

  has_seen-move_seen_deleted :
      (item : ℕ) (rows : List Seen)
      → has_seen item deleted (move_seen already deleted user rows)
        ≡ (has_seen item deleted rows || (has_seen item user rows && not (already item)))
  unfolding has_seen move_seen
  has_seen-move_seen_deleted item [] = refl
  has_seen-move_seen_deleted item (r ∷ rows) = elim (ℕ_discrete r.item_id item) [
    | yes e ↦ let a = ap already e in ground (arith, has_seen-move_seen_deleted item rows)
    | no ne ↦ ground (arith, has_seen-move_seen_deleted item rows)
  ]

  move_seen_dropped :
      (r : Seen) (rows : List Seen)
      → r.journalist_id ≡ user
      → already r.item_id ≡ true
      → move_seen already deleted user (r ∷ rows) ≡ move_seen already deleted user rows
  unfolding move_seen
  move_seen_dropped r rows e a = ground arith

  move_seen_moved :
      (r : Seen) (rows : List Seen)
      → r.journalist_id ≡ user
      → already r.item_id ≡ false
      → move_seen already deleted user (r ∷ rows)
        ≡ record { item_id = r.item_id; journalist_id = deleted }
          ∷ move_seen already deleted user rows
  unfolding move_seen
  move_seen_moved r rows e a = ground arith

  move_seen_kept :
      (r : Seen) (rows : List Seen)
      → r.journalist_id ≢ user
      → move_seen already deleted user (r ∷ rows) ≡ r ∷ move_seen already deleted user rows
  unfolding move_seen
  move_seen_kept r rows e = ground arith

  -- A row that was unique stays so.
  kept_fresh :
      (r : Seen) (rows : List Seen)
      → r.journalist_id ≢ user
      → (r.journalist_id ≡ deleted → already r.item_id ≡ true)
      → has_seen r.item_id r.journalist_id rows ≡ false
      → has_seen r.item_id r.journalist_id (move_seen already deleted user rows) ≡ false
  kept_fresh r rows n covered fresh = elim (ℕ_discrete r.journalist_id deleted) [
    | yes e ↦
        let a = covered e in
        let f : has_seen r.item_id deleted rows ≡ false = rw e at fresh in
        rw e (rw (has_seen-move_seen_deleted r.item_id rows, f, a) (ground arith))
    | no ne ↦ rw (has_seen-move_seen_other r.item_id r.journalist_id rows ne n) fresh
  ]

  moved_fresh :
      (r : Seen) (rows : List Seen)
      → r.journalist_id ≡ user
      → already r.item_id ≡ false
      → (has_seen r.item_id deleted rows ≡ true → already r.item_id ≡ true)
      → has_seen r.item_id r.journalist_id rows ≡ false
      → has_seen r.item_id deleted (move_seen already deleted user rows) ≡ false
  moved_fresh r rows e a covered fresh =
      let f : has_seen r.item_id user rows ≡ false = rw e at fresh in
      rw (has_seen-move_seen_deleted r.item_id rows, f) (ground (arith, covered))

  move_seen_nil : move_seen already deleted user [] ≡ []
  unfolding move_seen
  move_seen_nil = refl

  move_seen-UniqueSeen :
      (rows : List Seen)
      → ((item : ℕ) → has_seen item deleted rows ≡ true → already item ≡ true)
      → UniqueSeen rows
      → UniqueSeen (move_seen already deleted user rows)
  move_seen-UniqueSeen [] covers u = rw move_seen_nil tt
  move_seen-UniqueSeen (r ∷ rows) covers (fresh, u) =
      let covers' : (item : ℕ) → has_seen item deleted rows ≡ true → already item ≡ true =
        λ item h. covers item (has_seen-later item deleted r rows h) in
      let rest = move_seen-UniqueSeen rows covers' u in
      elim (ℕ_discrete r.journalist_id user) [
        | yes e ↦ elim (Bool-cases (already r.item_id)) [
          | inl a ↦ rw (move_seen_dropped r rows e a) rest
          | inr a ↦
              rw (move_seen_moved r rows e a)
                (moved_fresh r rows e a (covers' r.item_id) fresh, rest)
        ]
        | no ne ↦ rw (move_seen_kept r rows ne) (
          kept_fresh r rows ne (λ d. covers r.item_id (has_seen-head deleted r rows d)) fresh,
          rest,
        )
      ]

-- Who has seen an item after the journalist `user` is gone.
abbrev pub seen_after : ℕ → ℕ → List Seen → ℕ → ℕ → Bool
seen_after deleted user rows item j =
    if j == user
    then false
    else if j == deleted
    then has_seen item deleted rows || has_seen item user rows
    else has_seen item j rows

-- What the account "deleted" is handed of a table of seen items.
pub HandedOver : ℕ → ℕ → List Seen → List Seen → Type 0
HandedOver deleted user before after =
    UniqueSeen after
    × ((item j : ℕ) → has_seen item j after ≡ seen_after deleted user before item j)

pub reassign_seen-HandedOver :
    (deleted user : ℕ) (rows : List Seen)
    → deleted ≢ user
    → UniqueSeen rows
    → HandedOver deleted user rows (reassign_seen deleted user rows)
unfolding HandedOver reassign_seen
reassign_seen-HandedOver deleted user rows apart u =
    let already : ℕ → Bool = λ item. has_seen item deleted rows in
    (
      move_seen-UniqueSeen already deleted user apart rows (λ item h. h) u,
      λ item j. elim (ℕ_discrete j user) [
        | yes e ↦
            rw e (ground (arith, has_seen-move_seen-user already deleted user apart item rows))
        | no ne ↦ elim (ℕ_discrete j deleted) [
          | yes e ↦
              rw e (ground (arith, has_seen-move_seen_deleted already deleted user apart item rows))
          | no ne' ↦
              ground (arith, has_seen-move_seen_other already deleted user apart item j rows ne' ne)
        ]
      ],
    )
