-- ===== src/Accounts/Password.antt =====
-- Passphrases of journalists (securedrop/models.py): which are acceptable, and that what was set or
-- accepted once is accepted again.
use ab.Base.{
  ℕ, ◌+◌, ◌≤◌, ◌≡◌, ◌↔◌, ◌⊎◌, refl, Bool, true, false, some, [], ◌∷◌, length, arith, ok, Bool-cases,
  Option-cases, inl, inr,
}
use ab.Base.Fallible.{>>=-eq-ok}
use ab.Base.Text.{Text, count_words}
use ab.Models.{Journalist}
use ab.Accounts.{
  Hasher, check_password_acceptable, truthy, valid_legacy, migrate_hash, update_hash,
  valid_password, set_missing_hash, check_stored, store_unless, set_password,
}

-- A passphrase is acceptable exactly if it has 14 to 128 characters in at least seven words.
pub check_password_acceptable_iff :
    (p : Text)
    → (check_password_acceptable p ≡ ok tt)
      ↔ ((14 ≤ length p) × (length p ≤ 128) × (7 ≤ count_words false p))
unfolding check_password_acceptable
check_password_acceptable_iff p = (λ h. ground arith, λ h. ground arith)

nonempty_of_long : (p : Text) → 14 ≤ length p → truthy (some p) ≡ some p
nonempty_of_long [] h = absurd (omega arith)
nonempty_of_long (c ∷ s) h = refl

module _ (hasher : Hasher)
    (fits : (salt : ℕ) (p : Text) → hasher.verify (hasher.hash salt p) p ≡ true)
    (is_text : (salt : ℕ) (p : Text)
      → truthy (some (hasher.hash salt p)) ≡ some (hasher.hash salt p)) where
  -- An account holds a hash that a passphrase fits.
  abbrev pub Fits : Journalist → Text → Type 0
  Fits user p = (h : Text) × (truthy user.passphrase_hash ≡ some h) × (hasher.verify h p ≡ true)

  valid_password-Fits :
      (salt : ℕ) (user : Journalist) (p : Text)
      → length p ≤ 128
      → truthy (some p) ≡ some p
      → Fits user p
      → (u : Journalist) × (valid_password hasher salt user (some p) ≡ ok (true, u))
  unfolding valid_password
  valid_password-Fits salt user p short nonempty (h, e, v) =
      (update_hash hasher salt user h p, ground arith)

  -- What a check leaves: a hash that the passphrase fits.
  update_hash-Fits :
      (salt : ℕ) (user : Journalist) (h p : Text)
      → truthy user.passphrase_hash ≡ some h
      → hasher.verify h p ≡ true
      → Fits (update_hash hasher salt user h p) p
  unfolding update_hash
  update_hash-Fits salt user h p e v = elim (Bool-cases (hasher.check_needs_rehash h)) [
    | inl old ↦ rw old (hasher.hash salt p, is_text salt p, fits salt p)
    | inr new ↦ rw new (h, e, v)
  ]

  migrate_hash-Fits :
      (salt : ℕ) (user : Journalist) (p : Text) → Fits (migrate_hash hasher salt user p) p
  unfolding migrate_hash
  migrate_hash-Fits salt user p = (hasher.hash salt p, is_text salt p, fits salt p)

  valid_legacy-eq :
      (salt : ℕ) (user u : Journalist) (p : Text)
      → valid_legacy hasher salt user p ≡ ok (true, u)
      → u ≡ migrate_hash hasher salt user p
  unfolding valid_legacy
  valid_legacy-eq salt user u p h = ground arith

  -- The ways to pass the check.
  Passed : ℕ → Journalist → Text → Journalist → Type 0
  Passed salt user p u =
      (u ≡ migrate_hash hasher salt user p)
      ⊎ ((h : Text) × (truthy user.passphrase_hash ≡ some h)
          × (hasher.verify h p ≡ true)
          × (u ≡ update_hash hasher salt user h p))

  valid_password-Passed :
      (salt : ℕ) (user u : Journalist) (p : Text)
      → valid_password hasher salt user (some p) ≡ ok (true, u)
      → (length p ≤ 128) × (truthy (some p) ≡ some p) × Passed salt user p u
  unfolding Passed valid_password
  valid_password-Passed salt user u [] h = absurd (cc)
  valid_password-Passed salt user u (c ∷ s) h = elim (Option-cases (truthy user.passphrase_hash)) [
    | inl legacy ↦ (ground arith, refl, inl (valid_legacy-eq salt user u (c ∷ s) (ground arith)))
    | inr (hash, e) ↦ (ground arith, refl, inr (hash, e, ground arith, ground arith))
  ]

  Passed-Fits : (salt : ℕ) (user u : Journalist) (p : Text) → Passed salt user p u → Fits u p
  unfolding Passed
  Passed-Fits salt user u p (inl e) = rw e (migrate_hash-Fits salt user p)
  Passed-Fits salt user u p (inr (h, t, v, e)) = rw e (update_hash-Fits salt user h p t v)

  -- A passphrase that was accepted once is accepted again, at any later time: neither the move of a
  -- legacy account to argon2 nor a new hash loses it.
  valid_password_again :
      (salt salt' : ℕ) (user u : Journalist) (p : Text)
      → valid_password hasher salt user (some p) ≡ ok (true, u)
      → (u' : Journalist) × (valid_password hasher salt' u (some p) ≡ ok (true, u'))
  valid_password_again salt salt' user u p h =
      let (short, nonempty, passed) = valid_password-Passed salt user u p h in
      valid_password-Fits salt' u p short nonempty (Passed-Fits salt user u p passed)

  check_stored-Fits :
      (salt : ℕ) (user v : Journalist) (p : Text)
      → check_stored hasher salt user p ≡ ok (true, v)
      → Fits v p
  unfolding check_stored
  check_stored-Fits salt user v p h = elim (Option-cases (truthy user.passphrase_hash)) [
    | inl missing ↦ absurd (ground arith)
    | inr (hash, e) ↦
        Passed-Fits salt user v p (valid_password-Passed salt user v p (ground arith)).2
  ]

  store_unless-Fits :
      (salt salt' : ℕ) (user : Journalist) (p : Text) (checked : Bool × Journalist)
      → check_stored hasher salt user p ≡ ok checked
      → Fits (store_unless hasher salt' p checked) p
  store_unless-Fits salt salt' user p (true, v) h = check_stored-Fits salt user v p h
  store_unless-Fits salt salt' user p (false, v) h =
      (hasher.hash salt' p, is_text salt' p, fits salt' p)

  -- What is stored is an acceptable passphrase, under a hash that fits.
  pub set_password-Fits :
      (salt : ℕ) (user u : Journalist) (p : Text)
      → set_password hasher salt user (some p) ≡ ok u
      → (check_password_acceptable p ≡ ok tt) × Fits u p
  unfolding set_password
  set_password-Fits salt user u p h =
      let (_, acceptable, stored) = >>=-eq-ok (check_password_acceptable p) _ h in
      let (checked, c, e) =
        >>=-eq-ok (check_stored hasher (salt + 1) (set_missing_hash hasher salt user p) p) _
          stored in
      let done : store_unless hasher (salt + 2) p checked ≡ u = cc in
      (
        acceptable,
        rw (← done) (
            store_unless-Fits (salt + 1) (salt + 2) (set_missing_hash hasher salt user p) p checked
              c),
      )

  -- An acceptable passphrase that fits is accepted.
  pub Fits-valid :
      (salt : ℕ) (user : Journalist) (p : Text)
      → check_password_acceptable p ≡ ok tt
      → Fits user p
      → (u : Journalist) × (valid_password hasher salt user (some p) ≡ ok (true, u))
  Fits-valid salt user p acceptable held =
      let bounds = (check_password_acceptable_iff p).0 acceptable in
      valid_password-Fits salt user p bounds.1 (nonempty_of_long p bounds.0) held

  -- A passphrase that was set is valid, at any later time.
  pub set_password_valid :
      (salt salt' : ℕ) (user u : Journalist) (p : Text)
      → set_password hasher salt user (some p) ≡ ok u
      → (u' : Journalist) × (valid_password hasher salt' u (some p) ≡ ok (true, u'))
  set_password_valid salt salt' user u p h =
      let (acceptable, held) = set_password-Fits salt user u p h in
      Fits-valid salt' u p acceptable held
