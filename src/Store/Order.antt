-- ===== src/Store/Order.antt =====
-- The order of a source's collection (securedrop/models.py, `Source.collection`).
use ab.Base.{
  ℕ, ◌≤◌, ◌≡◌, refl, ap, ◌∙◌, Bool, some, List, [], ◌∷◌, ◌++◌, map, select, length, leb, leb→le,
  arith, All, All-map, Bool-cases, inl, inr,
}
use mathlib.Core.Option
use ab.Models.{Submission, Reply}
use ab.Store.{
  file_index, Item, submission, reply, item_filename, cons_keyed, keyed, insert, sort, collection,
}

abbrev pub Entry : Type 0
Entry = ℕ × Item

-- The key of an entry is the index in the name of its item.
abbrev pub IsKeyed : Entry → Type 0
IsKeyed entry = file_index (item_filename entry.1) ≡ some entry.0

abbrev pub Ascending : List Entry → Type 0
Ascending [] = Unit
Ascending (e ∷ es) = All (λ f. e.0 ≤ f.0) es × Ascending es

-- How many elements pass a test.
abbrev pub count : {A : Type 0} → (A → Bool) → List A → ℕ
count p xs = length (select p xs)

keyed-cons :
    (i : Item) (items : List Item)
    → keyed (i ∷ items) ≡ cons_keyed (file_index (item_filename i)) i (keyed items)
unfolding keyed
keyed-cons i items = refl

keyed-Entries :
    (items : List Item)
    → All (λ i. (n : ℕ) × (file_index (item_filename i) ≡ some n)) items
    → (entries : List Entry) × (keyed items ≡ some entries)
      × All IsKeyed entries
      × (map (λ (e : Entry). e.1) entries ≡ items)
unfolding keyed
keyed-Entries [] h = ([], refl, tt, refl)
keyed-Entries (i ∷ items) ((n, e), h) =
    let (entries, k, a, m) = keyed-Entries items h in
    ((n, i) ∷ entries, rw (keyed-cons i items, e, k) refl, (e, a), ap (λ l. i ∷ l) m)

insert-All :
    (P : Entry → Type 0) (entry : Entry) (es : List Entry)
    → P entry
    → All P es
    → All P (insert entry es)
unfolding insert
insert-All P entry [] h a = (h, tt)
insert-All P entry (e ∷ es) h a = elim (Bool-cases (leb entry.0 e.0)) [
  | inl first ↦ rw first (h, a)
  | inr later ↦ rw later (a.0, insert-All P entry es h a.1)
]

insert-Ascending : (entry : Entry) (es : List Entry) → Ascending es → Ascending (insert entry es)
unfolding insert
insert-Ascending entry [] a = (tt, tt)
insert-Ascending entry (e ∷ es) a = elim (Bool-cases (leb entry.0 e.0)) [
  | inl first ↦ rw first (
    (leb→le entry.0 e.0 first, All-map (λ f h. omega (arith, leb→le entry.0 e.0 first)) es a.0),
    a,
  )
  | inr later ↦
      rw later
        (insert-All (λ f. e.0 ≤ f.0) entry es (ground arith) a.0, insert-Ascending entry es a.1)
]

count-insert :
    (p : Item → Bool) (entry : Entry) (es : List Entry)
    → count p (map (λ (e : Entry). e.1) (insert entry es))
      ≡ count p (entry.1 ∷ map (λ (e : Entry). e.1) es)
unfolding insert
count-insert p entry [] = refl
count-insert p entry (e ∷ es) = ground (arith, count-insert p entry es)

sort-Ascending : (es : List Entry) → Ascending (sort es)
unfolding sort
sort-Ascending [] = tt
sort-Ascending (e ∷ es) = insert-Ascending e (sort es) (sort-Ascending es)

sort-IsKeyed : (es : List Entry) → All IsKeyed es → All IsKeyed (sort es)
unfolding sort
sort-IsKeyed [] a = tt
sort-IsKeyed (e ∷ es) a = insert-All IsKeyed e (sort es) a.0 (sort-IsKeyed es a.1)

count-sort :
    (p : Item → Bool) (es : List Entry)
    → count p (map (λ (e : Entry). e.1) (sort es)) ≡ count p (map (λ (e : Entry). e.1) es)
unfolding sort
count-sort p [] = refl
count-sort p (e ∷ es) = count-insert p e (sort es) ∙ ground (arith, count-sort p es)

-- If every name begins with a number, the collection of a source exists, is in ascending order of those
-- numbers, and holds the submissions and replies, each as often as they do.
pub collection-Ascending :
    (submissions : List Submission) (replies : List Reply)
    → All
        (λ i. (n : ℕ) × (file_index (item_filename i) ≡ some n))
        (map submission submissions ++ map reply replies)
    → (entries : List Entry) × (collection submissions replies
        ≡ some (map (λ (e : Entry). e.1) entries))
      × All IsKeyed entries
      × Ascending entries
      × ((p : Item → Bool)
          → count p (map (λ (e : Entry). e.1) entries)
            ≡ count p (map submission submissions ++ map reply replies))
unfolding collection
collection-Ascending submissions replies h =
    let (entries, k, a, m) = keyed-Entries (map submission submissions ++ map reply replies) h in
    (
      sort entries,
      ap (Option.map (λ es. map (λ (e : Entry). e.1) (sort es))) k,
      sort-IsKeyed entries a,
      sort-Ascending entries,
      λ p. count-sort p entries ∙ ap (count p) m,
    )
