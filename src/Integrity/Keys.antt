-- ===== src/Integrity/Keys.antt =====
-- Keys and references when rows are added, changed and deleted.
use mathlib.Core.Path.{ap₂}
use assignment_cloud_instanc.Prelude.{
  ℕ, refl, ap, ◌∙◌, ◌≡◌, ◌≢◌, Bool, ◌&&◌, any, true, false, not, none, some, List, [], ◌∷◌, ◌++◌,
  map, filter, arith, ◌==◌, All, Bool-cases, inl, inr, ==→eq, if◌then◌else◌,
}
use assignment_cloud_instanc.Models.{Distinct}
use assignment_cloud_instanc.Access.{elem, get}
use assignment_cloud_instanc.Integrity.{Refers}

pub All-snoc {ℓ κ} :
    {A : Type ℓ} (P : A → Type κ) (xs : List A) (a : A) → All P xs → P a → All P (xs ++ a ∷ [])
All-snoc P [] a h p = (p, tt)
All-snoc P (x ∷ xs) a h p = (h.0, All-snoc P xs a h.1 p)

module _ {A : Type 0} (key : A → ℕ) where
  pub Distinct-snoc :
      (xs : List A) (a : A)
      → Distinct key xs
      → All (λ b. key b ≢ key a) xs
      → Distinct key (xs ++ a ∷ [])
  Distinct-snoc [] a h f = (tt, tt)
  Distinct-snoc (b ∷ xs) a h f =
      (All-snoc (λ c. key b ≢ key c) xs a h.0 f.0, Distinct-snoc xs a h.1 f.1)

  -- A new id is not the id of a row.
  pub fresh_rows : (i : ℕ) (xs : List A) → All (λ j. j ≢ i) (map key xs) → All (λ b. key b ≢ i) xs
  fresh_rows i [] h = tt
  fresh_rows i (x ∷ xs) h = (h.0, fresh_rows i xs h.1)

  -- A row that is found by its key is among the keys.
  pub elem_of_get :
      (i : ℕ) (xs : List A) (a : A) → get key i xs ≡ some a → elem i (map key xs) ≡ true
  elem_of_get i [] a h = absurd (ground arith)
  elem_of_get i (x ∷ xs) a h = ground (arith, elem_of_get i xs a)

  -- A row that is found by its key and passes a test shows that some row of the key does.
  pub any_of_get :
      (p : A → Bool) (i : ℕ) (xs : List A) (a : A)
      → get key i xs ≡ some a
      → p a ≡ true
      → any (λ x. key x == i && p x) xs ≡ true
  any_of_get p i [] a h e = absurd (ground arith)
  any_of_get p i (x ∷ xs) a h e = elim (Bool-cases (key x == i)) [
    | inl here ↦
        let same : x ≡ a = ground (arith, h, here) in
        let passes : p x ≡ true = ap p same ∙ e in ground (arith, here, passes)
    | inr other ↦ ground (arith, any_of_get p i xs a (ground (arith, h, other)) e)
  ]

  none_of_key :
      (i : ℕ) (x : A) (xs : List A)
      → (key x == i) ≡ true
      → All (λ y. key x ≢ key y) xs
      → (P : A → Type 0) → All (λ y. (key y == i) ≡ true → P y) xs
  none_of_key i x [] here h P = tt
  none_of_key i x (y ∷ xs) here h P =
      (λ also. absurd (ground (arith, here, also, h.0)), none_of_key i x xs here h.1 P)

  -- The row that is found by its key is the only one of that key.
  pub only_row :
      (i : ℕ) (xs : List A) (a : A)
      → Distinct key xs
      → get key i xs ≡ some a
      → All (λ x. (key x == i) ≡ true → x ≡ a) xs
  only_row i [] a d h = tt
  only_row i (x ∷ xs) a d h = elim (Bool-cases (key x == i)) [
    | inl here ↦
        let same : x ≡ a = ground (arith, h, here) in
        (λ _. same, none_of_key i x xs here d.0 (λ y. y ≡ a))
    | inr other ↦ (
      λ here. absurd (ground (arith, other, here)),
      only_row i xs a d.1 (ground (arith, h, other)),
    )
  ]

  pub elem_snoc :
      (i : ℕ) (xs : List A) (a : A)
      → elem i (map key xs) ≡ true
      → elem i (map key (xs ++ a ∷ [])) ≡ true
  elem_snoc i [] a h = absurd (ground arith)
  elem_snoc i (x ∷ xs) a h = ground (arith, elem_snoc i xs a)

  -- Deleting the row `d` takes away no other key.
  pub elem_deleted :
      (i d : ℕ) (xs : List A)
      → elem i (map key xs) ≡ true
      → (i == d) ≡ false
      → elem i (map key (filter (λ x. not (key x == d)) xs)) ≡ true
  elem_deleted i d [] h ne = h
  elem_deleted i d (x ∷ xs) h ne = ground (arith, elem_deleted i d xs)

  -- Reading a key after a deletion.
  pub get_deleted :
      (i d : ℕ) (xs : List A)
      → get key i (filter (λ x. not (key x == d)) xs) ≡ (if i == d then none else get key i xs)
  get_deleted i d [] = ground arith
  get_deleted i d (x ∷ xs) = ground (arith, get_deleted i d xs)

  -- Reading a key after an insertion under a new one.
  pub get_snoc :
      (i : ℕ) (xs : List A) (a : A)
      → All (λ b. key b ≢ key a) xs
      → get key i (xs ++ a ∷ []) ≡ (if i == key a then some a else get key i xs)
  get_snoc i [] a f = ground arith
  get_snoc i (x ∷ xs) a f = ground (arith, f.0, get_snoc i xs a f.1)

-- Reading a key after the row `i` was changed and kept its key.
module _ {A : Type 0} (key : A → ℕ) (change : A → A) (keeps : (x : A) → key (change x) ≡ key x)
    (i : ℕ) where
  abbrev changed : List A → List A
  changed xs = map (λ x. if key x == i then change x else x) xs

  keys-changed_row : (x : A) → key (if key x == i then change x else x) ≡ key x
  keys-changed_row x = elim (Bool-cases (key x == i)) [
    | inl here ↦ rw here (keeps x)
    | inr other ↦ rw other refl
  ]

  pub keys-changed : (xs : List A) → map key (changed xs) ≡ map key xs
  keys-changed [] = refl
  keys-changed (x ∷ xs) = ap₂ ◌∷◌ (keys-changed_row x) (keys-changed xs)

  pub All-changed {κ} :
      (P : A → Type κ)
      → ((x : A) → P x → P (change x))
      → (xs : List A) → All P xs
      → All P (changed xs)
  All-changed P f [] h = tt
  All-changed P f (x ∷ xs) h = (
    elim (Bool-cases (key x == i)) [ inl here ↦ rw here (f x h.0) | inr other ↦ rw other h.0 ],
    All-changed P f xs h.1,
  )

  pub Distinct-changed : (xs : List A) → Distinct key xs → Distinct key (changed xs)
  Distinct-changed [] h = tt
  Distinct-changed (x ∷ xs) h = (
    rw (keys-changed_row x) (All-changed (λ y. key x ≢ key y) (λ y ne. rw (keeps y) ne) xs h.0),
    Distinct-changed xs h.1,
  )

  pub get-changed_self :
      (xs : List A) {a : A} → get key i xs ≡ some a → get key i (changed xs) ≡ some (change a)
  get-changed_self [] h = absurd (ground arith)
  get-changed_self (x ∷ xs) h = elim (Bool-cases (key x == i)) [
    | inl here ↦ rw here (rw (keeps x, here) (ground arith))
    | inr other ↦ rw other (rw other (get-changed_self xs (ground arith)))
  ]

  get-changed_ne : (j : ℕ) (xs : List A) → (j == i) ≡ false → get key j (changed xs) ≡ get key j xs
  get-changed_ne j [] h = refl
  get-changed_ne j (x ∷ xs) h = elim (Bool-cases (key x == i)) [
    | inl here ↦ rw here (ground (arith, keeps x, get-changed_ne j xs h))
    | inr other ↦ rw other (ground (arith, get-changed_ne j xs h))
  ]

  pub get-changed :
      (j : ℕ) (xs : List A) {a : A}
      → get key i xs ≡ some a
      → get key j (changed xs) ≡ (if j == i then some (change a) else get key j xs)
  get-changed j xs h = elim (Bool-cases (j == i)) [
    | inl here ↦ rw here (rw (==→eq j i here) (get-changed_self xs h))
    | inr other ↦ rw other (get-changed_ne j xs other)
  ]

module _ {A B : Type 0} (fk : A → ℕ) (key : B → ℕ) where
  -- References stay good when the other table grows, and when the row that goes is not referred to.
  pub Refers-grown :
      (rows : List A) (others : List B) (b : B)
      → Refers fk rows key others
      → Refers fk rows key (others ++ b ∷ [])
  Refers-grown [] others b h = tt
  Refers-grown (r ∷ rows) others b h =
      (elem_snoc key (fk r) others b h.0, Refers-grown rows others b h.1)

  pub Refers-deleted :
      (d : ℕ) (rows : List A) (others : List B)
      → Refers fk rows key others
      → Refers fk (filter (λ r. not (fk r == d)) rows) key (filter (λ x. not (key x == d)) others)
  Refers-deleted d [] others h = tt
  Refers-deleted d (r ∷ rows) others h =
      ground (arith, Refers-deleted d rows others h.1, elem_deleted key (fk r) d others h.0)
