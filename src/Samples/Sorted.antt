-- ===== src/Samples/Sorted.antt =====
-- Insertion sort by a Boolean test: an ORDER BY that has the laws of `Sorter`.
use mathlib.Core.List.{Perm}
use mathlib.Core.List.Perm
use assignment_cloud_instanc.Prelude.{
  ◌≡◌, Bool, true, false, List, [], ◌∷◌, arith, All, All-imp, Ordered, Bool-cases, inl, inr,
  if◌then◌else◌,
}
use assignment_cloud_instanc.Database.{IsTotalOrder, Sorter}

module _ {A : Type 0} (le : A → A → Bool) where
  abbrev insert : A → List A → List A
  insert x [] = x ∷ []
  insert x (y ∷ ys) = let rest = insert x ys in if le x y then x ∷ y ∷ ys else y ∷ rest

  abbrev sort : List A → List A
  sort [] = []
  sort (x ∷ xs) = insert x (sort xs)

  insert-perm : (x : A) (xs : List A) → Perm (insert x xs) (x ∷ xs)
  insert-perm x [] = Perm.refl _
  insert-perm x (y ∷ ys) = elim (Bool-cases (le x y)) [
    | inl before ↦ rw before (Perm.refl _)
    | inr after ↦ rw after (Perm.trans (Perm.cons y (insert-perm x ys)) (Perm.swap x y ys))
  ]

  pub sort-perm : (xs : List A) → Perm (sort xs) xs
  sort-perm [] = Perm.refl _
  sort-perm (x ∷ xs) = Perm.trans (insert-perm x (sort xs)) (Perm.cons x (sort-perm xs))

  module _ (order : IsTotalOrder le) where
    All-insert :
        (y x : A) (xs : List A)
        → le y x ≡ true
        → All (λ b. le y b ≡ true) xs
        → All (λ b. le y b ≡ true) (insert x xs)
    All-insert y x [] h all = (h, tt)
    All-insert y x (z ∷ zs) h all = elim (Bool-cases (le x z)) [
      | inl before ↦ rw before (h, all)
      | inr after ↦ rw after (all.0, All-insert y x zs h all.1)
    ]

    not_before : (x y : A) → le x y ≡ false → le y x ≡ true
    not_before x y h = elim (order.total x y) [ inl e ↦ absurd (ground (arith, e, h)) | inr e ↦ e ]

    Ordered-insert :
        (x : A) (xs : List A)
        → Ordered (λ a b. le a b ≡ true) xs
        → Ordered (λ a b. le a b ≡ true) (insert x xs)
    Ordered-insert x [] h = (tt, tt)
    Ordered-insert x (y ∷ ys) h = elim (Bool-cases (le x y)) [
      | inl before ↦ rw before (
        (
          before,
          All-imp (λ b. le y b ≡ true) (λ b. le x b ≡ true) ys (λ z g. order.trans x y z before g)
              h.0,
        ),
        h,
      )
      | inr after ↦ rw after (All-insert y x ys (not_before x y after) h.0, Ordered-insert x ys h.1)
    ]

    pub sort-Ordered : (xs : List A) → Ordered (λ a b. le a b ≡ true) (sort xs)
    sort-Ordered [] = tt
    sort-Ordered (x ∷ xs) = Ordered-insert x (sort xs) (sort-Ordered xs)

abbrev pub sorter : {A : Type 0} → Sorter A
sorter = record {
  order_by = sort;
  order_by_perm = sort-perm;
  order_by_sorts = λ le xs order. sort-Ordered le order xs;
}
