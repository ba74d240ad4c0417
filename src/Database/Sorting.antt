-- ===== src/Database/Sorting.antt =====
-- Consequences of the laws of ORDER BY: the size of the result, and that a query whose sort key ends
-- in the primary key has one result only, whatever the database.
use mathlib.Core.List.Perm
use mathlib.Core.Bool.{Bool-set}
use mathlib.Core.HLevel.{×_prop, ¬_prop}
use assignment_cloud_instanc.Prelude.{
  ℕ, ◌≡◌, ◌≢◌, sym, Bool, true, List, [], ◌∷◌, arith, length, filter, leb, All, Ordered,
}
use assignment_cloud_instanc.Prelude.Perms.{
  length-perm, filter-perm, Ordered-perm, Ordered-unique, Ordered-filter,
}
use assignment_cloud_instanc.Models.{Distinct}
use assignment_cloud_instanc.Database.{Sorter, IsTotalOrder}

module _ {A : Type 0} (rows : Sorter A) (le : A → A → Bool) where
  open rows use {order_by, order_by_perm, order_by_sorts}

  pub length-order_by : (xs : List A) → length (order_by le xs) ≡ length xs
  length-order_by xs = length-perm (order_by_perm le xs)

  pub Distinct-order_by :
      (key : A → ℕ) (xs : List A) → Distinct key xs → Distinct key (order_by le xs)
  Distinct-order_by key xs =
      Ordered-perm (λ a b. ¬_prop) (λ a b h e. h (sym e)) (Perm.symm (order_by_perm le xs))

-- The sort key ends in the primary key: rows that tie are one row.
pub record IsKeyed {A : Type 0} (key : A → ℕ) (le : A → A → Bool) : Type 0 where
  pub order : IsTotalOrder le
  pub tie : (a b : A) → le a b ≡ true → le b a ≡ true → key a ≡ key b

module _ {A : Type 0} (key : A → ℕ) (le : A → A → Bool) where
  -- Before, and another row.
  abbrev pub Before : A → A → Type 0
  Before a b = (le a b ≡ true) × (key a ≢ key b)

  Before-prop : (a b : A) → IsProp (Before a b)
  Before-prop a b = ×_prop (Bool-set _ _) ¬_prop

  Before-asym : IsKeyed key le → (a b : A) → Before a b → Before b a → ⊥
  Before-asym k a b h g = h.1 (k.tie a b h.0 g.0)

  All-both :
      (a : A) (xs : List A)
      → All (λ b. le a b ≡ true) xs
      → All (λ b. key a ≢ key b) xs
      → All (Before a) xs
  All-both a [] h d = tt
  All-both a (x ∷ xs) h d = ((h.0, d.0), All-both a xs h.1 d.1)

  pub Ordered-both :
      (xs : List A) → Ordered (λ a b. le a b ≡ true) xs → Distinct key xs → Ordered Before xs
  Ordered-both [] h d = tt
  Ordered-both (x ∷ xs) h d = (All-both x xs h.0 d.0, Ordered-both xs h.1 d.1)

  module _ (set : IsSet A) (k : IsKeyed key le) (xs : List A) (d : Distinct key xs) where
    pub order_by-Before : (rows : Sorter A) → Ordered Before (rows.order_by le xs)
    order_by-Before rows =
        Ordered-both _ (rows.order_by_sorts le xs k.order) (Distinct-order_by rows le key xs d)

    -- Two databases order one query alike.
    pub order_by_unique : (rows rows' : Sorter A) → rows.order_by le xs ≡ rows'.order_by le xs
    order_by_unique rows rows' =
        Ordered-unique set Before-prop (Before-asym k) _ _ (order_by-Before rows)
          (order_by-Before rows')
          (Perm.trans (rows.order_by_perm le xs) (Perm.symm (rows'.order_by_perm le xs)))

  -- A filter before ORDER BY is a filter after it.
  pub order_by-filter :
      IsSet A
      → IsKeyed key le
      → (rows : Sorter A) (p : A → Bool) (xs : List A) → Distinct key xs
      → rows.order_by le (filter p xs) ≡ filter p (rows.order_by le xs)
  order_by-filter set k rows p xs d =
      Ordered-unique set Before-prop (Before-asym k) _ _
        (order_by-Before set k (filter p xs) (Ordered-filter _ p xs d) rows)
        (Ordered-filter _ p _ (order_by-Before set k xs d rows))
        (Perm.trans (rows.order_by_perm le (filter p xs))
          (Perm.symm (filter-perm p (rows.order_by_perm le xs))))

module _ {A : Type 0} (key : A → ℕ) where
  -- `order_by(Table.id)`
  abbrev pub by_id : A → A → Bool
  by_id a b = leb (key a) (key b)

  pub by_id-IsKeyed : IsKeyed key by_id
  by_id-IsKeyed = record {
    order = record { trans = λ a b c h g. ground arith; total = λ a b. ground arith };
    tie = λ a b h g. ground arith;
  }
