-- ===== src/Access/Membership.antt =====
-- `x IN (…)` on the rows of two lists (app/core/deps.py).
use assignment_cloud_instanc.Prelude.{
  ℕ, ◌≡◌, true, List, [], ◌∷◌, ◌++◌, arith, ◌⊎◌, inl, inr, ◌==◌, Bool-cases,
}
use assignment_cloud_instanc.Access.{elem}

pub elem-append : (i : ℕ) (xs ys : List ℕ) → elem i ys ≡ true → elem i (xs ++ ys) ≡ true
elem-append i [] ys h = h
elem-append i (x ∷ xs) ys h = ground (arith, elem-append i xs ys h)

pub elem_append_cases :
    (i : ℕ) (xs ys : List ℕ) → elem i (xs ++ ys) ≡ true → (elem i xs ≡ true) ⊎ (elem i ys ≡ true)
elem_append_cases i [] ys h = inr h
elem_append_cases i (x ∷ xs) ys h = elim (Bool-cases (x == i)) [
  | inl here ↦ inl (ground (arith, here))
  | inr other ↦ elim (elem_append_cases i xs ys (ground (arith, h, other))) [
    | inl first ↦ inl (ground (arith, first))
    | inr second ↦ inr second
  ]
]
