-- ===== src/Pagination/Items.antt =====
-- What one page of a filtered and ordered query is.
use mathlib.Core.Bool.{Bool-set}
use mathlib.Core.List.Perm
use assignment_cloud_instanc.Prelude.{
  ℕ, ◌≤◌, ◌≡◌, refl, Bool, true, List, arith, filter, length, count, length-filter, length-take,
  All, All-drop, All-take, [], ◌∷◌, Bool-cases, inl, inr, Ordered, Ordered-drop, Ordered-take,
}
use assignment_cloud_instanc.Prelude.Perms.{All-perm}
use assignment_cloud_instanc.Session.{Result, ok}
use assignment_cloud_instanc.Database.{IsTotalOrder, Sorter}
use assignment_cloud_instanc.Pagination.{Page, offset, paginate}

-- An answer that lists rows: at most `size` of those that pass the test, in the order, with the
-- number of all that pass.
pub record IsListing {A : Type 0} (le : A → A → Bool) (test : A → Bool) (rows : List A) (size : ℕ)
    (out : Result (Page A)) : Type 0 where
  pub answer : Page A
  pub returned : out ≡ ok answer
  pub counts : answer.total ≡ count test rows
  pub bounded : length answer.items ≤ size
  pub passing : All (λ a. test a ≡ true) answer.items
  pub ordered : Ordered (λ a b. le a b ≡ true) answer.items

-- The rows that an answer lists.
abbrev pub items_of : {A : Type 0} → Result (Page A) → List A
items_of (Result.ok p) = p.items
items_of (Result.err e) = []

All-filter_passing :
    {A : Type 0} (test : A → Bool) (rows : List A) → All (λ a. test a ≡ true) (filter test rows)
All-filter_passing test [] = tt
All-filter_passing test (a ∷ rows) = elim (Bool-cases (test a)) [
  | inl pass ↦ rw pass (pass, All-filter_passing test rows)
  | inr fail ↦ rw fail (All-filter_passing test rows)
]

-- The rows of a query pass its test.
pub All-ordered :
    {A : Type 0} (sorter : Sorter A) (le : A → A → Bool) (test : A → Bool) (rows : List A)
    → All (λ a. test a ≡ true) (sorter.order_by le (filter test rows))
All-ordered sorter le test rows =
    All-perm (λ a. Bool-set _ _) (Perm.symm (sorter.order_by_perm le (filter test rows)))
      (All-filter_passing test rows)

module _ {A : Type 0} (sorter : Sorter A) (le : A → A → Bool) (order : IsTotalOrder le) where
  pub paginate-IsListing :
      (test : A → Bool) (rows : List A) (page size : ℕ)
      → IsListing le test rows size (ok (paginate sorter le (filter test rows) page size))
  unfolding paginate
  paginate-IsListing test rows page size =
      let query : List A = sorter.order_by le (filter test rows) in
      record {
        answer = paginate sorter le (filter test rows) page size;
        returned = refl;
        counts = length-filter test rows;
        bounded = rw length-take (ground arith);
        passing =
            All-take _ size _
              (All-drop _ (offset page size) query (All-ordered sorter le test rows));
        ordered = Ordered-take _ size _ (
            Ordered-drop _ (offset page size) query
              (sorter.order_by_sorts le (filter test rows) order));
      }
