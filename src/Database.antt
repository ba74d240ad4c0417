-- ===== src/Database.antt =====
-- What the code relies on of the database behind SQLAlchemy, which is not in the repository: a new
-- row's primary key, and ORDER BY. WHERE, LIMIT, OFFSET and COUNT are written out as list functions.
pub mod Sorting
use mathlib.Core.List.{Perm}
use assignment_cloud_instanc.Prelude.{ℕ, ◌<◌, ◌≡◌, ◌≢◌, ◌⊎◌, Bool, true, List, All, Ordered, leb}
use assignment_cloud_instanc.Models.{Client, Instance, Alert}

-- `le` is the test "not after" of a sort key.
pub record IsTotalOrder {A : Type 0} (le : A → A → Bool) : Type 0 where
  pub trans : (a b c : A) → le a b ≡ true → le b c ≡ true → le a c ≡ true
  pub total : (a b : A) → (le a b ≡ true) ⊎ (le b a ≡ true)

-- ORDER BY returns the rows of the query, each once, and no row after one that sorts behind it.
-- Nothing is said of rows that tie.
pub record Sorter (A : Type 0) : Type 0 where
  pub order_by : (A → A → Bool) → List A → List A
  pub order_by_perm : (le : A → A → Bool) (xs : List A) → Perm (order_by le xs) xs
  pub order_by_sorts :
      (le : A → A → Bool) (xs : List A)
      → IsTotalOrder le
      → Ordered (λ a b. le a b ≡ true) (order_by le xs)

-- The greatest integer that SQLite, the database of the settings, takes as a parameter of a statement; a
-- greater one is an OverflowError.
abbrev pub max_parameter : ℕ
max_parameter = 9_223_372_036_854_775_807

abbrev pub binds : ℕ → Bool
binds i = leb i max_parameter

pub record Database : Type 0 where
  -- The id that a new row is given, by the ids of its table.
  pub next_id : List ℕ → ℕ
  pub next_id_pos : (ids : List ℕ) → 0 < next_id ids
  pub next_id_fresh : (ids : List ℕ) → All (λ i. i ≢ next_id ids) ids
  pub client_rows : Sorter Client
  pub instance_rows : Sorter Instance
  pub alert_rows : Sorter Alert
