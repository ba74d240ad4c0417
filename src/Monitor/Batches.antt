-- ===== src/Monitor/Batches.antt =====
-- The id-keyset batches of `_scan` (app/services/monitor_service.py).
use mathlib.Core.List.Perm
use native.Mathlib.Bridge.{le_prop}
use text.Mathlib.TextEquality.{IsScalar-prop}
use assignment_cloud_instanc.Prelude.{
  ℕ, zero, suc, ◌≤◌, ◌<◌, ◌≡◌, ◌≢◌, refl, ap, Bool, true, List, [], ◌∷◌, arith, take, drop, filter,
  ltb, lt→ltb, All, Ordered, Ordered-take,
}
use assignment_cloud_instanc.Prelude.Perms.{All-perm, All-filter, Ordered-filter}
use assignment_cloud_instanc.Models.{Client, Instance, Distinct}
use assignment_cloud_instanc.Database.{Database}
use assignment_cloud_instanc.Database.Sorting.{
  Before, by_id, by_id-IsKeyed, order_by-filter, order_by-Before,
}
use assignment_cloud_instanc.Integrity.{instance_id}
use assignment_cloud_instanc.Monitor.{Detection, last_of, next_batch, id_batch_size}

Instance-set : IsSet Instance
Instance-set = hlevel IsScalar-prop

-- Ids go up.
abbrev pub Ascending : List Instance → Type 0
Ascending = Ordered (Before instance_id (by_id instance_id))

abbrev pub after : ℕ → Instance → Bool
after last_id i = ltb last_id i.id

filter-All {ℓ} :
    {A : Type ℓ} (p : A → Bool) (xs : List A) → All (λ x. p x ≡ true) xs → filter p xs ≡ xs
filter-All p [] h = refl
filter-All p (x ∷ xs) h = ground (arith, h.0, filter-All p xs h.1)

All-filter_self {ℓ} :
    {A : Type ℓ} (p : A → Bool) (xs : List A) → All (λ x. p x ≡ true) (filter p xs)
All-filter_self p [] = tt
All-filter_self p (x ∷ xs) = ground (arith, All-filter_self p xs)

pub filter-after_twice :
    (a b : ℕ) (xs : List Instance)
    → a ≤ b
    → filter (after b) (filter (after a) xs) ≡ filter (after b) xs
filter-after_twice a b [] h = refl
filter-after_twice a b (x ∷ xs) h = ground (arith, filter-after_twice a b xs h)

All-ne :
    (x : Instance) (xs : List Instance)
    → All (Before instance_id (by_id instance_id) x) xs
    → All (λ y. x.id ≢ y.id) xs
All-ne x [] h = tt
All-ne x (y ∷ ys) h = (h.0.1, All-ne x ys h.1)

pub Ascending-Distinct : (xs : List Instance) → Ascending xs → Distinct instance_id xs
Ascending-Distinct [] h = tt
Ascending-Distinct (x ∷ xs) h = (All-ne x xs h.0, Ascending-Distinct xs h.1)

pub Ascending-batch :
    (n : ℕ) (x : Instance) (xs : List Instance) → Ascending (x ∷ xs) → Ascending (x ∷ take n xs)
Ascending-batch n x xs h = Ordered-take _ (suc n) (x ∷ xs) h

pub Ascending-drop : (n : ℕ) (xs : List Instance) → Ascending xs → Ascending (drop n xs)
Ascending-drop zero xs h = h
Ascending-drop (suc n) [] h = tt
Ascending-drop (suc n) (x ∷ xs) h = Ascending-drop n xs h.1

All-after :
    (x : Instance) (xs : List Instance)
    → All (Before instance_id (by_id instance_id) x) xs
    → All (λ y. after x.id y ≡ true) xs
All-after x [] h = tt
All-after x (y ∷ ys) h = (ground (arith, h.0.0, h.0.1), All-after x ys h.1)

-- No id of the batch is beyond its last.
head-le-last_of : (x : Instance) (xs : List Instance) → Ascending (x ∷ xs) → x.id ≤ last_of x xs
head-le-last_of x [] h = omega arith
head-le-last_of x (y ∷ ys) h = ground (arith, h.0.0.0, head-le-last_of y ys h.1)

-- After a batch comes what the batch left.
pub filter-after_batch :
    (n : ℕ) (x : Instance) (xs : List Instance)
    → Ascending (x ∷ xs)
    → filter (after (last_of x (take n xs))) (x ∷ xs) ≡ drop n xs
filter-after_batch zero x xs h = ground (arith, filter-All (after x.id) xs (All-after x xs h.0))
filter-after_batch (suc n) x [] h = ground arith
filter-after_batch (suc n) x (y ∷ ys) h =
    let far : y.id ≤ last_of y (take n ys) =
      head-le-last_of y (take n ys) (Ascending-batch n y ys h.1) in
    ground (arith, filter-after_batch n y ys h.1, h.0.0.0, far)

pub last_of-after :
    (a : ℕ) (n : ℕ) (x : Instance) (xs S : List Instance)
    → Ascending (x ∷ xs)
    → filter (after a) S ≡ x ∷ xs
    → a ≤ last_of x (take n xs)
last_of-after a n x xs S h e =
    let all : All (λ y. after a y ≡ true) (x ∷ xs) = rw e at (All-filter_self (after a) S) in
    ground (arith, all.0, head-le-last_of x (take n xs) (Ascending-batch n x xs h))

All-positive :
    (xs : List Instance) → All (λ (i : Instance). 0 < i.id) xs → All (λ i. after 0 i ≡ true) xs
All-positive [] h = tt
All-positive (x ∷ xs) h = (lt→ltb 0 x.id h.0, All-positive xs h.1)

module _ (db : Database) (d : Detection) (clients : List Client) (instances : List Instance) where
  -- All matches of the detection query, in the order of their ids.
  abbrev pub matches : List Instance
  matches = db.instance_rows.order_by (by_id instance_id) (filter (d.query clients) instances)

  module _ (distinct : Distinct instance_id instances) where
    pub matches-Ascending : Ascending matches
    matches-Ascending =
        order_by-Before instance_id (by_id instance_id) Instance-set (by_id-IsKeyed instance_id) _
          (Ordered-filter _ (d.query clients) instances distinct) db.instance_rows

    pub next_batch-matches :
        (last_id : ℕ)
        → next_batch db d last_id clients instances
          ≡ take id_batch_size (filter (after last_id) matches)
    unfolding next_batch
    next_batch-matches last_id = ap (take id_batch_size) (
        order_by-filter instance_id (by_id instance_id) Instance-set (by_id-IsKeyed instance_id)
          db.instance_rows (after last_id) _
          (Ordered-filter _ (d.query clients) instances distinct))

    -- The first batch is read from id 0, before every id.
    pub matches_from_zero :
        All (λ (i : Instance). 0 < i.id) instances → filter (after 0) matches ≡ matches
    matches_from_zero pos = filter-All (after 0) matches (
        All-positive matches (
          All-perm (λ i. le_prop) (Perm.symm (db.instance_rows.order_by_perm _ _))
            (All-filter _ (d.query clients) instances pos)))
