-- ===== src/Seed/Added.antt =====
-- Tables after `add_all` and `flush` (app/seed.py): keys and references.
use mathlib.Core.Path.{subst}
use assignment_cloud_instanc.Prelude.{
  ℕ, zero, suc, ◌<◌, ◌≡◌, refl, ap, true, List, [], ◌∷◌, ◌++◌, append-nil, append_assoc, map,
  length, arith, All, All-imp, ==_self,
}
use assignment_cloud_instanc.Models.{Distinct}
use assignment_cloud_instanc.Database.{Database}
use assignment_cloud_instanc.Access.{elem}
use assignment_cloud_instanc.Integrity.{Refers}
use assignment_cloud_instanc.Integrity.Keys.{All-snoc, Distinct-snoc, fresh_rows, Refers-grown}
use assignment_cloud_instanc.Seed.{id_at, added}

pub id_at-elem : (k : ℕ) (ids : List ℕ) → k < length ids → elem (id_at k ids) ids ≡ true
id_at-elem k [] h = absurd (omega (arith, h))
id_at-elem zero (i ∷ ids) h = ground arith
id_at-elem (suc k) (i ∷ ids) h = ground (arith, id_at-elem k ids)

pub map-append : {A : Type 0} (f : A → ℕ) (xs ys : List A) → map f (xs ++ ys) ≡ map f xs ++ map f ys
map-append f [] ys = refl
map-append f (x ∷ xs) ys = ap (◌∷◌ (f x)) (map-append f xs ys)

module _ (db : Database) {A B : Type 0} (key : A → ℕ) (make : B → ℕ → A)
    (keyed : (b : B) (i : ℕ) → key (make b i) ≡ i) where
  pub length-added :
      (bs : List B) (rows : List A) → length (map key (added db key make bs rows)) ≡ length bs
  unfolding added
  length-added [] rows = refl
  length-added (b ∷ bs) rows = ap suc (length-added bs _)

  pub added-keyed :
      (bs : List B) (rows : List A)
      → Distinct key rows
      → Distinct key (rows ++ added db key make bs rows)
  unfolding added
  added-keyed [] rows d = rw append-nil d
  added-keyed (b ∷ bs) rows d =
      let i = db.next_id (map key rows) in
      let row = make b i in
      let grown : Distinct key (rows ++ row ∷ []) =
        Distinct-snoc key rows row d
          (rw (keyed b i) (fresh_rows key i rows (db.next_id_fresh (map key rows)))) in
      subst (Distinct key) (append_assoc rows (row ∷ []) (added db key make bs (rows ++ row ∷ [])))
        (added-keyed bs (rows ++ row ∷ []) grown)

  pub All-added :
      (P : A → Type 0) (bs : List B) (rows : List A)
      → All (λ b. (ids : List ℕ) → P (make b (db.next_id ids))) bs
      → All P rows
      → All P (rows ++ added db key make bs rows)
  unfolding added
  All-added P [] rows h g = rw append-nil g
  All-added P (b ∷ bs) rows h g =
      let row = make b (db.next_id (map key rows)) in
      subst (All P) (append_assoc rows (row ∷ []) (added db key make bs (rows ++ row ∷ [])))
        (All-added P bs (rows ++ row ∷ []) h.1 (All-snoc P rows row g (h.0 (map key rows))))

-- Every row is among the rows.
pub Refers-self : {A : Type 0} (key : A → ℕ) (rows : List A) → Refers key rows key rows
Refers-self key [] = tt
Refers-self key (x ∷ rows) = (
  ground (arith, ==_self (key x)),
  All-imp (λ y. elem (key y) (map key rows) ≡ true) _ rows (λ y h. ground (arith, h))
      (Refers-self key rows),
)

module _ {A B : Type 0} (fk : A → ℕ) (key : B → ℕ) where
  -- References stay good when rows are added to the other table.
  pub Refers-appended :
      (rows : List A) (others more : List B)
      → Refers fk rows key others
      → Refers fk rows key (others ++ more)
  Refers-appended rows others [] h = rw append-nil h
  Refers-appended rows others (b ∷ more) h =
      subst (Refers fk rows key) (append_assoc others (b ∷ []) more)
        (Refers-appended rows (others ++ b ∷ []) more (Refers-grown fk key rows others b h))
