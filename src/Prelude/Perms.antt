-- ===== src/Prelude/Perms.antt =====
-- Permutations of the library (`Perm`), for lists counted and filtered by Boolean tests: what a
-- permutation keeps, and why an ordered list has one ordered permutation only.
use mathlib.Core.Path.{◌≡◌, refl, sym, ap, ap₂, ◌∙◌, subst, subst₂}
use mathlib.Core.HLevel.{×_prop}
use mathlib.Core.Logic.{∥∥₁_elim, ∥∥₁_prop}
use mathlib.Core.Logic.Or
use mathlib.Core.List.{
  Mem, Perm, Permᴰ, mem-cons_self, mem-cons_of_mem, eq-or-mem_of_mem-cons, not-mem-nil,
}
use mathlib.Core.List.Perm
use native.Mathlib.Nat.{ℕ_set}
use assignment_cloud_instanc.Prelude.{
  suc, Bool, true, false, List, [], ◌∷◌, arith, length, filter, count, All, Ordered, if◌then◌else◌,
}

module _ {ℓ κ} {A : Type ℓ} {P : A → Type κ} where
  pub All-prop : ((a : A) → IsProp (P a)) → (xs : List A) → IsProp (All P xs)
  All-prop h [] = λ a b. refl
  All-prop h (x ∷ xs) = ×_prop (h x) (All-prop h xs)

  pub All_mem : ((a : A) → IsProp (P a)) → {a : A} (xs : List A) → All P xs → Mem a xs → P a
  All_mem h [] all m = absurd (not-mem-nil m)
  All_mem h {a} (x ∷ xs) all m =
      Or.elim (h a) (eq-or-mem_of_mem-cons m) (λ e. subst P (sym e) all.0) (All_mem h xs all.1)

  pub All-of_mem : (xs : List A) → ((a : A) → Mem a xs → P a) → All P xs
  All-of_mem [] h = tt
  All-of_mem (x ∷ xs) h = (h x mem-cons_self, All-of_mem xs (λ a m. h a (mem-cons_of_mem x m)))

  pub All-perm : ((a : A) → IsProp (P a)) → {xs ys : List A} → Perm xs ys → All P xs → All P ys
  All-perm h {xs} {ys} p all = All-of_mem ys (λ a m. All_mem h xs all ((Perm.mem_iff p).1 m))

module _ {ℓ} {A : Type ℓ} where
  count-permᴰ : (p : A → Bool) {xs ys : List A} → Permᴰ xs ys → count p xs ≡ count p ys
  count-permᴰ p Permᴰ.nil = refl
  count-permᴰ p (Permᴰ.cons e r) = rw (e, count-permᴰ p r)
  count-permᴰ p (Permᴰ.swap {a} {b} {a'} {b'} {l} e f) = rw (e, f) (ground arith)
  count-permᴰ p (Permᴰ.trans r s) = count-permᴰ p r ∙ count-permᴰ p s

  pub count-perm : (p : A → Bool) {xs ys : List A} → Perm xs ys → count p xs ≡ count p ys
  count-perm p r = ∥∥₁_elim r (ℕ_set _ _) (count-permᴰ p)

  pub count-true : (xs : List A) → count (λ _. true) xs ≡ length xs
  count-true [] = refl
  count-true (x ∷ xs) = ap suc (count-true xs)

  pub length-perm : {xs ys : List A} → Perm xs ys → length xs ≡ length ys
  length-perm {xs} {ys} r = sym (count-true xs) ∙ count-perm (λ _. true) r ∙ count-true ys

  if_cons-perm :
      (b : Bool) (x : A) {xs ys : List A}
      → Perm xs ys
      → Perm (if b then x ∷ xs else xs) (if b then x ∷ ys else ys)
  if_cons-perm true x p = Perm.cons x p
  if_cons-perm false x p = p

  if_cons-swap :
      (b c : Bool) (x y : A) (l : List A)
      → Perm
          (if b then x ∷ (if c then y ∷ l else l) else (if c then y ∷ l else l))
          (if c then y ∷ (if b then x ∷ l else l) else (if b then x ∷ l else l))
  if_cons-swap true true x y l = Perm.swap y x l
  if_cons-swap true false x y l = Perm.refl _
  if_cons-swap false true x y l = Perm.refl _
  if_cons-swap false false x y l = Perm.refl _

  filter-permᴰ : (p : A → Bool) {xs ys : List A} → Permᴰ xs ys → Perm (filter p xs) (filter p ys)
  filter-permᴰ p Permᴰ.nil = Perm.nil
  filter-permᴰ p (Permᴰ.cons {a} {b} e r) = rw e (if_cons-perm (p b) b (filter-permᴰ p r))
  filter-permᴰ p (Permᴰ.swap {a} {b} {a'} {b'} {l} e f) =
      rw (e, f) (if_cons-swap (p b') (p a') b' a' (filter p l))
  filter-permᴰ p (Permᴰ.trans r s) = Perm.trans (filter-permᴰ p r) (filter-permᴰ p s)

  pub filter-perm : (p : A → Bool) {xs ys : List A} → Perm xs ys → Perm (filter p xs) (filter p ys)
  filter-perm p r = ∥∥₁_elim r ∥∥₁_prop (filter-permᴰ p)

module _ {ℓ κ} {A : Type ℓ} {R : A → A → Type κ} where
  pub Ordered-prop : ((a b : A) → IsProp (R a b)) → (xs : List A) → IsProp (Ordered R xs)
  Ordered-prop h [] = λ a b. refl
  Ordered-prop h (x ∷ xs) = ×_prop (All-prop (h x) xs) (Ordered-prop h xs)

  -- A symmetric relation between all pairs does not depend on the order.
  Ordered-permᴰ :
      ((a b : A) → IsProp (R a b))
      → ((a b : A) → R a b → R b a)
      → {xs ys : List A} → Permᴰ xs ys
      → Ordered R xs
      → Ordered R ys
  Ordered-permᴰ h s Permᴰ.nil o = tt
  Ordered-permᴰ h s (Permᴰ.cons {a} {b} e r) o =
      (All-perm (h b) ∣ r ∣₁ (rw e at o.0), Ordered-permᴰ h s r o.1)
  Ordered-permᴰ h s (Permᴰ.swap {a} {b} {a'} {b'} {l} e f) o =
      let o' : Ordered R (b' ∷ a' ∷ l) = subst₂ (λ x y. Ordered R (x ∷ y ∷ l)) e f o in
      ((s b' a' o'.0.0, o'.1.0), (o'.0.1, o'.1.1))
  Ordered-permᴰ h s (Permᴰ.trans r t) o = Ordered-permᴰ h s t (Ordered-permᴰ h s r o)

  pub Ordered-perm :
      ((a b : A) → IsProp (R a b))
      → ((a b : A) → R a b → R b a)
      → {xs ys : List A} → Perm xs ys
      → Ordered R xs
      → Ordered R ys
  Ordered-perm h s {ys} r o = ∥∥₁_elim r (Ordered-prop h ys) (λ d. Ordered-permᴰ h s d o)

  head_eq :
      IsSet A
      → ((a b : A) → IsProp (R a b))
      → ((a b : A) → R a b → R b a → ⊥)
      → {a b : A} {l r : List A} → All (R a) l
      → All (R b) r
      → Perm (a ∷ l) (b ∷ r)
      → a ≡ b
  head_eq set h asym {a} {b} {l} {r} al br p =
      Or.elim (set a b) (eq-or-mem_of_mem-cons ((Perm.mem_iff p).0 mem-cons_self)) (λ e. e)
        λ m.
          Or.elim (set a b) (eq-or-mem_of_mem-cons ((Perm.mem_iff p).1 mem-cons_self)) (λ e. sym e)
            λ m'. absurd (asym a b (All_mem (h a) l al m') (All_mem (h b) r br m))

  -- Two lists that are ordered strictly and hold the same elements are one list.
  pub Ordered-unique :
      IsSet A
      → ((a b : A) → IsProp (R a b))
      → ((a b : A) → R a b → R b a → ⊥)
      → (l r : List A) → Ordered R l
      → Ordered R r
      → Perm l r
      → l ≡ r
  Ordered-unique set h asym [] r ol or p = Perm.nil-eq p
  Ordered-unique set h asym (a ∷ l) [] ol or p = Perm.eq-nil p
  Ordered-unique set h asym (a ∷ l) (b ∷ r) ol or p =
      let heads = head_eq set h asym ol.0 or.0 p in
      let tails = Perm.cons_inv (Perm.trans p (Perm.symm (Perm.cons' heads Perm.rfl))) in
      ap₂ ◌∷◌ heads (Ordered-unique set h asym l r ol.1 or.1 tails)

module _ {ℓ κ} {A : Type ℓ} where
  pub All-filter : (P : A → Type κ) (p : A → Bool) (xs : List A) → All P xs → All P (filter p xs)
  All-filter P p [] h = tt
  All-filter P p (x ∷ xs) h = ground (arith, All-filter P p xs h.1)

  pub Ordered-filter :
      (R : A → A → Type κ) (p : A → Bool) (xs : List A) → Ordered R xs → Ordered R (filter p xs)
  Ordered-filter R p [] h = tt
  Ordered-filter R p (x ∷ xs) h =
      ground (arith, Ordered-filter R p xs h.1, All-filter (R x) p xs h.0)
