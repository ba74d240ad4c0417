-- ===== src/Prelude/Threads.antt =====
-- Families indexed by threads: a write at one thread, and how many threads have different numbers.
use Prim.Native.Nat.{ℕ, zero, suc, ◌≤◌}
use mathlib.Core.Path.{◌≡◌, refl}
use mathlib.Core.Logic.{◌≢◌, inl, inr}
use mathlib.Core.Bool.{not}
use mathlib.Core.List.{List, [], ◌∷◌}
use native.Mathlib.Omega.{arith}
use assignment_cloud_instanc.Prelude.Tests.{◌==◌, ==→eq, Bool-cases, if◌then◌else◌}
use assignment_cloud_instanc.Prelude.Lists.{length, filter, All, Ordered}
use assignment_cloud_instanc.Prelude.Perms.{Ordered-filter}

abbrev pub put {ℓ} : {A : Type ℓ} → ℕ → A → (ℕ → A) → ℕ → A
put i p place j = if j == i then p else place j

filter_absent :
    (x : ℕ) (xs : List ℕ) → All (λ y. x ≢ y) xs → length (filter (λ y. not (y == x)) xs) ≡ length xs
filter_absent x [] h = refl
filter_absent x (y ∷ xs) h = ground (arith, h.0, filter_absent x xs h.1)

length-removed :
    (x : ℕ) (xs : List ℕ)
    → Ordered (λ a b. a ≢ b) xs
    → length xs ≤ suc (length (filter (λ y. not (y == x)) xs))
length-removed x [] h = omega arith
length-removed x (y ∷ xs) h = elim (Bool-cases (y == x)) [
  | inl here ↦
      let none : length (filter (λ z. not (z == y)) xs) ≡ length xs = filter_absent y xs h.0 in
      rw here (omega (arith, rw (==→eq y x here) at none))
  | inr other ↦ rw other (omega (arith, length-removed x xs h.1))
]

below_removed :
    (n : ℕ) (xs : List ℕ)
    → All (λ y. (1 ≤ y) × (y ≤ suc n)) xs
    → All (λ y. (1 ≤ y) × (y ≤ n)) (filter (λ y. not (y == suc n)) xs)
below_removed n [] h = tt
below_removed n (y ∷ xs) h = elim (Bool-cases (y == suc n)) [
  | inl last ↦ rw last (below_removed n xs h.1)
  | inr other ↦ rw other ((h.0.0, ground (arith, h.0.1)), below_removed n xs h.1)
]

-- Different numbers from 1 to `n` are at most `n` many.
pub pigeonhole :
    (n : ℕ) (xs : List ℕ)
    → Ordered (λ a b. a ≢ b) xs
    → All (λ y. (1 ≤ y) × (y ≤ n)) xs
    → length xs ≤ n
pigeonhole n [] d h = omega arith
pigeonhole zero (x ∷ xs) d h = absurd (omega (arith, h.0))
pigeonhole (suc n) (x ∷ xs) d h =
    let rest =
      pigeonhole n (filter (λ y. not (y == suc n)) (x ∷ xs))
        (Ordered-filter (λ a b. a ≢ b) (λ y. not (y == suc n)) (x ∷ xs) d)
        (below_removed n (x ∷ xs) h) in
    omega (arith, rest, length-removed (suc n) (x ∷ xs) d)
