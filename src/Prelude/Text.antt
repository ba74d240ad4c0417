-- ===== src/Prelude/Text.antt =====
-- Text: the numbers that the source's f-strings print.
use mathlib.Core.Logic.{dite}
use mathlib.Core.WellFounded.{Acc, WellFounded}
use Prim.Native.String.{◌++◌}
use native.Mathlib.Decide.{dec_lt}
use assignment_cloud_instanc.Prelude.{
  ℕ, zero, suc, ◌+◌, ◌*◌, ◌/◌, ◌%◌, ◌<◌, ◌≡◌, refl, String, List, [], ◌∷◌, arith, ltb, ◌==◌, ◌&&◌,
  ◌||◌, if◌then◌else◌,
}

acc_below : (k n : ℕ) → n < k → Acc ◌<◌ n
acc_below zero n h = absurd (omega arith)
acc_below (suc k) n h = Acc.intro n λ m lt. acc_below k m (omega arith)

lt_wf : WellFounded ◌<◌
unfolding acc_below
lt_wf = record { apply = λ n. acc_below (suc n) n (omega arith) }

tenth_lt : {n : ℕ} → 9 < n → n / 10 < n
tenth_lt h = omega arith

digit : ℕ → String
digit d =
    if d == 0
    then "0"
    else if d == 1
    then "1"
    else if d == 2
    then "2"
    else if d == 3
    then "3"
    else if d == 4
    then "4"
    else if d == 5
    then "5"
    else if d == 6
    then "6"
    else if d == 7
    then "7"
    else if d == 8
    then "8"
    else "9"

show_acc : (n : ℕ) → Acc ◌<◌ n → String
show_acc n (Acc.intro _ smaller) =
    dite (dec_lt 9 n) (λ h. show_acc (n / 10) (smaller (n / 10) (tenth_lt h)) ++ digit (n % 10))
      (λ _. digit n)

-- `str(n)` of an int that is not negative.
unfoldable pub show : ℕ → String
unfolding show_acc digit lt_wf tenth_lt dec_lt
show n = show_acc n (lt_wf.apply n)

-- `round(a / b)` to the nearest int, ties to even.
abbrev pub round_div : ℕ → ℕ → ℕ
round_div a b =
    let q = a / b in
    let r = a % b in if ltb (2 * r) b || (2 * r == b && q % 2 == 0) then q else q + 1

-- `f"{x:.1f}"` of `x = n / 1000`.
unfoldable pub fixed_1 : ℕ → String
unfolding show digit
fixed_1 n = let t = round_div n 100 in show (t / 10) ++ "." ++ digit (t % 10)

-- `f"{x:.0f}"` of `x = a / b`.
unfoldable pub fixed_0 : ℕ → ℕ → String
unfolding show
fixed_0 a b = show (round_div a b)

abbrev pub join {ℓ} : {A : Type ℓ} → (A → String) → String → List A → String
join f sep [] = ""
join f sep (x ∷ []) = f x
join f sep (x ∷ y ∷ xs) = f x ++ sep ++ join f sep (y ∷ xs)

show_cpu : fixed_1 91500 ≡ "91.5"
unfolding fixed_1
show_cpu = refl

show_hours : fixed_0 259_200 3600 ≡ "72"
unfolding fixed_0
show_hours = refl
