-- ===== src/Store/Keys.antt =====
-- Keys: text equality, and keys with different prefixes.
use Prim.Native.String.{◌++◌, then as then_by, compare as compare_string}
use Prim.Native.String.append
use Prim.Native.String.compare
use Prim.Native.Char.{code}
use Prim.Native.Nat.{Ordering, compare as compare_ℕ}
use text.Mathlib.Text.{◌==◌ as str_eq, is_eq}
use text.Mathlib.TextEquality.{eq_iff}
use assignment_cloud_instanc.Prelude.{
  ℕ, ◌≡◌, refl, Bool, true, false, String, arith, ◌==◌, if◌then◌else◌,
}

pub str_eq_self : (s : String) → str_eq s s ≡ true
str_eq_self s = (eq_iff s s).1 refl

pub str_eq→eq : {s t : String} → str_eq s t ≡ true → s ≡ t
str_eq→eq {s} {t} h = (eq_iff s t).0 h

-- Two texts that differ before either ends.
abbrev pub diverge : String → String → Bool
diverge String.[] t = false
diverge (String.◌∷◌ c s) String.[] = false
diverge (String.◌∷◌ c s) (String.◌∷◌ d t) =
    let rest = diverge s t in if code c == code d then rest else true

then_differs :
    (o r : Ordering) (rest : Bool)
    → (if is_eq o then rest else true) ≡ true
    → (rest ≡ true → is_eq r ≡ false)
    → is_eq (then_by o r) ≡ false
then_differs Ordering.lt r rest h f = refl
then_differs Ordering.eq r rest h f = f h
then_differs Ordering.gt r rest h f = refl

is_eq-== : (m n : ℕ) → is_eq (compare_ℕ m n) ≡ (m == n)
is_eq-== m n = ground arith

pub prefixes_differ : (s t a b : String) → diverge s t ≡ true → str_eq (s ++ a) (t ++ b) ≡ false
prefixes_differ String.[] t a b h = absurd (ground arith)
prefixes_differ (String.◌∷◌ c s) String.[] a b h = absurd (ground arith)
prefixes_differ (String.◌∷◌ c s) (String.◌∷◌ d t) a b h =
    rw (append.cons c s a, append.cons d t b, compare.cons-cons c d (s ++ a) (t ++ b))
      (then_differs (compare_ℕ (code c) (code d)) (compare_string (s ++ a) (t ++ b)) (diverge s t)
        (rw is_eq-== h) (prefixes_differ s t a b))
