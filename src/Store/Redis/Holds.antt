-- ===== src/Store/Redis/Holds.antt =====
-- What the keys of a Redis server hold (`Store.Redis.Commands`) against the function of `Store.Ideal`, and what
-- the pipeline of `RedisStore.add` (app/core/store.py) does to them.
use Prim.Native.String.{◌++◌ as append}
use text.Mathlib.Text.{◌==◌ as str_eq}
use text.Mathlib.TextLemmas.{append_cancel_left}
use assignment_cloud_instanc.Prelude.{
  ℕ, ◌+◌, ◌≤◌, ◌≡◌, refl, sym, ap, ◌∙◌, true, false, Option, none, some, String, List, arith, leb,
  Bool-cases, inl, inr,
}
use assignment_cloud_instanc.Prelude.Ints.{ℤ, pos, ◌+ℤ◌}
use assignment_cloud_instanc.Store.{Value, number, seconds, int_of}
use assignment_cloud_instanc.Store.Keys.{str_eq_self, str_eq→eq}
use assignment_cloud_instanc.Store.Ideal.{Contents, current, write, ideal_counter}
use assignment_cloud_instanc.Store.Redis.{counted_or_nothing, pipeline}
use assignment_cloud_instanc.Store.Redis.Commands.{
  Answer, integer, Keys, alive, hold, transaction, increased, increased_from,
}

str_eq-append : (p s t : String) → str_eq (append p s) (append p t) ≡ str_eq s t
str_eq-append p s t = elim (Bool-cases (str_eq s t)) [
  | inl same ↦
      let equal : append p s ≡ append p t = ap (append p) (str_eq→eq same) in
      ap (λ u. str_eq u (append p t)) equal ∙ str_eq_self (append p t) ∙ sym same
  | inr other ↦ elim (Bool-cases (str_eq (append p s) (append p t))) [
    | inl equal ↦
        let same : s ≡ t = append_cancel_left p s t (str_eq→eq equal) in
        absurd (ground (arith, other, ap (λ u. str_eq u t) same, str_eq_self t))
    | inr differ ↦ differ ∙ sym other
  ]
]

-- Every value that the store writes expires.
abbrev pub timed : Option (Value × ℕ) → Option (Value × Option ℕ)
timed none = none
timed (some v) = some (v.0, some v.1)

pub alive-timed : (now : ℕ) (o : Option (Value × ℕ)) → alive now (timed o) ≡ timed (current now o)
alive-timed now none = refl
alive-timed now (some v) = ground arith

-- The keys of the server hold, behind the prefix, what the function says.
abbrev pub Matches : String → Keys → Contents → Type 0
Matches prefix keys m = (k : String) → keys (append prefix k) ≡ timed (m k)

pub Matches-hold :
    (prefix key : String) (keys : Keys) (m : Contents) (v : Option (Value × ℕ))
    → Matches prefix keys m
    → Matches prefix (hold (append prefix key) (timed v) keys) (write key v m)
Matches-hold prefix key keys m v h k =
    rw str_eq-append
      (elim (Bool-cases (str_eq key k)) [ inl here ↦ rw here refl | inr other ↦ rw other (h k) ])

pub Matches-hold_again :
    (prefix key : String) (keys : Keys) (m : Contents) (w : Option (Value × Option ℕ))
    (v : Option (Value × ℕ))
    → Matches prefix keys m
    → Matches prefix
        (hold (append prefix key) (timed v) (hold (append prefix key) w keys))
        (write key v m)
Matches-hold_again prefix key keys m w v h k =
    rw str_eq-append
      (elim (Bool-cases (str_eq key k)) [ inl here ↦ rw here refl | inr other ↦ rw other (h k) ])

pub held_number :
    {n : Option ℤ} (now ttl : ℕ) (v : Value × ℕ)
    → int_of v.0 ≡ n
    → ideal_counter now ttl (some v)
      ≡ elim n as (λ x. Option (ℤ × ℕ)) [ none ↦ none | some z ↦ some (z, v.1) ]
held_number now ttl v h =
    ap (λ n. elim n as (λ x. Option (ℤ × ℕ)) [ none ↦ none | some z ↦ some (z, v.1) ]) h

-- The pipeline of `add` on a key that holds nothing, a counter, or another text.
module _ (left : Option (Value × Option ℕ) → ℕ → ℤ) (key : String) (amount : ℤ) (ttl now : ℕ)
    (keys : Keys) where
  abbrev pub piped : Option (List Answer) × Keys
  piped = transaction left (pipeline key amount ttl) now keys

  pub run_new :
      1 ≤ ttl
      → alive now (keys key) ≡ none
      → ((counted_or_nothing piped.0).0 ≡ pos 0 +ℤ amount)
        × (piped.1
            ≡ hold key
                (some (number (pos 0 +ℤ amount), some (now + seconds ttl)))
                (hold key (some (number (pos 0), some (now + seconds ttl))) keys))
  run_new positive missing =
      let passes : leb 1 ttl ≡ true = ground arith in
      let fresh : leb (now + seconds ttl) now ≡ false = ground (arith, positive) in
      rw (missing, passes, str_eq_self, fresh) (refl, refl)

  counts_on :
      (v : Value) (z : ℤ) (expires : Option ℕ)
      → int_of v ≡ some z
      → increased key amount keys (some (v, expires))
        ≡ (some (integer (z +ℤ amount)), hold key (some (number (z +ℤ amount), expires)) keys)
  counts_on v z expires number_there = ap (increased_from key amount expires keys) number_there

  refuses_text :
      (v : Value) (expires : Option ℕ)
      → int_of v ≡ none
      → increased key amount keys (some (v, expires)) ≡ (none, keys)
  refuses_text v expires not_number = ap (increased_from key amount expires keys) not_number

  pub run_counter :
      (v : Value) (z : ℤ) (expires : Option ℕ)
      → alive now (keys key) ≡ some (v, expires)
      → int_of v ≡ some z
      → ((counted_or_nothing piped.0).0 ≡ z +ℤ amount)
        × (piped.1 ≡ hold key (some (number (z +ℤ amount), expires)) keys)
  run_counter v z expires there number_there =
      rw (there) (rw there (rw (counts_on v z expires number_there) (refl, refl)))

  pub run_text :
      (v : Value) (expires : Option ℕ)
      → alive now (keys key) ≡ some (v, expires)
      → int_of v ≡ none
      → ((counted_or_nothing piped.0).0 ≡ pos 0) × (piped.1 ≡ keys)
  run_text v expires there not_number = rw there (rw there (rw not_number (refl, refl)))
