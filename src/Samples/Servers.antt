-- ===== src/Samples/Servers.antt =====
-- The theorems at concrete inputs: a Redis server that is its keys.
use Prim.Native.String.{◌++◌ as append, count}
use text.Mathlib.TextLemmas.{length-append}
use assignment_cloud_instanc.Store.Keys.{str_eq→eq}
use text.Mathlib.Text.{◌==◌ as str_eq}
use assignment_cloud_instanc.Prelude.{
  ℕ, ◌-◌, ◌/◌, ◌≡◌, refl, ap, arith, none, some, Option, String, List, Bool-cases, inl, inr, [],
  ◌∷◌, map, if◌then◌else◌,
}
use assignment_cloud_instanc.Prelude.Ints.{ℤ, pos, negsuc}
use assignment_cloud_instanc.Store.{Value, str}
use assignment_cloud_instanc.Store.Ideal.{
  Operation, get_value, exists_key, delete_key, set_value, add_amount, ideal_replies,
}
use assignment_cloud_instanc.Store.Redis.Commands.{Server, Keys, transaction, Documented}
use assignment_cloud_instanc.Store.Redis.Calls.{seen, redis_replies}
use assignment_cloud_instanc.Store.Redis.Refines.{redis_refines}

-- A server whose state is what its keys hold; a time to live is rounded down to seconds.
abbrev seconds_left : Option (Value × Option ℕ) → ℕ → ℤ
seconds_left none now = negsuc 1
seconds_left (some (value, none)) now = negsuc 0
seconds_left (some (value, some expires)) now = pos ((expires - now) / 1_000_000)

abbrev keeper : Server Keys
keeper = record { execute = transaction seconds_left }

abbrev keeper-Documented : Documented keeper
keeper-Documented = record {
  Shows = λ last s keys. s ≡ keys;
  left = seconds_left;
  executes = λ commands last now s m later same. rw same (refl, refl);
}

-- Another program's key is left alone.
abbrev shared : Keys
shared k = if str_eq "n" k then some (str "text", none) else none

abbrev calls : List (Operation × ℕ)
calls =
    (add_amount "n" (pos 1) 2, 10)
    ∷ (set_value "k" (str "text") 1, 20)
    ∷ (add_amount "k" (pos 1) 2, 30)
    ∷ (add_amount "n" (pos 1) 2, 1_000_000)
    ∷ (get_value "k", 1_000_021)
    ∷ (exists_key "n", 2_000_009)
    ∷ (exists_key "n", 2_000_010)
    ∷ (delete_key "n", 70_000_000)
    ∷ (add_amount "n" (negsuc 0) 2, 70_000_001)
    ∷ []

other_program : (k : String) → shared (append "p:" k) ≡ none
other_program k = elim (Bool-cases (str_eq "n" (append "p:" k))) [
  | inl same ↦
      let lengths : count "n" ≡ count (append "p:" k) = ap count (str_eq→eq same) in
      absurd (omega (arith, lengths, length-append "p:" k))
  | inr differ ↦ rw differ refl
]

redis_refines_example :
    map seen (redis_replies keeper "p:" calls shared) ≡ map seen (ideal_replies calls (λ k. none))
redis_refines_example =
    redis_refines keeper keeper-Documented "p:" 0 shared shared calls refl other_program
      (omega arith) (omega arith)
