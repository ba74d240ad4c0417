-- ===== src/Store/Ideal.antt =====
-- What app/core/store.py promises: a function from keys to values with their expiry, without purges and
-- without deletions on a read. And sequences of calls, on `MemoryStore` and on such a function.
use text.Mathlib.Text.{◌==◌ as str_eq}
use assignment_cloud_instanc.Prelude.{
  ℕ, ◌+◌, ◌≤◌, Bool, Option, none, some, String, List, [], ◌∷◌, leb, if◌then◌else◌,
}
use assignment_cloud_instanc.Prelude.Ints.{ℤ, pos, ◌+ℤ◌}
use assignment_cloud_instanc.Store.{
  Value, number, Store, seconds, is_some, int_of, retry_after, get, set, exists, delete, add,
}

-- A call of the store.
pub data Operation : Type 0 where
  get_value exists_key delete_key : String → Operation
  set_value : String → Value → ℕ → Operation
  add_amount : String → ℤ → ℕ → Operation

-- What it returns; `none` of a counter is the ValueError.
pub data Reply : Type 0 where
  got : Option Value → Reply
  found : Bool → Reply
  finished : Reply
  counted : Option (ℤ × ℕ) → Reply

-- On `MemoryStore`, at a reading of its clock.
abbrev pub perform : Operation → ℕ → Store → Reply × Store
perform (get_value key) now st = let (value, st') = get key now st in (got value, st')
perform (exists_key key) now st = let (b, st') = exists key now st in (found b, st')
perform (delete_key key) now st = (finished, delete key st)
perform (set_value key value ttl) now st = (finished, set key value ttl now st)
perform (add_amount key amount ttl) now st =
    let (counter, st') = add key amount ttl now st in (counted counter, st')

-- Each call with the reading of the clock.
abbrev pub replies : List (Operation × ℕ) → Store → List Reply
replies [] st = []
replies ((op, now) ∷ ops) st = let (reply, st') = perform op now st in reply ∷ replies ops st'

abbrev pub Contents : Type 0
Contents = String → Option (Value × ℕ)

abbrev pub current : ℕ → Option (Value × ℕ) → Option (Value × ℕ)
current now none = none
current now (some v) = if leb v.1 now then none else some v

abbrev pub write : String → Option (Value × ℕ) → Contents → Contents
write key v m k = if str_eq key k then v else m k

abbrev pub ideal_value : Option (Value × ℕ) → Option Value
ideal_value none = none
ideal_value (some v) = some v.0

-- The counter that the key holds, or a new one at 0 with its window.
abbrev pub ideal_counter : ℕ → ℕ → Option (Value × ℕ) → Option (ℤ × ℕ)
ideal_counter now ttl none = some (pos 0, now + seconds ttl)
ideal_counter now ttl (some v) = elim (int_of v.0) [ none ↦ none | some z ↦ some (z, v.1) ]

abbrev pub ideal_add : String → ℤ → ℕ → Contents → Option (ℤ × ℕ) → Reply × Contents
ideal_add key amount now m none = (counted none, m)
ideal_add key amount now m (some c) = (
  counted (some (c.0 +ℤ amount, retry_after c.1 now)),
  write key (some (number (c.0 +ℤ amount), c.1)) m,
)

abbrev pub ideal : Operation → ℕ → Contents → Reply × Contents
ideal (get_value key) now m = (got (ideal_value (current now (m key))), m)
ideal (exists_key key) now m = (found (is_some (current now (m key))), m)
ideal (delete_key key) now m = (finished, write key none m)
ideal (set_value key value ttl) now m = (finished, write key (some (value, now + seconds ttl)) m)
ideal (add_amount key amount ttl) now m =
    ideal_add key amount now m (ideal_counter now ttl (current now (m key)))

abbrev pub ideal_replies : List (Operation × ℕ) → Contents → List Reply
ideal_replies [] m = []
ideal_replies ((op, now) ∷ ops) m = let (reply, m') = ideal op now m in reply ∷ ideal_replies ops m'

-- The readings of the clock do not go back.
abbrev pub Forward : ℕ → List (Operation × ℕ) → Type 0
Forward now [] = Unit
Forward now ((op, later) ∷ ops) = (now ≤ later) × Forward later ops
