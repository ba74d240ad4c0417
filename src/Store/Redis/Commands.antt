-- ===== src/Store/Redis/Commands.antt =====
-- The Redis server behind `RedisStore` (app/core/store.py), which is not in the repository: its commands, and what
-- their documentation says of them.
use text.Mathlib.Text.{◌==◌ as str_eq}
use assignment_cloud_instanc.Prelude.{
  ℕ, ◌+◌, ◌≤◌, ◌≡◌, Option, none, some, String, List, [], ◌∷◌, leb, if◌then◌else◌,
}
use assignment_cloud_instanc.Prelude.Ints.{ℤ, pos, ◌+ℤ◌}
use assignment_cloud_instanc.Store.{Value, number, seconds, int_of, is_some}

-- `GET`, `SET … EX`, `SET … EX NX`, `EXISTS`, `DEL`, `INCRBY` and `TTL`
pub data Command : Type 0 where
  read has remove time_left : String → Command
  write write_new : String → Value → ℕ → Command
  increase : String → ℤ → Command

pub data Answer : Type 0 where
  nil done : Answer
  bulk : Value → Answer
  integer : ℤ → Answer

pub record Server (S : Type 0) : Type 0 where
  pub execute : List Command → ℕ → S → Option (List Answer) × S

-- What a key holds: a value, with the time to live that it may have.
abbrev pub Keys : Type 0
Keys = String → Option (Value × Option ℕ)

abbrev pub alive : ℕ → Option (Value × Option ℕ) → Option (Value × Option ℕ)
alive now none = none
alive now (some (value, none)) = some (value, none)
alive now (some (value, some expires)) =
    if leb expires now then none else some (value, some expires)

abbrev pub hold : String → Option (Value × Option ℕ) → Keys → Keys
hold key v m k = if str_eq key k then v else m k

abbrev pub text_answer : Option (Value × Option ℕ) → Answer
text_answer none = nil
text_answer (some v) = bulk v.0

-- A time to live of 0 is an error.
abbrev pub written : String → Value → ℕ → ℕ → Keys → Option Answer × Keys
written key value ttl now m =
    if leb 1 ttl
    then (some done, hold key (some (value, some (now + seconds ttl))) m)
    else (none, m)

-- A counter that does not exist starts at 0 and does not expire; a text is an error.
abbrev pub increased_from : String → ℤ → Option ℕ → Keys → Option ℤ → Option Answer × Keys
increased_from key amount expires m none = (none, m)
increased_from key amount expires m (some z) =
    (some (integer (z +ℤ amount)), hold key (some (number (z +ℤ amount), expires)) m)

abbrev pub increased : String → ℤ → Keys → Option (Value × Option ℕ) → Option Answer × Keys
increased key amount m none = increased_from key amount none m (some (pos 0))
increased key amount m (some v) = increased_from key amount v.1 m (int_of v.0)

-- An error among the answers is raised once all commands have run.
abbrev pub both : Option Answer → Option (List Answer) → Option (List Answer)
both none answers = none
both (some a) none = none
both (some a) (some answers) = some (a ∷ answers)

-- One command; `left` rounds the time to live to seconds, in the way of the server.
module _ (left : Option (Value × Option ℕ) → ℕ → ℤ) where
  abbrev pub interpret : Command → ℕ → Keys → Option Answer × Keys
  interpret (read key) now m = (some (text_answer (alive now (m key))), m)
  interpret (has key) now m =
      (some (integer (pos (if is_some (alive now (m key)) then 1 else 0))), m)
  interpret (remove key) now m =
      (some (integer (pos (if is_some (alive now (m key)) then 1 else 0))), hold key none m)
  interpret (time_left key) now m = (some (integer (left (alive now (m key)) now)), m)
  interpret (write key value ttl) now m = written key value ttl now m
  interpret (write_new key value ttl) now m =
      if is_some (alive now (m key)) then (some nil, m) else written key value ttl now m
  interpret (increase key amount) now m = increased key amount m (alive now (m key))

  abbrev pub transaction : List Command → ℕ → Keys → Option (List Answer) × Keys
  transaction [] now m = (some [], m)
  transaction (command ∷ commands) now m =
      let (first, m') = interpret command now m in
      let (rest, m'') = transaction commands now m' in (both first rest, m'')

-- A server that does what the documentation says: `Shows` relates its state, after a reading of its clock, to
-- what its keys hold. (Its counters have 64 bits, which the counts here do not reach.)
pub record Documented {S : Type 0} (server : Server S) : Type 1 where
  pub Shows : ℕ → S → Keys → Type 0
  pub left : Option (Value × Option ℕ) → ℕ → ℤ
  pub executes :
      (commands : List Command) (last now : ℕ) (s : S) (m : Keys)
      → last ≤ now
      → Shows last s m
      → ((server.execute commands now s).0 ≡ (transaction left commands now m).0)
        × Shows now (server.execute commands now s).1 (transaction left commands now m).1
