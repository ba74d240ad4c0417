-- ===== src/Store/Redis/Calls.antt =====
-- Sequences of calls of `RedisStore` (app/core/store.py), and what a caller sees of them.
use assignment_cloud_instanc.Prelude.{ℕ, ◌≤◌, Option, none, some, String, List, [], ◌∷◌}
use assignment_cloud_instanc.Prelude.Ints.{ℤ, pos}
use assignment_cloud_instanc.Store.Ideal.{
  Operation, get_value, exists_key, delete_key, set_value, add_amount, Reply, got, found, finished,
  counted,
}
use assignment_cloud_instanc.Store.Redis.{
  redis_get, redis_set, redis_exists, redis_delete, redis_add,
}
use assignment_cloud_instanc.Store.Redis.Commands.{Server}

-- A call, at a reading of the server's clock.
module _ {S : Type 0} (server : Server S) (prefix : String) where
  abbrev pub redis_perform : Operation → ℕ → S → Reply × S
  redis_perform (get_value key) now s =
      let (value, s') = redis_get server prefix key now s in (got value, s')
  redis_perform (exists_key key) now s =
      let (b, s') = redis_exists server prefix key now s in (found b, s')
  redis_perform (delete_key key) now s = (finished, redis_delete server prefix key now s)
  redis_perform (set_value key value ttl) now s =
      (finished, redis_set server prefix key value ttl now s)
  redis_perform (add_amount key amount ttl) now s =
      let (counter, s') = redis_add server prefix key amount ttl now s in
      (counted (some counter), s')

  abbrev pub redis_replies : List (Operation × ℕ) → S → List Reply
  redis_replies [] s = []
  redis_replies ((op, now) ∷ ops) s =
      let (reply, s') = redis_perform op now s in reply ∷ redis_replies ops s'

-- What a caller sees of a reply, but for the seconds that are left of a window; a counter on a key that
-- holds another text counts as 0.
abbrev pub count_seen : Option (ℤ × ℕ) → ℤ
count_seen none = pos 0
count_seen (some c) = c.0

abbrev pub seen : Reply → Reply
seen (counted c) = counted (some (count_seen c, 0))
seen reply = reply

-- The times to live that the calls give are at least a second.
abbrev pub IsTimed : Operation → Type 0
IsTimed (set_value key value ttl) = 1 ≤ ttl
IsTimed (add_amount key amount ttl) = 1 ≤ ttl
IsTimed op = Unit

abbrev pub AllTimed : List (Operation × ℕ) → Type 0
AllTimed [] = Unit
AllTimed ((op, now) ∷ ops) = IsTimed op × AllTimed ops
