-- ===== src/Store/Redis.antt =====
-- app/core/store.py: `RedisStore`. The server is a parameter: a list of commands, sent as one transaction, gives
-- their answers, or `none` for a RedisError, and the server as it then is.
pub mod Commands
pub mod Calls
pub mod Holds
pub mod Refines
use Prim.Native.String.{◌++◌}
use assignment_cloud_instanc.Prelude.{
  ℕ, ◌≡◌, refl, arith, Bool, true, false, Option, none, some, String, List, [], ◌∷◌, leb, ltb,
  if◌then◌else◌,
}
use assignment_cloud_instanc.Prelude.Ints.{ℤ, pos, negsuc, exceeds}
use assignment_cloud_instanc.Config.{Settings}
use assignment_cloud_instanc.Session.{ok}
use assignment_cloud_instanc.Store.{Value, number}
use assignment_cloud_instanc.RateLimit.{answer}
use assignment_cloud_instanc.Revocation.{Claims, admit}
use assignment_cloud_instanc.Store.Redis.Commands.{
  Command, read, write, write_new, has, remove, increase, time_left, Answer, bulk, integer, Server,
}

-- `max(1, int(remaining))`
abbrev pub at_least_one : ℤ → ℕ
at_least_one (pos n) = if leb 1 n then n else 1
at_least_one (negsuc n) = 1

-- The answers, and those of a failure: nothing stored. (Answers of another shape do not come.)
abbrev pub text_or_nothing : Option (List Answer) → Option Value
text_or_nothing (some (bulk value ∷ [])) = some value
text_or_nothing _ = none

abbrev pub any_or_nothing : Option (List Answer) → Bool
any_or_nothing (some (integer n ∷ [])) = exceeds n 0
any_or_nothing _ = false

abbrev pub counted_or_nothing : Option (List Answer) → ℤ × ℕ
counted_or_nothing (some (first ∷ integer value ∷ integer remaining ∷ [])) =
    (value, at_least_one remaining)
counted_or_nothing _ = (pos 0, 0)

-- The pipeline of `add`.
abbrev pub pipeline : String → ℤ → ℕ → List Command
pipeline full_key amount ttl =
    write_new full_key (number (pos 0)) ttl ∷ increase full_key amount ∷ time_left full_key ∷ []

-- `now` is the reading of the server's clock.
module _ {S : Type 0} (server : Server S) (prefix : String) where
  unfoldable pub redis_get : String → ℕ → S → Option Value × S
  redis_get key now s =
      let (found, s') = server.execute (read (prefix ++ key) ∷ []) now s in
      (text_or_nothing found, s')

  unfoldable pub redis_set : String → Value → ℕ → ℕ → S → S
  redis_set key value ttl now s = (server.execute (write (prefix ++ key) value ttl ∷ []) now s).1

  unfoldable pub redis_exists : String → ℕ → S → Bool × S
  redis_exists key now s =
      let (n, s') = server.execute (has (prefix ++ key) ∷ []) now s in (any_or_nothing n, s')

  unfoldable pub redis_delete : String → ℕ → S → S
  redis_delete key now s = (server.execute (remove (prefix ++ key) ∷ []) now s).1

  unfoldable pub redis_add : String → ℤ → ℕ → ℕ → S → (ℤ × ℕ) × S
  redis_add key amount ttl now s =
      let (counted, s') = server.execute (pipeline (prefix ++ key) amount ttl) now s in
      (counted_or_nothing counted, s')
