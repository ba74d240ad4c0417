-- ===== src/Store/Redis/Refines.antt =====
-- `RedisStore` (app/core/store.py) against `Store.Ideal`, on a server that does what its documentation says.
use Prim.Native.String.{◌++◌ as append}
use mathlib.Core.Path.{ap₂, subst}
use assignment_cloud_instanc.Prelude.{
  ℕ, ◌+◌, ◌≤◌, ◌≡◌, refl, ap, ◌∙◌, true, Option, none, some, String, List, [], ◌∷◌, leb,
  Option-cases, inl, inr, map, arith, if◌then◌else◌,
}
use assignment_cloud_instanc.Prelude.Ints.{ℤ, pos, ◌+ℤ◌}
use assignment_cloud_instanc.Store.{Value, number, seconds, is_some, int_of}
use assignment_cloud_instanc.Store.Ideal.{
  Operation, get_value, exists_key, delete_key, set_value, add_amount, Reply, got, found, counted,
  Contents, current, ideal_value, ideal_counter, ideal_add, ideal, ideal_replies, Forward,
}
use assignment_cloud_instanc.Store.Redis.Holds.{
  timed, alive-timed, Matches, Matches-hold, Matches-hold_again, held_number, piped, run_new,
  run_counter, run_text,
}
use assignment_cloud_instanc.Store.Redis.{
  text_or_nothing, any_or_nothing, counted_or_nothing, pipeline, redis_get, redis_set, redis_exists,
  redis_delete, redis_add,
}
use assignment_cloud_instanc.Store.Redis.Commands.{
  read, has, remove, write as write_to, Server, integer, text_answer, Keys, alive, hold,
  transaction, Documented,
}
use assignment_cloud_instanc.Store.Redis.Calls.{
  redis_perform, redis_replies, seen, IsTimed, AllTimed,
}

module _ {S : Type 0} (server : Server S) (d : Documented server) (prefix : String) where
  -- One call answers as on the function, and leaves the server's keys at what it then says.
  record Stepped (now : ℕ) (out : Reply × S) (ideal_out : Reply × Contents) : Type 0 where
    pub answers : seen out.0 ≡ seen ideal_out.0
    pub keys : Keys
    pub shows : d.Shows now out.1 keys
    pub matches : Matches prefix keys ideal_out.1

  module _ (last now : ℕ) (later : last ≤ now) (s : S) (keys : Keys) (m : Contents)
      (shows : d.Shows last s keys) (matches : Matches prefix keys m) where
    alive_key : (key : String) → alive now (keys (append prefix key)) ≡ timed (current now (m key))
    alive_key key = ap (alive now) (matches key) ∙ alive-timed now (m key)

    text_seen :
        (o : Option (Value × ℕ))
        → text_or_nothing (some (text_answer (timed o) ∷ [])) ≡ ideal_value o
    text_seen none = refl
    text_seen (some v) = refl

    any_seen :
        (o : Option (Value × ℕ))
        → any_or_nothing (some (integer (pos (if is_some (timed o) then 1 else 0)) ∷ []))
          ≡ is_some o
    any_seen none = refl
    any_seen (some v) = refl

    sets :
        (key : String) (value : Value) (ttl : ℕ)
        → 1 ≤ ttl
        → (transaction d.left (write_to key value ttl ∷ []) now keys).1
          ≡ hold key (some (value, some (now + seconds ttl))) keys
    sets key value ttl positive = let passes : leb 1 ttl ≡ true = ground arith in rw passes refl

    -- What the pipeline of `add` leaves, given what it does by the documentation.
    Stepped-run :
        (key : String) (amount value : ℤ) (ttl : ℕ) (ideal_out : Reply × Contents) (after : Keys)
        → ((counted_or_nothing (piped d.left (append prefix key) amount ttl now keys).0).0 ≡ value)
          × ((piped d.left (append prefix key) amount ttl now keys).1 ≡ after)
        → counted (some (value, 0)) ≡ seen ideal_out.0
        → Matches prefix after ideal_out.1
        → Stepped now (redis_perform server prefix (add_amount key amount ttl) now s) ideal_out
    unfolding redis_add
    Stepped-run key amount value ttl ideal_out after ran same matches' =
        let out =
          d.executes (pipeline (append prefix key) amount ttl) last now s keys later shows in
        record {
          answers =
              ap (λ r. counted (some ((counted_or_nothing r).0, 0))) out.0
              ∙ ap (λ z. counted (some (z, 0))) ran.0
              ∙ same;
          keys = after;
          shows =
              subst
                (λ k.
                  d.Shows now (server.execute (pipeline (append prefix key) amount ttl) now s).1 k)
                ran.1 out.1;
          matches = matches';
        }

    -- On a key that holds a value.
    Stepped-held :
        (key : String) (amount : ℤ) (ttl : ℕ) (v : Value × ℕ)
        → current now (m key) ≡ some v
        → Stepped now
            (redis_perform server prefix (add_amount key amount ttl) now s)
            (ideal_add key amount now m (ideal_counter now ttl (some v)))
    Stepped-held key amount ttl v there =
        let there' : alive now (keys (append prefix key)) ≡ some (v.0, some v.1) =
          alive_key key ∙ ap timed there in
        elim (Option-cases (int_of v.0)) [
          | inl not_number ↦ rw (held_number now ttl v not_number) (
              Stepped-run key amount (pos 0) ttl (ideal_add key amount now m none) keys
                (run_text d.left (append prefix key) amount ttl now keys v.0 (some v.1) there'
                  not_number)
                refl matches)
          | inr (z, number_there) ↦ rw (held_number now ttl v number_there) (
              Stepped-run key amount (z +ℤ amount) ttl (ideal_add key amount now m (some (z, v.1)))
                (hold (append prefix key) (some (number (z +ℤ amount), some v.1)) keys)
                (run_counter d.left (append prefix key) amount ttl now keys v.0 z (some v.1) there'
                  number_there)
                refl (Matches-hold prefix key keys m (some (number (z +ℤ amount), v.1)) matches))
        ]

    Stepped-add :
        (key : String) (amount : ℤ) (ttl : ℕ)
        → 1 ≤ ttl
        → Stepped now
            (redis_perform server prefix (add_amount key amount ttl) now s)
            (ideal (add_amount key amount ttl) now m)
    Stepped-add key amount ttl positive = elim (Option-cases (current now (m key))) [
      | inl missing ↦ rw missing (
          Stepped-run key amount (pos 0 +ℤ amount) ttl
            (ideal_add key amount now m (ideal_counter now ttl none))
            (hold (append prefix key) (some (number (pos 0 +ℤ amount), some (now + seconds ttl)))
              (hold (append prefix key) (some (number (pos 0), some (now + seconds ttl))) keys))
            (run_new d.left (append prefix key) amount ttl now keys positive
              (alive_key key ∙ ap timed missing))
            refl
            (Matches-hold_again prefix key keys m (some (number (pos 0), some (now + seconds ttl)))
              (some (number (pos 0 +ℤ amount), now + seconds ttl)) matches))
      | inr (v, there) ↦ rw there (Stepped-held key amount ttl v there)
    ]

    Stepped-perform :
        (op : Operation)
        → IsTimed op
        → Stepped now (redis_perform server prefix op now s) (ideal op now m)
    unfolding redis_get redis_exists redis_delete redis_set redis_add
    Stepped-perform (get_value key) timed_call =
        let out = d.executes (read (append prefix key) ∷ []) last now s keys later shows in
        record {
          answers =
              ap (λ r. got (text_or_nothing r)) out.0
              ∙ ap (λ o. got (text_or_nothing (some (text_answer o ∷ [])))) (alive_key key)
              ∙ ap got (text_seen (current now (m key)));
          keys = keys;
          shows = out.1;
          matches = matches;
        }
    Stepped-perform (exists_key key) timed_call =
        let out = d.executes (has (append prefix key) ∷ []) last now s keys later shows in
        record {
          answers =
              ap (λ r. found (any_or_nothing r)) out.0
              ∙ ap
                  (λ o.
                    found (any_or_nothing (some (integer (pos (if is_some o then 1 else 0)) ∷ []))))
                  (alive_key key)
              ∙ ap found (any_seen (current now (m key)));
          keys = keys;
          shows = out.1;
          matches = matches;
        }
    Stepped-perform (delete_key key) timed_call =
        let out = d.executes (remove (append prefix key) ∷ []) last now s keys later shows in
        record {
          answers = refl;
          keys = hold (append prefix key) none keys;
          shows = out.1;
          matches = Matches-hold prefix key keys m none matches;
        }
    Stepped-perform (set_value key value ttl) timed_call =
        let out =
          d.executes (write_to (append prefix key) value ttl ∷ []) last now s keys later shows in
        record {
          answers = refl;
          keys = hold (append prefix key) (some (value, some (now + seconds ttl))) keys;
          shows =
              subst
                (λ after.
                  d.Shows now (server.execute (write_to (append prefix key) value ttl ∷ []) now s).1
                    after)
                (sets (append prefix key) value ttl timed_call) out.1;
          matches = Matches-hold prefix key keys m (some (value, now + seconds ttl)) matches;
        }
    Stepped-perform (add_amount key amount ttl) timed_call = Stepped-add key amount ttl timed_call

  replies-seen :
      (last : ℕ) (ops : List (Operation × ℕ)) (s : S) (keys : Keys) (m : Contents)
      → Forward last ops
      → AllTimed ops
      → d.Shows last s keys
      → Matches prefix keys m
      → map seen (redis_replies server prefix ops s) ≡ map seen (ideal_replies ops m)
  replies-seen last [] s keys m forward timed_calls shows matches = refl
  replies-seen last ((op, now) ∷ ops) s keys m forward timed_calls shows matches =
      let step = Stepped-perform last now forward.0 s keys m shows matches op timed_calls.0 in
      ap₂ ◌∷◌ step.answers (
        replies-seen now ops (redis_perform server prefix op now s).1 step.keys (ideal op now m).1
          forward.1 timed_calls.1 step.shows step.matches)

-- On a Redis server that does what its documentation says and holds nothing behind the prefix,
-- any sequence of calls of a `RedisStore`, at readings of the server's clock that do not go
-- back and with times to live of at least a second, answers as the function of `store_refines`
-- does, but for the seconds that are left of a window, and with 0 for a count on a key that
-- holds a text.
pub redis_refines :
    {S : Type 0} (server : Server S) (d : Documented server) (prefix : String) (opened : ℕ) (s : S)
    (keys : Keys) (ops : List (Operation × ℕ))
    → d.Shows opened s keys
    → ((k : String) → keys (append prefix k) ≡ none)
    → Forward opened ops
    → AllTimed ops
    → map seen (redis_replies server prefix ops s) ≡ map seen (ideal_replies ops (λ k. none))
redis_refines server d prefix opened s keys ops shows empty forward timed_calls =
    replies-seen server d prefix opened ops s keys (λ k. none) forward timed_calls shows empty
