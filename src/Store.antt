-- ===== src/Store.antt =====
-- app/core/store.py: `MemoryStore`, values by key that expire. (`RedisStore`
-- stands in the child Redis.)
pub mod Keys
pub mod Live
pub mod Maps
pub mod Others
pub mod Ideal
pub mod Refines
pub mod Redis
pub mod Singleton
pub mod Timed
use text.Mathlib.Text.{◌==◌ as str_eq}
use assignment_cloud_instanc.Prelude.{
  ℕ, ◌+◌, ◌-◌, ◌*◌, Bool, true, false, not, Option, none, some, String, List, [], ◌∷◌, filter, find,
  leb, ltb, if◌then◌else◌,
}
use assignment_cloud_instanc.Prelude.Ints.{ℤ, pos, ◌+ℤ◌}
use assignment_cloud_instanc.Prelude.Text.{round_div}

-- The string of an entry: a decimal text, as its number (`str(value)`), or a text that `int` does not read.
pub data Value : Type 0 where
  number : ℤ → Value
  str : String → Value

-- Times are readings of the store's clock, in microseconds.
pub record Entry : Type 0 where
  pub key : String
  pub value : Value
  pub expires : ℕ

-- `_data` and `_last_purge`. The order of the entries cannot be observed.
pub record Store : Type 0 where
  pub entries : List Entry
  pub last_purge : ℕ

abbrev pub seconds : ℕ → ℕ
seconds n = n * 1_000_000

-- `PURGE_INTERVAL_SECONDS`
abbrev pub purge_interval : ℕ
purge_interval = 60_000_000

-- `_data.get(key)`, `del _data[key]` and `_data[key] = …`
abbrev pub lookup : String → List Entry → Option Entry
lookup key = find (λ e. str_eq e.key key)

abbrev pub erase : String → List Entry → List Entry
erase key = filter (λ e. not (str_eq e.key key))

abbrev pub assign : Entry → List Entry → List Entry
assign e entries = e ∷ erase e.key entries

-- `MemoryStore(clock)`, at the clock's reading
abbrev pub new_store : ℕ → Store
new_store now = record { entries = []; last_purge = now }

-- `_live`, on the entry that is looked up
abbrev pub live_entry : String → ℕ → Store → Option Entry → Option Entry × Store
live_entry key now st none = (none, st)
live_entry key now st (some e) =
    if leb e.expires now then (none, record st { entries = erase key st.entries }) else (some e, st)

unfoldable pub live : String → ℕ → Store → Option Entry × Store
live key now st = live_entry key now st (lookup key st.entries)

unfoldable pub purge : ℕ → Store → Store
purge now st =
    if ltb (now - st.last_purge) purge_interval
    then st
    else record { entries = filter (λ e. ltb now e.expires) st.entries; last_purge = now }

abbrev pub value_of : Option Entry → Option Value
value_of none = none
value_of (some e) = some e.value

unfoldable pub get : String → ℕ → Store → Option Value × Store
unfolding live
get key now st = let (entry, st') = live key now st in (value_of entry, st')

unfoldable pub set : String → Value → ℕ → ℕ → Store → Store
unfolding purge
set key value ttl now st =
    let st' = purge now st in
    record st' {
      entries =
          assign (record { key = key; value = value; expires = now + seconds ttl }) st'.entries;
    }

abbrev pub is_some {ℓ} : {A : Type ℓ} → Option A → Bool
is_some none = false
is_some (some a) = true

unfoldable pub exists : String → ℕ → Store → Bool × Store
unfolding get
exists key now st = let (value, st') = get key now st in (is_some value, st')

unfoldable pub delete : String → Store → Store
delete key st = record st { entries = erase key st.entries }

-- `int(entry[0])`; `none` is the ValueError of a text that is no number.
abbrev pub int_of : Value → Option ℤ
int_of (number z) = some z
int_of (str s) = none

-- The counter and its expiry, or a new one.
abbrev pub counter_of : ℕ → ℕ → Option Entry → Option (ℤ × ℕ)
counter_of now ttl none = some (pos 0, now + seconds ttl)
counter_of now ttl (some e) = elim (int_of e.value) [ none ↦ none | some z ↦ some (z, e.expires) ]

-- `max(1, round(expires - now))`, in seconds
abbrev pub retry_after : ℕ → ℕ → ℕ
retry_after expires now = let s = round_div (expires - now) 1_000_000 in if leb 1 s then s else 1

-- The end of `add`: the value and the seconds left, or the ValueError.
abbrev pub add_to : String → ℤ → ℕ → Store → Option (ℤ × ℕ) → Option (ℤ × ℕ) × Store
add_to key amount now st none = (none, st)
add_to key amount now st (some counter) =
    let value = counter.0 +ℤ amount in
    (
      some (value, retry_after counter.1 now),
      record st {
        entries =
            assign (record { key = key; value = number value; expires = counter.1 }) st.entries;
      },
    )

unfoldable pub add : String → ℤ → ℕ → ℕ → Store → Option (ℤ × ℕ) × Store
unfolding live purge
add key amount ttl now st =
    let (entry, st') = live key now (purge now st) in
    add_to key amount now st' (counter_of now ttl entry)
