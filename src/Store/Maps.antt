-- ===== src/Store/Maps.antt =====
-- The operations of app/core/store.py on the keys of the store.
use assignment_cloud_instanc.Prelude.{ℕ, none, some, String, arith, Option}
use assignment_cloud_instanc.Prelude.Ints.{ℤ, ◌+ℤ◌}
use assignment_cloud_instanc.Store.{
  Value, number, Store, live, purge, get, set, exists, delete, add, add_to, counter_of,
}
use assignment_cloud_instanc.Store.Live.{IsMap, IsMap-purge, IsMap-assign}
use assignment_cloud_instanc.Store.Timed.{IsMap-live, get_answers, set_writes, delete_erases}

module _ (k : String) (now : ℕ) (st : Store) (m : IsMap st.entries) where
  pub IsMap-get : IsMap (get k now st).1.entries
  IsMap-get = (get_answers k k now now (omega arith) st m).2

  pub IsMap-set : (v : Value) (ttl : ℕ) → IsMap (set k v ttl now st).entries
  IsMap-set v ttl = (set_writes k k now now (omega arith) st m v ttl).1

  pub IsMap-exists : IsMap (exists k now st).1.entries
  unfolding exists
  IsMap-exists = IsMap-get

  IsMap-add_to :
      (amount : ℤ) (st' : Store) (c : Option (ℤ × ℕ))
      → IsMap st'.entries
      → IsMap (add_to k amount now st' c).1.entries
  IsMap-add_to amount st' none h = h
  IsMap-add_to amount st' (some c) h =
      IsMap-assign (record { key = k; value = number (c.0 +ℤ amount); expires = c.1 }) st'.entries h

  pub IsMap-add : (amount : ℤ) (ttl : ℕ) → IsMap (add k amount ttl now st).1.entries
  unfolding add
  IsMap-add amount ttl =
      IsMap-add_to amount (live k now (purge now st)).1
        (counter_of now ttl (live k now (purge now st)).0)
        (IsMap-live k now (purge now st) (IsMap-purge now st m))

pub IsMap-delete : (k : String) (st : Store) → IsMap st.entries → IsMap (delete k st).entries
IsMap-delete k st m = (delete_erases k k 0 st m).1
