-- ===== src/Store/Others.antt =====
-- The operations of app/core/store.py, and what another key holds.
use text.Mathlib.Text.{◌==◌ as str_eq}
use assignment_cloud_instanc.Prelude.{ℕ, ◌≤◌, ◌≡◌, refl, ◌∙◌, false, Option, none, some, String}
use assignment_cloud_instanc.Prelude.Ints.{ℤ, ◌+ℤ◌}
use assignment_cloud_instanc.Store.{number, Store, live, purge, add, add_to, delete, counter_of}
use assignment_cloud_instanc.Store.Live.{IsMap, held, held-purge}
use assignment_cloud_instanc.Store.Timed.{delete_erases, held-live, held-assign}

module _ (k k' : String) (t : ℕ) (other : str_eq k k' ≡ false) where
  held-add_to :
      (amount : ℤ) (now : ℕ) (st : Store) (c : Option (ℤ × ℕ))
      → held k' t (add_to k amount now st c).1 ≡ held k' t st
  held-add_to amount now st none = refl
  held-add_to amount now st (some c) =
      held-assign (record { key = k; value = number (c.0 +ℤ amount); expires = c.1 }) k' t st
      ∙ rw other refl

  pub held-add_other :
      (amount : ℤ) (ttl now : ℕ) (st : Store)
      → now ≤ t
      → IsMap st.entries
      → held k' t (add k amount ttl now st).1 ≡ held k' t st
  unfolding add
  held-add_other amount ttl now st h m =
      held-add_to amount now (live k now (purge now st)).1
        (counter_of now ttl (live k now (purge now st)).0)
      ∙ held-live k now (purge now st) k' t h
      ∙ held-purge now t h k' st m

  pub held-delete_other : (st : Store) → IsMap st.entries → held k' t (delete k st) ≡ held k' t st
  held-delete_other st m = (delete_erases k k' t st m).0 ∙ rw other refl
