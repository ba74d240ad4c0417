-- ===== src/Store/Timed.antt =====
-- The operations of `MemoryStore` (app/core/store.py) by what the store holds at a time.
use text.Mathlib.Text.{◌==◌ as str_eq}
use assignment_cloud_instanc.Prelude.{
  ℕ, ◌≤◌, ◌+◌, ◌≡◌, refl, ap, ◌∙◌, true, none, some, String, List, arith, leb, Bool-cases,
  Option-cases, inl, inr, if◌then◌else◌,
}
use assignment_cloud_instanc.Prelude.Ints.{ℤ, ◌+ℤ◌}
use assignment_cloud_instanc.Prelude.Perms.{Ordered-filter}
use assignment_cloud_instanc.Store.{
  Value, number, Entry, Store, seconds, lookup, erase, assign, live, purge, value_of, get, set,
  delete, add, counter_of, retry_after,
}
use assignment_cloud_instanc.Store.Keys.{str_eq→eq}
use assignment_cloud_instanc.Store.Live.{
  IsMap, unexpired, held, held-purge, IsMap-purge, IsMap-assign, lookup-assign, lookup-erase,
}

-- Erasing an expired entry.
unexpired-erased :
    (k k' : String) (now t : ℕ) (xs : List Entry) (e : Entry)
    → now ≤ t
    → lookup k xs ≡ some e
    → leb e.expires now ≡ true
    → unexpired t (lookup k' (erase k xs)) ≡ unexpired t (lookup k' xs)
unexpired-erased k k' now t xs e h f x = elim (Bool-cases (str_eq k k')) [
  | inl here ↦
      let found : lookup k' xs ≡ some e = rw (← str_eq→eq here) f in
      rw (lookup-erase, here, found) (ground arith)
  | inr other ↦ rw (lookup-erase, other) refl
]

module _ (k : String) (now : ℕ) (st : Store) where
  live_reads : (live k now st).0 ≡ held k now st
  unfolding live
  live_reads = elim (Option-cases (lookup k st.entries)) [
    | inl missing ↦ rw missing refl
    | inr (e, found) ↦ rw found (ground arith)
  ]

  pub held-live : (k' : String) (t : ℕ) → now ≤ t → held k' t (live k now st).1 ≡ held k' t st
  unfolding live
  held-live k' t h = elim (Option-cases (lookup k st.entries)) [
    | inl missing ↦ rw missing refl
    | inr (e, found) ↦ elim (Bool-cases (leb e.expires now)) [
      | inl old ↦ rw (found, old) (unexpired-erased k k' now t st.entries e h found old)
      | inr fresh ↦ rw (found, fresh) refl
    ]
  ]

  pub IsMap-live : IsMap st.entries → IsMap (live k now st).1.entries
  unfolding live
  IsMap-live m = elim (Option-cases (lookup k st.entries)) [
    | inl missing ↦ rw missing m
    | inr (e, found) ↦ elim (Bool-cases (leb e.expires now)) [
      | inl old ↦ rw (found, old) (Ordered-filter _ _ st.entries m)
      | inr fresh ↦ rw (found, fresh) m
    ]
  ]

pub held-assign :
    (e : Entry) (k : String) (t : ℕ) (st : Store)
    → held k t (record st { entries = assign e st.entries })
      ≡ (if str_eq e.key k then unexpired t (some e) else held k t st)
held-assign e k t st =
    rw lookup-assign
      (elim (Bool-cases (str_eq e.key k)) [ inl here ↦ rw here refl | inr other ↦ rw other refl ])

module _ (k k' : String) (now t : ℕ) (h : now ≤ t) (st : Store) (m : IsMap st.entries) where
  -- On a store with every key once, `get` answers what the key holds at that time, and nothing
  -- that any key holds from then on is changed by the deletion of an expired entry.
  pub get_answers :
      ((get k now st).0 ≡ value_of (held k now st))
      × (held k' t (get k now st).1 ≡ held k' t st)
      × IsMap (get k now st).1.entries
  unfolding get
  get_answers =
      (ap value_of (live_reads k now st), held-live k now st k' t h, IsMap-live k now st m)

  -- On a store with every key once, after `set` the key holds the value until `ttl` seconds
  -- have passed, every other key holds what it held, whether or not a purge was due, and every
  -- key stands once.
  pub set_writes :
      (v : Value) (ttl : ℕ)
      → (held k' t (set k v ttl now st) ≡ (
          if str_eq k k'
          then unexpired t (some (record { key = k; value = v; expires = now + seconds ttl }))
          else held k' t st))
        × IsMap (set k v ttl now st).entries
  unfolding set
  set_writes v ttl =
      let e : Entry = record { key = k; value = v; expires = now + seconds ttl } in
      (
        held-assign e k' t (purge now st)
            ∙ ap (λ o. if str_eq k k' then unexpired t (some e) else o)
                (held-purge now t h k' st m),
        IsMap-assign e (purge now st).entries (IsMap-purge now st m),
      )

  -- On a store with every key once, if the entry that the key holds is a counter or absent,
  -- `add` answers the counter moved by the amount with the seconds left of its window; from
  -- then on the key holds it until the same expiry as before, every other key holds what it
  -- held, and every key stands once.
  pub add_counts :
      (amount : ℤ) (ttl : ℕ) {c : ℤ × ℕ}
      → counter_of now ttl (held k now st) ≡ some c
      → let out = add k amount ttl now st in
        (out.0 ≡ some (c.0 +ℤ amount, retry_after c.1 now))
        × (held k' t out.1 ≡ (
            if str_eq k k'
            then unexpired t
                (some (record { key = k; value = number (c.0 +ℤ amount); expires = c.1 }))
            else held k' t st))
        × IsMap out.1.entries
  unfolding add
  add_counts amount ttl {c} e =
      let st' : Store = (live k now (purge now st)).1 in
      let entry : Entry = record { key = k; value = number (c.0 +ℤ amount); expires = c.1 } in
      let found : counter_of now ttl (live k now (purge now st)).0 ≡ some c =
        ap (counter_of now ttl)
          (live_reads k now (purge now st) ∙ held-purge now now (omega arith) k st m)
        ∙ e in
      rw found (
        refl,
        held-assign entry k' t st'
            ∙ ap (λ o. if str_eq k k' then unexpired t (some entry) else o)
                (held-live k now (purge now st) k' t h ∙ held-purge now t h k' st m),
        IsMap-assign entry st'.entries (IsMap-live k now (purge now st) (IsMap-purge now st m)),
      )

  -- On a store with every key once, if the key holds another text than a number, `add` fails with
  -- the ValueError, and every key holds what it held.
  pub add_fails :
      (amount : ℤ) (ttl : ℕ)
      → counter_of now ttl (held k now st) ≡ none
      → let out = add k amount ttl now st in
        (out.0 ≡ none) × (held k' t out.1 ≡ held k' t st) × IsMap out.1.entries
  unfolding add
  add_fails amount ttl e =
      let found : counter_of now ttl (live k now (purge now st)).0 ≡ none =
        ap (counter_of now ttl)
          (live_reads k now (purge now st) ∙ held-purge now now (omega arith) k st m)
        ∙ e in
      rw found (
        refl,
        held-live k now (purge now st) k' t h ∙ held-purge now t h k' st m,
        IsMap-live k now (purge now st) (IsMap-purge now st m),
      )

-- On a store with every key once, after `delete` the key holds nothing, every other key holds
-- what it held, and every key stands once.
pub delete_erases :
    (k k' : String) (t : ℕ) (st : Store)
    → IsMap st.entries
    → (held k' t (delete k st) ≡ (if str_eq k k' then none else held k' t st))
      × IsMap (delete k st).entries
unfolding delete
delete_erases k k' t st m = (
  rw lookup-erase
      (elim (Bool-cases (str_eq k k')) [ inl here ↦ rw here refl | inr other ↦ rw other refl ]),
  Ordered-filter _ _ st.entries m,
)
