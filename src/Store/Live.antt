-- ===== src/Store/Live.antt =====
-- What the store of app/core/store.py holds at a time: the entries that have not expired.
use text.Mathlib.Text.{◌==◌ as str_eq}
use assignment_cloud_instanc.Prelude.{
  ℕ, ◌≤◌, ◌-◌, ◌≡◌, refl, ap, ◌∙◌, Bool, true, false, Option, none, some, String, List, [], ◌∷◌,
  arith, filter, leb, ltb, All, Ordered, Bool-cases, inl, inr, if◌then◌else◌,
}
use assignment_cloud_instanc.Prelude.Perms.{Ordered-filter}
use assignment_cloud_instanc.Store.{Entry, Store, lookup, erase, assign, purge, purge_interval}
use assignment_cloud_instanc.Store.Keys.{str_eq_self, str_eq→eq}

-- Every key once.
abbrev pub IsMap : List Entry → Type 0
IsMap entries = Ordered (λ a b. str_eq a.key b.key ≡ false) entries

abbrev pub unexpired : ℕ → Option Entry → Option Entry
unexpired t none = none
unexpired t (some e) = if leb e.expires t then none else some e

-- What the store holds under the key at the time `t`.
abbrev pub held : String → ℕ → Store → Option Entry
held key t st = unexpired t (lookup key st.entries)

pub str_eq_sym : (s t : String) → str_eq s t ≡ false → str_eq t s ≡ false
str_eq_sym s t h = elim (Bool-cases (str_eq t s)) [
  | inl same ↦
      let self : str_eq s t ≡ true = rw (str_eq→eq same) (str_eq_self s) in
      absurd (ground (arith, h, self))
  | inr other ↦ other
]

pub lookup-erase :
    (k k' : String) (xs : List Entry)
    → lookup k' (erase k xs) ≡ (if str_eq k k' then none else lookup k' xs)
lookup-erase k k' [] = ground arith
lookup-erase k k' (e ∷ xs) = elim (Bool-cases (str_eq e.key k)) [
  | inl gone ↦
      let same : str_eq e.key k' ≡ str_eq k k' = ap (λ s. str_eq s k') (str_eq→eq gone) in
      rw gone (ground (arith, same, lookup-erase k k' xs))
  | inr stays ↦ elim (Bool-cases (str_eq k k')) [
    | inl here ↦
        let other : str_eq e.key k' ≡ false = rw (← str_eq→eq here) stays in
        rw stays (ground (arith, other, here, lookup-erase k k' xs))
    | inr other ↦ rw stays (ground (arith, other, lookup-erase k k' xs))
  ]
]

pub lookup-assign :
    (e : Entry) (k : String) (xs : List Entry)
    → lookup k (assign e xs) ≡ (if str_eq e.key k then some e else lookup k xs)
lookup-assign e k xs = ground (arith, lookup-erase e.key k xs)

abbrev kept : (Entry → Bool) → Option Entry → Option Entry
kept p none = none
kept p (some e) = if p e then some e else none

lookup-none :
    (a k : String) (xs : List Entry)
    → All (λ (b : Entry). str_eq a b.key ≡ false) xs
    → str_eq a k ≡ true
    → lookup k xs ≡ none
lookup-none a k [] h e = refl
lookup-none a k (x ∷ xs) h e =
    let other : str_eq x.key k ≡ false = str_eq_sym k x.key (rw (← str_eq→eq e) h.0) in
    rw other (lookup-none a k xs h.1 e)

lookup-filter :
    (p : Entry → Bool) (k : String) (xs : List Entry)
    → IsMap xs
    → lookup k (filter p xs) ≡ kept p (lookup k xs)
lookup-filter p k [] h = refl
lookup-filter p k (e ∷ xs) h = elim (Bool-cases (str_eq e.key k)) [
  | inl here ↦
      let rest : lookup k (filter p xs) ≡ none =
        lookup-filter p k xs h.1 ∙ ap (kept p) (lookup-none e.key k xs h.0 here) in
      elim (Bool-cases (p e)) [
        | inl pass ↦ rw (here, pass) (rw here refl)
        | inr fail ↦ rw (here, fail) rest
      ]
  | inr other ↦ elim (Bool-cases (p e)) [
    | inl pass ↦ rw (other, pass) (rw other (lookup-filter p k xs h.1))
    | inr fail ↦ rw (other, fail) (lookup-filter p k xs h.1)
  ]
]

unexpired-kept :
    (now t : ℕ) (o : Option Entry)
    → now ≤ t
    → unexpired t (kept (λ e. ltb now e.expires) o) ≡ unexpired t o
unexpired-kept now t none h = refl
unexpired-kept now t (some e) h = ground arith

module _ (now t : ℕ) (h : now ≤ t) (k : String) (st : Store) (m : IsMap st.entries) where
  pub held-purge : held k t (purge now st) ≡ held k t st
  unfolding purge
  held-purge = elim (Bool-cases (ltb (now - st.last_purge) purge_interval)) [
    | inl early ↦ rw early refl
    | inr due ↦ rw due (
        ap (unexpired t) (lookup-filter (λ e. ltb now e.expires) k st.entries m)
        ∙ unexpired-kept now t (lookup k st.entries) h)
  ]

pub IsMap-purge : (now : ℕ) (st : Store) → IsMap st.entries → IsMap (purge now st).entries
unfolding purge
IsMap-purge now st m = elim (Bool-cases (ltb (now - st.last_purge) purge_interval)) [
  | inl early ↦ rw early m
  | inr due ↦ rw due (Ordered-filter _ _ st.entries m)
]

All-erased :
    (k : String) (xs : List Entry) → All (λ (b : Entry). str_eq k b.key ≡ false) (erase k xs)
All-erased k [] = tt
All-erased k (x ∷ xs) = elim (Bool-cases (str_eq x.key k)) [
  | inl gone ↦ rw gone (All-erased k xs)
  | inr stays ↦ rw stays (str_eq_sym x.key k stays, All-erased k xs)
]

pub IsMap-assign : (e : Entry) (xs : List Entry) → IsMap xs → IsMap (assign e xs)
IsMap-assign e xs m = (All-erased e.key xs, Ordered-filter _ _ xs m)
