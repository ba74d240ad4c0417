-- ===== src/Store/Refines.antt =====
-- `MemoryStore` (app/core/store.py) against `Store.Ideal`.
use text.Mathlib.Text.{◌==◌ as str_eq}
use mathlib.Core.Path.{ap₂}
use assignment_cloud_instanc.Prelude.{
  ℕ, ◌+◌, ◌≤◌, ◌≡◌, refl, sym, ap, ◌∙◌, Option, none, some, String, List, [], ◌∷◌, arith,
  Bool-cases, Option-cases, inl, inr, if◌then◌else◌,
}
use assignment_cloud_instanc.Prelude.Ints.{ℤ, ◌+ℤ◌}
use assignment_cloud_instanc.Store.{
  Value, number, Entry, Store, seconds, is_some, value_of, counter_of, get, set, exists, delete,
  new_store,
}
use assignment_cloud_instanc.Store.Live.{IsMap, held, unexpired}
use assignment_cloud_instanc.Store.Timed.{
  get_answers, set_writes, add_counts, add_fails, delete_erases,
}
use assignment_cloud_instanc.Store.Ideal.{
  Operation, get_value, exists_key, delete_key, set_value, add_amount, Reply, got, found, counted,
  perform, replies, Contents, current, write, ideal_value, ideal_counter, ideal, ideal_replies,
  Forward,
}

-- An entry without its key.
abbrev plain : Option Entry → Option (Value × ℕ)
plain none = none
plain (some e) = some (e.value, e.expires)

-- The store holds what the function says, from `now` on.
pub record Agrees (now : ℕ) (st : Store) (m : Contents) : Type 0 where
  pub is_map : IsMap st.entries
  pub holds : (k : String) (t : ℕ) → now ≤ t → plain (held k t st) ≡ current t (m k)

value_of-plain : (o : Option Entry) → value_of o ≡ ideal_value (plain o)
value_of-plain none = refl
value_of-plain (some e) = refl

is_some-plain : (o : Option Entry) → is_some (value_of o) ≡ is_some (plain o)
is_some-plain none = refl
is_some-plain (some e) = refl

counter_of-plain :
    (now ttl : ℕ) (o : Option Entry) → counter_of now ttl o ≡ ideal_counter now ttl (plain o)
counter_of-plain now ttl none = refl
counter_of-plain now ttl (some e) = refl

plain-unexpired :
    (t : ℕ) (e : Entry) → plain (unexpired t (some e)) ≡ current t (some (e.value, e.expires))
plain-unexpired t e = ground arith

-- A write under one key.
written :
    (key k : String) (t : ℕ) (o : Option Entry) (v : Option (Value × ℕ)) (old : Option Entry)
    (m : Contents)
    → plain o ≡ current t v
    → plain old ≡ current t (m k)
    → plain (if str_eq key k then o else old) ≡ current t (write key v m k)
written key k t o v old m h g = elim (Bool-cases (str_eq key k)) [
  | inl here ↦ rw here h
  | inr other ↦ rw other g
]

-- One call answers as on the function, and leaves what the function then says.
record Refined (now : ℕ) (out : Reply × Store) (ideal_out : Reply × Contents) : Type 0 where
  pub answers : out.0 ≡ ideal_out.0
  pub agrees : Agrees now out.1 ideal_out.1

module _ (now : ℕ) (st : Store) (m : Contents) (agrees : Agrees now st m) where
  Refined-read :
      (key : String) (f : Option Value → Reply) (g : Option (Value × ℕ) → Reply)
      → ((o : Option Entry) → f (value_of o) ≡ g (plain o))
      → Refined now (f (get key now st).0, (get key now st).1) (g (current now (m key)), m)
  Refined-read key f g same =
      let read = get_answers key key now now (omega arith) st agrees.is_map in
      record {
        answers = ap f read.0 ∙ same (held key now st) ∙ ap g (agrees.holds key now (omega arith));
        agrees = record {
          is_map = read.2;
          holds =
              λ k t h. ap plain (get_answers key k now t h st agrees.is_map).1 ∙ agrees.holds k t h;
        };
      }

  Refined-set :
      (key : String) (value : Value) (ttl : ℕ)
      → Agrees now (set key value ttl now st) (write key (some (value, now + seconds ttl)) m)
  Refined-set key value ttl = record {
    is_map = (set_writes key key now now (omega arith) st agrees.is_map value ttl).1;
    holds = λ k t h.
        let e : Entry = record { key = key; value = value; expires = now + seconds ttl } in
        ap plain (set_writes key k now t h st agrees.is_map value ttl).0
        ∙ written key k t (unexpired t (some e)) (some (value, now + seconds ttl)) (held k t st) m
            (plain-unexpired t e) (agrees.holds k t h);
  }

  Refined-delete : (key : String) → Agrees now (delete key st) (write key none m)
  Refined-delete key = record {
    is_map = (delete_erases key key now st agrees.is_map).1;
    holds = λ k t h.
        ap plain (delete_erases key k t st agrees.is_map).0
        ∙ written key k t none none (held k t st) m refl (agrees.holds k t h);
  }

  Refined-add :
      (key : String) (amount : ℤ) (ttl : ℕ)
      → Refined now
          (perform (add_amount key amount ttl) now st)
          (ideal (add_amount key amount ttl) now m)
  Refined-add key amount ttl =
      let same : counter_of now ttl (held key now st)
          ≡ ideal_counter now ttl (current now (m key)) =
        counter_of-plain now ttl (held key now st)
        ∙ ap (ideal_counter now ttl) (agrees.holds key now (omega arith)) in
      elim (Option-cases (counter_of now ttl (held key now st))) [
        | inl text ↦
            let fails = add_fails key key now now (omega arith) st agrees.is_map amount ttl text in
            rw (sym same ∙ text) (record {
              answers = ap counted fails.0;
              agrees = record {
                is_map = fails.2;
                holds = λ k t h.
                    ap plain (add_fails key k now t h st agrees.is_map amount ttl text).1
                    ∙ agrees.holds k t h;
              };
            })
        | inr (c, number_held) ↦
            let counts =
              add_counts key key now now (omega arith) st agrees.is_map amount ttl number_held in
            let e : Entry = record { key = key; value = number (c.0 +ℤ amount); expires = c.1 } in
            rw (sym same ∙ number_held) (record {
              answers = ap counted counts.0;
              agrees = record {
                is_map = counts.2;
                holds = λ k t h.
                    ap plain (add_counts key k now t h st agrees.is_map amount ttl number_held).1
                    ∙ written key k t (unexpired t (some e)) (some (number (c.0 +ℤ amount), c.1))
                        (held k t st) m (plain-unexpired t e) (agrees.holds k t h);
              };
            })
      ]

  Refined-perform : (op : Operation) → Refined now (perform op now st) (ideal op now m)
  unfolding exists
  Refined-perform (get_value key) =
      Refined-read key got (λ o. got (ideal_value o)) (λ o. ap got (value_of-plain o))
  Refined-perform (exists_key key) =
      Refined-read key (λ o. found (is_some o)) (λ o. found (is_some o))
        (λ o. ap found (is_some-plain o))
  Refined-perform (delete_key key) = record { answers = refl; agrees = Refined-delete key }
  Refined-perform (set_value key value ttl) = record {
    answers = refl;
    agrees = Refined-set key value ttl;
  }
  Refined-perform (add_amount key amount ttl) = Refined-add key amount ttl

Agrees-later :
    (now later : ℕ) (st : Store) (m : Contents) → now ≤ later → Agrees now st m → Agrees later st m
Agrees-later now later st m h a = record {
  is_map = a.is_map;
  holds = λ k t g. a.holds k t (omega arith);
}

replies-ideal :
    (now : ℕ) (ops : List (Operation × ℕ)) (st : Store) (m : Contents)
    → Forward now ops
    → Agrees now st m
    → replies ops st ≡ ideal_replies ops m
replies-ideal now [] st m f a = refl
replies-ideal now ((op, later) ∷ ops) st m f a =
    let step = Refined-perform later st m (Agrees-later now later st m f.0 a) op in
    ap₂ ◌∷◌ step.answers
      (replies-ideal later ops (perform op later st).1 (ideal op later m).1 f.1 step.agrees)

-- Any sequence of calls of a new `MemoryStore`, at readings of the clock that do not go back,
-- answers as a function from keys to values with their expiry does, which never purges and
-- deletes nothing on a read.
pub store_refines :
    (opened : ℕ) (ops : List (Operation × ℕ))
    → Forward opened ops
    → replies ops (new_store opened) ≡ ideal_replies ops (λ k. none)
store_refines opened ops f =
    replies-ideal opened ops (new_store opened) (λ k. none) f
      (record { is_map = tt; holds = λ k t h. refl })
