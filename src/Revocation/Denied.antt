-- ===== src/Revocation/Denied.antt =====
-- A token on the denylist (app/core/revocation.py), and the operations of the store.
use text.Mathlib.Text.{◌==◌ as str_eq}
use assignment_cloud_instanc.Prelude.{
  ℕ, ◌≤◌, ◌≡◌, refl, ap, ◌∙◌, true, false, Option, none, some, String, arith, leb, Bool-cases, inl,
  inr,
}
use assignment_cloud_instanc.Prelude.Ints.{ℤ, pos}
use assignment_cloud_instanc.Session.{err, http}
use assignment_cloud_instanc.Store.{
  Value, Entry, Store, lookup, get, set, add, delete, exists, is_some, value_of, number,
}
use assignment_cloud_instanc.Store.Live.{IsMap, unexpired, held}
use assignment_cloud_instanc.Store.Maps.{IsMap-add, IsMap-delete}
use assignment_cloud_instanc.Store.Others.{held-add_other, held-delete_other}
use assignment_cloud_instanc.Store.Timed.{get_answers, set_writes}
use assignment_cloud_instanc.Revocation.{
  Claims, Decoded, no_credentials, expired_signature, invalid_token, decoded, revoked_key,
  get_token_claims, is_token_revoked, revoke_token, remaining,
}

pub is_some_value : (o : Option Entry) → is_some (value_of o) ≡ is_some o
is_some_value none = refl
is_some_value (some e) = refl

module _ (jti : String) (t : ℕ) where
  -- The denylist holds the token's id until after `t`.
  pub record Denied (st : Store) : Type 0 where
    pub is_map : IsMap st.entries
    pub denied : is_some (held (revoked_key jti) t st) ≡ true

  module _ (st : Store) (d : Denied st) where
    kept :
        (st' : Store)
        → IsMap st'.entries
        → held (revoked_key jti) t st' ≡ held (revoked_key jti) t st
        → Denied st'
    kept st' m h = record { is_map = m; denied = ap is_some h ∙ d.denied }

    pub Denied-get : (k : String) (now : ℕ) → now ≤ t → Denied (get k now st).1
    Denied-get k now h =
        let out = get_answers k (revoked_key jti) now t h st d.is_map in
        kept (get k now st).1 out.2 out.1

    pub Denied-set :
        (k : String) (v : Value) (ttl now : ℕ)
        → str_eq k (revoked_key jti) ≡ false
        → now ≤ t
        → Denied (set k v ttl now st)
    Denied-set k v ttl now other h =
        let out = set_writes k (revoked_key jti) now t h st d.is_map v ttl in
        kept (set k v ttl now st) out.1 (out.0 ∙ rw other refl)

    pub Denied-delete : (k : String) → str_eq k (revoked_key jti) ≡ false → Denied (delete k st)
    Denied-delete k other =
        kept (delete k st) (IsMap-delete k st d.is_map)
          (held-delete_other k (revoked_key jti) t other st d.is_map)

    pub Denied-add :
        (k : String) (amount : ℤ) (ttl now : ℕ)
        → str_eq k (revoked_key jti) ≡ false
        → now ≤ t
        → Denied (add k amount ttl now st).1
    Denied-add k amount ttl now other h =
        kept (add k amount ttl now st).1 (IsMap-add k now st d.is_map amount ttl)
          (held-add_other k (revoked_key jti) t other amount ttl now st h d.is_map)

  -- What is held until after `t` is held before.
  held_before :
      (now : ℕ) (o : Option Entry)
      → now ≤ t
      → is_some (unexpired t o) ≡ true
      → is_some (unexpired now o) ≡ true
  held_before now none h e = e
  held_before now (some x) h e = ground (arith, h, e)

  pub Denied-is_token_revoked :
      (st : Store) (now : ℕ) (j : String)
      → now ≤ t
      → Denied st
      → revoked_key j ≡ revoked_key jti
      → (is_token_revoked j now st).0 ≡ true
  unfolding is_token_revoked exists
  Denied-is_token_revoked st now j h d same =
      ap (λ k. is_some (get k now st).0) same
      ∙ ap is_some
          (get_answers (revoked_key jti) (revoked_key jti) now now (omega arith) st d.is_map).0
      ∙ is_some_value (held (revoked_key jti) now st)
      ∙ held_before now (lookup (revoked_key jti) st.entries) h d.denied

  -- While the entry lasts the token is refused.
  pub Denied-refused :
      (st : Store) (now : ℕ) (claims : Claims)
      → now ≤ t
      → Denied st
      → revoked_key claims.jti ≡ revoked_key jti
      → (get_token_claims (decoded claims) now st).0 ≡ err (http 401 "Token has been revoked" none)
  unfolding get_token_claims
  Denied-refused st now claims h d same =
      rw (Denied-is_token_revoked st now claims.jti h d same) refl

  pub Denied-get_token_claims :
      (st : Store) (now : ℕ) (c : Decoded)
      → now ≤ t
      → Denied st
      → Denied (get_token_claims c now st).1
  unfolding get_token_claims is_token_revoked exists
  Denied-get_token_claims st now no_credentials h d = d
  Denied-get_token_claims st now expired_signature h d = d
  Denied-get_token_claims st now invalid_token h d = d
  Denied-get_token_claims st now (decoded claims) h d =
      Denied-get st d (revoked_key claims.jti) now h

  pub Denied-revoke_token :
      (st : Store) (claims : Claims) (wall now : ℕ)
      → str_eq (revoked_key claims.jti) (revoked_key jti) ≡ false
      → now ≤ t
      → Denied st
      → Denied (revoke_token claims wall now st)
  unfolding revoke_token
  Denied-revoke_token st claims wall now other h d =
      elim (Bool-cases (leb 1 (remaining claims wall))) [
        | inl left ↦ rw left (
            Denied-set st d (revoked_key claims.jti) (number (pos 1)) (remaining claims wall) now
              other h)
        | inr gone ↦ rw gone d
      ]
