-- ===== src/Revocation/Denylist.antt =====
-- How long a revoked token is refused (app/core/revocation.py).
use assignment_cloud_instanc.Prelude.{
  ℕ, ◌≤◌, ◌<◌, ◌+◌, ◌≡◌, refl, ap, ◌∙◌, true, false, none, arith, leb, Bool-cases, inl, inr,
}
use assignment_cloud_instanc.Session.{ok, err, http}
use assignment_cloud_instanc.Prelude.Ints.{pos}
use assignment_cloud_instanc.Store.{Store, seconds, exists, is_some, value_of, number}
use assignment_cloud_instanc.Store.Keys.{str_eq_self}
use assignment_cloud_instanc.Store.Live.{IsMap, held}
use assignment_cloud_instanc.Store.Timed.{set_writes, get_answers}
use assignment_cloud_instanc.Revocation.{
  Claims, decoded, revoked_key, remaining, revoke_token, is_token_revoked, admit, get_token_claims,
}

module _ (claims : Claims) (wall now later : ℕ) (st : Store) (h : now ≤ later)
    (m : IsMap st.entries) where
  pub held-revoked :
      1 ≤ remaining claims wall
      → later < now + seconds (remaining claims wall)
      → is_some (value_of (held (revoked_key claims.jti) later (revoke_token claims wall now st)))
        ≡ true
  unfolding revoke_token
  held-revoked some_left early =
      let key = revoked_key claims.jti in
      let go : leb 1 (remaining claims wall) ≡ true = ground arith in
      let alive : leb (now + seconds (remaining claims wall)) later ≡ false = ground arith in
      rw go (
        rw
          (
            (set_writes key key now later h st m (number (pos 1)) (remaining claims wall)).0,
            str_eq_self,
            alive,
          )
          refl)

  pub IsMap-revoked : IsMap (revoke_token claims wall now st).entries
  unfolding revoke_token
  IsMap-revoked =
      let key = revoked_key claims.jti in
      elim (Bool-cases (leb 1 (remaining claims wall))) [
        | inl left ↦
            rw left (set_writes key key now later h st m (number (pos 1)) (remaining claims wall)).1
        | inr gone ↦ rw gone m
      ]

  -- If at least one whole second is left of a token when it is revoked, on a store with every
  -- key once, it is refused as revoked until that number of whole seconds has passed.
  pub revoked_refused :
      1 ≤ remaining claims wall
      → later < now + seconds (remaining claims wall)
      → (get_token_claims (decoded claims) later (revoke_token claims wall now st)).0
        ≡ err (http 401 "Token has been revoked" none)
  unfolding get_token_claims is_token_revoked exists
  revoked_refused some_left early =
      let key = revoked_key claims.jti in
      let st' : Store = revoke_token claims wall now st in
      let found = (get_answers key key later later (omega arith) st' IsMap-revoked).0 in
      ap (admit claims) (ap is_some found ∙ held-revoked some_left early)

  held-readmitted :
      held (revoked_key claims.jti) later st ≡ none
      → now + seconds (remaining claims wall) ≤ later
      → held (revoked_key claims.jti) later (revoke_token claims wall now st) ≡ none
  unfolding revoke_token
  held-readmitted fresh late =
      let key = revoked_key claims.jti in
      elim (Bool-cases (leb 1 (remaining claims wall))) [
        | inl left ↦
            let gone : leb (now + seconds (remaining claims wall)) later ≡ true = ground arith in
            rw left (
              rw
                (
                  (set_writes key key now later h st m (number (pos 1)) (remaining claims wall)).0,
                  str_eq_self,
                  gone,
                )
                refl)
        | inr short ↦ rw short fresh
      ]

  -- If the store, with every key once, holds nothing else under the key of a token, the revoked
  -- token is admitted again once the whole seconds that were left of it when it was revoked
  -- have passed.
  pub revoked_readmitted :
      held (revoked_key claims.jti) later st ≡ none
      → now + seconds (remaining claims wall) ≤ later
      → (get_token_claims (decoded claims) later (revoke_token claims wall now st)).0 ≡ ok claims
  unfolding get_token_claims is_token_revoked exists
  revoked_readmitted fresh late =
      let key = revoked_key claims.jti in
      let st' : Store = revoke_token claims wall now st in
      let found = (get_answers key key later later (omega arith) st' IsMap-revoked).0 in
      ap (admit claims) (ap is_some (found ∙ ap value_of (held-readmitted fresh late)))
