-- ===== src/Api/Tokens.antt =====
-- The life of a token: app/core/security.py, `get_token_claims` of app/core/deps.py, and the log
-- out.
use assignment_cloud_instanc.Prelude.{
  ℕ, ◌≤◌, ◌<◌, ◌+◌, ◌*◌, ◌/◌, ◌≡◌, refl, sym, ap, ◌∙◌, false, none, some, String, List, [], ◌∷◌,
  All, arith,
}
use assignment_cloud_instanc.Models.{Member}
use assignment_cloud_instanc.Config.{Settings}
use assignment_cloud_instanc.Session.{Result, ok, err, http}
use assignment_cloud_instanc.Database.{Database}
use assignment_cloud_instanc.Store.{Store, seconds, exists, is_some, value_of}
use assignment_cloud_instanc.Store.Live.{IsMap, held}
use assignment_cloud_instanc.Store.Maps.{IsMap-get}
use assignment_cloud_instanc.Store.Timed.{get_answers}
use assignment_cloud_instanc.Revocation.{
  Claims, decoded, revoked_key, remaining, revoke_token, is_token_revoked, get_token_claims,
}
use assignment_cloud_instanc.Revocation.Denied.{Denied, Denied-refused, is_some_value}
use assignment_cloud_instanc.Revocation.Denylist.{held-revoked, IsMap-revoked}
use assignment_cloud_instanc.Security.{payload, claims_of, create_access_token}
use assignment_cloud_instanc.Schemas.{LoginRequest}
use assignment_cloud_instanc.Controllers.AuthRoutes
use assignment_cloud_instanc.Controllers.AuthRoutes.{Services, Attempt, issue}
use assignment_cloud_instanc.Api.{Call, Moment, World, handle}
use assignment_cloud_instanc.Api.Denials.{Denied-login, Denied-logout, Denied-handle}
use assignment_cloud_instanc.Api.Denials.Diagnoses.{Denied-diagnosis}
use assignment_cloud_instanc.Api.Refines.{handle_refused}
use assignment_cloud_instanc.Api.Requests.{Request, credentials, step, run}

-- What `get_token_claims` answers for a token that the denylist does not hold.
module _ (claims : Claims) (now : ℕ) (st : Store) (m : IsMap st.entries)
    (fresh : held (revoked_key claims.jti) now st ≡ none) where
  not_revoked : (is_token_revoked claims.jti now st).0 ≡ false
  unfolding is_token_revoked exists
  not_revoked =
      let key = revoked_key claims.jti in
      ap is_some ((get_answers key key now now (omega arith) st m).0 ∙ ap value_of fresh)

  pub claims_admitted : (get_token_claims (decoded claims) now st).0 ≡ ok claims
  unfolding get_token_claims
  claims_admitted = rw not_revoked refl

  IsMap-admitted : IsMap (get_token_claims (decoded claims) now st).1.entries
  unfolding get_token_claims is_token_revoked exists
  IsMap-admitted = IsMap-get (revoked_key claims.jti) now st m

-- The token that a log in issues is admitted as the member's, with its id and its expiry, at
-- any wall time from the log in on that is at least a second before the lifetime of the
-- settings ends, on a store with every key once that does not hold it on the denylist.
pub token_authenticates :
    (services : Services) (settings : Settings) (body : LoginRequest) (attempt : Attempt)
    (member : Member) (wall now : ℕ) (st : Store)
    → attempt.wall ≤ wall
    → wall + 1_000_000 ≤ attempt.wall + seconds (settings.access_token_expire_minutes * 60)
    → IsMap st.entries
    → held (revoked_key attempt.jti) now st ≡ none
    → (get_token_claims
        (credentials services.jwt
          (some (issue services settings body attempt member).access_token)
          wall)
        now
        st).0
      ≡ ok (record {
        sub = member.id;
        jti = attempt.jti;
        exp = (attempt.wall + seconds (settings.access_token_expire_minutes * 60)) / 1_000_000;
      })
unfolding create_access_token
token_authenticates services settings body attempt member wall now st issued_by early m fresh =
    let p = payload settings member.id member.email member.role attempt.wall attempt.jti in
    rw (services.jwt.decode_encode p wall (omega (arith, issued_by)) (omega (arith, early)))
      (claims_admitted (claims_of p) now st m fresh)

revoked_ok :
    (claims : Claims) (wall later : ℕ) (out : Result Claims × Store)
    → out.0 ≡ ok claims
    → AuthRoutes.revoked wall later out ≡ (ok tt, revoke_token claims wall later out.1)
revoked_ok claims wall later (ok c, st) h =
    ap (λ (k : Claims). (ok tt, revoke_token k wall later st)) (ground (arith, h))
revoked_ok claims wall later (err e, st) h = absurd (ground arith)

-- Every clock of the store in the request is read by the time `t`.
abbrev pub Before : ℕ → Request → Type 0
Before t (Request.login body attempt) =
    (attempt.account_now ≤ t) × (attempt.ip_now ≤ t) × (attempt.release_now ≤ t)
Before t (Request.logout token wall now later) = (now ≤ t) × (later ≤ t)
Before t (Request.call c token wall m) = m.store_now ≤ t
Before t (Request.diagnosis i token wall provider checked now later) =
    (checked ≤ t) × (now ≤ t) × (later ≤ t)

module _ (db : Database) (settings : Settings) (services : Services)
    (sha256 strip : String → String) where
  abbrev next : Request → World → World
  next = step db settings services sha256 strip

  module _ (jti : String) (t : ℕ) where
    step-Denied :
        (r : Request) (w : World)
        → Before t r
        → Denied jti t w.store
        → Denied jti t (next r w).store
    unfolding step
    step-Denied (Request.login body attempt) w h d =
        Denied-login jti t services settings body attempt w.tables.members w.store h.0 h.1 h.2 d
    step-Denied (Request.logout token wall now later) w h d =
        Denied-logout jti t (credentials services.jwt token wall) wall now later w.store h.0 h.1 d
    step-Denied (Request.call c token wall m) w h d =
        Denied-handle jti t db settings m c (credentials services.jwt token wall) w h d
    step-Denied (Request.diagnosis i token wall provider checked now later) w h d =
        Denied-diagnosis jti t sha256 strip settings provider now later h.1 h.2 db services i
          (credentials services.jwt token wall) checked w h.0 d

    run-Denied :
        (rs : List Request) (w : World)
        → All (Before t) rs
        → Denied jti t w.store
        → Denied jti t (run db settings services sha256 strip rs w).store
    unfolding run
    run-Denied [] w h d = d
    run-Denied (r ∷ rs) w h d = run-Denied rs (next r w) h.1 (step-Denied r w h.0 d)

  module _ (token : String) (claims : Claims) (wall now later t : ℕ) (w : World)
      (valid : services.jwt.decode token wall ≡ decoded claims) (m : IsMap w.store.entries)
      (fresh : held (revoked_key claims.jti) now w.store ≡ none) (ordered : later ≤ t)
      (some_left : 1 ≤ remaining claims wall)
      (early : t < later + seconds (remaining claims wall)) where
    abbrev pub logged_out : World
    logged_out = next (Request.logout (some token) wall now later) w

    logged_out-Denied : Denied claims.jti t logged_out.store
    unfolding step AuthRoutes.logout
    logged_out-Denied =
        let st : Store = (get_token_claims (decoded claims) now w.store).1 in
        let m' : IsMap st.entries = IsMap-admitted claims now w.store m fresh in
        rw valid (
          rw
            (revoked_ok claims wall later (get_token_claims (decoded claims) now w.store)
              (claims_admitted claims now w.store m fresh))
            (record {
              is_map = IsMap-revoked claims wall later t st ordered m';
              denied =
                  sym (
                    is_some_value
                      (held (revoked_key claims.jti) t (revoke_token claims wall later st)))
                  ∙ held-revoked claims wall later t st ordered m' some_left early;
            }))

    -- After a log out with a token that has a whole second left and was not on the denylist, on
    -- a store with every key once, every call with that token answers 401 and writes nothing,
    -- whatever requests come between, as long as no clock reading passes the time `t`, which is
    -- before the whole seconds that were left have gone.
    pub logout_lasts :
        (rs : List Request) (c : Call) (moment : Moment) (wall' : ℕ)
        → All (Before t) rs
        → moment.store_now ≤ t
        → services.jwt.decode token wall' ≡ decoded claims
        → let w' = run db settings services sha256 strip rs logged_out in
          let out = handle db settings moment c (credentials services.jwt (some token) wall') w' in
          (out.0 ≡ err (http 401 "Token has been revoked" none)) × (out.1.tables ≡ w'.tables)
    logout_lasts rs c moment wall' before h again =
        let w' = run db settings services sha256 strip rs logged_out in
        handle_refused db settings moment c (credentials services.jwt (some token) wall') w' (
          rw again (
            Denied-refused claims.jti t w'.store moment.store_now claims h
              (run-Denied claims.jti t rs logged_out before logged_out-Denied) refl))
