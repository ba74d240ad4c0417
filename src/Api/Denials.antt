-- ===== src/Api/Denials.antt =====
-- The denylist (app/core/revocation.py) under log ins, log outs and calls.
pub mod Diagnoses
use text.Mathlib.Text.{◌==◌ as str_eq}
use assignment_cloud_instanc.Prelude.{
  ℕ, ◌≤◌, ◌≡◌, refl, Option, none, some, String, List, arith, inl, inr, Bool-cases, leb, false,
}
use assignment_cloud_instanc.Prelude.Ints.{pos, negsuc}
use assignment_cloud_instanc.Models.{Member, Instance, Alert, Tables}
use assignment_cloud_instanc.Config.{Settings}
use assignment_cloud_instanc.Session.{Result, ok, err, request}
use assignment_cloud_instanc.Database.{Database}
use assignment_cloud_instanc.Store.{Value, str, Store, get, exists, add, delete}
use assignment_cloud_instanc.Store.Keys.{prefixes_differ, str_eq→eq}
use assignment_cloud_instanc.RateLimit.{
  account_key, ip_key, reserve_login_attempt, release_login_attempt, count_ip,
}
use assignment_cloud_instanc.Revocation.{
  Claims, Decoded, no_credentials, expired_signature, invalid_token, decoded, get_token_claims,
  is_token_revoked, revoked_key,
}
use assignment_cloud_instanc.Revocation.Denied.{
  Denied, Denied-get, Denied-set, Denied-add, Denied-delete, Denied-get_token_claims,
  Denied-revoke_token, Denied-is_token_revoked,
}
use assignment_cloud_instanc.Schemas.{LoginRequest}
use assignment_cloud_instanc.Diagnosis.{
  Provider, cache_key, llm_diagnosis, answered, from_cache, diagnose,
}
use assignment_cloud_instanc.Controllers.AuthRoutes
use assignment_cloud_instanc.Controllers.AuthRoutes.{
  Services, Attempt, issued, verified, by_email, after_check, after_reserve,
}
use assignment_cloud_instanc.Controllers.InstanceRoutes.{diagnosed}
use assignment_cloud_instanc.Api.{World, Moment, Call, authorised, handle}
use assignment_cloud_instanc.Api.Requests.{rows_for, diagnosed_for, diagnose_instance}

module _ (jti : String) (t : ℕ) where
  -- The other keys of the store.
  account-ne :
      (strip_lower : String → String) (email : String)
      → str_eq (account_key strip_lower email) (revoked_key jti) ≡ false
  account-ne strip_lower email =
      prefixes_differ "login:account:" "revoked:" (strip_lower email) jti refl

  ip-ne : (client_ip : String) → str_eq (ip_key client_ip) (revoked_key jti) ≡ false
  ip-ne client_ip = prefixes_differ "login:ip:" "revoked:" client_ip jti refl

  module _ (strip_lower : String → String) (settings : Settings) (email client_ip : String) where
    Denied-count_ip :
        (counted : Option _) (now : ℕ) (st : Store)
        → now ≤ t
        → Denied jti t st
        → Denied jti t (count_ip strip_lower settings email client_ip counted now st).1
    Denied-count_ip none now st h d = d
    Denied-count_ip (some c) now st h d =
        Denied-add jti t st d (ip_key client_ip) (pos 1) settings.login_window_seconds now
          (ip-ne client_ip) h

    Denied-reserve :
        (now now' : ℕ) (st : Store)
        → now ≤ t
        → now' ≤ t
        → Denied jti t st
        → Denied jti t (reserve_login_attempt strip_lower settings email client_ip now now' st).1
    unfolding reserve_login_attempt
    Denied-reserve now now' st h h' d =
        let key = account_key strip_lower email in
        let counted = add key (pos 1) settings.login_window_seconds now st in
        Denied-count_ip counted.0 now' counted.1 h' (
          Denied-add jti t st d key (pos 1) settings.login_window_seconds now
            (account-ne strip_lower email) h)

    Denied-release :
        (now : ℕ) (st : Store)
        → now ≤ t
        → Denied jti t st
        → Denied jti t (release_login_attempt strip_lower settings email client_ip now st).1
    unfolding release_login_attempt
    Denied-release now st h d =
        let key = account_key strip_lower email in
        Denied-add jti t (delete key st)
          (Denied-delete jti t st d key (account-ne strip_lower email)) (ip_key client_ip)
          (negsuc 0) settings.login_window_seconds now (ip-ne client_ip) h

  module _ (services : Services) (settings : Settings) (body : LoginRequest)
      (attempt : Attempt) where
    Denied-issued :
        (member : Member) (out : Result (Unit {0}) × Store)
        → Denied jti t out.1
        → Denied jti t (issued services settings body attempt member out).1
    Denied-issued member (ok u, st) d = d
    Denied-issued member (err e, st) d = d

    Denied-after_check :
        (found : Option Member) (st : Store)
        → attempt.release_now ≤ t
        → Denied jti t st
        → Denied jti t (after_check services settings body attempt found st).1
    Denied-after_check none st h d = d
    Denied-after_check (some member) st h d =
        Denied-issued member
          (release_login_attempt services.strip_lower settings body.email attempt.client_ip
            attempt.release_now st)
          (Denied-release services.strip_lower settings body.email attempt.client_ip
            attempt.release_now st h d)

    Denied-after_reserve :
        (members : List Member) (out : Result (Unit {0}) × Store)
        → attempt.release_now ≤ t
        → Denied jti t out.1
        → Denied jti t (after_reserve services settings body attempt members out).1
    Denied-after_reserve members (ok u, st) h d =
        Denied-after_check (verified services settings body attempt (by_email body.email members))
          st h d
    Denied-after_reserve members (err e, st) h d = d

    pub Denied-login :
        (members : List Member) (st : Store)
        → attempt.account_now ≤ t
        → attempt.ip_now ≤ t
        → attempt.release_now ≤ t
        → Denied jti t st
        → Denied jti t (AuthRoutes.login services settings body attempt members st).1
    unfolding AuthRoutes.login
    Denied-login members st h h' h'' d =
        Denied-after_reserve members
          (reserve_login_attempt services.strip_lower settings body.email attempt.client_ip
            attempt.account_now attempt.ip_now st)
          h''
          (Denied-reserve services.strip_lower settings body.email attempt.client_ip
            attempt.account_now attempt.ip_now st h h' d)

  Denied-is_token_revoked_kept :
      (j : String) (now : ℕ) (st : Store)
      → now ≤ t
      → Denied jti t st
      → Denied jti t (is_token_revoked j now st).1
  unfolding is_token_revoked exists
  Denied-is_token_revoked_kept j now st h d = Denied-get jti t st d (revoked_key j) now h

  other_key :
      (claims : Claims) (now : ℕ) (st : Store)
      → now ≤ t
      → Denied jti t st
      → (is_token_revoked claims.jti now st).0 ≡ false
      → str_eq (revoked_key claims.jti) (revoked_key jti) ≡ false
  other_key claims now st h d unknown =
      elim (Bool-cases (str_eq (revoked_key claims.jti) (revoked_key jti))) [
        | inl same ↦
            let known = Denied-is_token_revoked jti t st now claims.jti h d (str_eq→eq same) in
            absurd (ground (arith, known, unknown))
        | inr other ↦ other
      ]

  -- A second log out with the token is refused, and one with another token writes another key.
  pub Denied-logout :
      (c : Decoded) (wall now later : ℕ) (st : Store)
      → now ≤ t
      → later ≤ t
      → Denied jti t st
      → Denied jti t (AuthRoutes.logout c now wall later st).1
  unfolding AuthRoutes.logout get_token_claims
  Denied-logout no_credentials wall now later st h h' d = d
  Denied-logout expired_signature wall now later st h h' d = d
  Denied-logout invalid_token wall now later st h h' d = d
  Denied-logout (decoded claims) wall now later st h h' d =
      let read = Denied-is_token_revoked_kept claims.jti now st h d in
      elim (Bool-cases (is_token_revoked claims.jti now st).0) [
        | inl known ↦ rw known read
        | inr unknown ↦ rw unknown (
            Denied-revoke_token jti t (is_token_revoked claims.jti now st).1 claims wall later
              (other_key claims now st h d unknown) h' read)
      ]

  module _ (db : Database) (settings : Settings) (m : Moment) (c : Call) where
    Denied-authorised :
        (rows : Tables) (out : Result Claims × Store)
        → Denied jti t out.1
        → Denied jti t (authorised db settings m c rows out).1.store
    Denied-authorised rows (ok claims, st) d = d
    Denied-authorised rows (err e, st) d = d

    pub Denied-handle :
        (k : Decoded) (w : World)
        → m.store_now ≤ t
        → Denied jti t w.store
        → Denied jti t (handle db settings m c k w).1.store
    unfolding handle
    Denied-handle k w h d =
        Denied-authorised w.tables (get_token_claims k m.store_now w.store)
          (Denied-get_token_claims jti t w.store m.store_now k h d)
