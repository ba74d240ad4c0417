-- ===== src/Controllers/AuthRoutes.antt =====
-- app/controllers/auth_controller.py: the log in and the log out, on the members and the shared store.
use text.Mathlib.Text.{◌==◌ as str_eq}
use assignment_cloud_instanc.Prelude.{ℕ, Option, none, some, String, List, find, if◌then◌else◌}
use assignment_cloud_instanc.Models.{Member}
use assignment_cloud_instanc.Config.{Settings}
use assignment_cloud_instanc.Session.{Failure, http, Result, ok, err}
use assignment_cloud_instanc.Store.{Store}
use assignment_cloud_instanc.RateLimit.{reserve_login_attempt, release_login_attempt}
use assignment_cloud_instanc.Revocation.{Claims, Decoded, get_token_claims, revoke_token}
use assignment_cloud_instanc.Security.{Kdf, Jwt, verify_password, create_access_token}
use assignment_cloud_instanc.Schemas.{LoginRequest, TokenResponse}

-- What the routes use from outside: `str.strip` with `str.lower`, `int`, the key derivation and the tokens.
pub record Services : Type 0 where
  pub strip_lower : String → String
  pub int : String → Option ℕ
  pub kdf : Kdf
  pub jwt : Jwt

-- One log in: the address (`request.client.host`, or "unknown"), the readings of the store's clock for
-- the two counters and for the release, the wall clock, and the new token's id.
pub record Attempt : Type 0 where
  pub client_ip : String
  pub account_now : ℕ
  pub ip_now : ℕ
  pub release_now : ℕ
  pub wall : ℕ
  pub jti : String

abbrev pub invalid_login : Failure
invalid_login = http 401 "Invalid email or password" none

-- `query(Member).filter(Member.email == email).first()`; the column is unique.
abbrev pub by_email : String → List Member → Option Member
by_email email = find (λ (member : Member). str_eq member.email email)

module _ (services : Services) (settings : Settings) (body : LoginRequest) (attempt : Attempt) where
  -- The member whose password it is.
  abbrev pub verified : Option Member → Option Member
  verified none = none
  verified (some member) =
      if verify_password services.kdf services.int body.password member.password
      then some member
      else none

  abbrev pub issue : Member → TokenResponse
  issue member = record {
    access_token =
        create_access_token services.jwt settings member.id member.email member.role attempt.wall
          attempt.jti;
    role = member.role;
    name = member.name;
  }

  abbrev pub issued : Member → Result (Unit {0}) × Store → Result TokenResponse × Store
  issued member (ok _, st) = (ok (issue member), st)
  issued member (err e, st) = (err e, st)

  abbrev pub after_check : Option Member → Store → Result TokenResponse × Store
  after_check none st = (err invalid_login, st)
  after_check (some member) st = issued member (
      release_login_attempt services.strip_lower settings body.email attempt.client_ip
        attempt.release_now st)

  abbrev pub after_reserve : List Member → Result (Unit {0}) × Store → Result TokenResponse × Store
  after_reserve members (ok _, st) = after_check (verified (by_email body.email members)) st
  after_reserve members (err e, st) = (err e, st)

  unfoldable pub login : List Member → Store → Result TokenResponse × Store
  unfolding verify_password create_access_token
  login members st = after_reserve members (
      reserve_login_attempt services.strip_lower settings body.email attempt.client_ip
        attempt.account_now attempt.ip_now st)

abbrev pub revoked : ℕ → ℕ → Result Claims × Store → Result (Unit {0}) × Store
revoked wall later (ok claims, st) = (ok tt, revoke_token claims wall later st)
revoked wall later (err e, st) = (err e, st)

-- `now` and `later` are readings of the store's clock, for the denylist and for the entry in it.
unfoldable pub logout : Decoded → ℕ → ℕ → ℕ → Store → Result (Unit {0}) × Store
unfolding revoke_token
logout credentials now wall later st = revoked wall later (get_token_claims credentials now st)
