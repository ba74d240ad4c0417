-- ===== src/Revocation.antt =====
-- app/core/revocation.py: tokens refused before they expire. And `get_token_claims` of app/core/deps.py,
-- on the claims of a token whose signature holds.
pub mod Denylist
pub mod Denied
use Prim.Native.String.{◌++◌}
use assignment_cloud_instanc.Prelude.{
  ℕ, ◌-◌, ◌/◌, Bool, Option, none, some, String, leb, if◌then◌else◌,
}
use assignment_cloud_instanc.Session.{Result, ok, err, http}
use assignment_cloud_instanc.Prelude.Ints.{pos}
use assignment_cloud_instanc.Store.{Store, seconds, set, exists, number}

-- The claims of a token: its subject, its id, and its expiry in whole seconds of wall time.
pub record Claims : Type 0 where
  pub sub : ℕ
  pub jti : String
  pub exp : ℕ

-- `_key`
abbrev pub revoked_key : String → String
revoked_key jti = "revoked:" ++ jti

-- `int(exp - now)`, of a float of seconds that is not negative
abbrev pub remaining : Claims → ℕ → ℕ
remaining claims wall = (seconds claims.exp - wall) / 1_000_000

-- `wall` is the wall time and `now` the reading of the store's clock, both in microseconds.
unfoldable pub revoke_token : Claims → ℕ → ℕ → Store → Store
revoke_token claims wall now st =
    if leb 1 (remaining claims wall)
    then set (revoked_key claims.jti) (number (pos 1)) (remaining claims wall) now st
    else st

unfoldable pub is_token_revoked : String → ℕ → Store → Bool × Store
is_token_revoked jti now st = exists (revoked_key jti) now st

-- What decoding the credentials gives: the library checks the signature and the expiry.
pub data Decoded : Type 0 where
  no_credentials expired_signature invalid_token : Decoded
  decoded : Claims → Decoded

abbrev pub admit : Claims → Bool → Result Claims
admit claims revoked = if revoked then err (http 401 "Token has been revoked" none) else ok claims

unfoldable pub get_token_claims : Decoded → ℕ → Store → Result Claims × Store
unfolding is_token_revoked
get_token_claims Decoded.no_credentials now st =
    (err (http 401 "Not authenticated. Provide a Bearer token." none), st)
get_token_claims Decoded.expired_signature now st = (err (http 401 "Token has expired" none), st)
get_token_claims Decoded.invalid_token now st = (err (http 401 "Invalid token" none), st)
get_token_claims (decoded claims) now st =
    let (revoked, st') = is_token_revoked claims.jti now st in (admit claims revoked, st')
