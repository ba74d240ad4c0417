-- ===== src/Api/Requests.antt =====
-- Every request of the API as a step on the rows and the store, and runs of requests.
use assignment_cloud_instanc.Prelude.{ℕ, not, Option, none, some, String, List, [], ◌∷◌}
use assignment_cloud_instanc.Models.{Instance, Alert, Tables}
use assignment_cloud_instanc.Config.{Settings}
use assignment_cloud_instanc.Session.{
  Action, Result, ok, err, request, raise_if, overflow, ◌>>=◌, ◌>>◌,
}
use assignment_cloud_instanc.Database.{Database, binds}
use assignment_cloud_instanc.Access.{get_current_member}
use assignment_cloud_instanc.Store.{Store}
use assignment_cloud_instanc.Revocation.{Claims, Decoded, no_credentials, get_token_claims}
use assignment_cloud_instanc.Security.{Jwt}
use assignment_cloud_instanc.Schemas.{LoginRequest, DiagnosisResponse}
use assignment_cloud_instanc.Diagnosis.{Provider}
use assignment_cloud_instanc.Controllers.AuthRoutes
use assignment_cloud_instanc.Controllers.AuthRoutes.{Services, Attempt}
use assignment_cloud_instanc.Controllers.InstanceRoutes.{diagnosis_rows, diagnosed}
use assignment_cloud_instanc.Api.{World, Moment, Call, handle}

-- The bearer token of a request, decoded at the wall clock.
abbrev pub credentials : Jwt → Option String → ℕ → Decoded
credentials jwt none wall = no_credentials
credentials jwt (some token) wall = jwt.decode token wall

pub data Request : Type 0 where
  login : LoginRequest → Attempt → Request
  -- with its token, the wall clock, and the store's clock for the denylist and for the entry in it
  logout : Option String → ℕ → ℕ → ℕ → Request
  call : Call → Option String → ℕ → Moment → Request
  -- of an instance, with the provider, and the store's clock for the denylist, the cache and the entry in it
  diagnosis : ℕ → Option String → ℕ → Provider → ℕ → ℕ → ℕ → Request

module _ (db : Database) (settings : Settings) (services : Services)
    (sha256 strip : String → String) where
  -- `diagnose_instance` with its dependencies, up to `db.close()`
  unfoldable pub rows_for : ℕ → ℕ → Action (Instance × List Alert)
  rows_for sub i = do
    raise_if (not (binds sub)) overflow
    member ← get_current_member sub
    raise_if (not (binds i)) overflow
    diagnosis_rows db member i

  abbrev pub diagnosed_for :
      ℕ → Provider → ℕ → ℕ → Tables → Result Claims × Store → Result DiagnosisResponse × World
  diagnosed_for i provider now later t (ok claims, st) =
      let (rows, t') = request (rows_for claims.sub i) t in
      let (answer, st') = diagnosed sha256 strip settings provider now later rows st in
      (answer, record { tables = t'; store = st' })
  diagnosed_for i provider now later t (err e, st) = (err e, record { tables = t; store = st })

  unfoldable pub diagnose_instance :
      ℕ → Decoded → Provider → ℕ → ℕ → ℕ → World → Result DiagnosisResponse × World
  diagnose_instance i token provider checked now later w =
      diagnosed_for i provider now later w.tables (get_token_claims token checked w.store)

  -- What a request leaves.
  unfoldable pub step : Request → World → World
  unfolding diagnose_instance
  step (Request.login body attempt) w = record w {
    store = (AuthRoutes.login services settings body attempt w.tables.members w.store).1;
  }
  step (Request.logout token wall now later) w = record w {
    store = (AuthRoutes.logout (credentials services.jwt token wall) now wall later w.store).1;
  }
  step (Request.call c token wall m) w =
      (handle db settings m c (credentials services.jwt token wall) w).1
  step (Request.diagnosis i token wall provider checked now later) w =
      (diagnose_instance i (credentials services.jwt token wall) provider checked now later w).1

  unfoldable pub run : List Request → World → World
  run [] w = w
  run (r ∷ rs) w = run rs (step r w)
