-- ===== src/Responses.antt =====
-- app/main.py: what a failed request answers with.
use Prim.Native.String.{◌++◌}
use assignment_cloud_instanc.Prelude.{ℕ, ◌≡◌, refl, Option, none, some, String}
use assignment_cloud_instanc.Prelude.Text.{show}
use assignment_cloud_instanc.Session.{Failure}

-- The exception handlers, and `HTTPException`, which carries its own.
abbrev pub status_code : Failure → ℕ
status_code (Failure.active_instance i) = 409
status_code (Failure.not_found resource i) = 404
status_code (Failure.forbidden detail) = 403
status_code (Failure.validation detail) = 400
status_code (Failure.http status detail retry) = status

-- The `error` of the body; the framework's handler of an `HTTPException` gives none.
abbrev pub error_name : Failure → Option String
error_name (Failure.active_instance i) = some "ActiveInstanceException"
error_name (Failure.not_found resource i) = some "NotFound"
error_name (Failure.forbidden detail) = some "Forbidden"
error_name (Failure.validation detail) = some "ValidationError"
error_name (Failure.http status detail retry) = none

-- `str(exc)`, or `exc.detail`
unfoldable pub error_detail : Failure → String
unfolding show
error_detail (Failure.active_instance i) =
    "Instance " ++ show i ++ " is RUNNING and cannot be deleted. Stop it first."
error_detail (Failure.not_found resource i) = resource ++ " " ++ show i ++ " not found"
error_detail (Failure.forbidden detail) = detail
error_detail (Failure.validation detail) = detail
error_detail (Failure.http status detail retry) = detail

-- The content of a response to a failed request.
pub record ErrorResponse : Type 0 where
  pub status_code : ℕ
  pub error : Option String
  pub detail : String

abbrev pub error_response : Failure → ErrorResponse
error_response e = record {
  status_code = status_code e;
  error = error_name e;
  detail = error_detail e;
}

missing_client :
    error_response (Failure.not_found "Client" 12)
    ≡ record { status_code = 404; error = some "NotFound"; detail = "Client 12 not found" }
unfolding error_detail
missing_client = refl
