-- ===== src/Samples/Requests.antt =====
-- The theorems at concrete inputs: whole requests, tokens, passwords and diagnoses.
use assignment_cloud_instanc.Prelude.{
  ◌+◌, ◌*◌, ◌/◌, ◌≡◌, ◌↔◌, refl, true, none, some, String, List, [], ◌∷◌, arith, inr,
}
use assignment_cloud_instanc.Prelude.Ints.{pos, negsuc, ◌+ℤ◌}
use assignment_cloud_instanc.Models.{Member, stopped, error}
use assignment_cloud_instanc.Config.{defaults}
use assignment_cloud_instanc.Session.{ok, err, http}
use assignment_cloud_instanc.Store.{number, seconds, new_store}
use assignment_cloud_instanc.Store.Live.{held, unexpired}
use assignment_cloud_instanc.RateLimit.Attempts.{Counted}
use assignment_cloud_instanc.Revocation.{Claims, decoded, get_token_claims}
use assignment_cloud_instanc.Security.{hash_password, verify_password, iterations}
use assignment_cloud_instanc.Security.Passwords.{verify_password-hash_password}
use assignment_cloud_instanc.Schemas.{LoginRequest}
use assignment_cloud_instanc.Diagnosis.{Provider, llm_diagnosis, rule_based_diagnosis, diagnose}
use assignment_cloud_instanc.Diagnosis.Cache.{diagnose_reuses, diagnose_falls_back}
use assignment_cloud_instanc.Controllers.AuthRoutes.{
  Attempt, by_email, invalid_login, issue, login, verified,
}
use assignment_cloud_instanc.Api.{Call, Moment, World, handle}
use assignment_cloud_instanc.Api.Isolation.{Isolated, handle-Isolated}
use assignment_cloud_instanc.Api.Logins.{login_refused, login_issues}
use assignment_cloud_instanc.Api.Refines.{HandledBy, handle-HandledBy}
use assignment_cloud_instanc.Api.Requests.{Request, credentials, run}
use assignment_cloud_instanc.Api.Runs.{IsConsistent, run-IsConsistent}
use assignment_cloud_instanc.Api.Tokens.{
  claims_admitted, logged_out, logout_lasts, token_authenticates,
}
use assignment_cloud_instanc.Samples.{
  db, member, instance_of, tables, tables-IsValid, tables-OneOpen,
}
use assignment_cloud_instanc.Samples.Tokens.{jwt, kdf, services}

abbrev world : World
world = record { tables = tables; store = new_store 0 }

abbrev moment : Moment
moment = record { now = 900; flushed = 901; detected_at = λ i. 902; store_now = 5 }

abbrev claims : Claims
claims = record { sub = 2; jti = "j"; exp = 100 }

abbrev stop : Call
stop = Call.update_status 1 (record { status = stopped; cpu_usage = none })

-- The token of member 2.
abbrev token : String
token = jwt.encode (record {
  sub = 2;
  email = "m@example.com";
  role = (member 2).role;
  iat = 0;
  exp = 100;
  jti = "j";
})

handle-HandledBy_example :
    HandledBy db defaults moment
      (decoded claims)
      world
      (handle db defaults moment stop (decoded claims) world).1.tables
handle-HandledBy_example =
    handle-HandledBy db defaults moment stop (decoded claims) world tables-IsValid

handle-Isolated_example :
    Isolated db (member 2) tables (handle db defaults moment stop (decoded claims) world).1.tables
handle-Isolated_example =
    handle-Isolated db defaults moment stop (decoded claims) world claims (member 2)
      (claims_admitted claims 5 (new_store 0) tt refl) refl refl tables-IsValid

abbrev same : String → String
same s = s

abbrev requests : List Request
requests = Request.call stop (some token) 50 moment ∷ Request.logout (some token) 60 6 7 ∷ []

run-IsConsistent_example : IsConsistent (run db defaults services same same requests world)
run-IsConsistent_example =
    run-IsConsistent db defaults services same same requests world
      ((tables-IsValid, tables-OneOpen), tt)

logout_lasts_example :
    let w' = run db defaults services same same (Request.call stop (some token) 60 moment ∷ []) (
      logged_out db defaults services same same token claims 50 6 7 1000 world refl tt refl
        (omega arith)
        (omega arith)
        (omega arith)) in
    let out = handle db defaults moment stop (credentials jwt (some token) 70) w' in
    (out.0 ≡ err (http 401 "Token has been revoked" none)) × (out.1.tables ≡ w'.tables)
logout_lasts_example =
    logout_lasts db defaults services same same token claims 50 6 7 1000 world refl tt refl
      (omega arith) (omega arith) (omega arith) (Request.call stop (some token) 60 moment ∷ []) stop
      moment 70 (omega arith, tt) (omega arith) refl

abbrev attempt : Attempt
attempt = record {
  client_ip = "10.0.0.1";
  account_now = 5;
  ip_now = 6;
  release_now = 7;
  wall = 50;
  jti = "k";
}

abbrev body : LoginRequest
body = record { email = "m@example.com"; password = "secret" }

abbrev stored : String
stored = hash_password kdf "secret" (7 ∷ [])

abbrev user : Member
user = record (member 2) { password = stored }

token_authenticates_example :
    (get_token_claims
      (credentials jwt (some (issue services defaults body attempt user).access_token) 60)
      8
      (new_store 0)).0
    ≡ ok (record { sub = 2; jti = "k"; exp = (50 + seconds (120 * 60)) / 1_000_000 })
token_authenticates_example =
    token_authenticates services defaults body attempt user 60 8 (new_store 0) (omega arith)
      (omega arith) tt refl

verify_password-hash_password_example :
    (verify_password kdf (λ s. some iterations) "secret" stored ≡ true)
    ↔ (kdf.derive "secret" (7 ∷ []) iterations ≡ kdf.derive "secret" (7 ∷ []) iterations)
verify_password-hash_password_example =
    verify_password-hash_password kdf (λ s. some iterations) "secret" (7 ∷ []) "secret" refl
      (omega arith, tt)

known : verified services defaults body attempt (by_email body.email (user ∷ [])) ≡ some user
known =
    let pass : verify_password kdf (λ s. some iterations) "secret" stored ≡ true =
      (verify_password-hash_password kdf (λ s. some iterations) "secret" (7 ∷ []) "secret" refl
          (omega arith, tt)).1
        refl in
    rw pass refl

login_issues_example :
    let out = login services defaults body attempt (user ∷ []) (new_store 0) in
    (out.0 ≡ ok (issue services defaults body attempt user))
    × (held "login:account:m@example.com" 9 out.1 ≡ none)
    × (held "login:ip:10.0.0.1" 9 out.1
        ≡ unexpired 9 (
            some (record {
              key = "login:ip:10.0.0.1";
              value = number ((pos 0 +ℤ pos 1) +ℤ negsuc 0);
              expires = 6 + seconds 900;
            })))
login_issues_example =
    login_issues services defaults body attempt (user ∷ []) (new_store 0) tt (omega arith)
      (pos 0, 5 + seconds 900) (pos 0, 6 + seconds 900) refl refl 9 (omega arith) (omega arith)
      (omega arith) refl known

abbrev unknown : LoginRequest
unknown = record { email = "x@example.com"; password = "secret" }

login_refused_example :
    let out = login services defaults unknown attempt (user ∷ []) (new_store 0) in
    (out.0 ≡ err invalid_login)
    × Counted
        (λ s. s)
        defaults
        "x@example.com"
        "10.0.0.1"
        9
        (pos 0 +ℤ pos 1, 5 + seconds 900)
        (pos 0 +ℤ pos 1, 6 + seconds 900)
        out.1
login_refused_example =
    login_refused services defaults unknown attempt (user ∷ []) (new_store 0) tt (omega arith)
      (pos 0, 5 + seconds 900) (pos 0, 6 + seconds 900) refl refl 9 (omega arith)
      (inr (refl, refl, refl))

abbrev answering : Provider
answering message = some (record { is_text = true; text = "restart" } ∷ [])

abbrev failing : Provider
failing message = none

diagnose_reuses_example :
    let out =
      diagnose same same defaults answering (instance_of 4 error 0 2) [] 5 6 (new_store 0) in
    (out.0 ≡ ("restart", "llm"))
    × ((diagnose same same defaults failing (instance_of 4 error 0 2) [] 8 9 out.1).0
        ≡ ("restart", "llm"))
unfolding llm_diagnosis
diagnose_reuses_example =
    diagnose_reuses same same defaults (instance_of 4 error 0 2) [] answering failing 5 6 8 9
      (new_store 0) tt (omega arith) (omega arith) (omega arith) (omega arith) refl answered_text
  where
    answered_text : llm_diagnosis same same answering (instance_of 4 error 0 2) [] ≡ some "restart"
    answered_text = refl

diagnose_falls_back_example :
    let out = diagnose same same defaults failing (instance_of 4 error 0 2) [] 5 6 (new_store 0) in
    (out.0 ≡ (rule_based_diagnosis defaults (instance_of 4 error 0 2) [], "rule-based"))
    × (held "a" 9 out.1 ≡ held "a" 9 (new_store 0))
unfolding llm_diagnosis
diagnose_falls_back_example =
    diagnose_falls_back same same defaults (instance_of 4 error 0 2) [] failing 5 6 (new_store 0) tt
      (omega arith) "a" 9 (omega arith) refl no_text
  where
    no_text : llm_diagnosis same same failing (instance_of 4 error 0 2) [] ≡ none
    no_text = refl
