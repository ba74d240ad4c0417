-- ===== src/Samples/Logins.antt =====
-- The theorems at concrete inputs: the store, the login limits and revoked tokens.
use assignment_cloud_instanc.Prelude.{◌≡◌, refl, ◌||◌, String, [], ◌∷◌, arith, leb}
use assignment_cloud_instanc.Prelude.Ints.{pos}
use assignment_cloud_instanc.Config.{defaults}
use assignment_cloud_instanc.Session.{ok}
use assignment_cloud_instanc.Store.{Entry, Store, number, seconds}
use assignment_cloud_instanc.Store.Live.{IsMap}
use assignment_cloud_instanc.RateLimit.{reserve_login_attempt}
use assignment_cloud_instanc.RateLimit.Attempts.{after, refused, attempts_limit}
use assignment_cloud_instanc.Revocation.{Claims, decoded, get_token_claims, revoke_token}
use assignment_cloud_instanc.Revocation.Denylist.{revoked_readmitted}

-- A counter at 3 that expires at second 900.
abbrev counter : Entry
counter = record { key = "login:ip:10.0.0.1"; value = number (pos 3); expires = seconds 900 }

abbrev st : Store
st = record { entries = counter ∷ []; last_purge = 0 }

st-IsMap : IsMap st.entries
st-IsMap = (tt, tt)

abbrev same : String → String
same s = s

attempts_limit_example :
    refused
      (reserve_login_attempt same defaults "a@b.c" "10.0.0.2"
        (seconds 10)
        (seconds 10)
        (after same defaults "a@b.c" "10.0.0.2" (λ n. seconds n) st 10)).0
    ≡ (leb defaults.login_max_failures_per_account 10 || leb defaults.login_max_failures_per_ip 10)
attempts_limit_example =
    attempts_limit same defaults "a@b.c" "10.0.0.2" (λ n. seconds n) st st-IsMap (λ i. omega arith)
      refl refl 10 (omega arith)

-- A token that expires at second 100, revoked half a second after second 50.
abbrev claims : Claims
claims = record { sub = 2; jti = "t"; exp = 100 }

-- 49.2 seconds later, 0.3 seconds before the token expires.
revoked_readmitted_example :
    (get_token_claims (decoded claims) 49_200_000 (revoke_token claims 50_500_000 0 st)).0
    ≡ ok claims
revoked_readmitted_example =
    revoked_readmitted claims 50_500_000 0 49_200_000 st (omega arith) st-IsMap refl (omega arith)
