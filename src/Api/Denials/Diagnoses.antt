-- ===== src/Api/Denials/Diagnoses.antt =====
-- The denylist (app/core/revocation.py) under diagnoses.
use text.Mathlib.Text.{◌==◌ as str_eq}
use assignment_cloud_instanc.Prelude.{
  ℕ, ◌≤◌, ◌≡◌, refl, Option, none, some, String, List, inl, inr, Bool-cases, leb, false,
}
use assignment_cloud_instanc.Models.{Instance, Alert, Tables}
use assignment_cloud_instanc.Config.{Settings}
use assignment_cloud_instanc.Session.{Result, ok, err, request}
use assignment_cloud_instanc.Database.{Database}
use assignment_cloud_instanc.Store.{Value, str, Store, get}
use assignment_cloud_instanc.Store.Keys.{prefixes_differ}
use assignment_cloud_instanc.Revocation.{Claims, Decoded, get_token_claims, revoked_key}
use assignment_cloud_instanc.Revocation.Denied.{
  Denied, Denied-get, Denied-set, Denied-get_token_claims,
}
use assignment_cloud_instanc.Diagnosis.{
  Provider, cache_key, llm_diagnosis, answered, from_cache, diagnose,
}
use assignment_cloud_instanc.Controllers.AuthRoutes.{Services}
use assignment_cloud_instanc.Controllers.InstanceRoutes.{diagnosed}
use assignment_cloud_instanc.Api.{World}
use assignment_cloud_instanc.Api.Requests.{rows_for, diagnosed_for, diagnose_instance}

module _ (jti : String) (t : ℕ) where
  -- The keys of the cache are others.
  cache-ne :
      (sha256 strip : String → String) (instance : Instance) (alerts : List Alert)
      → str_eq (cache_key sha256 strip instance alerts) (revoked_key jti) ≡ false
  unfolding cache_key
  cache-ne sha256 strip instance alerts = prefixes_differ "diagnosis:" "revoked:" _ jti refl

  module _ (sha256 strip : String → String) (settings : Settings) (provider : Provider)
      (now later : ℕ) (h : now ≤ t) (h' : later ≤ t) where
    Denied-answered :
        (instance : Instance) (alerts : List Alert) (text : Option String) (st : Store)
        → Denied jti t st
        → Denied jti t
            (answered sha256 strip settings provider instance alerts text
              (some (cache_key sha256 strip instance alerts))
              later
              st).1
    Denied-answered instance alerts (some text) st d =
        Denied-set jti t st d (cache_key sha256 strip instance alerts) (str text)
          settings.diagnosis_cache_ttl_seconds later (cache-ne sha256 strip instance alerts) h'
    Denied-answered instance alerts none st d = d

    Denied-uncached :
        (instance : Instance) (alerts : List Alert) (text : Option String) (st : Store)
        → Denied jti t st
        → Denied jti t
            (answered sha256 strip settings provider instance alerts text none later st).1
    Denied-uncached instance alerts (some text) st d = d
    Denied-uncached instance alerts none st d = d

    Denied-from_cache :
        (instance : Instance) (alerts : List Alert) (out : Option Value × Store)
        → Denied jti t out.1
        → Denied jti t
            (from_cache sha256 strip settings provider instance alerts
              (cache_key sha256 strip instance alerts)
              later
              out).1
    Denied-from_cache instance alerts (some v, st) d = d
    Denied-from_cache instance alerts (none, st) d =
        Denied-answered instance alerts (llm_diagnosis sha256 strip provider instance alerts) st d

    Denied-diagnose :
        (instance : Instance) (alerts : List Alert) (st : Store)
        → Denied jti t st
        → Denied jti t (diagnose sha256 strip settings provider instance alerts now later st).1
    unfolding diagnose
    Denied-diagnose instance alerts st d =
        elim (Bool-cases (leb 1 settings.diagnosis_cache_ttl_seconds)) [
          | inl caches ↦
              let key = cache_key sha256 strip instance alerts in
              rw caches (
                Denied-from_cache instance alerts (get key now st)
                  (Denied-get jti t st d key now h))
          | inr off ↦ rw off (
              Denied-uncached instance alerts (llm_diagnosis sha256 strip provider instance alerts)
                st d)
        ]

    Denied-diagnosed :
        (rows : Result (Instance × List Alert)) (st : Store)
        → Denied jti t st
        → Denied jti t (diagnosed sha256 strip settings provider now later rows st).1
    Denied-diagnosed (ok (instance, alerts)) st d = Denied-diagnose instance alerts st d
    Denied-diagnosed (err e) st d = d

    module _ (db : Database) (services : Services) (i : ℕ) where
      Denied-diagnosed_for :
          (rows : Tables) (out : Result Claims × Store)
          → Denied jti t out.1
          → Denied jti t
              (diagnosed_for db settings services sha256 strip i provider now later rows
                out).1.store
      Denied-diagnosed_for rows (ok claims, st) d =
          Denied-diagnosed
            (request (rows_for db settings services sha256 strip claims.sub i) rows).0 st d
      Denied-diagnosed_for rows (err e, st) d = d

      pub Denied-diagnosis :
          (c : Decoded) (checked : ℕ) (w : World)
          → checked ≤ t
          → Denied jti t w.store
          → Denied jti t
              (diagnose_instance db settings services sha256 strip i c provider checked now later
                w).1.store
      unfolding diagnose_instance
      Denied-diagnosis c checked w before d =
          Denied-diagnosed_for w.tables (get_token_claims c checked w.store)
            (Denied-get_token_claims jti t w.store checked c before d)
