-- ===== src/Api/Stores.antt =====
-- The keys of the store under requests (app/controllers, app/core).
use assignment_cloud_instanc.Prelude.{
  ℕ, Option, none, some, String, List, inl, inr, Bool-cases, leb,
}
use assignment_cloud_instanc.Models.{Member, Instance, Alert, Tables}
use assignment_cloud_instanc.Config.{Settings}
use assignment_cloud_instanc.Session.{Result, ok, err, request}
use assignment_cloud_instanc.Database.{Database}
use assignment_cloud_instanc.Store.{Value, str, Store, get, add, delete, number}
use assignment_cloud_instanc.Prelude.Ints.{ℤ, pos, negsuc}
use assignment_cloud_instanc.Store.Live.{IsMap}
use assignment_cloud_instanc.Store.Maps.{
  IsMap-get, IsMap-set, IsMap-exists, IsMap-add, IsMap-delete,
}
use assignment_cloud_instanc.RateLimit.{
  account_key, ip_key, reserve_login_attempt, release_login_attempt, count_ip,
}
use assignment_cloud_instanc.Revocation.{
  Claims, Decoded, no_credentials, expired_signature, invalid_token, decoded, get_token_claims,
  is_token_revoked, revoke_token, remaining, revoked_key,
}
use assignment_cloud_instanc.Schemas.{LoginRequest}
use assignment_cloud_instanc.Diagnosis.{
  Provider, cache_key, llm_diagnosis, answered, from_cache, diagnose,
}
use assignment_cloud_instanc.Controllers.AuthRoutes
use assignment_cloud_instanc.Controllers.AuthRoutes.{
  Services, Attempt, issued, verified, by_email, after_check, after_reserve,
}
use assignment_cloud_instanc.Controllers.InstanceRoutes.{diagnosed}
use assignment_cloud_instanc.Api.{World, Moment, Call, authorised, handle}
use assignment_cloud_instanc.Api.Requests.{rows_for, diagnosed_for, diagnose_instance}

module _ (now : ℕ) (st : Store) (m : IsMap st.entries) where
  IsMap-claims : (d : Decoded) → IsMap (get_token_claims d now st).1.entries
  unfolding get_token_claims is_token_revoked
  IsMap-claims no_credentials = m
  IsMap-claims expired_signature = m
  IsMap-claims invalid_token = m
  IsMap-claims (decoded claims) = IsMap-exists (revoked_key claims.jti) now st m

  IsMap-revoke : (claims : Claims) (wall : ℕ) → IsMap (revoke_token claims wall now st).entries
  unfolding revoke_token
  IsMap-revoke claims wall = elim (Bool-cases (leb 1 (remaining claims wall))) [
    | inl left ↦
        rw left
          (IsMap-set (revoked_key claims.jti) now st m (number (pos 1)) (remaining claims wall))
    | inr gone ↦ rw gone m
  ]

module _ (strip_lower : String → String) (settings : Settings) (email client_ip : String) where
  IsMap-count_ip :
      (counted : Option (ℤ × ℕ)) (now : ℕ) (st : Store)
      → IsMap st.entries
      → IsMap (count_ip strip_lower settings email client_ip counted now st).1.entries
  IsMap-count_ip none now st m = m
  IsMap-count_ip (some c) now st m =
      IsMap-add (ip_key client_ip) now st m (pos 1) settings.login_window_seconds

  IsMap-reserve :
      (now now' : ℕ) (st : Store)
      → IsMap st.entries
      → IsMap (reserve_login_attempt strip_lower settings email client_ip now now' st).1.entries
  unfolding reserve_login_attempt
  IsMap-reserve now now' st m =
      let key = account_key strip_lower email in
      let counted = add key (pos 1) settings.login_window_seconds now st in
      IsMap-count_ip counted.0 now' counted.1
        (IsMap-add key now st m (pos 1) settings.login_window_seconds)

  IsMap-release :
      (now : ℕ) (st : Store)
      → IsMap st.entries
      → IsMap (release_login_attempt strip_lower settings email client_ip now st).1.entries
  unfolding release_login_attempt
  IsMap-release now st m =
      let key = account_key strip_lower email in
      IsMap-add (ip_key client_ip) now (delete key st) (IsMap-delete key st m) (negsuc 0)
        settings.login_window_seconds

module _ (services : Services) (settings : Settings) (body : LoginRequest) (attempt : Attempt) where
  IsMap-issued :
      (member : Member) (out : Result (Unit {0}) × Store)
      → IsMap out.1.entries
      → IsMap (issued services settings body attempt member out).1.entries
  IsMap-issued member (ok u, st) m = m
  IsMap-issued member (err e, st) m = m

  IsMap-after_check :
      (found : Option Member) (st : Store)
      → IsMap st.entries
      → IsMap (after_check services settings body attempt found st).1.entries
  IsMap-after_check none st m = m
  IsMap-after_check (some member) st m = IsMap-issued member _ (
      IsMap-release services.strip_lower settings body.email attempt.client_ip attempt.release_now
        st m)

  IsMap-after_reserve :
      (members : List Member) (out : Result (Unit {0}) × Store)
      → IsMap out.1.entries
      → IsMap (after_reserve services settings body attempt members out).1.entries
  IsMap-after_reserve members (ok u, st) m =
      IsMap-after_check (verified services settings body attempt (by_email body.email members)) st m
  IsMap-after_reserve members (err e, st) m = m

  pub IsMap-login :
      (members : List Member) (st : Store)
      → IsMap st.entries
      → IsMap (AuthRoutes.login services settings body attempt members st).1.entries
  unfolding AuthRoutes.login
  IsMap-login members st m = IsMap-after_reserve members _ (
      IsMap-reserve services.strip_lower settings body.email attempt.client_ip attempt.account_now
        attempt.ip_now st m)

module _ (wall later : ℕ) where
  IsMap-revoked :
      (out : Result Claims × Store)
      → IsMap out.1.entries
      → IsMap (AuthRoutes.revoked wall later out).1.entries
  IsMap-revoked (ok claims, st) m = IsMap-revoke later st m claims wall
  IsMap-revoked (err e, st) m = m

  pub IsMap-logout :
      (d : Decoded) (now : ℕ) (st : Store)
      → IsMap st.entries
      → IsMap (AuthRoutes.logout d now wall later st).1.entries
  unfolding AuthRoutes.logout
  IsMap-logout d now st m = IsMap-revoked (get_token_claims d now st) (IsMap-claims now st m d)

module _ (db : Database) (settings : Settings) (m : Moment) (c : Call) where
  IsMap-authorised :
      (t : Tables) (out : Result Claims × Store)
      → IsMap out.1.entries
      → IsMap (authorised db settings m c t out).1.store.entries
  IsMap-authorised t (ok claims, st) h = h
  IsMap-authorised t (err e, st) h = h

  pub IsMap-handle :
      (d : Decoded) (w : World)
      → IsMap w.store.entries
      → IsMap (handle db settings m c d w).1.store.entries
  unfolding handle
  IsMap-handle d w h =
      IsMap-authorised w.tables (get_token_claims d m.store_now w.store)
        (IsMap-claims m.store_now w.store h d)

module _ (sha256 strip : String → String) (settings : Settings) (provider : Provider)
    (now later : ℕ) where
  IsMap-answered :
      (instance : Instance) (alerts : List Alert) (text key : Option String) (st : Store)
      → IsMap st.entries
      → IsMap (answered sha256 strip settings provider instance alerts text key later st).1.entries
  IsMap-answered instance alerts (some text) (some key) st m =
      IsMap-set key later st m (str text) settings.diagnosis_cache_ttl_seconds
  IsMap-answered instance alerts (some text) none st m = m
  IsMap-answered instance alerts none key st m = m

  IsMap-from_cache :
      (instance : Instance) (alerts : List Alert) (key : String) (out : Option Value × Store)
      → IsMap out.1.entries
      → IsMap (from_cache sha256 strip settings provider instance alerts key later out).1.entries
  IsMap-from_cache instance alerts key (some v, st) m = m
  IsMap-from_cache instance alerts key (none, st) m =
      IsMap-answered instance alerts (llm_diagnosis sha256 strip provider instance alerts)
        (some key) st m

  IsMap-diagnose :
      (instance : Instance) (alerts : List Alert) (st : Store)
      → IsMap st.entries
      → IsMap (diagnose sha256 strip settings provider instance alerts now later st).1.entries
  unfolding diagnose
  IsMap-diagnose instance alerts st m =
      elim (Bool-cases (leb 1 settings.diagnosis_cache_ttl_seconds)) [
        | inl caches ↦
            let key = cache_key sha256 strip instance alerts in
            rw caches
              (IsMap-from_cache instance alerts key (get key now st) (IsMap-get key now st m))
        | inr off ↦ rw off (
            IsMap-answered instance alerts (llm_diagnosis sha256 strip provider instance alerts)
              none st m)
      ]

  IsMap-diagnosed :
      (rows : Result (Instance × List Alert)) (st : Store)
      → IsMap st.entries
      → IsMap (diagnosed sha256 strip settings provider now later rows st).1.entries
  IsMap-diagnosed (ok (instance, alerts)) st m = IsMap-diagnose instance alerts st m
  IsMap-diagnosed (err e) st m = m

  module _ (db : Database) (services : Services) (i : ℕ) where
    IsMap-diagnosed_for :
        (t : Tables) (out : Result Claims × Store)
        → IsMap out.1.entries
        → IsMap
            (diagnosed_for db settings services sha256 strip i provider now later t
              out).1.store.entries
    IsMap-diagnosed_for t (ok claims, st) m =
        IsMap-diagnosed (request (rows_for db settings services sha256 strip claims.sub i) t).0 st m
    IsMap-diagnosed_for t (err e, st) m = m

    pub IsMap-diagnosis :
        (d : Decoded) (checked : ℕ) (w : World)
        → IsMap w.store.entries
        → IsMap
            (diagnose_instance db settings services sha256 strip i d provider checked now later
              w).1.store.entries
    unfolding diagnose_instance
    IsMap-diagnosis d checked w m =
        IsMap-diagnosed_for w.tables (get_token_claims d checked w.store)
          (IsMap-claims checked w.store m d)
