-- ===== src/Api/Errors.antt =====
-- The errors of the API against docs/api/ERRORS.md.
pub mod Checks
pub mod Scans
pub mod Services
pub mod Routes
use assignment_cloud_instanc.Prelude.{
  ◌⊎◌, inl, inr, Bool-cases, ℕ, ◌≡◌, refl, Bool, true, false, not, arith, ◌&&◌, none, List, [], ◌∷◌,
}
use assignment_cloud_instanc.Models.{Member, Tables}
use assignment_cloud_instanc.Config.{Settings}
use assignment_cloud_instanc.Session.{
  Session, Failure, Result, ok, err, Action, http, overflow, raise_if, or_raise, open_session,
  request, ◌>>=◌, ◌>>◌,
}
use assignment_cloud_instanc.Session.Reads.{ReadOnly}
use assignment_cloud_instanc.Session.Raises.{
  Within, Raises, RaisesAt, or_raise-Raises, raise_if-Raises, checked-RaisesAt, Within-err,
}
use assignment_cloud_instanc.Database.{Database, binds}
use assignment_cloud_instanc.Access.Membership.{elem-append, elem_append_cases}
use assignment_cloud_instanc.Access.{elem, get, get_current_member}
use assignment_cloud_instanc.Integrity.{IsValid, member_id}
use assignment_cloud_instanc.Responses.{status_code}
use assignment_cloud_instanc.Store.{Store}
use assignment_cloud_instanc.Revocation.{
  Claims, Decoded, no_credentials, expired_signature, invalid_token, decoded, admit,
  get_token_claims, is_token_revoked,
}
use assignment_cloud_instanc.Api.{
  parameters_bind, Call, Moment, World, Answer, route, dependency, fits, unprocessable, admitted,
  authorised, handle,
}
use assignment_cloud_instanc.Api.Guards.{get_current_member-ReadOnly}
use assignment_cloud_instanc.Api.Refines.{dependency-ReadOnly}
use assignment_cloud_instanc.Api.Errors.Checks.{require_admin-Raises}
use assignment_cloud_instanc.Api.Errors.Routes.{
  documented, listed, Excused, bound-Raises, page_binds, route-RaisesAt,
}

module _ (extra : List ℕ) where
  -- Every endpoint lists 401.
  lists_401 : (c : Call) → elem 401 (listed extra c) ≡ true
  lists_401 (Call.create_client body) = refl
  lists_401 (Call.list_clients page size) = refl
  lists_401 _ = refl

  dependency-Raises : (c : Call) (member : Member) → Raises (listed extra c) (dependency c member)
  dependency-Raises (Call.create_client body) member =
      require_admin-Raises (listed extra (Call.create_client body)) refl member
  dependency-Raises _ member = λ s. tt

  bounds :
      (c : Call)
      → elem 422 (listed extra c) ≡ true
      → Raises (listed extra c) (raise_if (not (fits c)) unprocessable)
  bounds c lists = raise_if-Raises (listed extra c) (not (fits c)) unprocessable lists

  -- The endpoints whose parameters have bounds list 422.
  fits-Raises : (c : Call) → Raises (listed extra c) (raise_if (not (fits c)) unprocessable)
  fits-Raises (Call.create_client body) = bounds (Call.create_client body) refl
  fits-Raises (Call.list_clients page size) = bounds (Call.list_clients page size) refl
  fits-Raises (Call.client_instances i page size) = bounds (Call.client_instances i page size) refl
  fits-Raises (Call.create_instance body) = bounds (Call.create_instance body) refl
  fits-Raises (Call.list_instances page size f sort) =
      bounds (Call.list_instances page size f sort) refl
  fits-Raises (Call.update_status i body) = bounds (Call.update_status i body) refl
  fits-Raises (Call.list_alerts page size f) = bounds (Call.list_alerts page size f) refl
  fits-Raises (Call.warnings page size) = bounds (Call.warnings page size) refl
  fits-Raises (Call.errors page size) = bounds (Call.errors page size) refl
  fits-Raises (Call.long_stopped page size) = bounds (Call.long_stopped page size) refl
  fits-Raises _ = λ s. tt

-- The subject of a token that is decoded.
abbrev pub sub_binds : Decoded → Bool
sub_binds (decoded claims) = binds claims.sub
sub_binds _ = true

-- The numbers that a call hands to the database are ones that it takes.
abbrev pub in_range : Call → Decoded → Bool
in_range c credentials = sub_binds credentials && (parameters_bind c && page_binds c)

module _ (statuses : List ℕ) where
  abbrev SubBinds : Result Claims → Type 0
  SubBinds (ok claims) = Excused statuses (binds claims.sub)
  SubBinds (err e) = Unit

  get_token_claims-SubBinds :
      (credentials : Decoded) (now : ℕ) (st : Store)
      → Excused statuses (sub_binds credentials)
      → SubBinds (get_token_claims credentials now st).0
  unfolding get_token_claims
  get_token_claims-SubBinds (decoded claims) now st bound =
      of_revoked (is_token_revoked claims.jti now st).0
    where
      of_revoked : (revoked : Bool) → SubBinds (admit claims revoked)
      of_revoked true = tt
      of_revoked false = bound
  get_token_claims-SubBinds no_credentials now st bound = tt
  get_token_claims-SubBinds expired_signature now st bound = tt
  get_token_claims-SubBinds invalid_token now st bound = tt

module _ (statuses : List ℕ) (refuses : elem 401 statuses ≡ true) where
  get_current_member-Raises : (sub : ℕ) → Raises statuses (get_current_member sub)
  unfolding get_current_member
  get_current_member-Raises sub s =
      or_raise-Raises statuses (get member_id sub s.members) _ refuses s

  get_token_claims-Within :
      (credentials : Decoded) (now : ℕ) (st : Store)
      → Within statuses (get_token_claims credentials now st).0
  unfolding get_token_claims
  get_token_claims-Within no_credentials now st = refuses
  get_token_claims-Within expired_signature now st = refuses
  get_token_claims-Within invalid_token now st = refuses
  get_token_claims-Within (decoded claims) now st =
      admit-Within claims (is_token_revoked claims.jti now st).0
    where
      admit-Within : (claims : Claims) (revoked : Bool) → Within statuses (admit claims revoked)
      admit-Within claims true = refuses
      admit-Within claims false = tt

module _ (db : Database) (settings : Settings) (m : Moment) (extra : List ℕ) where
  module _ (c : Call) (sub : ℕ) (t : Tables) (valid : IsValid t)
      (sub_bound : Excused (listed extra c) (binds sub))
      (bound : Excused (listed extra c) (parameters_bind c))
      (page_bound : Excused (listed extra c) (page_binds c)) where
    abbrev on_bound : Member → Action (Answer c)
    on_bound member = do raise_if (not (parameters_bind c)) overflow; route db settings m c member

    abbrev on_member : Member → Action (Answer c)
    on_member member = do raise_if (not (fits c)) unprocessable; on_bound member

    abbrev on_found : Member → Action (Answer c)
    on_found found = dependency c found >>= on_member

    on_bound-RaisesAt :
        (member : Member) → RaisesAt (listed extra c) (open_session t) (on_bound member)
    on_bound-RaisesAt member =
        checked-RaisesAt (listed extra c) (raise_if (not (parameters_bind c)) overflow)
          (λ _. route db settings m c member) (open_session t) (λ s. refl)
          (bound-Raises (listed extra c) (parameters_bind c) bound (open_session t))
          (λ _ _.
            route-RaisesAt db settings m member extra c (open_session t) page_bound
              valid.alerts_refer)

    admitted-RaisesAt : RaisesAt (listed extra c) (open_session t) (admitted db settings m c sub)
    unfolding admitted
    admitted-RaisesAt =
        checked-RaisesAt (listed extra c) (raise_if (not (binds sub)) overflow)
          (λ _. get_current_member sub >>= on_found) (open_session t) (λ s. refl)
          (bound-Raises (listed extra c) (binds sub) sub_bound (open_session t))
          λ _ _.
            checked-RaisesAt (listed extra c) (get_current_member sub) on_found (open_session t)
              (get_current_member-ReadOnly sub)
              (get_current_member-Raises (listed extra c) (lists_401 extra c) sub (open_session t))
              λ found _.
                checked-RaisesAt (listed extra c) (dependency c found) on_member (open_session t)
                  (dependency-ReadOnly c found) (dependency-Raises extra c found (open_session t))
                  λ member _.
                    checked-RaisesAt (listed extra c) (raise_if (not (fits c)) unprocessable)
                      (λ _. on_bound member) (open_session t) (λ s. refl)
                      (fits-Raises extra c (open_session t)) (λ _ _. on_bound-RaisesAt member)

  authorised-Within :
      (c : Call) (t : Tables) (out : Result Claims × Store)
      → IsValid t
      → Excused (listed extra c) (parameters_bind c)
      → Excused (listed extra c) (page_binds c)
      → SubBinds (listed extra c) out.0
      → Within (listed extra c) out.0
      → Within (listed extra c) (authorised db settings m c t out).0
  unfolding request
  authorised-Within c t (ok claims, st) valid bound page_bound sub_bound h =
      admitted-RaisesAt c claims.sub t valid sub_bound bound page_bound
  authorised-Within c t (err e, st) valid bound page_bound sub_bound h = h

  handle-Raises :
      (c : Call) (credentials : Decoded) (w : World) (e : Failure)
      → IsValid w.tables
      → Excused (listed extra c) (in_range c credentials)
      → (handle db settings m c credentials w).0 ≡ err e
      → elem (status_code e) (listed extra c) ≡ true
  unfolding handle
  handle-Raises c credentials w e valid covers fails =
      Within-err (listed extra c) (handle db settings m c credentials w).0
        (authorised-Within c w.tables (get_token_claims credentials m.store_now w.store) valid
          (λ h. covers (ground (arith, h))) (λ h. covers (ground (arith, h)))
          (get_token_claims-SubBinds (listed extra c) credentials m.store_now w.store
            (λ h. covers (ground (arith, h))))
          (get_token_claims-Within (listed extra c) (lists_401 extra c) credentials m.store_now
            w.store))
        fails

module _ (db : Database) (settings : Settings) (m : Moment) where
  -- On tables with sound keys, a call of any route but the log in, the log out and the
  -- diagnosis, with any credentials and parameters, fails only with a status that
  -- docs/api/ERRORS.md lists for its endpoint, or with 500, and then an id, the OFFSET of its
  -- page or its token's subject is above the integers that SQLite takes (`in_range`).
  pub handle-documented :
      (c : Call) (credentials : Decoded) (w : World) (e : Failure)
      → IsValid w.tables
      → (handle db settings m c credentials w).0 ≡ err e
      → (elem (status_code e) (documented c) ≡ true)
        ⊎ ((status_code e ≡ 500) × (in_range c credentials ≡ false))
  handle-documented c credentials w e valid fails = elim (Bool-cases (in_range c credentials)) [
    | inl bound ↦
        elim (elem_append_cases (status_code e) (documented c) [] (
          handle-Raises db settings m [] c credentials w e valid
            (λ h. absurd (ground (arith, h, bound))) fails)) [
              | inl listed ↦ inl listed
              | inr other ↦ absurd (ground (arith, other))
            ]
    | inr outside ↦
        elim (elem_append_cases (status_code e) (documented c) (500 ∷ []) (
          handle-Raises db settings m (500 ∷ []) c credentials w e valid
            (λ h. elem-append 500 (documented c) (500 ∷ []) refl) fails)) [
              | inl listed ↦ inl listed
              | inr other ↦ inr (ground (arith, other), outside)
            ]
  ]
