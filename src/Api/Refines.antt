-- ===== src/Api/Refines.antt =====
-- The calls (app/controllers, app/core/deps.py) against the changes of `Api.Changes`.
pub mod Reads
use mathlib.Core.Path.{subst}
use assignment_cloud_instanc.Prelude.{
  ℕ, ◌≡◌, refl, true, some, not, arith, ◌⊎◌, inl, inr, Bool-cases,
}
use assignment_cloud_instanc.Models.{Member, Tables, is_admin}
use assignment_cloud_instanc.Config.{Settings}
use assignment_cloud_instanc.Session.{
  overflow, Session, Result, ok, err, Failure, Action, pure, raise_if, open_session, request, ◌>>=◌,
  ◌>>◌,
}
use assignment_cloud_instanc.Session.Reads.{ReadOnly, bind-ReadOnly, request_guarded}
use assignment_cloud_instanc.Database.{Database, binds}
use assignment_cloud_instanc.Pagination.{offset_binds}
use assignment_cloud_instanc.Access.{get, get_current_member, require_admin}
use assignment_cloud_instanc.Integrity.{IsValid, member_id}
use assignment_cloud_instanc.Clients
use assignment_cloud_instanc.Clients.Sla
use assignment_cloud_instanc.Instances
use assignment_cloud_instanc.Alerts
use assignment_cloud_instanc.Report.{build_report}
use assignment_cloud_instanc.Store.{Store}
use assignment_cloud_instanc.Revocation.{Claims, Decoded, get_token_claims}
use assignment_cloud_instanc.Controllers.ClientRoutes
use assignment_cloud_instanc.Controllers.ClientRoutes.{visible_client}
use assignment_cloud_instanc.Controllers.InstanceRoutes
use assignment_cloud_instanc.Controllers.InstanceRoutes.{visible_instance}
use assignment_cloud_instanc.Controllers.AlertRoutes
use assignment_cloud_instanc.Controllers.MonitorRoutes
use assignment_cloud_instanc.Schemas.{client_out, instance_out, page_response}
use assignment_cloud_instanc.Schemas.Summaries.{cost_response, forecast_response, sla_response}
use assignment_cloud_instanc.Api.{
  Call, Moment, World, Answer, route, admitted, authorised, dependency, fits, unprocessable,
  parameters_bind, handle,
}
use assignment_cloud_instanc.Api.Changes.{Change}
use assignment_cloud_instanc.Api.Guards.{
  visible_instance-ReadOnly, get_current_member-ReadOnly, get_current_member_found,
  require_admin-ReadOnly,
}
use assignment_cloud_instanc.Api.Services.{Changes, create_client-Changes}
use assignment_cloud_instanc.Api.Refines.Reads.{
  listed-ReadOnly, cost-ReadOnly, forecast-ReadOnly, sla-ReadOnly, answered,
}
use assignment_cloud_instanc.Api.Routes.{
  reading, rendered, checked, client_reading, update-Changes, delete-Changes, resolve-Changes,
  register-Changes, warnings-Changes, errors-Changes, long_stopped-Changes,
}

-- The dependency of a call on its member is met: the registration of a client takes an ADMIN.
abbrev Admits : Call → Member → Type 0
Admits (Call.create_client body) member = is_admin member.role ≡ true
Admits _ member = Unit

require_admin_passed :
    (found member : Member) (s : Session)
    → (require_admin found s).0 ≡ ok member
    → (found ≡ member) × (is_admin found.role ≡ true)
unfolding require_admin
require_admin_passed found member s h = elim (Bool-cases (is_admin found.role)) [
  | inl admin ↦ (ground (arith, rw admin at h), admin)
  | inr manager ↦ absurd (ground (arith, rw manager at h))
]

module _ (db : Database) (settings : Settings) (m : Moment) where
  module _ (member : Member) (t : Tables) (valid : IsValid t) where
    route-Changes :
        (c : Call) → Admits c member → Changes db member t (route db settings m c member)
    unfolding ClientRoutes.create_client ClientRoutes.list_clients Clients.list_clients
        ClientRoutes.client_instances ClientRoutes.client_cost ClientRoutes.client_cost_forecast
        ClientRoutes.client_sla InstanceRoutes.list_instances Instances.list_instances
        InstanceRoutes.get_instance AlertRoutes.list_alerts Alerts.list_alerts MonitorRoutes.report
        build_report
    route-Changes (Call.create_client body) admin =
        rendered db settings member t (Clients.create_client db body m.now) client_out
          (create_client-Changes db member t body m.now admin)
    route-Changes (Call.list_clients page size) h =
        reading db settings member t (route db settings m (Call.list_clients page size) member)
          (λ s. refl)
    route-Changes (Call.client_instances i page size) h =
        client_reading db settings member t i
          (raise_if (not (offset_binds page size)) overflow >>= λ _.
            Clients.list_client_instances db i page size >>= λ p.
            pure (page_response instance_out page size p))
          (bind-ReadOnly (raise_if (not (offset_binds page size)) overflow) _ (λ s. refl)
            (λ _.
              bind-ReadOnly (Clients.list_client_instances db i page size)
                (λ p. pure (page_response instance_out page size p))
                (listed-ReadOnly db settings i page size) (λ p s. refl)))
    route-Changes (Call.client_cost i) h =
        answered db settings member t i (Clients.get_client_cost db m.now i) cost_response
          (cost-ReadOnly db settings i m.now)
    route-Changes (Call.client_cost_forecast i) h =
        answered db settings member t i (Clients.get_cost_forecast settings m.now i)
          forecast_response (forecast-ReadOnly db settings i m.now)
    route-Changes (Call.client_sla i) h =
        answered db settings member t i (Sla.get_sla db settings m.now i) sla_response
          (sla-ReadOnly db settings i m.now)
    route-Changes (Call.create_instance body) h =
        register-Changes db settings member t body m.now m.flushed
    route-Changes (Call.list_instances page size f sort) h =
        reading db settings member t
          (route db settings m (Call.list_instances page size f sort) member) (λ s. refl)
    route-Changes (Call.get_instance i) h =
        reading db settings member t (InstanceRoutes.get_instance member i) (
          bind-ReadOnly (visible_instance member i) (λ x. pure (instance_out x))
            (visible_instance-ReadOnly member i) (λ x s. refl))
    route-Changes (Call.update_status i body) h = update-Changes db settings member t i body m.now
    route-Changes (Call.delete_instance i) h = delete-Changes db settings member t i
    route-Changes (Call.list_alerts page size f) h =
        reading db settings member t (route db settings m (Call.list_alerts page size f) member)
          (λ s. refl)
    route-Changes (Call.resolve_alert i) h = resolve-Changes db settings member t i m.now
    route-Changes (Call.warnings page size) h =
        warnings-Changes db settings member t m.detected_at page size valid
    route-Changes (Call.errors page size) h =
        errors-Changes db settings member t m.detected_at page size valid
    route-Changes (Call.long_stopped page size) h =
        long_stopped-Changes db settings member t m.detected_at page size valid m.now
    route-Changes Call.report h =
        reading db settings member t (route db settings m Call.report member) (λ s. refl)

pub dependency-ReadOnly : (c : Call) (member : Member) → ReadOnly (dependency c member)
dependency-ReadOnly (Call.create_client body) member = require_admin-ReadOnly member
dependency-ReadOnly _ member = λ s. refl

dependency_passed :
    (c : Call) (found member : Member) (s : Session)
    → (dependency c found s).0 ≡ ok member
    → (found ≡ member) × Admits c found
dependency_passed (Call.create_client body) found member s h = require_admin_passed found member s h
dependency_passed _ found member s h = (ground (arith, h), tt)

module _ (db : Database) (settings : Settings) (m : Moment) where
  -- The rows after a request: those before it, or one change of the member that `sub` names.
  abbrev pub ChangedBy : ℕ → Tables → Tables → Type 0
  ChangedBy sub t t' =
      (t' ≡ t)
      ⊎ ((member : Member) × (get member_id sub t.members ≡ some member) × Change db member t t')

  module _ (c : Call) (sub : ℕ) (t : Tables) (valid : IsValid t) where
    -- The steps of a call after its member is found, and after its dependency.
    abbrev on_bound : Member → Action (Answer c)
    on_bound member = do raise_if (not (parameters_bind c)) overflow; route db settings m c member

    abbrev on_member : Member → Action (Answer c)
    on_member member = do raise_if (not (fits c)) unprocessable; on_bound member

    abbrev on_found : Member → Action (Answer c)
    on_found found = dependency c found >>= on_member

    on_member-Changes :
        (found member : Member)
        → (found ≡ member) × Admits c found
        → Changes db found t (on_member member)
    on_member-Changes found member h =
        checked db settings found t (raise_if (not (fits c)) unprocessable) (λ _. on_bound member)
          (λ s. refl)
          λ _ _.
            checked db settings found t (raise_if (not (parameters_bind c)) overflow)
              (λ _. route db settings m c member) (λ s. refl)
              λ _ _.
                subst (λ x. Changes db found t (route db settings m c x)) h.0
                  (route-Changes db settings m found t valid c h.1)

    found_ChangedBy : ChangedBy sub t (request (get_current_member sub >>= on_found) t).1
    found_ChangedBy =
        request_guarded (get_current_member sub) on_found (get_current_member-ReadOnly sub) t
          (λ out. ChangedBy sub t out.1) (λ e. inl refl)
          λ found h. inr (
            found,
            get_current_member_found sub (open_session t) h,
            checked db settings found t (dependency c found) on_member (dependency-ReadOnly c found)
                (λ member passed.
                  on_member-Changes found member
                    (dependency_passed c found member (open_session t) passed)),
          )

    admitted-ChangedBy : ChangedBy sub t (request (admitted db settings m c sub) t).1
    unfolding admitted
    admitted-ChangedBy =
        request_guarded (raise_if (not (binds sub)) overflow)
          (λ _. get_current_member sub >>= on_found) (λ s. refl) t (λ out. ChangedBy sub t out.1)
          (λ e. inl refl) (λ _ _. found_ChangedBy)

  -- The rows after a call: those before it, or one change of the member of an admitted token.
  abbrev pub HandledBy : Decoded → World → Tables → Type 0
  HandledBy credentials w t' =
      (t' ≡ w.tables)
      ⊎ ((claims : Claims) × ((get_token_claims credentials m.store_now w.store).0 ≡ ok claims)
          × ChangedBy claims.sub w.tables t')

  authorised-HandledBy :
      (c : Call) (t : Tables) (out : Result Claims × Store)
      → IsValid t
      → ((authorised db settings m c t out).1.tables ≡ t)
        ⊎ ((claims : Claims) × (out.0 ≡ ok claims)
            × ChangedBy claims.sub t (authorised db settings m c t out).1.tables)
  authorised-HandledBy c t (ok claims, st) valid =
      inr (claims, refl, admitted-ChangedBy c claims.sub t valid)
  authorised-HandledBy c t (err e, st) valid = inl refl

  -- On tables with sound keys, a call of any route with any credentials leaves the tables as
  -- they were, or makes one change: its token is admitted, names a member that is found, and
  -- the change is one of the seven of `Change`, under its conditions (a new client needs an
  -- ADMIN; an instance or an alert must be of a client that the member may see).
  pub handle-HandledBy :
      (c : Call) (credentials : Decoded) (w : World)
      → IsValid w.tables
      → HandledBy credentials w (handle db settings m c credentials w).1.tables
  unfolding handle
  handle-HandledBy c credentials w valid =
      authorised-HandledBy c w.tables (get_token_claims credentials m.store_now w.store) valid

  -- A call whose credentials are refused answers that refusal, whatever its route and
  -- parameters, and leaves the tables as they were.
  pub handle_refused :
      (c : Call) (credentials : Decoded) (w : World) {e : Failure}
      → (get_token_claims credentials m.store_now w.store).0 ≡ err e
      → ((handle db settings m c credentials w).0 ≡ err e)
        × ((handle db settings m c credentials w).1.tables ≡ w.tables)
  unfolding handle
  handle_refused c credentials w {e} h =
      refused (get_token_claims credentials m.store_now w.store) h
    where
      refused :
          (out : Result Claims × Store)
          → out.0 ≡ err e
          → ((authorised db settings m c w.tables out).0 ≡ err e)
            × ((authorised db settings m c w.tables out).1.tables ≡ w.tables)
      refused (ok claims, st) h = absurd (ground arith)
      refused (err f, st) h = (ground (arith, h), refl)
