-- ===== src/Api/Errors/Routes.antt =====
-- The statuses that the routes of app/controllers raise.
use assignment_cloud_instanc.Prelude.{false, ◌++◌, ℕ, ◌≡◌, refl, Bool, true, not, List, [], ◌∷◌}
use assignment_cloud_instanc.Models.{Member, Alert}
use assignment_cloud_instanc.Config.{Settings}
use assignment_cloud_instanc.Session.{Session, pure, raise_if, overflow, ◌>>=◌}
use assignment_cloud_instanc.Session.Raises.{
  Raises, RaisesAt, bind-Raises, rendered-Raises, checked-RaisesAt,
}
use assignment_cloud_instanc.Database.{Database}
use assignment_cloud_instanc.Pagination.{offset_binds}
use assignment_cloud_instanc.Access.{elem, accessible_client_ids, assert_client_access}
use assignment_cloud_instanc.Integrity.{Refers, instance_id}
use assignment_cloud_instanc.Clients
use assignment_cloud_instanc.Clients.Sla
use assignment_cloud_instanc.Instances
use assignment_cloud_instanc.Alerts
use assignment_cloud_instanc.Instances.{InstanceCreate}
use assignment_cloud_instanc.Monitor.{Detection, scan}
use assignment_cloud_instanc.Monitor.Checks.{
  warnings, errors, long_stops, check_warnings, check_errors, check_long_stopped,
}
use assignment_cloud_instanc.Report.{build_report}
use assignment_cloud_instanc.Schemas.Summaries.{cost_response, forecast_response, sla_response}
use assignment_cloud_instanc.Schemas.{client_out, instance_out, alert_out, page_response}
use assignment_cloud_instanc.Controllers.ClientRoutes
use assignment_cloud_instanc.Controllers.ClientRoutes.{visible_client}
use assignment_cloud_instanc.Controllers.InstanceRoutes
use assignment_cloud_instanc.Controllers.InstanceRoutes.{visible_instance}
use assignment_cloud_instanc.Controllers.AlertRoutes
use assignment_cloud_instanc.Controllers.AlertRoutes.{alert_not_found, no_instance, visible_alert}
use assignment_cloud_instanc.Controllers.MonitorRoutes
use assignment_cloud_instanc.Api.{Call, Moment, route}
use assignment_cloud_instanc.Api.Guards.{visible_alert-ReadOnly}
use assignment_cloud_instanc.Api.Errors.Services.{
  list_client_instances-Raises, get_client_cost-Raises, get_cost_forecast-Raises, get_sla-Raises,
  create_client-Raises, create_instance-Raises, update_status-Raises, delete_instance-Raises,
  resolve_alert-Raises,
}
use assignment_cloud_instanc.Api.Errors.Checks.{
  assert_client_access-Raises, get_client-Raises, visible_instance-Raises, visible_client-Raises,
  behind_client, behind_instance, visible_alert-RaisesAt,
}
use assignment_cloud_instanc.Api.Errors.Scans.{scan-Raises}

abbrev scoped : List ℕ
scoped = 401 ∷ 403 ∷ 404 ∷ []

abbrev scoped_checked : List ℕ
scoped_checked = 401 ∷ 403 ∷ 404 ∷ 422 ∷ []

abbrev checked : List ℕ
checked = 401 ∷ 422 ∷ []

abbrev registering : List ℕ
registering = 401 ∷ 403 ∷ 404 ∷ 400 ∷ 422 ∷ []

abbrev deleting : List ℕ
deleting = 401 ∷ 403 ∷ 404 ∷ 409 ∷ []

-- The OFFSET of the page that a route asks for after its first statement.
abbrev pub page_binds : Call → Bool
page_binds (Call.client_instances i page size) = offset_binds page size
page_binds _ = true

-- The statuses of docs/api/ERRORS.md, "Errors by endpoint".
abbrev pub documented : Call → List ℕ
documented (Call.create_client body) = registering
documented (Call.list_clients page size) = checked
documented (Call.client_instances i page size) = scoped_checked
documented (Call.client_cost i) = scoped
documented (Call.client_cost_forecast i) = scoped
documented (Call.client_sla i) = scoped
documented (Call.create_instance body) = scoped_checked
documented (Call.list_instances page size f sort) = checked
documented (Call.get_instance i) = scoped
documented (Call.update_status i body) = scoped_checked
documented (Call.delete_instance i) = deleting
documented (Call.list_alerts page size f) = checked
documented (Call.resolve_alert i) = scoped
documented (Call.warnings page size) = checked
documented (Call.errors page size) = checked
documented (Call.long_stopped page size) = checked
documented Call.report = 401 ∷ []

-- With more statuses.
abbrev pub listed : List ℕ → Call → List ℕ
listed extra c = documented c ++ extra

-- The status of an overflow is among the statuses, unless the test passes.
abbrev pub Excused : List ℕ → Bool → Type 0
Excused statuses b = b ≡ false → elem 500 statuses ≡ true

pub bound-Raises :
    (statuses : List ℕ) (b : Bool)
    → Excused statuses b
    → Raises statuses (raise_if (not b) overflow)
bound-Raises statuses true h s = tt
bound-Raises statuses false h s = h refl

module _ (db : Database) (settings : Settings) (m : Moment) (member : Member) (extra : List ℕ) where
  resolve-RaisesAt :
      (i : ℕ) (s : Session)
      → Refers (λ (a : Alert). a.instance_id) s.alerts instance_id s.instances
      → RaisesAt (listed extra (Call.resolve_alert i)) s (AlertRoutes.resolve_alert member i m.now)
  unfolding AlertRoutes.resolve_alert
  resolve-RaisesAt i s refer =
      checked-RaisesAt (scoped ++ extra) (visible_alert member i)
        (λ _. Alerts.resolve_alert i m.now >>= λ a. pure (alert_out a)) s
        (visible_alert-ReadOnly member i)
        (visible_alert-RaisesAt (scoped ++ extra) refl refl member i s refer)
        (λ a h.
          rendered-Raises (scoped ++ extra) (Alerts.resolve_alert i m.now) alert_out
            (resolve_alert-Raises (scoped ++ extra) refl i m.now) s)

  register-Raises :
      (statuses : List ℕ) (body : InstanceCreate)
      → elem 403 statuses ≡ true
      → elem 404 statuses ≡ true
      → Raises statuses (InstanceRoutes.create_instance db member settings body m.now m.flushed)
  unfolding InstanceRoutes.create_instance
  register-Raises statuses body refuses misses =
      let create = Instances.create_instance db settings body m.now m.flushed in
      bind-Raises statuses (Clients.get_client body.client_id)
        (λ c. assert_client_access member c >>= λ _. create >>= λ x. pure (instance_out x))
        (get_client-Raises statuses misses body.client_id)
        (λ c.
          bind-Raises statuses (assert_client_access member c)
            (λ _. create >>= λ x. pure (instance_out x))
            (assert_client_access-Raises statuses refuses member c)
            (λ _.
              rendered-Raises statuses create instance_out
                (create_instance-Raises statuses misses db settings body m.now m.flushed)))

  scanned :
      (statuses : List ℕ) (d : Detection) (page size : ℕ)
      → Raises statuses (scan db d page size >>= λ p. pure (page_response instance_out page size p))
  scanned statuses d page size =
      rendered-Raises statuses (scan db d page size) (page_response instance_out page size)
        (scan-Raises statuses db d page size)

  pub route-RaisesAt :
      (c : Call) (s : Session)
      → Excused (listed extra c) (page_binds c)
      → Refers (λ (a : Alert). a.instance_id) s.alerts instance_id s.instances
      → RaisesAt (listed extra c) s (route db settings m c member)
  unfolding ClientRoutes.create_client ClientRoutes.list_clients Clients.list_clients
      ClientRoutes.client_instances ClientRoutes.client_cost ClientRoutes.client_cost_forecast
      ClientRoutes.client_sla InstanceRoutes.list_instances Instances.list_instances
      InstanceRoutes.get_instance InstanceRoutes.update_status InstanceRoutes.delete_instance
      AlertRoutes.list_alerts Alerts.list_alerts MonitorRoutes.report MonitorRoutes.warnings
      MonitorRoutes.errors MonitorRoutes.long_stopped build_report check_warnings check_errors
      check_long_stopped
  route-RaisesAt (Call.create_client body) s bound refer =
      rendered-Raises (registering ++ extra) (Clients.create_client db body m.now) client_out
        (create_client-Raises (registering ++ extra) refl db body m.now refl) s
  route-RaisesAt (Call.list_clients page size) s bound refer = tt
  route-RaisesAt (Call.client_instances i page size) s bound refer =
      let answer = Clients.list_client_instances db i page size >>= λ p.
      pure (page_response instance_out page size p) in
      bind-Raises (scoped_checked ++ extra) (visible_client member i)
        (λ _. raise_if (not (offset_binds page size)) overflow >>= λ _. answer)
        (visible_client-Raises (scoped_checked ++ extra) refl refl member i)
        (λ _.
          bind-Raises (scoped_checked ++ extra) (raise_if (not (offset_binds page size)) overflow)
            (λ _. answer) (bound-Raises (scoped_checked ++ extra) (offset_binds page size) bound)
            (λ _.
              rendered-Raises (scoped_checked ++ extra)
                (Clients.list_client_instances db i page size)
                (page_response instance_out page size)
                (list_client_instances-Raises (scoped_checked ++ extra) refl db i page size)))
        s
  route-RaisesAt (Call.client_cost i) s bound refer =
      behind_client (scoped ++ extra) refl refl member i (Clients.get_client_cost db m.now i)
        cost_response (get_client_cost-Raises (scoped ++ extra) refl db m.now i) s
  route-RaisesAt (Call.client_cost_forecast i) s bound refer =
      behind_client (scoped ++ extra) refl refl member i
        (Clients.get_cost_forecast settings m.now i) forecast_response
        (get_cost_forecast-Raises (scoped ++ extra) refl settings m.now i) s
  route-RaisesAt (Call.client_sla i) s bound refer =
      behind_client (scoped ++ extra) refl refl member i (Sla.get_sla db settings m.now i)
        sla_response (get_sla-Raises (scoped ++ extra) refl db settings m.now i) s
  route-RaisesAt (Call.create_instance body) s bound refer =
      register-Raises (scoped_checked ++ extra) body refl refl s
  route-RaisesAt (Call.list_instances page size f sort) s bound refer = tt
  route-RaisesAt (Call.get_instance i) s bound refer =
      rendered-Raises (scoped ++ extra) (visible_instance member i) instance_out
        (visible_instance-Raises (scoped ++ extra) refl refl member i) s
  route-RaisesAt (Call.update_status i body) s bound refer =
      behind_instance (scoped_checked ++ extra) refl refl member i
        (Instances.update_status i body m.now >>= λ x. pure (instance_out x))
        (rendered-Raises (scoped_checked ++ extra) (Instances.update_status i body m.now)
          instance_out (update_status-Raises (scoped_checked ++ extra) refl i body m.now))
        s
  route-RaisesAt (Call.delete_instance i) s bound refer =
      behind_instance (deleting ++ extra) refl refl member i (Instances.delete_instance i)
        (delete_instance-Raises (deleting ++ extra) refl i refl) s
  route-RaisesAt (Call.list_alerts page size f) s bound refer = tt
  route-RaisesAt (Call.resolve_alert i) s bound refer = resolve-RaisesAt i s refer
  route-RaisesAt (Call.warnings page size) s bound refer =
      scanned (checked ++ extra) (warnings settings (accessible_client_ids member) m.detected_at)
        page size s
  route-RaisesAt (Call.errors page size) s bound refer =
      scanned (checked ++ extra) (errors settings (accessible_client_ids member) m.detected_at) page
        size s
  route-RaisesAt (Call.long_stopped page size) s bound refer =
      scanned (checked ++ extra)
        (long_stops settings (accessible_client_ids member) m.detected_at m.now) page size s
  route-RaisesAt Call.report s bound refer = tt
