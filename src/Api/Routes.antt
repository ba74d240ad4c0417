-- ===== src/Api/Routes.antt =====
-- The routes as changes: the checks of a handler (app/controllers) before its service.
use mathlib.Core.Path.{subst}
use assignment_cloud_instanc.Prelude.{ℕ, ◌≡◌, sym, ◌∙◌, true, arith}
use assignment_cloud_instanc.Models.{Member, Instance, Tables}
use assignment_cloud_instanc.Config.{Settings}
use assignment_cloud_instanc.Session.{ok, Action, pure, open_session, ◌>>=◌}
use assignment_cloud_instanc.Session.Reads.{
  ReadOnly, request_guarded, request_reads, request_mapped,
}
use assignment_cloud_instanc.Database.{Database}
use assignment_cloud_instanc.Access.{in_scope, accessible_client_ids, assert_client_access}
use assignment_cloud_instanc.Access.Scope.{allowed, in_scope-accessible}
use assignment_cloud_instanc.Integrity.{IsValid}
use assignment_cloud_instanc.Clients
use assignment_cloud_instanc.Instances
use assignment_cloud_instanc.Instances.{InstanceCreate, InstanceStatusUpdate}
use assignment_cloud_instanc.Instances.Delete.{create_found}
use assignment_cloud_instanc.Alerts
use assignment_cloud_instanc.Monitor.Checks.{
  warnings, errors, long_stops, check_warnings, check_errors, check_long_stopped,
}
use assignment_cloud_instanc.Controllers.ClientRoutes.{visible_client}
use assignment_cloud_instanc.Controllers.InstanceRoutes
use assignment_cloud_instanc.Controllers.InstanceRoutes.{visible_instance}
use assignment_cloud_instanc.Controllers.AlertRoutes
use assignment_cloud_instanc.Controllers.AlertRoutes.{visible_alert}
use assignment_cloud_instanc.Controllers.MonitorRoutes
use assignment_cloud_instanc.Schemas.{instance_out, alert_out, page_response}
use assignment_cloud_instanc.Api.Changes.{Change, unchanged, instance_registered}
use assignment_cloud_instanc.Api.Guards.{
  visible_client-ReadOnly, visible_instance-ReadOnly, visible_alert-ReadOnly,
  visible_instance-allowed, visible_alert-allowed, get_client-ReadOnly, get_client_found,
  assert_client_access-ReadOnly, assert_client_access-allowed,
}
use assignment_cloud_instanc.Api.Services.{
  Changes, becomes, update_status-Changes, delete_instance-Changes, resolve_alert-Changes,
  scan-Changes,
}

module _ (db : Database) (settings : Settings) (member : Member) (t : Tables) where
  -- A route that only reads.
  pub reading : {A : Type 0} (m : Action A) → ReadOnly m → Changes db member t m
  reading m reads = subst (Change db member t) (sym (request_reads m t reads)) unchanged

  -- A service whose answer is then rendered.
  pub rendered :
      {A B : Type 0} (m : Action A) (g : A → B)
      → Changes db member t m
      → Changes db member t (m >>= λ a. pure (g a))
  rendered m g c = subst (Change db member t) (sym (request_mapped g m t)) c

  -- A service behind a check.
  pub checked :
      {A B : Type 0} (m : Action A) (f : A → Action B)
      → ReadOnly m
      → ((a : A) → (m (open_session t)).0 ≡ ok a → Changes db member t (f a))
      → Changes db member t (m >>= f)
  checked m f reads h =
      request_guarded m f reads t (λ out. Change db member t out.1) (λ e. unchanged) h

  -- A route that reads once the member may see the client.
  pub client_reading :
      {A : Type 0} (i : ℕ) (m : Action A)
      → ReadOnly m
      → Changes db member t (visible_client member i >>= λ _. m)
  client_reading i m reads =
      checked (visible_client member i) (λ _. m) (visible_client-ReadOnly member i)
        (λ c h. reading m reads)

  pub update-Changes :
      (i : ℕ) (body : InstanceStatusUpdate) (now : ℕ)
      → Changes db member t (InstanceRoutes.update_status member i body now)
  unfolding InstanceRoutes.update_status
  update-Changes i body now =
      checked (visible_instance member i)
        (λ _. Instances.update_status i body now >>= λ x. pure (instance_out x))
        (visible_instance-ReadOnly member i)
        λ x h.
          let seen = visible_instance-allowed member i (open_session t) h in
          rendered (Instances.update_status i body now) instance_out
            (update_status-Changes db member t i body now x seen.0 seen.1)

  pub delete-Changes : (i : ℕ) → Changes db member t (InstanceRoutes.delete_instance member i)
  unfolding InstanceRoutes.delete_instance
  delete-Changes i =
      checked (visible_instance member i) (λ _. Instances.delete_instance i)
        (visible_instance-ReadOnly member i)
        λ x h.
          let seen = visible_instance-allowed member i (open_session t) h in
          delete_instance-Changes db member t i x seen.0 seen.1

  pub resolve-Changes : (i now : ℕ) → Changes db member t (AlertRoutes.resolve_alert member i now)
  unfolding AlertRoutes.resolve_alert
  resolve-Changes i now =
      checked (visible_alert member i) (λ _. Alerts.resolve_alert i now >>= λ a. pure (alert_out a))
        (visible_alert-ReadOnly member i)
        λ a h.
          let seen = visible_alert-allowed member i (open_session t) h in
          rendered (Alerts.resolve_alert i now) alert_out
            (resolve_alert-Changes db member t i now a seen.0 seen.1)

  pub register-Changes :
      (body : InstanceCreate) (launched flushed : ℕ)
      → Changes db member t
          (InstanceRoutes.create_instance db member settings body launched flushed)
  unfolding InstanceRoutes.create_instance
  register-Changes body launched flushed =
      let service = Instances.create_instance db settings body launched flushed in
      checked (Clients.get_client body.client_id)
        (λ c. assert_client_access member c >>= λ _. service >>= λ x. pure (instance_out x))
        (get_client-ReadOnly body.client_id)
        λ c h.
          let found = get_client_found body.client_id (open_session t) h in
          checked (assert_client_access member c) (λ _. service >>= λ x. pure (instance_out x))
            (assert_client_access-ReadOnly member c)
            λ _ passed. rendered service instance_out (
              becomes db member t (create_found db settings body launched flushed t found) (
                instance_registered settings body launched flushed c found (
                  assert_client_access-allowed member body.client_id c (open_session t) found
                    passed)))

  in_scope-allowed :
      (i : ℕ)
      → in_scope (accessible_client_ids member) t.clients i ≡ true
      → allowed member t.clients i ≡ true
  in_scope-allowed i h = sym (in_scope-accessible member i t.clients) ∙ h

  module _ (detected_at : Instance → ℕ) (page size : ℕ) (valid : IsValid t) where
    pub warnings-Changes :
        Changes db member t (MonitorRoutes.warnings db settings member detected_at page size)
    unfolding MonitorRoutes.warnings check_warnings warnings
    warnings-Changes =
        rendered (check_warnings settings (accessible_client_ids member) detected_at db page size)
          (page_response instance_out page size)
          (scan-Changes db member t (warnings settings (accessible_client_ids member) detected_at)
            page size valid (λ x h. in_scope-allowed x.client_id (ground (arith, h))))

    pub errors-Changes :
        Changes db member t (MonitorRoutes.errors db settings member detected_at page size)
    unfolding MonitorRoutes.errors check_errors errors
    errors-Changes =
        rendered (check_errors settings (accessible_client_ids member) detected_at db page size)
          (page_response instance_out page size)
          (scan-Changes db member t (errors settings (accessible_client_ids member) detected_at)
            page size valid (λ x h. in_scope-allowed x.client_id (ground (arith, h))))

    pub long_stopped-Changes :
        (now : ℕ)
        → Changes db member t
            (MonitorRoutes.long_stopped db settings member detected_at page size now)
    unfolding MonitorRoutes.long_stopped check_long_stopped long_stops
    long_stopped-Changes now =
        rendered
          (check_long_stopped settings (accessible_client_ids member) detected_at db page size now)
          (page_response instance_out page size)
          (scan-Changes db member t
            (long_stops settings (accessible_client_ids member) detected_at now) page size valid
            (λ x h. in_scope-allowed x.client_id (ground (arith, h))))
