-- ===== src/Controllers/AlertRoutes.antt =====
-- app/controllers/alert_controller.py
use Prim.Native.String.{◌++◌}
use assignment_cloud_instanc.Prelude.{ℕ, none}
use assignment_cloud_instanc.Prelude.Text.{show}
use assignment_cloud_instanc.Models.{Alert, Member}
use assignment_cloud_instanc.Session.{Action, Failure, http, pure, gets, or_raise, ◌>>=◌, ◌>>◌}
use assignment_cloud_instanc.Database.{Database}
use assignment_cloud_instanc.Access.{get, assert_client_id_access, accessible_client_ids}
use assignment_cloud_instanc.Integrity.{alert_id, instance_id}
use assignment_cloud_instanc.Alerts
use assignment_cloud_instanc.Alerts.{AlertFilters}
use assignment_cloud_instanc.Schemas.{AlertOut, PageResponse, alert_out, page_response}

unfoldable pub list_alerts :
    Database → Member → ℕ → ℕ → AlertFilters → Action (PageResponse AlertOut)
list_alerts db member page size f = do
  p ← Alerts.list_alerts db (accessible_client_ids member) page size f
  pure (page_response alert_out page size p)

abbrev pub alert_not_found : ℕ → Failure
alert_not_found i = http 404 ("Alert " ++ show i ++ " not found") none

-- An AttributeError of `None`, which nothing catches.
abbrev pub no_instance : Failure
no_instance = http 500 "Internal Server Error" none

-- The alert of the path with its instance, once the member may see the instance's client.
unfoldable pub visible_alert : Member → ℕ → Action Alert
visible_alert member i = do
  found ← gets (λ s. get alert_id i s.alerts)
  alert ← or_raise found (alert_not_found i)
  joined ← gets (λ s. get instance_id alert.instance_id s.instances)
  instance ← or_raise joined no_instance
  assert_client_id_access member instance.client_id
  pure alert

unfoldable pub resolve_alert : Member → ℕ → ℕ → Action AlertOut
resolve_alert member i now = do
  alert ← visible_alert member i
  resolved ← Alerts.resolve_alert i now
  pure (alert_out resolved)
