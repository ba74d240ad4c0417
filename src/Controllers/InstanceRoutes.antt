-- ===== src/Controllers/InstanceRoutes.antt =====
-- app/controllers/instance_controller.py
use assignment_cloud_instanc.Prelude.{ℕ, Bool, List, String, filter, take, leb, ◌==◌}
use assignment_cloud_instanc.Models.{Instance, Alert, Member}
use assignment_cloud_instanc.Config.{Settings}
use assignment_cloud_instanc.Session.{Action, Result, ok, err, pure, gets, ◌>>=◌, ◌>>◌}
use assignment_cloud_instanc.Database.{Database}
use assignment_cloud_instanc.Access.{
  assert_client_access, assert_client_id_access, accessible_client_ids,
}
use assignment_cloud_instanc.Clients
use assignment_cloud_instanc.Instances
use assignment_cloud_instanc.Instances.{InstanceCreate, InstanceStatusUpdate, Filters}
use assignment_cloud_instanc.Schemas.{
  InstanceOut, PageResponse, DiagnosisResponse, instance_out, page_response,
}
use assignment_cloud_instanc.Store.{Store}
use assignment_cloud_instanc.Diagnosis.{Provider, diagnose}

-- The instance of the path, once the member may see its client.
unfoldable pub visible_instance : Member → ℕ → Action Instance
visible_instance member i = do
  instance ← Instances.get_instance i
  assert_client_id_access member instance.client_id
  pure instance

unfoldable pub get_instance : Member → ℕ → Action InstanceOut
get_instance member i = do instance ← visible_instance member i; pure (instance_out instance)

unfoldable pub update_status : Member → ℕ → InstanceStatusUpdate → ℕ → Action InstanceOut
update_status member i body now = do
  instance ← visible_instance member i
  updated ← Instances.update_status i body now
  pure (instance_out updated)

unfoldable pub delete_instance : Member → ℕ → Action (Unit {0})
delete_instance member i = do instance ← visible_instance member i; Instances.delete_instance i

module _ (db : Database) (member : Member) where
  unfoldable pub create_instance : Settings → InstanceCreate → ℕ → ℕ → Action InstanceOut
  create_instance settings body launched flushed = do
    client ← Clients.get_client body.client_id
    assert_client_access member client
    instance ← Instances.create_instance db settings body launched flushed
    pure (instance_out instance)

  unfoldable pub list_instances : ℕ → ℕ → Filters → String → Action (PageResponse InstanceOut)
  list_instances page size f sort = do
    p ← Instances.list_instances db (accessible_client_ids member) page size f sort
    pure (page_response instance_out page size p)

-- `order_by(Alert.detectedAt.desc())`: alerts of one time tie.
abbrev pub latest_first : Alert → Alert → Bool
latest_first a b = leb b.detected_at a.detected_at

abbrev pub with_alerts : Database → ℕ → Instance → Action (Instance × List Alert)
with_alerts db i instance = gets (λ s. (
  instance,
  take 10
      (db.alert_rows.order_by latest_first (filter (λ (a : Alert). a.instance_id == i) s.alerts)),
))

-- What `diagnose_instance` loads before it closes the session.
unfoldable pub diagnosis_rows : Database → Member → ℕ → Action (Instance × List Alert)
diagnosis_rows db member i = do instance ← visible_instance member i; with_alerts db i instance

-- The rest of `diagnose_instance`, once the session is closed: the store's clock is read at `now` for the
-- cache, and at `later` for the entry in it.
module _ (sha256 strip : String → String) (settings : Settings) (provider : Provider)
    (now later : ℕ) where
  abbrev pub diagnosed : Result (Instance × List Alert) → Store → Result DiagnosisResponse × Store
  diagnosed (ok (instance, alerts)) st =
      let (answer, st') = diagnose sha256 strip settings provider instance alerts now later st in
      (
        ok (record {
          instance_id = instance.id;
          instance_name = instance.instance_name;
          status = instance.status;
          diagnosis = answer.0;
          source = answer.1;
        }),
        st',
      )
  diagnosed (err e) st = (err e, st)
