-- ===== src/Api/Changes.antt =====
-- What one call of a member may do to the tables, said without the code: nothing, or one change of
-- one kind, each under its conditions.
use assignment_cloud_instanc.Prelude.{
  ℕ, ◌≡◌, Bool, true, false, ◌&&◌, some, List, [], ◌∷◌, ◌++◌, any, ◌==◌, All,
}
use assignment_cloud_instanc.Models.{
  Member, Client, Instance, Alert, Tables, is_admin, running, status_eq,
}
use assignment_cloud_instanc.Config.{Settings}
use assignment_cloud_instanc.Database.{Database}
use assignment_cloud_instanc.Access.{get}
use assignment_cloud_instanc.Access.Scope.{allowed}
use assignment_cloud_instanc.Integrity.{IsValid, member_id, client_id, instance_id, alert_id}
use assignment_cloud_instanc.Clients.{ClientCreate, is_manager, with_clients}
use assignment_cloud_instanc.Clients.Create.{made}
use assignment_cloud_instanc.Instances.{
  InstanceCreate, InstanceStatusUpdate, with_instances, replace, updated, remove_instance,
}
use assignment_cloud_instanc.Instances.Delete.{created}
use assignment_cloud_instanc.Alerts.{with_alert_rows, resolve_row}
use assignment_cloud_instanc.Monitor.{Detection, with_alerts}
use assignment_cloud_instanc.Monitor.Dedup.{record_each}
use assignment_cloud_instanc.Monitor.Invariant.{OneOpen}

-- The id is that of an instance whose client the member may see.
abbrev pub visible : Member → List Client → List Instance → ℕ → Bool
visible member clients instances i =
    any (λ (x : Instance). x.id == i && allowed member clients x.client_id) instances

pub data Change (db : Database) (member : Member) (t : Tables) : Tables → Type 0 where
  unchanged : Change db member t t
  client_registered :
      (body : ClientCreate) (now : ℕ) (manager : Member)
      → is_admin member.role ≡ true
      → get member_id body.manager_id t.members ≡ some manager
      → is_manager manager.role ≡ true
      → Change db member t (with_clients t (t.clients ++ made db body now t ∷ []))
  instance_registered :
      (settings : Settings) (body : InstanceCreate) (launched flushed : ℕ) (c : Client)
      → get client_id body.client_id t.clients ≡ some c
      → allowed member t.clients body.client_id ≡ true
      → Change db member t
          (with_instances t (t.instances ++ created db settings body launched flushed t ∷ []))
  status_updated :
      (i : ℕ) (body : InstanceStatusUpdate) (now : ℕ) (x : Instance)
      → get instance_id i t.instances ≡ some x
      → allowed member t.clients x.client_id ≡ true
      → Change db member t (with_instances t (replace i (updated body now) t.instances))
  instance_deleted :
      (i : ℕ) (x : Instance)
      → get instance_id i t.instances ≡ some x
      → allowed member t.clients x.client_id ≡ true
      → status_eq x.status running ≡ false
      → Change db member t (remove_instance i t)
  alert_resolved :
      (i now : ℕ) (a : Alert)
      → get alert_id i t.alerts ≡ some a
      → visible member t.clients t.instances a.instance_id ≡ true
      → a.is_resolved ≡ false
      → Change db member t (with_alert_rows t (resolve_row i now t.alerts))
  -- By the rule "one open alert per instance and type", for instances that the member may see.
  alerts_recorded :
      (d : Detection) (found : List Instance)
      → All (λ (x : Instance). visible member t.clients t.instances x.id ≡ true) found
      → Change db member t (with_alerts db t (record_each db d found t.alerts))

-- Sound keys, and no instance with two open alerts of one type.
abbrev pub IsSound : Tables → Type 0
IsSound t = IsValid t × OneOpen t.alerts
