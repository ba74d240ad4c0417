-- ===== src/Instances.antt =====
-- app/services/instance_service.py: the instances and their lifecycle.
pub mod Sort
pub mod Delete
pub mod Update
use assignment_cloud_instanc.Prelude.{
  ℕ, Bool, true, not, ◌&&◌, ◌||◌, Option, none, some, List, [], ◌∷◌, ◌++◌, map, String, filter,
  ◌==◌, if◌then◌else◌,
}
use assignment_cloud_instanc.Models.{
  Client, Instance, InstanceStatus, InstanceType, Alert, Tables, running, status_eq, type_eq,
}
use assignment_cloud_instanc.Config.{Settings, unit_prices}
use assignment_cloud_instanc.Session.{
  Session, Action, active_instance, not_found, pure, raise, gets, modify, commit, or_raise, ◌>>=◌,
  ◌>>◌,
}
use assignment_cloud_instanc.Database.{Database}
use assignment_cloud_instanc.Pagination.{Page, paginate}
use assignment_cloud_instanc.Access.{Select, get, in_scope}
use assignment_cloud_instanc.Integrity.{client_id, instance_id}
use text.Mathlib.Text.{◌==◌ as str_eq}
use Sort.{sort_le}

-- `InstanceCreate` and `InstanceStatusUpdate` of app/schemas/schemas.py.
pub record InstanceCreate : Type 0 where
  pub instance_name : String
  pub region : String
  pub instance_type : InstanceType
  pub status : InstanceStatus
  pub cpu_usage : ℕ
  pub client_id : ℕ

pub record InstanceStatusUpdate : Type 0 where
  pub status : InstanceStatus
  pub cpu_usage : Option ℕ

-- The query parameters of `list_instances` that filter; a missing one is `none`.
pub record Filters : Type 0 where
  pub status : Option InstanceStatus
  pub client_id : Option ℕ
  pub region : Option String
  pub instance_type : Option InstanceType

-- `if x is not None: query.filter(column == x)`
abbrev pub passes {ℓ} : {A : Type ℓ} → (A → Bool) → Option A → Bool
passes test none = true
passes test (some x) = test x

abbrev pub with_instances : Tables → List Instance → Tables
with_instances t instances = record t { instances = instances }

module _ (db : Database) where
  -- The row that is inserted. `launched` is the clock at the construction, `flushed` the default of
  -- `updatedAt` at the insert.
  abbrev pub new_instance : Settings → InstanceCreate → ℕ → ℕ → List Instance → Instance
  new_instance settings body launched flushed instances = record {
    id = db.next_id (map instance_id instances);
    instance_name = body.instance_name;
    region = body.region;
    instance_type = body.instance_type;
    status = body.status;
    cpu_usage = body.cpu_usage;
    monthly_cost = unit_prices settings body.instance_type;
    client_id = body.client_id;
    launched_at = launched;
    updated_at = flushed;
  }

  unfoldable pub create_instance : Settings → InstanceCreate → ℕ → ℕ → Action Instance
  create_instance settings body launched flushed = do
    found ← gets (λ s. get client_id body.client_id s.clients)
    or_raise found (not_found "Client" body.client_id)
    instance ← gets (λ s. new_instance settings body launched flushed s.instances)
    modify (λ t. with_instances t (t.instances ++ instance ∷ []))
    commit
    pure instance

  abbrev pub list_test : Option Select → Filters → List Client → Instance → Bool
  list_test client_ids f clients i =
      in_scope client_ids clients i.client_id
      && passes (λ s. status_eq i.status s) f.status
      && passes (λ c. i.client_id == c) f.client_id
      && passes (λ r. str_eq i.region r) f.region
      && passes (λ k. type_eq i.instance_type k) f.instance_type

  unfoldable pub list_instances : Option Select → ℕ → ℕ → Filters → String → Action (Page Instance)
  unfolding sort_le paginate
  list_instances client_ids page size f sort = gets (λ s.
      paginate db.instance_rows (sort_le sort)
        (filter (list_test client_ids f s.clients) s.instances) page size)

unfoldable pub get_instance : ℕ → Action Instance
get_instance i = do
  found ← gets (λ s. get instance_id i s.instances)
  or_raise found (not_found "Instance" i)

-- `UPDATE … WHERE id = i`
abbrev pub replace : ℕ → (Instance → Instance) → List Instance → List Instance
replace i change = map (λ (x : Instance). if instance_id x == i then change x else x)

-- `next_cpu_usage`: what the request gives, or 0 for an instance that does not run.
unfoldable pub next_cpu_usage : InstanceStatusUpdate → Option ℕ
next_cpu_usage body = elim body.cpu_usage [
  | some cpu ↦ some cpu
  | none ↦ if not (status_eq body.status running) then some 0 else none
]

abbrev pub cpu_changed : Instance → Option ℕ → Bool
cpu_changed instance none = Bool.false
cpu_changed instance (some cpu) = not (instance.cpu_usage == cpu)

abbrev pub or_kept : Option ℕ → ℕ → ℕ
or_kept none old = old
or_kept (some cpu) old = cpu

abbrev pub updated : InstanceStatusUpdate → ℕ → Instance → Instance
updated body now instance = record instance {
  status = body.status;
  cpu_usage = or_kept (next_cpu_usage body) instance.cpu_usage;
  updated_at = now;
}

unfoldable pub update_status : ℕ → InstanceStatusUpdate → ℕ → Action Instance
unfolding get_instance next_cpu_usage
update_status i body now = do
  instance ← get_instance i
  if not (not (status_eq instance.status body.status))
        && not (cpu_changed instance (next_cpu_usage body))
      then pure instance
      else do
        modify (λ t. with_instances t (replace i (updated body now) t.instances))
        commit
        pure (updated body now instance)

-- `db.delete(instance)`, with the `delete-orphan` cascade to its alerts.
abbrev pub remove_instance : ℕ → Tables → Tables
remove_instance i t = record t {
  instances = filter (λ x. not (instance_id x == i)) t.instances;
  alerts = filter (λ (a : Alert). not (a.instance_id == i)) t.alerts;
}

unfoldable pub delete_instance : ℕ → Action (Unit {0})
unfolding get_instance
delete_instance i = do
  instance ← get_instance i
  if status_eq instance.status running
      then raise (active_instance i)
      else do modify (remove_instance i); commit
