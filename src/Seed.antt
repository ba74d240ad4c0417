-- ===== src/Seed.antt =====
-- app/seed.py: the demo rows of a new database.
pub mod Rows
pub mod Added
pub mod Sound
use Prim.Native.String.{◌++◌ as append}
use assignment_cloud_instanc.Prelude.{
  ℕ, zero, suc, ◌-◌, ◌*◌, ◌/◌, Option, none, some, List, [], ◌∷◌, ◌++◌, map, String, filter, length,
  ◌==◌, leb, if◌then◌else◌,
}
use assignment_cloud_instanc.Prelude.Text.{show}
use assignment_cloud_instanc.Prelude.Calendar.{date_of, day_length, month_name}
use assignment_cloud_instanc.Seed.Rows.{
  MemberSpec, ClientSpec, InstanceSpec, member_specs, client_specs, instance_specs,
}
use assignment_cloud_instanc.Models.{
  Role, ContractPlan, InstanceType, InstanceStatus, Member, Client, Instance, CostSnapshot, Tables,
  admin, client_manager, basic, standard, premium, small, medium, large, running, stopped, error,
}
use assignment_cloud_instanc.Config.{Settings, unit_prices}
use assignment_cloud_instanc.Session.{Action, pure, gets, modify, commit, ◌>>=◌, ◌>>◌}
use assignment_cloud_instanc.Database.{Database}
use assignment_cloud_instanc.Integrity.{member_id, client_id, instance_id, snapshot_id}
use assignment_cloud_instanc.Security.{Kdf, hash_password}
use assignment_cloud_instanc.Clients.{sum_of}
use assignment_cloud_instanc.Monitor.Checks.{hours}

-- `xs[k]` of the ids that the flush gave.
abbrev pub id_at : ℕ → List ℕ → ℕ
id_at k [] = 0
id_at zero (i ∷ ids) = i
id_at (suc k) (i ∷ ids) = id_at k ids

abbrev pub has_row {ℓ} : {A : Type ℓ} → List A → Option A
has_row [] = none
has_row (x ∷ xs) = some x

-- `(now.replace(day=1) - timedelta(days=1)).strftime("%Y-%m")`
unfoldable pub previous_month : ℕ → String
unfolding date_of month_name
previous_month now =
    let today = now / day_length in
    let d = date_of (today - (date_of today).day) in month_name d.year d.month

module _ (db : Database) where
  -- `add_all` and `flush`: the new rows behind the rows of the table.
  unfoldable pub added : {A B : Type 0} → (A → ℕ) → (B → ℕ → A) → List B → List A → List A
  added key make [] rows = []
  added key make (b ∷ bs) rows =
      let row = make b (db.next_id (map key rows)) in row ∷ added key make bs (rows ++ row ∷ [])

  -- `created` is the default of `createdAt` at the insert of a row.
  module _ (kdf : Kdf) (settings : Settings) (salt : String → List ℕ) (now created : ℕ) where
    abbrev pub new_member : MemberSpec → ℕ → Member
    new_member spec i = record {
      id = i;
      email = spec.email;
      password = hash_password kdf spec.password (salt spec.email);
      name = spec.name;
      role = spec.role;
      created_at = created;
    }

    abbrev pub seeded_client : List Member → ClientSpec → ℕ → Client
    seeded_client members spec i = record {
      id = i;
      client_name = spec.client_name;
      contract_plan = spec.contract_plan;
      manager_id = id_at spec.manager (map member_id members);
      created_at = created;
    }

    abbrev pub seeded_instance : List Client → InstanceSpec → ℕ → Instance
    seeded_instance clients spec i = record {
      id = i;
      instance_name = spec.instance_name;
      region = spec.region;
      instance_type = spec.instance_type;
      status = spec.status;
      cpu_usage = spec.cpu_usage;
      monthly_cost = unit_prices settings spec.instance_type;
      client_id = id_at spec.client (map client_id clients);
      launched_at = now - hours (spec.launched_days * 24);
      updated_at = now - hours spec.updated_hours;
    }

    abbrev pub snapshot : List Instance → Client → ℕ → CostSnapshot
    snapshot instances c i =
        let own = filter (λ (x : Instance). x.client_id == c.id) instances in
        record {
          id = i;
          client_id = c.id;
          snapshot_month = previous_month now;
          total_cost = sum_of (λ (x : Instance). x.monthly_cost) own;
          instance_count = length own;
          created_at = created;
        }

    abbrev pub new_members : Tables → List Member
    new_members t = added member_id new_member member_specs t.members

    abbrev pub new_clients : Tables → List Client
    new_clients t = added client_id (seeded_client (new_members t)) client_specs t.clients

    abbrev pub new_instances : Tables → List Instance
    new_instances t = added instance_id (seeded_instance (new_clients t)) instance_specs t.instances

    abbrev pub seeded : Tables → Tables
    seeded t = record t {
      members = t.members ++ new_members t;
      clients = t.clients ++ new_clients t;
      instances = t.instances ++ new_instances t;
      cost_snapshots =
          t.cost_snapshots
          ++ added snapshot_id (snapshot (new_instances t)) (new_clients t) t.cost_snapshots;
    }

    abbrev pub unless_seeded : Option Member → Action (Unit {0})
    unless_seeded (some member) = pure tt
    unless_seeded none = do modify seeded; commit

    unfoldable pub seed : Action (Unit {0})
    unfolding added hash_password previous_month
    seed = do first ← gets (λ s. has_row s.members); unless_seeded first
