-- ===== src/Integrity.antt =====
-- The integrity of the tables: primary keys are positive and name one row, and foreign keys name one
-- (app/models/models.py, the ForeignKey columns).
pub mod Keys
use assignment_cloud_instanc.Prelude.{ℕ, ◌<◌, ◌≡◌, true, List, map, All}
use assignment_cloud_instanc.Models.{
  Member, Client, Instance, Alert, CostSnapshot, Tables, Distinct,
}
use assignment_cloud_instanc.Access.{elem}

abbrev pub member_id : Member → ℕ
member_id m = m.id

abbrev pub client_id : Client → ℕ
client_id c = c.id

abbrev pub instance_id : Instance → ℕ
instance_id i = i.id

abbrev pub alert_id : Alert → ℕ
alert_id a = a.id

abbrev pub snapshot_id : CostSnapshot → ℕ
snapshot_id c = c.id

-- The foreign key of every row names a row of the other table.
abbrev pub Refers : {A B : Type 0} → (A → ℕ) → List A → (B → ℕ) → List B → Type 0
Refers fk rows key others = All (λ r. elem (fk r) (map key others) ≡ true) rows

pub record IsValid (t : Tables) : Type 0 where
  pub members_distinct : Distinct member_id t.members
  pub clients_distinct : Distinct client_id t.clients
  pub instances_distinct : Distinct instance_id t.instances
  pub instances_pos : All (λ i. 0 < instance_id i) t.instances
  pub alerts_distinct : Distinct alert_id t.alerts
  pub clients_refer : Refers (λ (c : Client). c.manager_id) t.clients member_id t.members
  pub instances_refer : Refers (λ (i : Instance). i.client_id) t.instances client_id t.clients
  pub alerts_refer : Refers (λ (a : Alert). a.instance_id) t.alerts instance_id t.instances
  pub snapshots_distinct : Distinct snapshot_id t.cost_snapshots
  pub snapshots_refer :
      Refers (λ (c : CostSnapshot). c.client_id) t.cost_snapshots client_id t.clients
