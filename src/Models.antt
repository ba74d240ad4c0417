-- ===== src/Models.antt =====
-- app/models/models.py: the enumerations, the rows of the five tables, and the tables together.
--
-- Ids are positive ints, and a datetime is a count of microseconds (its resolution) since a fixed
-- epoch. A float percentage is a count of thousandths of a percent, and money a count of cents: the
-- code compares, adds and rounds such values, and the configured ones (80.0, 99.9, 50.0) are exact.
use assignment_cloud_instanc.Prelude.{ℕ, Bool, true, false, Option, List, String, Ordered, ◌≢◌}

pub data Role : Type 0 where
  admin client_manager : Role

pub data ContractPlan : Type 0 where
  basic standard premium : ContractPlan

pub data InstanceType : Type 0 where
  small medium large : InstanceType

pub data InstanceStatus : Type 0 where
  running stopped error : InstanceStatus

pub data AlertType : Type 0 where
  cpu_high error_detected long_stopped : AlertType

-- The names that the enumerations store and show (`.value`).
abbrev pub role_value : Role → String
role_value admin = "ADMIN"
role_value client_manager = "CLIENT_MANAGER"

abbrev pub type_value : InstanceType → String
type_value small = "SMALL"
type_value medium = "MEDIUM"
type_value large = "LARGE"

abbrev pub status_value : InstanceStatus → String
status_value running = "RUNNING"
status_value stopped = "STOPPED"
status_value error = "ERROR"

abbrev pub alert_type_value : AlertType → String
alert_type_value cpu_high = "CPU_HIGH"
alert_type_value error_detected = "ERROR_DETECTED"
alert_type_value long_stopped = "LONG_STOPPED"

-- `==` on members of one enumeration.
abbrev pub is_admin : Role → Bool
is_admin admin = true
is_admin client_manager = false

abbrev pub type_eq : InstanceType → InstanceType → Bool
type_eq small small = true
type_eq medium medium = true
type_eq large large = true
type_eq _ _ = false

abbrev pub status_eq : InstanceStatus → InstanceStatus → Bool
status_eq running running = true
status_eq stopped stopped = true
status_eq error error = true
status_eq _ _ = false

abbrev pub alert_type_eq : AlertType → AlertType → Bool
alert_type_eq cpu_high cpu_high = true
alert_type_eq error_detected error_detected = true
alert_type_eq long_stopped long_stopped = true
alert_type_eq _ _ = false

pub record Member : Type 0 where
  pub id : ℕ
  pub email : String
  pub password : String
  pub name : String
  pub role : Role
  pub created_at : ℕ

pub record Client : Type 0 where
  pub id : ℕ
  pub client_name : String
  pub contract_plan : ContractPlan
  pub manager_id : ℕ
  pub created_at : ℕ

pub record Instance : Type 0 where
  pub id : ℕ
  pub instance_name : String
  pub region : String
  pub instance_type : InstanceType
  pub status : InstanceStatus
  pub cpu_usage : ℕ
  pub monthly_cost : ℕ
  pub client_id : ℕ
  pub launched_at : ℕ
  pub updated_at : ℕ

pub record Alert : Type 0 where
  pub id : ℕ
  pub instance_id : ℕ
  pub alert_type : AlertType
  pub message : String
  pub is_resolved : Bool
  pub detected_at : ℕ
  pub resolved_at : Option ℕ

pub record CostSnapshot : Type 0 where
  pub id : ℕ
  pub client_id : ℕ
  pub snapshot_month : String
  pub total_cost : ℕ
  pub instance_count : ℕ
  pub created_at : ℕ

-- The rows of the database.
pub record Tables : Type 0 where
  pub members : List Member
  pub clients : List Client
  pub instances : List Instance
  pub alerts : List Alert
  pub cost_snapshots : List CostSnapshot

-- A primary key names one row.
abbrev pub Distinct {ℓ} : {A : Type ℓ} → (A → ℕ) → List A → Type 0
Distinct key xs = Ordered (λ x y. key x ≢ key y) xs
