-- ===== src/Samples.antt =====
-- Concrete data on which the theorems are evaluated: a database that sorts by insertion and counts
-- ids up, and small tables. The children apply the theorems to it.
mod Sorted
mod Runs
mod Services
mod Logins
mod Tokens
mod Requests
mod Servers
mod Starts
mod Errors
mod Threads
mod Commits
use assignment_cloud_instanc.Prelude.{
  ℕ, suc, ◌<◌, ◌≡◌, ◌≢◌, ◌≤◌, Bool, true, false, none, some, Option, List, [], ◌∷◌, arith, map, leb,
  All, All-imp, if◌then◌else◌,
}
use assignment_cloud_instanc.Models.{
  ContractPlan, InstanceStatus, Member, Client, Instance, Alert, Tables, admin, client_manager,
  basic, premium, small, large, running, stopped, error, cpu_high, long_stopped,
}
use assignment_cloud_instanc.Database.{Database}
use assignment_cloud_instanc.Integrity.{IsValid}
use assignment_cloud_instanc.Monitor.Invariant.{OneOpen}
use Sorted.{sorter}

abbrev max_of : List ℕ → ℕ
max_of [] = 0
max_of (i ∷ is) = let m = max_of is in if leb i m then m else i

abbrev pub next_of : List ℕ → ℕ
next_of ids = suc (max_of ids)

pub below_next : (ids : List ℕ) → All (λ i. i ≤ max_of ids) ids
below_next [] = tt
below_next (i ∷ is) = (ground arith, All-imp _ _ is (λ j h. ground arith) (below_next is))

abbrev pub db : Database
db = record {
  next_id = next_of;
  next_id_pos = λ ids. omega arith;
  next_id_fresh = λ ids. All-imp _ _ ids (λ j h e. omega arith) (below_next ids);
  client_rows = sorter;
  instance_rows = sorter;
  alert_rows = sorter;
}

-- Three members, two clients, four instances and two alerts.
abbrev pub member : ℕ → Member
member i = record {
  id = i;
  email = "m@example.com";
  password = "x";
  name = "m";
  role = if leb i 1 then admin else client_manager;
  created_at = 0;
}

abbrev pub client : ℕ → ContractPlan → ℕ → Client
client i plan manager = record {
  id = i;
  client_name = "c";
  contract_plan = plan;
  manager_id = manager;
  created_at = 0;
}

abbrev pub instance_of : ℕ → InstanceStatus → ℕ → ℕ → Instance
instance_of i status cpu client_id = record {
  id = i;
  instance_name = "web";
  region = "ap-northeast-2";
  instance_type = small;
  status = status;
  cpu_usage = cpu;
  monthly_cost = 50_00;
  client_id = client_id;
  launched_at = 100;
  updated_at = 200;
}

abbrev pub alert_of : ℕ → ℕ → Bool → Alert
alert_of i instance_id resolved = record {
  id = i;
  instance_id = instance_id;
  alert_type = cpu_high;
  message = "high";
  is_resolved = resolved;
  detected_at = 300;
  resolved_at = if resolved then some 400 else none;
}

abbrev pub tables : Tables
tables = record {
  members = member 1 ∷ member 2 ∷ member 3 ∷ [];
  clients = client 1 basic 2 ∷ client 2 premium 3 ∷ [];
  instances =
      instance_of 1 running 91_300 1
      ∷ instance_of 2 running 85_000 1
      ∷ instance_of 3 stopped 0 2
      ∷ instance_of 4 error 10_000 2
      ∷ [];
  alerts = alert_of 1 1 false ∷ alert_of 2 2 true ∷ [];
  cost_snapshots = [];
}

pub tables-IsValid : IsValid tables
tables-IsValid = record {
  members_distinct = ground arith;
  clients_distinct = ground arith;
  instances_distinct = ground arith;
  instances_pos = ground arith;
  alerts_distinct = ground arith;
  clients_refer = ground arith;
  instances_refer = ground arith;
  alerts_refer = ground arith;
  snapshots_distinct = tt;
  snapshots_refer = tt;
}

pub tables-OneOpen : OneOpen tables.alerts
tables-OneOpen t i = ground arith
