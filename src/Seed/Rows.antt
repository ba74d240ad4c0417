-- ===== src/Seed/Rows.antt =====
-- app/seed.py: the members, clients and instances that `seed` lists.
use assignment_cloud_instanc.Prelude.{ℕ, String, List, [], ◌∷◌}
use assignment_cloud_instanc.Models.{
  Role, ContractPlan, InstanceType, InstanceStatus, admin, client_manager, basic, standard, premium,
  small, medium, large, running, stopped, error,
}

pub record MemberSpec : Type 0 where
  pub email : String
  pub password : String
  pub name : String
  pub role : Role

-- The manager is the number of a member above.
pub record ClientSpec : Type 0 where
  pub client_name : String
  pub contract_plan : ContractPlan
  pub manager : ℕ

-- The client is the number of a client above.
pub record InstanceSpec : Type 0 where
  pub instance_name : String
  pub region : String
  pub instance_type : InstanceType
  pub status : InstanceStatus
  pub cpu_usage : ℕ
  pub client : ℕ
  pub launched_days : ℕ
  pub updated_hours : ℕ

abbrev pub member_specs : List MemberSpec
member_specs =
    record {
      email = "admin@techvalley.vn";
      password = "admin123!";
      name = "TechValley Admin";
      role = admin;
    }
    ∷ record {
      email = "lam@techvalley.vn";
      password = "manager123!";
      name = "Thai Van Lam";
      role = client_manager;
    }
    ∷ record {
      email = "minh@techvalley.vn";
      password = "manager123!";
      name = "Nguyen Minh";
      role = client_manager;
    }
    ∷ []

abbrev client_spec : String → ContractPlan → ℕ → ClientSpec
client_spec name plan manager = record {
  client_name = name;
  contract_plan = plan;
  manager = manager;
}

abbrev pub client_specs : List ClientSpec
client_specs =
    client_spec "VinaSoft" premium 1
    ∷ client_spec "Hanoi Logistics" standard 1
    ∷ client_spec "Saigon Retail" basic 1
    ∷ client_spec "Mekong Foods" standard 1
    ∷ client_spec "DaNang Media" basic 1
    ∷ client_spec "VN FinTech" premium 2
    ∷ client_spec "EduViet" standard 2
    ∷ client_spec "GreenEnergy VN" basic 2
    ∷ client_spec "HealthPlus" premium 2
    ∷ client_spec "TravelGo" standard 2
    ∷ []

abbrev inst : String → String → InstanceType → InstanceStatus → ℕ → ℕ → ℕ → ℕ → InstanceSpec
inst name region itype status cpu client launched_days updated_hours = record {
  instance_name = name;
  region = region;
  instance_type = itype;
  status = status;
  cpu_usage = cpu;
  client = client;
  launched_days = launched_days;
  updated_hours = updated_hours;
}

abbrev pub instance_specs : List InstanceSpec
instance_specs =
    inst "vinasoft-web-01" "ap-southeast-1" large running 91500 0 90 1
    ∷ inst "vinasoft-db-01" "ap-southeast-1" large running 64000 0 90 2
    ∷ inst "vinasoft-batch-01" "ap-northeast-2" medium stopped 0 0 60 72
    ∷ inst "hnlog-api-01" "ap-southeast-1" medium running 85200 1 45 3
    ∷ inst "hnlog-worker-01" "ap-southeast-1" small error 0 1 45 6
    ∷ inst "sgretail-pos-01" "ap-southeast-1" small running 42700 2 30 1
    ∷ inst "sgretail-report-01" "ap-southeast-1" small stopped 0 2 30 120
    ∷ inst "mekong-erp-01" "ap-southeast-1" medium running 55100 3 20 2
    ∷ inst "dnmedia-stream-01" "ap-northeast-2" large error 0 4 15 12
    ∷ inst "fintech-core-01" "ap-southeast-1" large running 78900 5 120 1
    ∷ inst "fintech-core-02" "ap-southeast-1" large running 88400 5 120 1
    ∷ inst "eduviet-lms-01" "ap-southeast-1" medium running 33000 6 25 4
    ∷ inst "green-iot-01" "ap-northeast-2" small stopped 0 7 50 96
    ∷ inst "health-api-01" "ap-southeast-1" medium running 96300 8 70 1
    ∷ inst "travelgo-web-01" "ap-southeast-1" small running 12500 9 10 1
    ∷ []
