-- ===== src/Schemas.antt =====
-- app/schemas/schemas.py: the bodies that a request must satisfy, and the responses. (`ClientCreate`,
-- `InstanceCreate` and `InstanceStatusUpdate` stand with their services.)
pub mod Summaries
use Prim.Native.String.{count as characters}
use assignment_cloud_instanc.Prelude.{ℕ, Bool, ◌&&◌, Option, List, map, String, leb}
use assignment_cloud_instanc.Models.{
  Role, ContractPlan, InstanceType, InstanceStatus, AlertType, Client, Instance, Alert,
}
use assignment_cloud_instanc.Pagination.{Page, max_size}
use assignment_cloud_instanc.Instances.{InstanceCreate, InstanceStatusUpdate, passes}
use assignment_cloud_instanc.Clients.{ClientCreate}

pub record LoginRequest : Type 0 where
  pub email : String
  pub password : String

-- `tokenType` is always "bearer".
pub record TokenResponse : Type 0 where
  pub access_token : String
  pub role : Role
  pub name : String

pub record ClientOut : Type 0 where
  pub id : ℕ
  pub client_name : String
  pub contract_plan : ContractPlan
  pub manager_id : ℕ
  pub created_at : ℕ

abbrev pub client_out : Client → ClientOut
client_out c = record {
  id = c.id;
  client_name = c.client_name;
  contract_plan = c.contract_plan;
  manager_id = c.manager_id;
  created_at = c.created_at;
}

pub record InstanceOut : Type 0 where
  pub id : ℕ
  pub instance_name : String
  pub region : String
  pub instance_type : InstanceType
  pub status : InstanceStatus
  pub cpu_usage : ℕ
  pub monthly_cost : ℕ
  pub client_id : ℕ
  pub launched_at : ℕ
  pub updated_at : ℕ

abbrev pub instance_out : Instance → InstanceOut
instance_out i = record {
  id = i.id;
  instance_name = i.instance_name;
  region = i.region;
  instance_type = i.instance_type;
  status = i.status;
  cpu_usage = i.cpu_usage;
  monthly_cost = i.monthly_cost;
  client_id = i.client_id;
  launched_at = i.launched_at;
  updated_at = i.updated_at;
}

pub record AlertOut : Type 0 where
  pub id : ℕ
  pub instance_id : ℕ
  pub alert_type : AlertType
  pub message : String
  pub is_resolved : Bool
  pub detected_at : ℕ
  pub resolved_at : Option ℕ

abbrev pub alert_out : Alert → AlertOut
alert_out a = record {
  id = a.id;
  instance_id = a.instance_id;
  alert_type = a.alert_type;
  message = a.message;
  is_resolved = a.is_resolved;
  detected_at = a.detected_at;
  resolved_at = a.resolved_at;
}

pub record PageResponse (A : Type 0) : Type 0 where
  pub items : List A
  pub total : ℕ
  pub page : ℕ
  pub size : ℕ
  pub total_pages : ℕ

-- `PageResponse(items=items, total=total, page=page, size=size, totalPages=total_pages)`
abbrev pub page_response : {A B : Type 0} → (A → B) → ℕ → ℕ → Page A → PageResponse B
page_response out page size p = record {
  items = map out p.items;
  total = p.total;
  page = page;
  size = size;
  total_pages = p.total_pages;
}

pub record DiagnosisResponse : Type 0 where
  pub instance_id : ℕ
  pub instance_name : String
  pub status : InstanceStatus
  pub diagnosis : String
  pub source : String

-- `Field(min_length=1, max_length=n)`
abbrev pub length_within : ℕ → String → Bool
length_within n s = leb 1 (characters s) && leb (characters s) n

-- `Field(ge=0.0, le=100.0)`, in thousandths
abbrev pub is_percentage : ℕ → Bool
is_percentage cpu = leb cpu 100_000

abbrev pub client_create_fits : ClientCreate → Bool
client_create_fits body = length_within 100 body.client_name

abbrev pub instance_create_fits : InstanceCreate → Bool
instance_create_fits body =
    length_within 100 body.instance_name
    && length_within 50 body.region
    && is_percentage body.cpu_usage

abbrev pub status_update_fits : InstanceStatusUpdate → Bool
status_update_fits body = passes is_percentage body.cpu_usage

-- `PageParam` and `SizeParam`
abbrev pub page_fits : ℕ → ℕ → Bool
page_fits page size = leb 1 page && leb 1 size && leb size max_size
