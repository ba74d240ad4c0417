-- ===== src/Clients.antt =====
-- app/services/client_service.py: the clients, their instances and what they cost. (`get_sla` stands
-- in the child Sla.)
pub mod Costs
pub mod Create
pub mod Sla
use Prim.Native.String.{◌++◌ as append}
use assignment_cloud_instanc.Prelude.{
  ℕ, zero, suc, ◌+◌, ◌*◌, Bool, true, not, ◌&&◌, none, some, Option, List, [], ◌∷◌, ◌++◌, map,
  String, filter, count, length, ◌==◌, leb, if◌then◌else◌,
}
use assignment_cloud_instanc.Prelude.Text.{show}
use assignment_cloud_instanc.Prelude.Calendar.{month_of, next_month_of}
use assignment_cloud_instanc.Models.{
  Client, ContractPlan, Instance, InstanceStatus, InstanceType, Member, Role, Tables, admin,
  client_manager, small, medium, large, running, role_value, status_eq, type_eq,
}
use assignment_cloud_instanc.Config.{Settings, unit_prices}
use assignment_cloud_instanc.Session.{
  Session, Action, not_found, validation, pure, raise_if, gets, modify, commit, or_raise, ◌>>=◌,
  ◌>>◌,
}
use assignment_cloud_instanc.Database.{Database}
use assignment_cloud_instanc.Database.Sorting.{by_id}
use assignment_cloud_instanc.Pagination.{Page, paginate}
use assignment_cloud_instanc.Access.{Select, get, in_scope}
use assignment_cloud_instanc.Integrity.{client_id, instance_id, member_id}

-- `ClientCreate` of app/schemas/schemas.py
pub record ClientCreate : Type 0 where
  pub client_name : String
  pub contract_plan : ContractPlan
  pub manager_id : ℕ

abbrev pub is_manager : Role → Bool
is_manager Role.admin = Bool.false
is_manager Role.client_manager = true

abbrev pub not_a_manager : ℕ → Role → String
not_a_manager i role =
    append (append (append "managerId " (show i)) " must belong to a CLIENT_MANAGER (found role ")
      (append (role_value role) ")")

abbrev pub with_clients : Tables → List Client → Tables
with_clients t clients = record t { clients = clients }

-- One row of the cost of a client.
pub record InstanceCost : Type 0 where
  pub instance_id : ℕ
  pub instance_name : String
  pub instance_type : InstanceType
  pub status : InstanceStatus
  pub monthly_cost : ℕ

-- The answer of `get_client_cost`.
pub record ClientCost : Type 0 where
  pub client_id : ℕ
  pub client_name : String
  pub month : String
  pub instance_count : ℕ
  pub total_monthly_cost : ℕ
  pub cost_by_instance : List InstanceCost

-- One row of the breakdown of a forecast.
pub record TypeCost : Type 0 where
  pub instance_type : InstanceType
  pub instance_count : ℕ
  pub unit_price : ℕ
  pub subtotal : ℕ

-- The answer of `get_cost_forecast`.
pub record Forecast : Type 0 where
  pub client_id : ℕ
  pub client_name : String
  pub forecast_month : String
  pub running_instance_count : ℕ
  pub forecast_cost : ℕ
  pub breakdown : List TypeCost

-- `sum(f(x) for x in xs)`
abbrev pub sum_of {ℓ} : {A : Type ℓ} → (A → ℕ) → List A → ℕ
sum_of f [] = 0
sum_of f (x ∷ xs) = f x + sum_of f xs

abbrev pub cost_of : Instance → InstanceCost
cost_of i = record {
  instance_id = i.id;
  instance_name = i.instance_name;
  instance_type = i.instance_type;
  status = i.status;
  monthly_cost = i.monthly_cost;
}

-- The rows that the forecast counts.
abbrev pub runs_for : ℕ → Instance → Bool
runs_for i x = x.client_id == i && status_eq x.status running

-- `GROUP BY instanceType ORDER BY instanceType`: a row for every type that occurs, by name.
abbrev pub group_of : List Instance → InstanceType → List (InstanceType × ℕ)
group_of rows k =
    let n = count (λ (x : Instance). type_eq x.instance_type k) rows in
    if leb 1 n then (k, n) ∷ [] else []

abbrev pub counts_by_type : List Instance → List (InstanceType × ℕ)
counts_by_type rows = group_of rows large ++ group_of rows medium ++ group_of rows small

abbrev pub type_cost : Settings → InstanceType × ℕ → TypeCost
type_cost settings row = record {
  instance_type = row.0;
  instance_count = row.1;
  unit_price = unit_prices settings row.0;
  subtotal = row.1 * unit_prices settings row.0;
}

-- The answer of a forecast, from the RUNNING rows of the client.
abbrev pub forecast_of : Settings → ℕ → Client → List Instance → Forecast
forecast_of settings now client rows =
    let breakdown = map (type_cost settings) (counts_by_type rows) in
    record {
      client_id = client.id;
      client_name = client.client_name;
      forecast_month = next_month_of now;
      running_instance_count = sum_of (λ (e : TypeCost). e.instance_count) breakdown;
      forecast_cost = sum_of (λ (e : TypeCost). e.subtotal) breakdown;
      breakdown = breakdown;
    }

-- The answer of a cost, from the rows of the client.
abbrev pub client_cost : ℕ → Client → List Instance → ClientCost
client_cost now client instances = record {
  client_id = client.id;
  client_name = client.client_name;
  month = month_of now;
  instance_count = length instances;
  total_monthly_cost = sum_of (λ (x : Instance). x.monthly_cost) instances;
  cost_by_instance = map cost_of instances;
}

unfoldable pub get_client : ℕ → Action Client
get_client i = do
  found ← gets (λ s. get client_id i s.clients)
  or_raise found (not_found "Client" i)

unfoldable pub get_cost_forecast : Settings → ℕ → ℕ → Action Forecast
unfolding get_client
get_cost_forecast settings now i = do
  client ← get_client i
  rows ← gets (λ s. filter (runs_for i) s.instances)
  pure (forecast_of settings now client rows)

-- The rows of `_client_instances_query`, which sorts them by id.
abbrev pub is_of : ℕ → Instance → Bool
is_of i x = x.client_id == i

module _ (db : Database) where
  abbrev pub new_client : ClientCreate → ℕ → List Client → Client
  new_client body now clients = record {
    id = db.next_id (map client_id clients);
    client_name = body.client_name;
    contract_plan = body.contract_plan;
    manager_id = body.manager_id;
    created_at = now;
  }

  unfoldable pub create_client : ClientCreate → ℕ → Action Client
  create_client body now = do
    found ← gets (λ s. get member_id body.manager_id s.members)
    manager ← or_raise found (not_found "Member (manager)" body.manager_id)
    raise_if (not (is_manager manager.role))
        (validation (not_a_manager body.manager_id manager.role))
    client ← gets (λ s. new_client body now s.clients)
    modify (λ t. with_clients t (t.clients ++ client ∷ []))
    commit
    pure client

  unfoldable pub list_clients : Option Select → ℕ → ℕ → Action (Page Client)
  unfolding paginate
  list_clients client_ids page size = gets (λ s.
      paginate db.client_rows (by_id client_id)
        (filter (λ c. in_scope client_ids s.clients (client_id c)) s.clients) page size)

  unfoldable pub get_client_instances : ℕ → Action (List Instance)
  unfolding get_client
  get_client_instances i = do
    client ← get_client i
    gets (λ s. db.instance_rows.order_by (by_id instance_id) (filter (is_of i) s.instances))

  unfoldable pub list_client_instances : ℕ → ℕ → ℕ → Action (Page Instance)
  unfolding get_client paginate
  list_client_instances i page size = do
    client ← get_client i
    gets (λ s.
        paginate db.instance_rows (by_id instance_id) (filter (is_of i) s.instances) page size)

  unfoldable pub get_client_cost : ℕ → ℕ → Action ClientCost
  unfolding get_client get_client_instances
  get_client_cost now i = do
    client ← get_client i
    instances ← get_client_instances i
    pure (client_cost now client instances)
