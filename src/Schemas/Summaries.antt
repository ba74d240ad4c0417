-- ===== src/Schemas/Summaries.antt =====
-- app/schemas/schemas.py: the responses with numbers of many rows (the report, costs, SLA), as the framework
-- makes them of what the services answer.
use assignment_cloud_instanc.Prelude.{ℕ, Bool, List, [], ◌∷◌, map, String}
use assignment_cloud_instanc.Models.{
  ContractPlan, running, stopped, error, status_value, type_value,
}
use assignment_cloud_instanc.Clients.{ClientCost, InstanceCost, Forecast, TypeCost}
use assignment_cloud_instanc.Clients.Sla.{Sla, InstanceDetail}
use assignment_cloud_instanc.Report.{MonitorReport}
use assignment_cloud_instanc.Schemas.{AlertOut, alert_out}

-- `MonitorReport`
pub record ReportResponse : Type 0 where
  pub generated_at : ℕ
  pub instance_count_by_status : List (String × ℕ)
  pub warning_count : ℕ
  pub total_monthly_cost : ℕ
  pub unresolved_alert_count : ℕ
  pub unresolved_alerts : List AlertOut

-- The counts stand in the order of the enumeration.
abbrev pub report_response : MonitorReport → ReportResponse
report_response r = record {
  generated_at = r.generated_at;
  instance_count_by_status =
      map (λ s. (status_value s, r.count_by_status s)) (running ∷ stopped ∷ error ∷ []);
  warning_count = r.warning_count;
  total_monthly_cost = r.total_monthly_cost;
  unresolved_alert_count = r.unresolved_alert_count;
  unresolved_alerts = map alert_out r.unresolved_alerts;
}

pub record ClientCostResponse : Type 0 where
  pub client_id : ℕ
  pub client_name : String
  pub month : String
  pub instance_count : ℕ
  pub total_monthly_cost : ℕ
  pub cost_by_instance : List InstanceCost

abbrev pub cost_response : ClientCost → ClientCostResponse
cost_response c = record {
  client_id = c.client_id;
  client_name = c.client_name;
  month = c.month;
  instance_count = c.instance_count;
  total_monthly_cost = c.total_monthly_cost;
  cost_by_instance = c.cost_by_instance;
}

-- The breakdown by the value of each type.
pub record CostForecastResponse : Type 0 where
  pub client_id : ℕ
  pub client_name : String
  pub forecast_month : String
  pub running_instance_count : ℕ
  pub forecast_cost : ℕ
  pub breakdown : List (String × TypeCost)

abbrev pub forecast_response : Forecast → CostForecastResponse
forecast_response f = record {
  client_id = f.client_id;
  client_name = f.client_name;
  forecast_month = f.forecast_month;
  running_instance_count = f.running_instance_count;
  forecast_cost = f.forecast_cost;
  breakdown = map (λ (e : TypeCost). (type_value e.instance_type, e)) f.breakdown;
}

pub record SlaResponse : Type 0 where
  pub client_id : ℕ
  pub client_name : String
  pub contract_plan : ContractPlan
  pub sla_threshold : ℕ
  pub month : String
  pub uptime_percent : ℕ
  pub is_violation : Bool
  pub instance_details : List InstanceDetail

abbrev pub sla_response : Sla → SlaResponse
sla_response s = record {
  client_id = s.client_id;
  client_name = s.client_name;
  contract_plan = s.contract_plan;
  sla_threshold = s.sla_threshold;
  month = s.month;
  uptime_percent = s.uptime_percent;
  is_violation = s.is_violation;
  instance_details = s.instance_details;
}
