-- ===== src/Report.antt =====
-- `build_report` of app/services/monitor_service.py.
pub mod Totals
use assignment_cloud_instanc.Prelude.{
  ℕ, Bool, not, ◌&&◌, Option, List, filter, any, count, take, length, leb, ◌==◌,
}
use assignment_cloud_instanc.Models.{
  Client, Instance, Alert, InstanceStatus, running, stopped, error, status_eq,
}
use assignment_cloud_instanc.Config.{Settings}
use assignment_cloud_instanc.Session.{Action, gets}
use assignment_cloud_instanc.Database.{Database}
use assignment_cloud_instanc.Access.{Select, in_scope}
use assignment_cloud_instanc.Alerts.{newest_first}
use assignment_cloud_instanc.Clients.{sum_of}

abbrev pub report_alert_limit : ℕ
report_alert_limit = 20

pub record MonitorReport : Type 0 where
  pub generated_at : ℕ
  -- `instanceCountByStatus`
  pub count_by_status : InstanceStatus → ℕ
  pub warning_count : ℕ
  pub total_monthly_cost : ℕ
  pub unresolved_alert_count : ℕ
  pub unresolved_alerts : List Alert

-- `inst_query`
abbrev pub instance_in_scope : Option Select → List Client → Instance → Bool
instance_in_scope client_ids clients i = in_scope client_ids clients i.client_id

-- `alert_query`, with its join
abbrev pub joined : Option Select → List Client → List Instance → Alert → Bool
joined client_ids clients instances a =
    any (λ (i : Instance). i.id == a.instance_id && instance_in_scope client_ids clients i)
      instances

abbrev pub unresolved : Option Select → List Client → List Instance → Alert → Bool
unresolved client_ids clients instances a =
    joined client_ids clients instances a && not a.is_resolved

abbrev pub is_warning : Settings → Instance → Bool
is_warning settings i = leb settings.cpu_warning_threshold i.cpu_usage && status_eq i.status running

abbrev pub report_of :
    Database
    → Settings
    → Option Select
    → ℕ
    → List Client
    → List Instance
    → List Alert
    → MonitorReport
report_of db settings client_ids now clients instances alerts =
    let rows = filter (instance_in_scope client_ids clients) instances in
    let open_rows = filter (unresolved client_ids clients instances) alerts in
    record {
      generated_at = now;
      count_by_status = λ s. count (λ (i : Instance). status_eq i.status s) rows;
      warning_count = count (is_warning settings) rows;
      total_monthly_cost = sum_of (λ (i : Instance). i.monthly_cost) rows;
      unresolved_alert_count = length open_rows;
      unresolved_alerts = take report_alert_limit (db.alert_rows.order_by newest_first open_rows);
    }

unfoldable pub build_report : Database → Settings → Option Select → ℕ → Action MonitorReport
unfolding newest_first
build_report db settings client_ids now =
    gets (λ s. report_of db settings client_ids now s.clients s.instances s.alerts)
