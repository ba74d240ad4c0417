-- ===== src/Report/Totals.antt =====
-- The numbers of a report (`build_report` of app/services/monitor_service.py) together.
use Prim.Native.Nat.{min}
use assignment_cloud_instanc.Prelude.{
  ℕ, ◌+◌, ◌≤◌, ◌≡◌, Bool, false, All, Option, count, length, Ordered,
}
use assignment_cloud_instanc.Models.{Instance, Alert, Tables, running, stopped, error}
use assignment_cloud_instanc.Config.{Settings}
use assignment_cloud_instanc.Session.{Result, ok}
use assignment_cloud_instanc.Database.{Database}
use assignment_cloud_instanc.Access.{Select, in_scope}
use assignment_cloud_instanc.Alerts.Newest.{Newer, Decides, OfScope}
use assignment_cloud_instanc.Report.{MonitorReport}

module _ (db : Database) (settings : Settings) (client_ids : Option Select) (now : ℕ)
    (t : Tables) where
  -- The unresolved alerts in the scope.
  abbrev pub IsOpen : Alert → Type 0
  IsOpen a = OfScope client_ids t a × (a.is_resolved ≡ false)

  -- A report whose numbers agree.
  pub record IsReport (out : Result MonitorReport × Tables) : Type 0 where
    pub report : MonitorReport
    pub returned : out ≡ (ok report, t)
    pub statuses :
        report.count_by_status running
          + report.count_by_status stopped
          + report.count_by_status error
        ≡ count (λ (i : Instance). in_scope client_ids t.clients i.client_id) t.instances
    pub warnings : report.warning_count ≤ report.count_by_status running
    pub counted : Alert → Bool
    pub decides : (a : Alert) → Decides (counted a) (IsOpen a)
    pub counts : report.unresolved_alert_count ≡ count counted t.alerts
    pub filled : length report.unresolved_alerts ≡ min 20 report.unresolved_alert_count
    pub listed : All IsOpen report.unresolved_alerts
    pub ordered : Ordered Newer report.unresolved_alerts
