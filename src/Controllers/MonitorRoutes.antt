-- ===== src/Controllers/MonitorRoutes.antt =====
-- app/controllers/monitor_controller.py
use assignment_cloud_instanc.Prelude.{ℕ}
use assignment_cloud_instanc.Models.{Instance, Member}
use assignment_cloud_instanc.Config.{Settings}
use assignment_cloud_instanc.Session.{Action, pure, ◌>>=◌}
use assignment_cloud_instanc.Database.{Database}
use assignment_cloud_instanc.Access.{accessible_client_ids}
use assignment_cloud_instanc.Monitor.Checks.{check_warnings, check_errors, check_long_stopped}
use assignment_cloud_instanc.Report.{build_report}
use assignment_cloud_instanc.Schemas.Summaries.{ReportResponse, report_response}
use assignment_cloud_instanc.Schemas.{InstanceOut, PageResponse, instance_out, page_response}

module _ (db : Database) (settings : Settings) (member : Member) where
  unfoldable pub report : ℕ → Action ReportResponse
  report now = do
    r ← build_report db settings (accessible_client_ids member) now
    pure (report_response r)

  -- `detected_at` is the clock at the insert of each alert.
  module _ (detected_at : Instance → ℕ) (page size : ℕ) where
    unfoldable pub warnings : Action (PageResponse InstanceOut)
    warnings = do
      p ← check_warnings settings (accessible_client_ids member) detected_at db page size
      pure (page_response instance_out page size p)

    unfoldable pub errors : Action (PageResponse InstanceOut)
    errors = do
      p ← check_errors settings (accessible_client_ids member) detected_at db page size
      pure (page_response instance_out page size p)

    unfoldable pub long_stopped : ℕ → Action (PageResponse InstanceOut)
    long_stopped now = do
      p ← check_long_stopped settings (accessible_client_ids member) detected_at db page size now
      pure (page_response instance_out page size p)
