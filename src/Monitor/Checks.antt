-- ===== src/Monitor/Checks.antt =====
-- app/services/monitor_service.py: the three scans that the API offers.
use Prim.Native.String.{◌++◌}
use assignment_cloud_instanc.Prelude.{ℕ, ◌+◌, ◌-◌, ◌*◌, Bool, ◌&&◌, Option, List, leb}
use assignment_cloud_instanc.Prelude.Text.{show, fixed_0, fixed_1}
use assignment_cloud_instanc.Models.{
  Client, Instance, running, stopped, error, cpu_high, error_detected, long_stopped, status_eq,
}
use assignment_cloud_instanc.Config.{Settings}
use assignment_cloud_instanc.Session.{Action}
use assignment_cloud_instanc.Database.{Database}
use assignment_cloud_instanc.Pagination.{Page}
use assignment_cloud_instanc.Access.{Select, in_scope}
use assignment_cloud_instanc.Monitor.{Detection, scan}

-- A `timedelta` of hours, in microseconds.
abbrev pub hours : ℕ → ℕ
hours n = n * 3_600_000_000

-- `detected_at` is what `utcnow` reads for the row of each new alert.
module _ (settings : Settings) (client_ids : Option Select) (detected_at : Instance → ℕ) where
  abbrev pub warnings_query : List Client → Instance → Bool
  warnings_query clients i =
      leb settings.cpu_warning_threshold i.cpu_usage
      && status_eq i.status running
      && in_scope client_ids clients i.client_id

  unfoldable pub warnings : Detection
  unfolding fixed_0 fixed_1
  warnings = record {
    query = warnings_query;
    alert_type = cpu_high;
    message = λ inst.
        "CPU usage "
        ++ fixed_1 inst.cpu_usage
        ++ "% >= "
        ++ fixed_0 settings.cpu_warning_threshold 1000
        ++ "% on instance '"
        ++ inst.instance_name
        ++ "' ("
        ++ inst.region
        ++ ")";
    detected_at = detected_at;
  }

  abbrev pub errors_query : List Client → Instance → Bool
  errors_query clients i = status_eq i.status error && in_scope client_ids clients i.client_id

  unfoldable pub errors : Detection
  errors = record {
    query = errors_query;
    alert_type = error_detected;
    message = λ inst.
        "[CRITICAL] Instance '" ++ inst.instance_name ++ "' (" ++ inst.region
        ++ ") is in ERROR state";
    detected_at = detected_at;
  }

  -- `updatedAt <= now - 48 h`, without the subtraction
  abbrev pub long_stopped_query : ℕ → List Client → Instance → Bool
  long_stopped_query now clients i =
      status_eq i.status stopped
      && leb (i.updated_at + hours settings.long_stopped_hours) now
      && in_scope client_ids clients i.client_id

  unfoldable pub long_stops : ℕ → Detection
  unfolding fixed_0 show
  long_stops now = record {
    query = long_stopped_query now;
    alert_type = long_stopped;
    message = λ inst.
        "Instance '"
        ++ inst.instance_name
        ++ "' has been STOPPED for "
        ++ fixed_0 (now - inst.updated_at) (hours 1)
        ++ " hours (>= "
        ++ show settings.long_stopped_hours
        ++ "h)";
    detected_at = detected_at;
  }

  module _ (db : Database) (page size : ℕ) where
    unfoldable pub check_warnings : Action (Page Instance)
    unfolding warnings
    check_warnings = scan db warnings page size

    unfoldable pub check_errors : Action (Page Instance)
    unfolding errors
    check_errors = scan db errors page size

    unfoldable pub check_long_stopped : ℕ → Action (Page Instance)
    unfolding long_stops
    check_long_stopped now = scan db (long_stops now) page size
