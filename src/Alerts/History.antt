-- ===== src/Alerts/History.antt =====
-- `list_alerts` (app/services/alert_service.py) against what its parameters ask for.
use Prim.Native.Nat.{min}
use assignment_cloud_instanc.Prelude.{ℕ, ◌*◌, ◌-◌, ◌≡◌, Bool, Option, length, count, All, Ordered}
use assignment_cloud_instanc.Models.{Alert, Tables}
use assignment_cloud_instanc.Session.{Result, ok}
use assignment_cloud_instanc.Database.{Database}
use assignment_cloud_instanc.Pagination.{Page}
use assignment_cloud_instanc.Access.{Select}
use assignment_cloud_instanc.Alerts.{AlertFilters}
use assignment_cloud_instanc.Alerts.Newest.{Newer, Decides, IsWanted}

module _ (db : Database) (client_ids : Option Select) (page size : ℕ) (f : AlertFilters)
    (t : Tables) where
  -- A page of the alerts that are asked for, with their number.
  pub record IsHistory (out : Result (Page Alert) × Tables) : Type 0 where
    pub answer : Page Alert
    pub returned : out ≡ (ok answer, t)
    pub wanted : Alert → Bool
    pub decides : (a : Alert) → Decides (wanted a) (IsWanted client_ids f t a)
    pub counts : answer.total ≡ count wanted t.alerts
    pub filled : length answer.items ≡ min size (answer.total - (page - 1) * size)
    pub listed : All (IsWanted client_ids f t) answer.items
    pub ordered : Ordered Newer answer.items
