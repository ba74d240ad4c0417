-- ===== src/Samples/Services.antt =====
-- The theorems at concrete inputs: alerts, access, clients and the report.
use assignment_cloud_instanc.Prelude.{◌≤◌, ◌≡◌, refl, true, false, none, some, arith, All}
use assignment_cloud_instanc.Models.{cpu_high, basic, premium}
use assignment_cloud_instanc.Config.{defaults}
use assignment_cloud_instanc.Session.{ok, open_session, request}
use assignment_cloud_instanc.Pagination.Items.{items_of}
use assignment_cloud_instanc.Access.{
  accessible_client_ids, assert_client_access, assert_client_id_access,
}
use assignment_cloud_instanc.Access.Scope.{assert_client_id_access-eq}
use assignment_cloud_instanc.Monitor.Dedup.{has_open}
use assignment_cloud_instanc.Monitor.Invariant.{OneOpen}
use assignment_cloud_instanc.Alerts.{AlertFilters, list_alerts, resolve_alert}
use assignment_cloud_instanc.Alerts.Listing.{is_mine, list_alerts_unique, list_alerts_scoped}
use assignment_cloud_instanc.Alerts.Resolve.{resolve_closes}
use assignment_cloud_instanc.Clients.{ClientCreate, get_cost_forecast}
use assignment_cloud_instanc.Clients.Costs.{IsSummed, forecast-IsSummed}
use assignment_cloud_instanc.Clients.Sla.{InstanceDetail, full, get_sla}
use assignment_cloud_instanc.Clients.Sla.Uptime.{sla, sla_bounds}
use assignment_cloud_instanc.Samples.{db, member, client, alert_of, tables, tables-IsValid}

assert_client_id_access-eq_example :
    assert_client_id_access (member 2) 2 (open_session tables)
    ≡ assert_client_access (member 2) (client 2 premium 3) (open_session tables)
assert_client_id_access-eq_example =
    assert_client_id_access-eq (member 2) 2 (client 2 premium 3) (open_session tables)
      tables-IsValid.clients_distinct refl

abbrev open_only : AlertFilters
open_only = record {
  alert_type = some cpu_high;
  is_resolved = some false;
  date_from = none;
  date_to = none;
}

list_alerts_unique_example :
    request (list_alerts db none 1 5 open_only) tables
    ≡ request (list_alerts db none 1 5 open_only) tables
list_alerts_unique_example = list_alerts_unique db db none 1 5 open_only tables tables-IsValid

list_alerts_scoped_example :
    All
      (λ a. is_mine (member 2) tables a ≡ true)
      (items_of
        (request (list_alerts db (accessible_client_ids (member 2)) 1 5 open_only) tables).0)
list_alerts_scoped_example = list_alerts_scoped (member 2) tables refl db 1 5 open_only

sample-OneOpen : OneOpen tables.alerts
sample-OneOpen t i = ground arith

resolve_closes_example : has_open cpu_high 1 (request (resolve_alert 1 900) tables).1.alerts ≡ false
resolve_closes_example =
    resolve_closes 1 900 tables {a = alert_of 1 1 false} refl refl sample-OneOpen

forecast-IsSummed_example :
    IsSummed 1 tables {c = client 1 basic 2} refl defaults
      (request (get_cost_forecast defaults 1_000 1) tables)
forecast-IsSummed_example = forecast-IsSummed 1 tables {c = client 1 basic 2} refl defaults 1_000

abbrev new_body : ClientCreate
new_body = record { client_name = "n"; contract_plan = basic; manager_id = 2 }

sla_bounds_example :
    let s = sla db defaults 1_000_000 2 tables {c = client 2 premium 3} refl in
    (request (get_sla db defaults 1_000_000 2) tables ≡ (ok s, tables))
    × (s.uptime_percent ≤ full)
    × All (λ (d : InstanceDetail). d.uptime_percent ≤ full) s.instance_details
sla_bounds_example = sla_bounds db defaults 1_000_000 2 tables {c = client 2 premium 3} refl
