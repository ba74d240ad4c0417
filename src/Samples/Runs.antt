-- ===== src/Samples/Runs.antt =====
-- The theorems at concrete inputs: a first scan that records, one on its second page, a second page
-- of a list, and instances that are registered, updated and deleted.
use assignment_cloud_instanc.Prelude.{
  ℕ, ◌+◌, ◌≡◌, refl, suc, true, none, some, [], map, filter, arith, not, ◌==◌, All, if◌then◌else◌,
}
use assignment_cloud_instanc.Models.{Instance, Alert, running, stopped, large}
use assignment_cloud_instanc.Config.{defaults}
use assignment_cloud_instanc.Session.{ok, not_found, raise, open_session, request}
use assignment_cloud_instanc.Database.Sorting.{by_id}
use assignment_cloud_instanc.Pagination.{paginate}
use assignment_cloud_instanc.Pagination.Pages.{first_pages, page_items, pages_partition}
use assignment_cloud_instanc.Access.{get}
use assignment_cloud_instanc.Integrity.{IsValid, instance_id}
use assignment_cloud_instanc.Monitor.{Detection, with_alerts, scan, scan_within, record_alerts}
use assignment_cloud_instanc.Monitor.Dedup.{has_open, any_new, record_each, record_alerts-each}
use assignment_cloud_instanc.Monitor.Invariant.{OneOpen}
use assignment_cloud_instanc.Monitor.Scan.{found, scan_page, scan_alerts, scan_lem, scan_ends}
use assignment_cloud_instanc.Monitor.Effects.{
  Appended, after_scan, detected, scan_detects, scan_appends, scan_again,
}
use assignment_cloud_instanc.Monitor.Checks.{warnings}
use assignment_cloud_instanc.Instances.{
  InstanceCreate, InstanceStatusUpdate, create_instance, update_status, delete_instance,
}
use assignment_cloud_instanc.Instances.Update.{update_again}
use assignment_cloud_instanc.Instances.Delete.{created, delete_leaves, create_reads}
use assignment_cloud_instanc.Samples.{db, tables, tables-IsValid}

abbrev d : Detection
d = warnings defaults none (λ i. 500)

scan_lem_example : request (scan db d 1 10) tables ≡ (
  ok (scan_page db d 1 10 tables tables-IsValid),
  with_alerts db tables (scan_alerts db d 1 10 tables tables-IsValid),
)
scan_lem_example = scan_lem db d 1 10 tables tables-IsValid

scan_ends_example :
    request (scan_within db (λ w. raise (not_found "round" 2)) 1 d 1 10) tables
    ≡ request (scan db d 1 10) tables
scan_ends_example =
    scan_ends db d 1 10 tables tables-IsValid (λ w. raise (not_found "round" 2)) 1 (ground arith)

scan_again_example :
    request (scan db d 2 1) (after_scan db d 1 10 tables tables-IsValid)
    ≡ (ok (scan_page db d 2 1 tables tables-IsValid), after_scan db d 1 10 tables tables-IsValid)
scan_again_example = scan_again db d 1 10 tables tables-IsValid 2 1

scan_detects_example :
    All
      (λ (i : Instance).
        has_open d.alert_type i.id (after_scan db d 2 1 tables tables-IsValid).alerts ≡ true)
      (detected db d 2 1 tables tables-IsValid)
scan_detects_example = scan_detects db d 2 1 tables tables-IsValid

scan_appends_example :
    Appended db d
      (map instance_id (found db d 1 10 tables tables-IsValid))
      tables.alerts
      (after_scan db d 1 10 tables tables-IsValid).alerts
scan_appends_example = scan_appends db d 1 10 tables tables-IsValid

tables-OneOpen : OneOpen tables.alerts
tables-OneOpen t i = ground arith

record_alerts-each_example : record_alerts db d tables.instances (open_session tables) ≡ (
  ok (any_new db d tables.instances tables.alerts),
  record (open_session tables) {
    tables = with_alerts db tables (record_each db d tables.instances tables.alerts);
  },
)
record_alerts-each_example =
    record_alerts-each db d tables.instances (open_session tables) tables-IsValid.instances_distinct

pages_partition_example :
    (first_pages db.instance_rows
        (by_id instance_id)
        tables.instances
        3
        (paginate db.instance_rows (by_id instance_id) tables.instances 1 3).total_pages
      ≡ db.instance_rows.order_by (by_id instance_id) tables.instances)
    × ((k : ℕ)
        → page_items db.instance_rows (by_id instance_id) tables.instances 3 (
            (paginate db.instance_rows (by_id instance_id) tables.instances 1 3).total_pages
            + suc k)
          ≡ [])
pages_partition_example =
    pages_partition db.instance_rows (by_id instance_id) tables.instances 3 (omega arith)

abbrev stop : InstanceStatusUpdate
stop = record { status = stopped; cpu_usage = none }

update_again_example :
    request (update_status 1 stop 950) (request (update_status 1 stop 900) tables).1
    ≡ request (update_status 1 stop 900) tables
update_again_example = update_again 1 stop 900 950 tables refl

delete_leaves_example :
    ((request (delete_instance 4) tables).0 ≡ ok tt)
    × ((j : ℕ)
        → get instance_id j (request (delete_instance 4) tables).1.instances
          ≡ (if j == 4 then none else get instance_id j tables.instances))
    × ((request (delete_instance 4) tables).1.alerts
        ≡ filter (λ (a : Alert). not (a.instance_id == 4)) tables.alerts)
delete_leaves_example = delete_leaves 4 tables refl refl

abbrev new_body : InstanceCreate
new_body = record {
  instance_name = "batch";
  region = "us-east-1";
  instance_type = large;
  status = running;
  cpu_usage = 10_000;
  client_id = 2;
}

create_reads_example :
    let t' = (request (create_instance db defaults new_body 700 701) tables).1 in
    let x = created db defaults new_body 700 701 tables in
    ((request (create_instance db defaults new_body 700 701) tables).0 ≡ ok x)
    × ((j : ℕ)
        → get instance_id j t'.instances
          ≡ (if j == instance_id x then some x else get instance_id j tables.instances))
    × IsValid t'
create_reads_example = create_reads db defaults new_body 700 701 tables refl tables-IsValid
