-- ===== src/Monitor.antt =====
-- app/services/monitor_service.py: the detection scans and the alerts that they record.
pub mod Batches
pub mod Dedup
pub mod Effects
pub mod Invariant
pub mod Checks
pub mod Loop
pub mod Scan
pub mod Window
use assignment_cloud_instanc.Prelude.{
  ℕ, zero, suc, ◌+◌, Bool, true, false, not, ◌&&◌, ◌||◌, none, List, [], ◌∷◌, ◌++◌, map, String,
  length, take, filter, leb, ltb, if◌then◌else◌,
}
use assignment_cloud_instanc.Models.{Client, Instance, Alert, AlertType, Tables, alert_type_eq}
use assignment_cloud_instanc.Session.{Action, pure, gets, modify, commit, ◌>>=◌, ◌>>◌}
use assignment_cloud_instanc.Database.{Database}
use assignment_cloud_instanc.Database.Sorting.{by_id}
use assignment_cloud_instanc.Access.{elem}
use assignment_cloud_instanc.Pagination.{Page, offset, page_count}

abbrev pub id_batch_size : ℕ
id_batch_size = 500

-- An unresolved alert of this type.
abbrev pub is_open : AlertType → Alert → Bool
is_open alert_type a = alert_type_eq a.alert_type alert_type && not a.is_resolved

unfoldable pub instances_with_unresolved_alert : List ℕ → AlertType → List Alert → List ℕ
instances_with_unresolved_alert instance_ids alert_type alerts =
    map (λ (a : Alert). a.instance_id)
      (filter (λ a. elem a.instance_id instance_ids && is_open alert_type a) alerts)

-- What a scan is given: its detection query, the type and the text of its alerts, and the clock as
-- the default of `detectedAt` reads it for each new row.
pub record Detection : Type 0 where
  pub query : List Client → Instance → Bool
  pub alert_type : AlertType
  pub message : Instance → String
  pub detected_at : Instance → ℕ

-- The local variables of `_scan`.
pub record Walk : Type 0 where
  pub items : List Instance
  pub total : ℕ
  pub recorded : Bool
  pub last_id : ℕ

-- One round of `for instance in batch`; the window is a `range`.
abbrev pub visit_one : ℕ → ℕ → Walk → Instance → Walk
visit_one page size w inst =
    let start = offset page size in
    record w {
      items =
          if leb start w.total && ltb w.total (start + size) then w.items ++ inst ∷ [] else w.items;
      total = w.total + 1;
    }

unfoldable pub visit : ℕ → ℕ → List Instance → Walk → Walk
visit page size [] w = w
visit page size (inst ∷ batch) w = visit page size batch (visit_one page size w inst)

-- `batch[-1].id`, of the batch `inst ∷ batch`
abbrev pub last_of : Instance → List Instance → ℕ
last_of inst [] = inst.id
last_of inst (next ∷ batch) = last_of next batch

abbrev pub walk_start : Walk
walk_start = record { items = []; total = 0; recorded = false; last_id = 0 }

unfoldable pub commit_if_recorded : Bool → Action (Unit {0})
commit_if_recorded recorded = if recorded then commit else pure tt

-- The end of `_scan`, after the loop.
unfoldable pub finish_scan : ℕ → Walk → Action (Page Instance)
unfolding commit_if_recorded
finish_scan size w = do
  commit_if_recorded w.recorded
  pure (record { items = w.items; total = w.total; total_pages = page_count w.total size })

module _ (db : Database) where
  -- The row that `insert(Alert)` writes, with the column defaults.
  abbrev pub new_alert : Detection → Instance → List Alert → Alert
  new_alert d inst alerts = record {
    id = db.next_id (map (λ (a : Alert). a.id) alerts);
    instance_id = inst.id;
    alert_type = d.alert_type;
    message = d.message inst;
    is_resolved = false;
    detected_at = d.detected_at inst;
    resolved_at = none;
  }

  -- `db.execute(insert(Alert), new_alerts)`: one row after the other.
  unfoldable pub insert_alerts : Detection → List Instance → List Alert → List Alert
  insert_alerts d [] alerts = alerts
  insert_alerts d (inst ∷ rest) alerts =
      insert_alerts d rest (alerts ++ new_alert d inst alerts ∷ [])

  abbrev pub with_alerts : Tables → List Alert → Tables
  with_alerts t alerts = record t { alerts = alerts }

  -- The instances of the batch that have no open alert of the type yet.
  unfoldable pub unrecorded : Detection → List Instance → List Alert → List Instance
  unfolding instances_with_unresolved_alert
  unrecorded d batch alerts =
      let existing =
        instances_with_unresolved_alert (map (λ (i : Instance). i.id) batch) d.alert_type alerts in
      filter (λ (i : Instance). not (elem i.id existing)) batch

  unfoldable pub record_alerts : Detection → List Instance → Action Bool
  unfolding unrecorded insert_alerts
  record_alerts d [] = pure false
  record_alerts d (i ∷ batch) = do
    new_alerts ← gets (λ s. unrecorded d (i ∷ batch) s.alerts)
    if leb (length new_alerts) 0
        then pure false
        else do modify (λ t. with_alerts t (insert_alerts d new_alerts t.alerts)); pure true

  -- The next rows of the detection query after the id `last_id`.
  unfoldable pub next_batch : Detection → ℕ → List Client → List Instance → List Instance
  next_batch d last_id clients instances = take id_batch_size (
      db.instance_rows.order_by (by_id (λ (i : Instance). i.id))
        (filter (λ (i : Instance). ltb last_id i.id) (filter (d.query clients) instances)))

  -- The rest of a round, once the batch `inst ∷ rest` is recorded; `again` is the next round.
  unfoldable pub finish_batch :
      ℕ → ℕ → (Walk → Action Walk) → Walk → Instance → List Instance → Bool → Action Walk
  unfolding visit
  finish_batch page size again w inst rest created =
      let walked = visit page size (inst ∷ rest) w in
      let w' = record walked { recorded = w.recorded || created; last_id = last_of inst rest } in
      if ltb (length (inst ∷ rest)) id_batch_size then pure w' else again w'

  -- One round of the loop on its batch.
  unfoldable pub scan_batch :
      Detection → ℕ → ℕ → (Walk → Action Walk) → Walk → List Instance → Action Walk
  scan_batch d page size again w [] = pure w
  scan_batch d page size again w (inst ∷ rest) = do
    created ← record_alerts d (inst ∷ rest)
    finish_batch page size again w inst rest created

  -- `while True`, with fuel; `exhausted` is what would happen without fuel.
  unfoldable pub scan_from : (Walk → Action Walk) → ℕ → Detection → ℕ → ℕ → Walk → Action Walk
  scan_from exhausted zero d page size w = exhausted w
  scan_from exhausted (suc fuel) d page size w = do
    batch ← gets (λ s. next_batch d w.last_id s.clients s.instances)
    scan_batch d page size (scan_from exhausted fuel d page size) w batch

  -- `_scan` in at most `rounds` rounds.
  unfoldable pub scan_within : (Walk → Action Walk) → ℕ → Detection → ℕ → ℕ → Action (Page Instance)
  scan_within exhausted rounds d page size = do
    w ← scan_from exhausted rounds d page size walk_start
    finish_scan size w

  -- Each round but the last takes a full batch, so the rows of the table are fuel enough.
  unfoldable pub scan : Detection → ℕ → ℕ → Action (Page Instance)
  unfolding scan_within
  scan d page size = do
    rows ← gets (λ s. length s.instances)
    scan_within pure (suc rows) d page size
