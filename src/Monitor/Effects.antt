-- ===== src/Monitor/Effects.antt =====
-- A scan (app/services/monitor_service.py) as a request: what it leaves in the tables.
use mathlib.Core.Bool.{Bool-set}
use mathlib.Core.List.Perm
use assignment_cloud_instanc.Prelude.{
  ℕ, ◌≡◌, refl, sym, ap, ◌∙◌, true, false, List, [], ◌∷◌, ◌++◌, append-nil, append_assoc, map,
  filter, All, All-imp, Bool-cases, inl, inr,
}
use assignment_cloud_instanc.Prelude.Perms.{All-perm, All-filter}
use assignment_cloud_instanc.Models.{Instance, Alert, Tables}
use assignment_cloud_instanc.Session.{ok, request}
use assignment_cloud_instanc.Database.{Database}
use assignment_cloud_instanc.Access.{elem}
use assignment_cloud_instanc.Integrity.{IsValid, instance_id}
use assignment_cloud_instanc.Monitor.{Detection, with_alerts, scan, new_alert}
use assignment_cloud_instanc.Monitor.Batches.{matches}
use assignment_cloud_instanc.Monitor.Dedup.{has_open, record_each, All-elem_self}
use assignment_cloud_instanc.Monitor.Invariant.{
  OneOpen, OneOpen-record_each, Distinct-record_each, All-record_each, All-has_open,
  record_each_again,
}
use assignment_cloud_instanc.Monitor.Scan.{found, scan_page, scan_alerts, scan_lem}

module _ (db : Database) (d : Detection) where
  -- What a list of alerts has after a walk: the old ones as they were, and behind them unresolved ones
  -- of the type, for instances of the walk.
  pub record Appended (ids : List ℕ) (alerts out : List Alert) : Type 0 where
    pub new : List Alert
    pub appended : out ≡ alerts ++ new
    pub by_type : All (λ (a : Alert). a.alert_type ≡ d.alert_type) new
    pub are_open : All (λ (a : Alert). a.is_resolved ≡ false) new
    pub by_match : All (λ (a : Alert). elem a.instance_id ids ≡ true) new

  append_each :
      (ids : List ℕ) (xs : List Instance) (alerts : List Alert)
      → All (λ (x : Instance). elem x.id ids ≡ true) xs
      → Appended ids alerts (record_each db d xs alerts)
  append_each ids [] alerts h = record {
    new = [];
    appended = sym (append-nil alerts);
    by_type = tt;
    are_open = tt;
    by_match = tt;
  }
  append_each ids (x ∷ xs) alerts h = elim (Bool-cases (has_open d.alert_type x.id alerts)) [
    | inl old ↦ rw old (append_each ids xs alerts h.1)
    | inr fresh ↦
        let a : Alert = new_alert db d x alerts in
        let rest : Appended ids (alerts ++ a ∷ []) (record_each db d xs (alerts ++ a ∷ [])) =
          append_each ids xs (alerts ++ a ∷ []) h.1 in
        rw fresh (record {
          new = a ∷ rest.new;
          appended = rest.appended ∙ append_assoc alerts (a ∷ []) rest.new;
          by_type = (refl, rest.by_type);
          are_open = (refl, rest.are_open);
          by_match = (h.0, rest.by_match);
        })
  ]

  module _ (page size : ℕ) (t : Tables) (valid : IsValid t) where
    -- The tables that a scan leaves.
    abbrev pub after_scan : Tables
    after_scan = (request (scan db d page size) t).1

    pub after_scan-eq : after_scan ≡ with_alerts db t (scan_alerts db d page size t valid)
    after_scan-eq = ap (λ r. r.1) (scan_lem db d page size t valid)

    abbrev pub detected : List Instance
    detected = filter (d.query t.clients) t.instances

    -- The same instances in the order of the walk, and out of it.
    pub All-matches :
        (P : Instance → Type 0)
        → ((i : Instance) → IsProp (P i))
        → All P detected
        → All P (matches db d t.clients t.instances)
    All-matches P h = All-perm h (Perm.symm (db.instance_rows.order_by_perm _ detected))

    All-detected :
        (P : Instance → Type 0)
        → ((i : Instance) → IsProp (P i))
        → All P (matches db d t.clients t.instances)
        → All P detected
    All-detected P h = All-perm h (db.instance_rows.order_by_perm _ detected)

    found_in_table :
        All
          (λ (i : Instance). elem i.id (map instance_id t.instances) ≡ true)
          (found db d page size t valid)
    found_in_table =
        All-matches (λ i. elem i.id (map instance_id t.instances) ≡ true) (λ i. Bool-set _ _)
          (All-filter _ (d.query t.clients) t.instances (All-elem_self t.instances))

    -- A scan of tables with sound keys leaves them with sound keys: ids are unique and every
    -- foreign key names a row.
    pub scan-IsValid : IsValid after_scan
    scan-IsValid = rw after_scan-eq (record {
      members_distinct = valid.members_distinct;
      clients_distinct = valid.clients_distinct;
      instances_distinct = valid.instances_distinct;
      instances_pos = valid.instances_pos;
      snapshots_distinct = valid.snapshots_distinct;
      snapshots_refer = valid.snapshots_refer;
      alerts_distinct =
          Distinct-record_each db d (found db d page size t valid) t.alerts valid.alerts_distinct;
      clients_refer = valid.clients_refer;
      instances_refer = valid.instances_refer;
      alerts_refer =
          All-record_each db d (λ a. elem a.instance_id (map instance_id t.instances) ≡ true)
            (found db d page size t valid) t.alerts
            (All-imp _ _ (found db d page size t valid) (λ x h all. h) found_in_table)
            valid.alerts_refer;
    })

    -- If no instance has two open alerts of one type, a scan of tables with sound keys leaves
    -- it so.
    pub scan-OneOpen : OneOpen t.alerts → OneOpen after_scan.alerts
    scan-OneOpen one =
        rw after_scan-eq (OneOpen-record_each db d (found db d page size t valid) t.alerts one)

    -- After a scan of tables with sound keys, every instance that meets the condition of the
    -- scan has an open alert of its type, on whatever page it stands.
    pub scan_detects :
        All (λ (i : Instance). has_open d.alert_type i.id after_scan.alerts ≡ true) detected
    scan_detects = rw after_scan-eq (
        All-detected (λ i. has_open d.alert_type i.id (scan_alerts db d page size t valid) ≡ true)
          (λ i. Bool-set _ _) (All-has_open db d (found db d page size t valid) t.alerts))

    -- A scan of tables with sound keys keeps every alert that was there, and adds behind them
    -- unresolved alerts of its type only, each for an instance that it found.
    pub scan_appends :
        Appended (map instance_id (found db d page size t valid)) t.alerts after_scan.alerts
    scan_appends = rw after_scan-eq (
        append_each _ (found db d page size t valid) t.alerts
          (All-elem_self (found db d page size t valid)))

    after_again :
        (page' size' : ℕ)
        → request (scan db d page' size') (with_alerts db t (scan_alerts db d page size t valid))
          ≡ (
            ok (scan_page db d page' size' t valid),
            with_alerts db t (scan_alerts db d page size t valid),
          )
    after_again page' size' =
        let valid' : IsValid (with_alerts db t (scan_alerts db d page size t valid)) =
          rw after_scan-eq at scan-IsValid in
        scan_lem db d page' size' (with_alerts db t (scan_alerts db d page size t valid)) valid'
        ∙ ap (λ alerts. (ok (scan_page db d page' size' t valid), with_alerts db t alerts))
            (record_each_again db d (found db d page size t valid) _
              (All-has_open db d (found db d page size t valid) t.alerts))

    -- On tables with sound keys, a second scan, of whatever page, answers that page of the same
    -- matches and leaves the rows as the first scan left them.
    pub scan_again :
        (page' size' : ℕ)
        → request (scan db d page' size') after_scan
          ≡ (ok (scan_page db d page' size' t valid), after_scan)
    scan_again page' size' = rw after_scan-eq (after_again page' size')
