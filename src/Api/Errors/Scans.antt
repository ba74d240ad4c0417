-- ===== src/Api/Errors/Scans.antt =====
-- The scans (app/services/monitor_service.py) raise nothing.
use assignment_cloud_instanc.Prelude.{
  ℕ, zero, suc, Bool, true, false, List, [], ◌∷◌, leb, ltb, length, ◌||◌,
}
use assignment_cloud_instanc.Models.{Instance}
use assignment_cloud_instanc.Session.{Action, pure, modify, commit, ◌>>◌}
use assignment_cloud_instanc.Session.Raises.{Raises, if-Raises, bind-Raises}
use assignment_cloud_instanc.Database.{Database}
use assignment_cloud_instanc.Monitor.{
  Detection, Walk, walk_start, visit, last_of, id_batch_size, next_batch, unrecorded, with_alerts,
  insert_alerts, record_alerts, finish_batch, scan_batch, scan_from, scan_within, scan, finish_scan,
  commit_if_recorded,
}
use assignment_cloud_instanc.Pagination.{page_count}

module _ (statuses : List ℕ) where
  module _ (db : Database) (d : Detection) (page size : ℕ) where
    abbrev recorded : List Instance → Action Bool
    recorded new_alerts = do
      modify (λ t. with_alerts db t (insert_alerts db d new_alerts t.alerts))
      pure true

    record_alerts-Raises : (batch : List Instance) → Raises statuses (record_alerts db d batch)
    unfolding record_alerts
    record_alerts-Raises [] s = tt
    record_alerts-Raises (x ∷ batch) s =
        if-Raises statuses (leb (length (unrecorded db d (x ∷ batch) s.alerts)) 0) (pure false)
          (recorded (unrecorded db d (x ∷ batch) s.alerts)) (λ u. tt) (λ u. tt) s

    finish_batch-Raises :
        (again : Walk → Action Walk) (w : Walk) (x : Instance) (rest : List Instance)
        (created : Bool)
        → ((w' : Walk) → Raises statuses (again w'))
        → Raises statuses (finish_batch db page size again w x rest created)
    unfolding finish_batch
    finish_batch-Raises again w x rest created h =
        let walked = visit page size (x ∷ rest) w in
        let w' = record walked { recorded = w.recorded || created; last_id = last_of x rest } in
        if-Raises statuses (ltb (length (x ∷ rest)) id_batch_size) (pure w') (again w') (λ u. tt)
          (h w')

    batch-Raises :
        (batch : List Instance) (again : Walk → Action Walk) (w : Walk)
        → ((w' : Walk) → Raises statuses (again w'))
        → Raises statuses (scan_batch db d page size again w batch)
    unfolding scan_batch
    batch-Raises [] again w h = λ s. tt
    batch-Raises (x ∷ rest) again w h =
        bind-Raises statuses (record_alerts db d (x ∷ rest))
          (finish_batch db page size again w x rest) (record_alerts-Raises (x ∷ rest))
          (λ created. finish_batch-Raises again w x rest created h)

    scan_from-Raises :
        (fuel : ℕ) (w : Walk) → Raises statuses (scan_from db pure fuel d page size w)
    unfolding scan_from
    scan_from-Raises zero w s = tt
    scan_from-Raises (suc fuel) w s =
        batch-Raises (next_batch db d w.last_id s.clients s.instances)
          (scan_from db pure fuel d page size) w (scan_from-Raises fuel) s

    finish_scan-Raises : (w : Walk) → Raises statuses (finish_scan size w)
    unfolding finish_scan commit_if_recorded
    finish_scan-Raises w =
        bind-Raises statuses (commit_if_recorded w.recorded)
          (λ _.
            pure
              (record { items = w.items; total = w.total; total_pages = page_count w.total size }))
          (if-Raises statuses w.recorded commit (pure tt) (λ s. tt) (λ s. tt)) (λ u s. tt)

    pub scan-Raises : Raises statuses (scan db d page size)
    unfolding scan scan_within
    scan-Raises s =
        bind-Raises statuses (scan_from db pure (suc (length s.instances)) d page size walk_start)
          (finish_scan size) (scan_from-Raises (suc (length s.instances)) walk_start)
          finish_scan-Raises s
