-- ===== src/Monitor/Scan.antt =====
-- `_scan` (app/services/monitor_service.py) as a whole: its page, its commit, its rounds.
use assignment_cloud_instanc.Prelude.{
  ℕ, suc, ◌<◌, ◌/◌, ◌≡◌, refl, sym, ap, ◌∙◌, false, List, [], ◌∷◌, arith, length, filter, take,
  drop, length-filter, count-le, Bool-cases, inl, inr,
}
use assignment_cloud_instanc.Models.{Instance, Alert, Tables}
use assignment_cloud_instanc.Session.{ok, pure, Action, open_session, request, bind_ok}
use assignment_cloud_instanc.Database.{Database}
use assignment_cloud_instanc.Database.Sorting.{by_id, length-order_by}
use assignment_cloud_instanc.Pagination.{Page, offset, page_count, paginate}
use assignment_cloud_instanc.Integrity.{IsValid, instance_id}
use assignment_cloud_instanc.Monitor.{
  Detection, Walk, with_alerts, visit, walk_start, finish_scan, scan_from, scan_within, scan,
  id_batch_size,
}
use assignment_cloud_instanc.Monitor.Dedup.{record_each, any_new, has_open}
use assignment_cloud_instanc.Monitor.Window.{items-visit, total-visit}
use assignment_cloud_instanc.Monitor.Batches.{matches, matches-Ascending, matches_from_zero}
use assignment_cloud_instanc.Monitor.Loop.{at, scan_from-each, Walked}

module _ (db : Database) (d : Detection) where
  -- A walk that recorded nothing left the alerts alone.
  record_each_none :
      (xs : List Instance) (alerts : List Alert)
      → any_new db d xs alerts ≡ false
      → record_each db d xs alerts ≡ alerts
  record_each_none [] alerts h = refl
  record_each_none (x ∷ xs) alerts h = elim (Bool-cases (has_open d.alert_type x.id alerts)) [
    | inl old ↦ rw old (record_each_none xs alerts (ground (arith, h)))
    | inr new ↦ absurd (ground (arith, h))
  ]

  module _ (page size : ℕ) (t : Tables) (valid : IsValid t) where
    -- The matches of the scan, in id order.
    abbrev pub found : List Instance
    found = matches db d t.clients t.instances

    -- The answer of a scan.
    abbrev pub scan_page : Page Instance
    scan_page =
        paginate db.instance_rows (by_id instance_id) (filter (d.query t.clients) t.instances) page
          size

    -- The alerts after a scan.
    abbrev pub scan_alerts : List Alert
    scan_alerts = record_each db d found t.alerts

    length-found : length found ≡ length (filter (d.query t.clients) t.instances)
    length-found = length-order_by db.instance_rows (by_id instance_id) _

    -- A batch for each 500 matches, and one more.
    abbrev pub IsEnough : ℕ → Type 0
    IsEnough rounds = length (filter (d.query t.clients) t.instances) / id_batch_size < rounds

    rows-IsEnough : IsEnough (suc (length t.instances))
    rows-IsEnough = omega (
      arith,
      count-le {0} (d.query t.clients) t.instances,
      length-filter {0} (d.query t.clients) t.instances,
    )

    walked :
        (exhausted : Walk → Action Walk) (rounds : ℕ)
        → IsEnough rounds
        → Walked db d page size
            (open_session t)
            valid.instances_distinct
            found
            walk_start
            t.alerts
            (scan_from db exhausted rounds d page size walk_start (open_session t))
    walked exhausted rounds enough =
        scan_from-each db d page size (open_session t) valid.instances_distinct exhausted rounds
          found walk_start t.alerts
          (matches-Ascending db d t.clients t.instances valid.instances_distinct)
          (matches_from_zero db d t.clients t.instances valid.instances_distinct
            valid.instances_pos)
          (omega (arith, enough, length-found))

    walk_page :
        (w : Walk)
        → w.items ≡ (visit page size found walk_start).items
        → w.total ≡ (visit page size found walk_start).total
        → record { items = w.items; total = w.total; total_pages = page_count w.total size }
          ≡ scan_page
    unfolding paginate
    walk_page w e f =
        let total : w.total ≡ length (filter (d.query t.clients) t.instances) =
          f ∙ total-visit page size found walk_start ∙ omega (arith, length-found) in
        let items : w.items ≡ take size (drop (offset page size) found) =
          e ∙ items-visit page size found walk_start refl refl in
        rw (items, total) refl

    -- The commit keeps what was written, and without one nothing was.
    committed :
        (w : Walk)
        → w.recorded ≡ any_new db d found t.alerts
        → request (λ _. finish_scan size w (at db d (open_session t) scan_alerts)) t ≡ (
          ok (record { items = w.items; total = w.total; total_pages = page_count w.total size }),
          with_alerts db t scan_alerts,
        )
    unfolding finish_scan request
    committed w e = elim (Bool-cases (any_new db d found t.alerts)) [
      | inl some_new ↦ rw (e, some_new) refl
      | inr none_new ↦ rw (e, none_new, record_each_none found t.alerts none_new) refl
    ]

    scan_within_lem :
        (exhausted : Walk → Action Walk) (rounds : ℕ)
        → IsEnough rounds
        → request (scan_within db exhausted rounds d page size) t
          ≡ (ok scan_page, with_alerts db t scan_alerts)
    unfolding scan_within request
    scan_within_lem exhausted rounds enough =
        let w = walked exhausted rounds enough in
        ap (λ out. (out.0, out.1.durable))
          (bind_ok (scan_from db exhausted rounds d page size walk_start) (finish_scan size)
            w.returns)
        ∙ committed w.walk w.recorded
        ∙ ap (λ p. (ok p, with_alerts db t scan_alerts)) (walk_page w.walk w.items w.total)

    -- On tables with sound keys, a scan answers the page that `paginate` gives of all matches
    -- in id order, and commits the alerts that the rule "one open alert per instance and type"
    -- adds when it is applied to the matches one by one in id order, whatever page was asked
    -- for.
    pub scan_lem : request (scan db d page size) t ≡ (ok scan_page, with_alerts db t scan_alerts)
    unfolding scan request
    scan_lem = scan_within_lem pure (suc (length t.instances)) rows-IsEnough

    -- On tables with sound keys, the loop of a scan ends within one round for each 500 matches
    -- and one more: a scan that is allowed that many rounds, whatever would happen after them,
    -- answers and commits what `scan` does.
    pub scan_ends :
        (exhausted : Walk → Action Walk) (rounds : ℕ)
        → length (filter (d.query t.clients) t.instances) / id_batch_size < rounds
        → request (scan_within db exhausted rounds d page size) t ≡ request (scan db d page size) t
    scan_ends exhausted rounds enough = scan_within_lem exhausted rounds enough ∙ sym scan_lem
