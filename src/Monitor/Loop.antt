-- ===== src/Monitor/Loop.antt =====
-- The loop of `_scan` (app/services/monitor_service.py) against one walk over all matches, round by
-- round.
use mathlib.Core.Path.{subst}
use assignment_cloud_instanc.Prelude.{
  ℕ, zero, suc, ◌<◌, ◌/◌, ◌≡◌, refl, sym, ap, ◌∙◌, true, false, ◌||◌, List, [], ◌∷◌, ◌++◌, arith,
  length, take, drop, filter, ltb, ltb→lt, not_ltb→le, take-append-drop, length-take, length-drop,
  take_of_length-le, Bool-cases, inl, inr, if◌then◌else◌,
}
use assignment_cloud_instanc.Models.{Instance, Alert, Distinct}
use assignment_cloud_instanc.Session.{bind_ok, Result, Session, Action, ok, pure}
use assignment_cloud_instanc.Database.{Database}
use assignment_cloud_instanc.Monitor.{
  Detection, Walk, with_alerts, visit, last_of, id_batch_size, record_alerts, scan_batch,
  finish_batch, scan_from,
}
use assignment_cloud_instanc.Monitor.Dedup.{record_each, any_new, record_alerts-each, record_one}
use assignment_cloud_instanc.Monitor.Window.{visit-append, visit_fields}
use assignment_cloud_instanc.Integrity.{instance_id}
use assignment_cloud_instanc.Monitor.Batches.{
  Ascending, Ascending-Distinct, Ascending-batch, Ascending-drop, after, filter-after_twice,
  filter-after_batch, last_of-after, matches, next_batch-matches,
}

module _ (db : Database) (d : Detection) where
  pub record_each-append :
      (xs ys : List Instance) (alerts : List Alert)
      → record_each db d (xs ++ ys) alerts ≡ record_each db d ys (record_each db d xs alerts)
  record_each-append [] ys alerts = refl
  record_each-append (x ∷ xs) ys alerts = record_each-append xs ys (record_one db d alerts x)

  pub any_new-append :
      (xs ys : List Instance) (alerts : List Alert)
      → any_new db d (xs ++ ys) alerts
        ≡ (any_new db d xs alerts || any_new db d ys (record_each db d xs alerts))
  any_new-append [] ys alerts = refl
  any_new-append (x ∷ xs) ys alerts =
      ground (arith, any_new-append xs ys (record_one db d alerts x))

  short_batch :
      (x : Instance) (xs : List Instance)
      → ltb (length (x ∷ take 499 xs)) id_batch_size ≡ true
      → take 499 xs ≡ xs
  short_batch x xs h =
      take_of_length-le 499 xs
        (omega (arith, ltb→lt (length (x ∷ take 499 xs)) 500 h, length-take {0} 499 xs))

  -- The session with other alerts.
  abbrev pub at : Session → List Alert → Session
  at s alerts = record s { tables = with_alerts db s.tables alerts }

  module _ (page size : ℕ) where
    abbrev after_batch : Walk → List Alert → Instance → List Instance → Walk
    after_batch w alerts x xs = record (visit page size (x ∷ xs) w) {
      recorded = w.recorded || any_new db d (x ∷ xs) alerts;
      last_id = last_of x xs;
    }

    scan_batch-each :
        (again : Walk → Action Walk) (w : Walk) (x : Instance) (xs : List Instance) (s : Session)
        (alerts : List Alert)
        → Ascending (x ∷ xs)
        → scan_batch db d page size again w (x ∷ xs) (at s alerts)
          ≡ (if ltb (length (x ∷ xs)) id_batch_size
                then pure (after_batch w alerts x xs)
                else again (after_batch w alerts x xs))
              (at s (record_each db d (x ∷ xs) alerts))
    unfolding scan_batch finish_batch
    scan_batch-each again w x xs s alerts h =
        bind_ok (record_alerts db d (x ∷ xs)) (finish_batch db page size again w x xs)
          (record_alerts-each db d (x ∷ xs) (at s alerts) (Ascending-Distinct (x ∷ xs) h))

    module _ (s : Session) (distinct : Distinct instance_id s.instances) where
      abbrev all_matches : List Instance
      all_matches = matches db d s.clients s.instances

      scan_from_end :
          (exhausted : Walk → Action Walk) (fuel : ℕ) (w : Walk) (alerts : List Alert)
          → filter (after w.last_id) all_matches ≡ []
          → scan_from db exhausted (suc fuel) d page size w (at s alerts) ≡ (ok w, at s alerts)
      unfolding scan_from scan_batch
      scan_from_end exhausted fuel w alerts e =
          rw (next_batch-matches db d s.clients s.instances distinct, e) refl

      scan_from_step :
          (exhausted : Walk → Action Walk) (fuel : ℕ) (x : Instance) (xs : List Instance) (w : Walk)
          (alerts : List Alert)
          → Ascending (x ∷ xs)
          → filter (after w.last_id) all_matches ≡ x ∷ xs
          → scan_from db exhausted (suc fuel) d page size w (at s alerts)
            ≡ (if ltb (length (x ∷ take 499 xs)) id_batch_size
                  then pure (after_batch w alerts x (take 499 xs))
                  else scan_from db exhausted fuel d page size
                      (after_batch w alerts x (take 499 xs)))
                (at s (record_each db d (x ∷ take 499 xs) alerts))
      unfolding scan_from
      scan_from_step exhausted fuel x xs w alerts h e =
          rw (next_batch-matches db d s.clients s.instances distinct, e)
            (scan_batch-each (scan_from db exhausted fuel d page size) w x (take 499 xs) s alerts
              (Ascending-batch 499 x xs h))

      -- What is left after a batch.
      rest_of_batch :
          (last_id : ℕ) (x : Instance) (xs : List Instance)
          → Ascending (x ∷ xs)
          → filter (after last_id) all_matches ≡ x ∷ xs
          → filter (after (last_of x (take 499 xs))) all_matches ≡ drop 499 xs
      rest_of_batch last_id x xs h e =
          sym (
            filter-after_twice last_id (last_of x (take 499 xs)) all_matches
              (last_of-after last_id 499 x xs all_matches h e))
          ∙ ap (filter (after (last_of x (take 499 xs)))) e
          ∙ filter-after_batch 499 x xs h

      -- What the loop has done when it ends, on the matches `rest` that it still had before it.
      pub record Walked (rest : List Instance) (w : Walk) (alerts : List Alert)
          (out : Result Walk × Session) : Type 0 where
        pub walk : Walk
        pub returns : out ≡ (ok walk, at s (record_each db d rest alerts))
        pub items : walk.items ≡ (visit page size rest w).items
        pub total : walk.total ≡ (visit page size rest w).total
        pub recorded : walk.recorded ≡ (w.recorded || any_new db d rest alerts)

      Walked-last :
          (x : Instance) (xs : List Instance) (w : Walk) (alerts : List Alert)
          → Walked
              (x ∷ xs)
              w
              alerts
              (pure (after_batch w alerts x xs) (at s (record_each db d (x ∷ xs) alerts)))
      Walked-last x xs w alerts = record {
        walk = after_batch w alerts x xs;
        returns = refl;
        items = refl;
        total = refl;
        recorded = refl;
      }

      -- A full batch, and then the rest.
      Walked-append :
          (x : Instance) (xs ys : List Instance) (w : Walk) (alerts : List Alert)
          {out : Result Walk × Session}
          → Walked ys (after_batch w alerts x xs) (record_each db d (x ∷ xs) alerts) out
          → Walked (x ∷ xs ++ ys) w alerts out
      Walked-append x xs ys w alerts h =
          let fields =
            visit_fields page size ys (after_batch w alerts x xs) (visit page size (x ∷ xs) w) refl
              refl in
          record {
            walk = h.walk;
            returns = rw (record_each-append (x ∷ xs) ys alerts) h.returns;
            items = rw (visit-append page size (x ∷ xs) ys w) (h.items ∙ fields.0);
            total = rw (visit-append page size (x ∷ xs) ys w) (h.total ∙ fields.1);
            recorded = rw (any_new-append (x ∷ xs) ys alerts) (ground (arith, h.recorded));
          }

      fewer_rounds :
          (x : Instance) (xs : List Instance) (fuel : ℕ)
          → ltb (length (x ∷ take 499 xs)) id_batch_size ≡ false
          → length (x ∷ xs) / id_batch_size < suc fuel
          → length (drop 499 xs) / id_batch_size < fuel
      fewer_rounds x xs fuel full lt =
          omega (arith, not_ltb→le _ _ full, lt, length-drop {0} 499 xs, length-take {0} 499 xs)

      pub scan_from-each :
          (exhausted : Walk → Action Walk) (fuel : ℕ) (rest : List Instance) (w : Walk)
          (alerts : List Alert)
          → Ascending rest
          → filter (after w.last_id) all_matches ≡ rest
          → length rest / id_batch_size < fuel
          → Walked rest w alerts (scan_from db exhausted fuel d page size w (at s alerts))
      scan_from-each exhausted zero rest w alerts h e lt = absurd (omega arith)
      scan_from-each exhausted (suc fuel) [] w alerts h e lt = record {
        walk = w;
        returns = scan_from_end exhausted fuel w alerts e;
        items = unfold visit in refl;
        total = unfold visit in refl;
        recorded = ground arith;
      }
      scan_from-each exhausted (suc fuel) (x ∷ xs) w alerts h e lt =
          rw (scan_from_step exhausted fuel x xs w alerts h e)
            (elim (Bool-cases (ltb (length (x ∷ take 499 xs)) id_batch_size)) [
              | inl short ↦ rw short (
                  subst
                    (λ ys.
                      Walked (x ∷ xs) w alerts (
                        pure (after_batch w alerts x ys) (at s (record_each db d (x ∷ ys) alerts))))
                    (sym (short_batch x xs short)) (Walked-last x xs w alerts))
              | inr full ↦ rw full (
                  subst
                    (λ ys. Walked (x ∷ ys) w alerts (
                      scan_from db exhausted fuel d page size (after_batch w alerts x (take 499 xs))
                        (at s (record_each db d (x ∷ take 499 xs) alerts))))
                    (take-append-drop 499 xs)
                    (Walked-append x (take 499 xs) (drop 499 xs) w alerts (
                      scan_from-each exhausted fuel (drop 499 xs)
                        (after_batch w alerts x (take 499 xs))
                        (record_each db d (x ∷ take 499 xs) alerts) (Ascending-drop 499 xs h.1)
                        (rest_of_batch w.last_id x xs h e) (fewer_rounds x xs fuel full lt))))
            ])
