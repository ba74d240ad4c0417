-- ===== src/Alerts/Resolve.antt =====
-- `resolve_alert`: what it writes, and what it opens the way for.

use assignment_cloud_instanc.Prelude.{
  ℕ, suc, ◌≤◌, ◌≡◌, refl, Bool, true, false, ◌&&◌, none, some, List, [], ◌∷◌, map, arith, any,
  count, ◌==◌, ==_self, Bool-cases, Option-cases, inl, inr, if◌then◌else◌,
}
use assignment_cloud_instanc.Models.{Alert, AlertType, alert_type_eq, Tables}
use assignment_cloud_instanc.Session.{ok, err, not_found, request}
use assignment_cloud_instanc.Access.{elem, get}
use assignment_cloud_instanc.Integrity.{IsValid, alert_id, instance_id}
use assignment_cloud_instanc.Integrity.Keys.{
  get-changed, get-changed_self, All-changed, Distinct-changed,
}
use assignment_cloud_instanc.Monitor.{is_open}
use assignment_cloud_instanc.Monitor.Dedup.{has_open}
use assignment_cloud_instanc.Monitor.Invariant.{OneOpen, open_count}
use assignment_cloud_instanc.Alerts.{with_alert_rows, resolved, resolve_row, resolve_alert}

alert_type_eq_refl : (k : AlertType) → alert_type_eq k k ≡ true
alert_type_eq_refl AlertType.cpu_high = refl
alert_type_eq_refl AlertType.error_detected = refl
alert_type_eq_refl AlertType.long_stopped = refl

module _ (i now : ℕ) where
  pub open_count-resolve_row-le :
      (k : AlertType) (j : ℕ) (xs : List Alert)
      → open_count k j (resolve_row i now xs) ≤ open_count k j xs
  open_count-resolve_row-le k j [] = omega arith
  open_count-resolve_row-le k j (x ∷ xs) = ground (arith, open_count-resolve_row-le k j xs)

  open_count-resolve_row-lt :
      (k : AlertType) (m : ℕ) (xs : List Alert) {a : Alert}
      → get alert_id i xs ≡ some a
      → (a.instance_id == m && is_open k a) ≡ true
      → suc (open_count k m (resolve_row i now xs)) ≤ open_count k m xs
  open_count-resolve_row-lt k m [] h e = absurd (ground arith)
  open_count-resolve_row-lt k m (x ∷ xs) {a} h e = elim (Bool-cases (alert_id x == i)) [
    | inl here ↦
        let same : x ≡ a = ground (arith, h, here) in
        let seen : (x.instance_id == m && is_open k x) ≡ true = rw same e in
        rw here (ground (arith, seen, open_count-resolve_row-le k m xs))
    | inr other ↦
        rw other (ground (arith, open_count-resolve_row-lt k m xs {a = a} (ground arith) e))
  ]

none_counted {ℓ} : {A : Type ℓ} (p : A → Bool) (xs : List A) → count p xs ≡ 0 → any p xs ≡ false
none_counted p [] h = refl
none_counted p (x ∷ xs) h = ground (arith, none_counted p xs)

module _ (i now : ℕ) (t : Tables) where
  pub resolve_missing :
      get alert_id i t.alerts ≡ none
      → request (resolve_alert i now) t ≡ (err (not_found "Alert" i), t)
  unfolding resolve_alert request
  resolve_missing h = ground arith

  pub resolve_resolved :
      {a : Alert}
      → get alert_id i t.alerts ≡ some a
      → a.is_resolved ≡ true
      → request (resolve_alert i now) t ≡ (ok a, t)
  unfolding resolve_alert request
  resolve_resolved h e = ground arith

  pub resolve_open :
      {a : Alert}
      → get alert_id i t.alerts ≡ some a
      → a.is_resolved ≡ false
      → request (resolve_alert i now) t
        ≡ (ok (resolved now a), with_alert_rows t (resolve_row i now t.alerts))
  unfolding resolve_alert request
  resolve_open h e = ground arith

  -- If no instance has two open alerts of one type, resolving an open alert leaves its instance
  -- without an open alert of that type.
  pub resolve_closes :
      {a : Alert}
      → get alert_id i t.alerts ≡ some a
      → a.is_resolved ≡ false
      → OneOpen t.alerts
      → has_open a.alert_type a.instance_id (request (resolve_alert i now) t).1.alerts ≡ false
  resolve_closes {a} h e one = rw (resolve_open h e) (
      none_counted _ (resolve_row i now t.alerts) (
        omega (
          arith,
          open_count-resolve_row-lt i now a.alert_type a.instance_id t.alerts h
              (rw (==_self, alert_type_eq_refl, e) refl),
          one a.alert_type a.instance_id,
        )))

  pub left-IsValid : IsValid t → IsValid (with_alert_rows t (resolve_row i now t.alerts))
  left-IsValid v = record {
    members_distinct = v.members_distinct;
    clients_distinct = v.clients_distinct;
    instances_distinct = v.instances_distinct;
    instances_pos = v.instances_pos;
    snapshots_distinct = v.snapshots_distinct;
    snapshots_refer = v.snapshots_refer;
    alerts_distinct =
        Distinct-changed alert_id (resolved now) (λ a. refl) i t.alerts v.alerts_distinct;
    clients_refer = v.clients_refer;
    instances_refer = v.instances_refer;
    alerts_refer =
        All-changed alert_id (resolved now) (λ a. refl) i
          (λ (a : Alert). elem a.instance_id (map instance_id t.instances) ≡ true) (λ a h. h)
          t.alerts v.alerts_refer;
  }

  -- Whatever it answers, `resolve_alert` leaves tables with sound keys so.
  pub resolve-IsValid : IsValid t → IsValid (request (resolve_alert i now) t).1
  resolve-IsValid v = elim (Option-cases (get alert_id i t.alerts)) [
    | inl missing ↦ rw (resolve_missing missing) v
    | inr (a, e) ↦ elim (Bool-cases a.is_resolved) [
      | inl done ↦ rw (resolve_resolved e done) v
      | inr opened ↦ rw (resolve_open e opened) (left-IsValid v)
    ]
  ]

  -- Resolving an open alert that is found answers it resolved at the time of the request; it is
  -- then read so under its id, and every other id reads as before.
  pub resolve_writes :
      {a : Alert}
      → get alert_id i t.alerts ≡ some a
      → a.is_resolved ≡ false
      → let out = request (resolve_alert i now) t in
        (out.0 ≡ ok (resolved now a))
        × ((j : ℕ)
            → get alert_id j out.1.alerts
              ≡ (if j == i then some (resolved now a) else get alert_id j t.alerts))
  resolve_writes h e =
      rw (resolve_open h e)
        (refl, λ j. get-changed alert_id (resolved now) (λ a. refl) i j t.alerts h)

-- Resolving an alert that is found a second time answers what the first request answered and
-- changes nothing.
pub resolve_again :
    (i now later : ℕ) (t : Tables) {a : Alert}
    → get alert_id i t.alerts ≡ some a
    → request (resolve_alert i later) (request (resolve_alert i now) t).1
      ≡ request (resolve_alert i now) t
resolve_again i now later t {a} h = elim (Bool-cases a.is_resolved) [
  | inl done ↦ rw (resolve_resolved i now t h done) (resolve_resolved i later t h done)
  | inr opened ↦ rw (resolve_open i now t h opened) (
      resolve_resolved i later (with_alert_rows t (resolve_row i now t.alerts))
        (get-changed_self alert_id (resolved now) (λ a. refl) i t.alerts h) refl)
]
