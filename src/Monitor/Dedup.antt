-- ===== src/Monitor/Dedup.antt =====
-- The dedup rule (app/services/monitor_service.py), one instance at a time, and in a batch.
use assignment_cloud_instanc.Prelude.{
  ℕ, suc, ◌≡◌, ◌≢◌, refl, ap, Bool, true, false, not, ◌&&◌, ◌||◌, List, [], ◌∷◌, ◌++◌, map, arith,
  length, filter, any, leb, ◌==◌, ==→eq, ==_self, All, inl, inr, Bool-cases, if◌then◌else◌,
}
use assignment_cloud_instanc.Models.{Instance, Alert, AlertType, alert_type_eq, Distinct}
use assignment_cloud_instanc.Session.{Session, ok, pure, modify, ◌>>◌}
use assignment_cloud_instanc.Database.{Database}
use assignment_cloud_instanc.Access.{elem}
use assignment_cloud_instanc.Monitor.{
  Detection, is_open, instances_with_unresolved_alert, new_alert, with_alerts, insert_alerts,
  unrecorded, record_alerts,
}

-- The instance already carries an unresolved alert of this type.
abbrev pub has_open : AlertType → ℕ → List Alert → Bool
has_open t i alerts = any (λ a. a.instance_id == i && is_open t a) alerts

pub any-append {ℓ} :
    {A : Type ℓ} (p : A → Bool) (xs ys : List A) → any p (xs ++ ys) ≡ (any p xs || any p ys)
any-append p [] ys = refl
any-append p (x ∷ xs) ys = ground (arith, any-append p xs ys)

pub alert_type_eq_self : (t : AlertType) → alert_type_eq t t ≡ true
alert_type_eq_self AlertType.cpu_high = refl
alert_type_eq_self AlertType.error_detected = refl
alert_type_eq_self AlertType.long_stopped = refl

elem-existing :
    (i : ℕ) (ids : List ℕ) (t : AlertType) (alerts : List Alert)
    → elem i (instances_with_unresolved_alert ids t alerts) ≡ (elem i ids && has_open t i alerts)
unfolding instances_with_unresolved_alert
elem-existing i ids t [] = ground arith
elem-existing i ids t (a ∷ alerts) = elim (Bool-cases (a.instance_id == i)) [
  | inl here ↦
      let same : a.instance_id ≡ i = ==→eq a.instance_id i here in
      ground (arith, elem-existing i ids t alerts, ap (λ j. elem j ids) same)
  | inr other ↦ ground (arith, elem-existing i ids t alerts)
]

-- A batch holds its own ids.
All-elem-cons :
    (i : ℕ) (ids : List ℕ) (xs : List Instance)
    → All (λ (x : Instance). elem x.id ids ≡ true) xs
    → All (λ (x : Instance). elem x.id (i ∷ ids) ≡ true) xs
All-elem-cons i ids [] h = tt
All-elem-cons i ids (x ∷ xs) h = (ground (arith, h.0), All-elem-cons i ids xs h.1)

pub All-elem_self :
    (xs : List Instance)
    → All (λ (x : Instance). elem x.id (map (λ (i : Instance). i.id) xs) ≡ true) xs
All-elem_self [] = tt
All-elem_self (x ∷ xs) =
    (rw ==_self refl, All-elem-cons x.id (map (λ (i : Instance). i.id) xs) xs (All-elem_self xs))

leb-suc_zero : (n : ℕ) → leb (suc n) 0 ≡ false
leb-suc_zero n = ground arith

module _ (db : Database) (d : Detection) where
  abbrev pub record_one : List Alert → Instance → List Alert
  record_one alerts inst =
      if has_open d.alert_type inst.id alerts
      then alerts
      else alerts ++ new_alert db d inst alerts ∷ []

  -- The rule of the documents: an instance with an open alert of the type is skipped.
  abbrev pub record_each : List Instance → List Alert → List Alert
  record_each [] alerts = alerts
  record_each (inst ∷ rest) alerts = record_each rest (record_one alerts inst)

  -- Some alert was recorded on the way.
  abbrev pub any_new : List Instance → List Alert → Bool
  any_new [] alerts = false
  any_new (inst ∷ rest) alerts =
      not (has_open d.alert_type inst.id alerts) || any_new rest (record_one alerts inst)

  pub has_open-new :
      (i : ℕ) (inst : Instance) (alerts : List Alert)
      → has_open d.alert_type i (alerts ++ new_alert db d inst alerts ∷ [])
        ≡ (has_open d.alert_type i alerts || inst.id == i)
  has_open-new i inst alerts = rw any-append (ground (arith, alert_type_eq_self d.alert_type))

  -- Recording for one instance opens no alert on another.
  pub has_open-record_one :
      (i : ℕ) (inst : Instance) (alerts : List Alert)
      → has_open d.alert_type i (record_one alerts inst)
        ≡ (has_open d.alert_type i alerts || inst.id == i)
  has_open-record_one i inst alerts = elim (Bool-cases (has_open d.alert_type inst.id alerts)) [
    | inl old ↦ elim (Bool-cases (inst.id == i)) [
      | inl here ↦
          let same : inst.id ≡ i = ==→eq inst.id i here in
          rw (old, here) (rw (← same) (rw old refl))
      | inr other ↦ rw (old, other) (ground arith)
    ]
    | inr new ↦ rw new (has_open-new i inst alerts)
  ]

  -- `p` picks the instances without an open alert.
  abbrev Picks : (Instance → Bool) → List Alert → List Instance → Type 0
  Picks p alerts = All (λ x. p x ≡ not (has_open d.alert_type x.id alerts))

  Picks-record_one :
      (p : Instance → Bool) (inst : Instance) (alerts : List Alert) (xs : List Instance)
      → All (λ (y : Instance). inst.id ≢ y.id) xs
      → Picks p alerts xs
      → Picks p (record_one alerts inst) xs
  Picks-record_one p inst alerts [] h k = tt
  Picks-record_one p inst alerts (x ∷ xs) h k =
      (rw has_open-record_one (ground (arith, h.0, k.0)), Picks-record_one p inst alerts xs h.1 k.1)

  insert_alerts-each :
      (p : Instance → Bool) (xs : List Instance) (alerts : List Alert)
      → Distinct (λ (i : Instance). i.id) xs
      → Picks p alerts xs
      → (insert_alerts db d (filter p xs) alerts ≡ record_each xs alerts)
        × (any_new xs alerts ≡ not (leb (length (filter p xs)) 0))
  unfolding insert_alerts
  insert_alerts-each p [] alerts h k = (refl, refl)
  insert_alerts-each p (x ∷ xs) alerts h k =
      let (same, new) =
        insert_alerts-each p xs (record_one alerts x) h.1
          (Picks-record_one p x alerts xs h.0 k.1) in
      (ground (arith, k.0, same), ground (arith, k.0, new))

  Picks-existing :
      (all : List Instance) (alerts : List Alert) (xs : List Instance)
      → All (λ (x : Instance). elem x.id (map (λ (i : Instance). i.id) all) ≡ true) xs
      → Picks
          (λ (i : Instance). not (
            elem i.id (
              instances_with_unresolved_alert
                (map (λ (j : Instance). j.id) all)
                d.alert_type
                alerts)))
          alerts
          xs
  Picks-existing all alerts [] h = tt
  Picks-existing all alerts (x ∷ xs) h =
      (rw (elem-existing, h.0) refl, Picks-existing all alerts xs h.1)

  -- The end of `_record_alerts`, on the rows that are to be written.
  write_new :
      (new : List Instance) {b : Bool} {alerts : List Alert} (s : Session)
      → insert_alerts db d new s.alerts ≡ alerts
      → b ≡ not (leb (length new) 0)
      → (if leb (length new) 0
            then pure false
            else (modify (λ t. with_alerts db t (insert_alerts db d new t.alerts)) >> pure true))
          s
        ≡ (ok b, record s { tables = with_alerts db s.tables alerts })
  unfolding insert_alerts
  write_new [] s e f = rw (← e, f) refl
  write_new (x ∷ xs) s e f = rw (← e, f, leb-suc_zero (length xs)) refl

  -- Recording a batch of instances with distinct ids by one query and one insert writes what
  -- the rule writes instance by instance, and answers whether anything was written.
  pub record_alerts-each :
      (batch : List Instance) (s : Session)
      → Distinct (λ (i : Instance). i.id) batch
      → record_alerts db d batch s ≡ (
        ok (any_new batch s.alerts),
        record s { tables = with_alerts db s.tables (record_each batch s.alerts) },
      )
  unfolding record_alerts
  record_alerts-each [] s h = refl
  record_alerts-each (i ∷ batch) s h =
      let (same, new) =
        insert_alerts-each _ (i ∷ batch) s.alerts h
          (Picks-existing (i ∷ batch) s.alerts (i ∷ batch) (All-elem_self (i ∷ batch))) in
      write_new (unrecorded db d (i ∷ batch) s.alerts) s same new
