-- ===== src/Monitor/Invariant.antt =====
-- The dedup rule (app/services/monitor_service.py) and the open alerts of an instance and type.
use mathlib.Core.Path.{subst₂}
use assignment_cloud_instanc.Prelude.{
  ℕ, ◌+◌, ◌≤◌, ◌≡◌, ◌≢◌, refl, Bool, true, false, ◌&&◌, ◌||◌, List, [], ◌∷◌, ◌++◌, map, arith, any,
  count, ◌==◌, ==→eq, All, Bool-cases, inl, inr,
}
use assignment_cloud_instanc.Models.{Instance, Alert, AlertType, alert_type_eq, Distinct}
use assignment_cloud_instanc.Database.{Database}
use assignment_cloud_instanc.Access.{elem}
use assignment_cloud_instanc.Integrity.{alert_id, instance_id}
use assignment_cloud_instanc.Monitor.{Detection, is_open, new_alert}
use assignment_cloud_instanc.Monitor.Dedup.{
  has_open, record_one, record_each, All-elem_self, has_open-record_one,
}

-- The number of unresolved alerts of a type on an instance.
abbrev pub open_count : AlertType → ℕ → List Alert → ℕ
open_count t i = count (λ a. a.instance_id == i && is_open t a)

-- No instance has two unresolved alerts of one type.
abbrev pub OneOpen : List Alert → Type 0
OneOpen alerts = (t : AlertType) (i : ℕ) → open_count t i alerts ≤ 1

count-append {ℓ} :
    {A : Type ℓ} (p : A → Bool) (xs ys : List A) → count p (xs ++ ys) ≡ count p xs + count p ys
count-append p [] ys = omega arith
count-append p (x ∷ xs) ys = ground (arith, count-append p xs ys)

none_open {ℓ} : {A : Type ℓ} (p : A → Bool) (xs : List A) → any p xs ≡ false → count p xs ≡ 0
none_open p [] h = refl
none_open p (x ∷ xs) h = ground (arith, none_open p xs)

type_eq→eq : (t u : AlertType) → alert_type_eq t u ≡ true → t ≡ u
type_eq→eq AlertType.cpu_high u h = ground arith
type_eq→eq AlertType.error_detected u h = ground arith
type_eq→eq AlertType.long_stopped u h = ground arith

module _ (db : Database) (d : Detection) where
  no_other_open :
      (inst : Instance) (alerts : List Alert) (t : AlertType) (i : ℕ)
      → has_open d.alert_type inst.id alerts ≡ false
      → (inst.id == i) ≡ true
      → alert_type_eq d.alert_type t ≡ true
      → open_count t i alerts ≡ 0
  no_other_open inst alerts t i new same_id same_type =
      subst₂ (λ u j. open_count u j alerts ≡ 0) (type_eq→eq d.alert_type t same_type)
        (==→eq inst.id i same_id)
        (none_open (λ a. a.instance_id == inst.id && is_open d.alert_type a) alerts new)

  OneOpen-record_one :
      (inst : Instance) (alerts : List Alert)
      → OneOpen alerts
      → OneOpen (record_one db d alerts inst)
  OneOpen-record_one inst alerts one t i =
      elim (Bool-cases (has_open d.alert_type inst.id alerts)) [
        | inl old ↦ rw old (one t i)
        | inr new ↦
            rw (new, count-append)
              (elim (Bool-cases (inst.id == i)) [
                | inl same ↦ elim (Bool-cases (alert_type_eq d.alert_type t)) [
                  | inl type ↦ ground (arith, no_other_open inst alerts t i new same type)
                  | inr other ↦ ground (arith, one t i)
                ]
                | inr other ↦ ground (arith, one t i)
              ])
      ]

  pub OneOpen-record_each :
      (xs : List Instance) (alerts : List Alert)
      → OneOpen alerts
      → OneOpen (record_each db d xs alerts)
  OneOpen-record_each [] alerts one = one
  OneOpen-record_each (x ∷ xs) alerts one =
      OneOpen-record_each xs (record_one db d alerts x) (OneOpen-record_one x alerts one)

  has_open-record_each :
      (i : ℕ) (xs : List Instance) (alerts : List Alert)
      → has_open d.alert_type i (record_each db d xs alerts)
        ≡ (has_open d.alert_type i alerts || elem i (map instance_id xs))
  has_open-record_each i [] alerts = ground arith
  has_open-record_each i (x ∷ xs) alerts =
      rw (has_open-record_each i xs (record_one db d alerts x), has_open-record_one) (ground arith)

  -- A second walk over the same instances records nothing.
  pub record_each_again :
      (xs : List Instance) (alerts : List Alert)
      → All (λ x. has_open d.alert_type (instance_id x) alerts ≡ true) xs
      → record_each db d xs alerts ≡ alerts
  record_each_again [] alerts h = refl
  record_each_again (x ∷ xs) alerts h = rw h.0 (record_each_again xs alerts h.1)

  Distinct-append :
      (alerts : List Alert) (a : Alert)
      → Distinct alert_id alerts
      → All (λ b. alert_id b ≢ alert_id a) alerts
      → Distinct alert_id (alerts ++ a ∷ [])
  Distinct-append [] a h f = (tt, tt)
  Distinct-append (b ∷ alerts) a h f = (All-snoc alerts h.0 f.0, Distinct-append alerts a h.1 f.1)
    where
      All-snoc :
          (xs : List Alert)
          → All (λ c. alert_id b ≢ alert_id c) xs
          → alert_id b ≢ alert_id a
          → All (λ c. alert_id b ≢ alert_id c) (xs ++ a ∷ [])
      All-snoc [] g e = (e, tt)
      All-snoc (x ∷ xs) g e = (g.0, All-snoc xs g.1 e)

  ids_fresh :
      (inst : Instance) (alerts all : List Alert)
      → All (λ i. i ≢ db.next_id (map alert_id all)) (map alert_id alerts)
      → All (λ b. alert_id b ≢ alert_id (new_alert db d inst all)) alerts
  ids_fresh inst [] all h = tt
  ids_fresh inst (a ∷ alerts) all h = (h.0, ids_fresh inst alerts all h.1)

  -- Every alert that a walk writes has an id of its own.
  pub Distinct-record_each :
      (xs : List Instance) (alerts : List Alert)
      → Distinct alert_id alerts
      → Distinct alert_id (record_each db d xs alerts)
  Distinct-record_each [] alerts h = h
  Distinct-record_each (x ∷ xs) alerts h = elim (Bool-cases (has_open d.alert_type x.id alerts)) [
    | inl old ↦ rw old (Distinct-record_each xs alerts h)
    | inr new ↦ rw new (
        Distinct-record_each xs (alerts ++ new_alert db d x alerts ∷ []) (
          Distinct-append alerts (new_alert db d x alerts) h
            (ids_fresh x alerts alerts (db.next_id_fresh (map alert_id alerts)))))
  ]

  All-snoc :
      (P : Alert → Type 0) (xs : List Alert) (a : Alert) → All P xs → P a → All P (xs ++ a ∷ [])
  All-snoc P [] a h p = (p, tt)
  All-snoc P (x ∷ xs) a h p = (h.0, All-snoc P xs a h.1 p)

  -- What holds of the alerts, and of every alert that the walk may write, holds after the walk.
  pub All-record_each :
      (P : Alert → Type 0) (xs : List Instance) (alerts : List Alert)
      → All (λ x. (all : List Alert) → P (new_alert db d x all)) xs
      → All P alerts
      → All P (record_each db d xs alerts)
  All-record_each P [] alerts p h = h
  All-record_each P (x ∷ xs) alerts p h = elim (Bool-cases (has_open d.alert_type x.id alerts)) [
    | inl old ↦ rw old (All-record_each P xs alerts p.1 h)
    | inr new ↦
        rw new
          (All-record_each P xs _ p.1 (All-snoc P alerts (new_alert db d x alerts) h (p.0 alerts)))
  ]

  All-again :
      (ids : List ℕ) (xs : List Instance) (alerts : List Alert)
      → All (λ (x : Instance). elem x.id ids ≡ true) xs
      → ((i : ℕ) → elem i ids ≡ true → has_open d.alert_type i alerts ≡ true)
      → All (λ x. has_open d.alert_type (instance_id x) alerts ≡ true) xs
  All-again ids [] alerts h k = tt
  All-again ids (x ∷ xs) alerts h k = (k x.id h.0, All-again ids xs alerts h.1 k)

  -- After a walk every instance that it went over carries an open alert of the type.
  pub All-has_open :
      (xs : List Instance) (alerts : List Alert)
      → All (λ x. has_open d.alert_type (instance_id x) (record_each db d xs alerts) ≡ true) xs
  All-has_open xs alerts =
      All-again (map instance_id xs) xs _ (All-elem_self xs)
        (λ i m. rw (has_open-record_each i xs alerts, m) (ground arith))
