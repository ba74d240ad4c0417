-- ===== src/Clients/Sla/Uptime.antt =====
-- The percentages of `get_sla` (app/services/client_service.py).
use Prim.Native.Nat.{min}
use mathlib.Core.Bool.{Bool-set}
use mathlib.Core.List.Perm
use native.Mathlib.Nat.{div-add-mod', div-le_of_le-mul, mul-le-mul_right, mul-div_left, mul_comm}
use assignment_cloud_instanc.Prelude.{
  ℕ, ◌+◌, ◌*◌, ◌/◌, ◌%◌, ◌≤◌, ◌<◌, ◌≡◌, refl, true, false, some, List, [], ◌∷◌, arith, filter,
  length, leb, ltb, All, Bool-cases, inl, inr,
}
use assignment_cloud_instanc.Prelude.Perms.{All-perm}
use assignment_cloud_instanc.Prelude.Text.{round_div}
use assignment_cloud_instanc.Prelude.Calendar.{month_start_of}
use assignment_cloud_instanc.Models.{Client, Instance, Tables, running, status_eq}
use assignment_cloud_instanc.Config.{Settings}
use assignment_cloud_instanc.Session.{ok, request}
use assignment_cloud_instanc.Database.{Database}
use assignment_cloud_instanc.Database.Sorting.{by_id}
use assignment_cloud_instanc.Access.{get}
use assignment_cloud_instanc.Integrity.{client_id, instance_id}
use assignment_cloud_instanc.Clients.{sum_of, is_of, get_client, get_client_instances}
use assignment_cloud_instanc.Clients.Sla.{
  InstanceDetail, Sla, full, window_start, measured, up, uptime_of, details, average, sla_of,
  get_sla,
}

round_div-le : (a b q : ℕ) → 0 < b → a ≤ q * b → round_div a b ≤ q
round_div-le a b q h k = elim (Bool-cases (ltb (a / b) q)) [
  | inl below ↦ ground arith
  | inr reached ↦
      let most : a / b ≤ q = div-le_of_le-mul b (rw (mul_comm b q) k) in
      let same : a / b ≡ q = ground (arith, most) in
      let whole : q * b + a % b ≡ a = rw same at (div-add-mod' a b) in
      ground (arith, whole, k, same, h)
]

round_div-mul : (q b : ℕ) → 0 < b → round_div (q * b) b ≡ q
round_div-mul q b h =
    let same : q * b / b ≡ q = mul-div_left q h in
    let whole : q * b + q * b % b ≡ q * b = rw same at (div-add-mod' (q * b) b) in
    ground (arith, same, whole, h)

module _ (month_start now : ℕ) where
  uptime_of-le :
      (x : Instance)
      → leb now (window_start month_start now x) ≡ false
      → uptime_of month_start now x ≤ full
  uptime_of-le x h =
      let pos : 0 < measured month_start now x = ground arith in
      round_div-le _ (measured month_start now x) full pos
        (rw (mul_comm full (measured month_start now x)) (mul-le-mul_right full (omega arith)))

  uptime_of-running :
      (x : Instance)
      → leb now (window_start month_start now x) ≡ false
      → status_eq x.status running ≡ true
      → uptime_of month_start now x ≡ full
  uptime_of-running x h run =
      let pos : 0 < measured month_start now x = ground arith in
      let all : min (up month_start now x) (measured month_start now x)
          ≡ measured month_start now x =
        rw run (omega arith) in
      rw (all, mul_comm (measured month_start now x) full)
        (round_div-mul full (measured month_start now x) pos)

  details-le :
      (xs : List Instance)
      → All (λ (d : InstanceDetail). d.uptime_percent ≤ full) (details month_start now xs)
  details-le [] = tt
  details-le (x ∷ xs) = elim (Bool-cases (leb now (window_start month_start now x))) [
    | inl skipped ↦ rw skipped (details-le xs)
    | inr counted ↦ rw counted (uptime_of-le x counted, details-le xs)
  ]

  details-running :
      (xs : List Instance)
      → All (λ (x : Instance). status_eq x.status running ≡ true) xs
      → All (λ (d : InstanceDetail). d.uptime_percent ≡ full) (details month_start now xs)
  details-running [] h = tt
  details-running (x ∷ xs) h = elim (Bool-cases (leb now (window_start month_start now x))) [
    | inl skipped ↦ rw skipped (details-running xs h.1)
    | inr counted ↦ rw counted (uptime_of-running x counted h.0, details-running xs h.1)
  ]

abbrev percents : List InstanceDetail → ℕ
percents ds = sum_of (λ (x : InstanceDetail). x.uptime_percent) ds

percents-le :
    (ds : List InstanceDetail)
    → All (λ d. d.uptime_percent ≤ full) ds
    → percents ds ≤ full * length ds
percents-le [] h = omega arith
percents-le (d ∷ ds) h = omega (arith, h.0, percents-le ds h.1)

percents-full :
    (ds : List InstanceDetail)
    → All (λ d. d.uptime_percent ≡ full) ds
    → percents ds ≡ full * length ds
percents-full [] h = omega arith
percents-full (d ∷ ds) h = omega (arith, h.0, percents-full ds h.1)

average-le : (ds : List InstanceDetail) → All (λ d. d.uptime_percent ≤ full) ds → average ds ≤ full
average-le [] h = omega arith
average-le (d ∷ ds) h =
    round_div-le (percents (d ∷ ds)) (length (d ∷ ds)) full (omega arith) (percents-le (d ∷ ds) h)

average-full :
    (ds : List InstanceDetail) → All (λ d. d.uptime_percent ≡ full) ds → average ds ≡ full
average-full [] h = refl
average-full (d ∷ ds) h =
    rw (percents-full (d ∷ ds) h) (round_div-mul full (length (d ∷ ds)) (omega arith))

module _ (db : Database) (settings : Settings) (now i : ℕ) (t : Tables) {c : Client}
    (h : get client_id i t.clients ≡ some c) where
  -- The rows of the client, in the order that the loop takes them.
  abbrev pub rows : List Instance
  rows = db.instance_rows.order_by (by_id instance_id) (filter (is_of i) t.instances)

  -- The answer for the client.
  abbrev pub sla : Sla
  sla = sla_of settings now c rows

  sla_found : request (get_sla db settings now i) t ≡ (ok sla, t)
  unfolding get_sla get_client get_client_instances request
  sla_found = ground arith

  -- For a client that is found, `get_sla` writes nothing and answers `sla`, in which the uptime
  -- of the client and that of each instance are at most 100 percent.
  pub sla_bounds :
      (request (get_sla db settings now i) t ≡ (ok sla, t))
      × (sla.uptime_percent ≤ full)
      × All (λ (d : InstanceDetail). d.uptime_percent ≤ full) sla.instance_details
  sla_bounds = (
    sla_found,
    average-le (details (month_start_of now) now rows) (details-le (month_start_of now) now rows),
    details-le (month_start_of now) now rows,
  )

  -- For a client that is found and whose instances are all RUNNING, `get_sla` writes nothing
  -- and answers `sla`, in which the uptime of the client is 100 percent.
  pub sla_perfect :
      All (λ (x : Instance). status_eq x.status running ≡ true) (filter (is_of i) t.instances)
      → (request (get_sla db settings now i) t ≡ (ok sla, t)) × (sla.uptime_percent ≡ full)
  sla_perfect all_run = (
    sla_found,
    average-full (details (month_start_of now) now rows) (
        details-running (month_start_of now) now rows (
          All-perm (λ x. Bool-set _ _)
            (Perm.symm (db.instance_rows.order_by_perm _ (filter (is_of i) t.instances))) all_run)),
  )
