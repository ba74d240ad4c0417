-- ===== src/Instances/Update.antt =====
-- `update_status`: the row that it writes, the rows that it leaves, and the clock of the long-stopped
-- rule.
use assignment_cloud_instanc.Prelude.{
  ℕ, ap, map, ◌<◌, ◌≡◌, ◌≢◌, refl, Bool, true, false, not, ◌&&◌, none, some, List, arith, ◌==◌,
  ==→eq, ◌⊎◌, inl, inr, Bool-cases, if◌then◌else◌,
}
use assignment_cloud_instanc.Models.{
  Instance, InstanceStatus, Tables, running, stopped, error, status_eq,
}
use assignment_cloud_instanc.Session.{Result, ok, err, not_found, request}
use assignment_cloud_instanc.Access.{elem, get}
use assignment_cloud_instanc.Integrity.{IsValid, client_id, instance_id}
use assignment_cloud_instanc.Integrity.Keys.{
  get-changed, get-changed_self, keys-changed, All-changed, Distinct-changed,
}
use assignment_cloud_instanc.Instances.{
  InstanceStatusUpdate, with_instances, replace, next_cpu_usage, cpu_changed, updated,
  update_status,
}

status_eq_self : (s : InstanceStatus) → status_eq s s ≡ true
status_eq_self running = refl
status_eq_self stopped = refl
status_eq_self error = refl

-- The request changes neither the status nor the CPU usage.
abbrev pub is_same : InstanceStatusUpdate → Instance → Bool
is_same body x = status_eq x.status body.status && not (cpu_changed x (next_cpu_usage body))

get_if_self :
    (i j : ℕ) {x : Instance} (xs : List Instance)
    → get instance_id i xs ≡ some x
    → get instance_id j xs ≡ (if j == i then some x else get instance_id j xs)
get_if_self i j {x} xs h = elim (Bool-cases (j == i)) [
  | inl here ↦ rw here (rw (==→eq j i here) h)
  | inr other ↦ rw other refl
]

is_same-updated :
    (body : InstanceStatusUpdate) (now : ℕ) (x : Instance)
    → is_same body (updated body now x) ≡ true
unfolding next_cpu_usage
is_same-updated body now x = ground (arith, status_eq_self body.status)

module _ (i : ℕ) (body : InstanceStatusUpdate) (now : ℕ) (t : Tables) where
  pub update_missing :
      get instance_id i t.instances ≡ none
      → request (update_status i body now) t ≡ (err (not_found "Instance" i), t)
  unfolding update_status request
  update_missing h = ground arith

  pub update_same :
      {x : Instance}
      → get instance_id i t.instances ≡ some x
      → is_same body x ≡ true
      → request (update_status i body now) t ≡ (ok x, t)
  unfolding update_status request
  update_same {x} h e = ground arith

  pub update_changes :
      {x : Instance}
      → get instance_id i t.instances ≡ some x
      → is_same body x ≡ false
      → request (update_status i body now) t
        ≡ (ok (updated body now x), with_instances t (replace i (updated body now) t.instances))
  unfolding update_status request
  update_changes {x} h e = ground arith

  -- What the request answers and leaves, for the instance `x`.
  abbrev pub answer : Instance → Instance
  answer x = if is_same body x then x else updated body now x

  abbrev pub left_by : Instance → Tables
  left_by x =
      if is_same body x then t else with_instances t (replace i (updated body now) t.instances)

  pub update-IsValid :
      IsValid t → IsValid (with_instances t (replace i (updated body now) t.instances))
  update-IsValid v = record {
    members_distinct = v.members_distinct;
    clients_distinct = v.clients_distinct;
    instances_distinct =
        Distinct-changed instance_id (updated body now) (λ x. refl) i t.instances
          v.instances_distinct;
    instances_pos =
        All-changed instance_id (updated body now) (λ x. refl) i (λ x. 0 < instance_id x) (λ x h. h)
          t.instances v.instances_pos;
    snapshots_distinct = v.snapshots_distinct;
    snapshots_refer = v.snapshots_refer;
    alerts_distinct = v.alerts_distinct;
    clients_refer = v.clients_refer;
    instances_refer =
        All-changed instance_id (updated body now) (λ x. refl) i
          (λ (x : Instance). elem x.client_id (map client_id t.clients) ≡ true) (λ x h. h)
          t.instances v.instances_refer;
    alerts_refer =
        rw (keys-changed instance_id (updated body now) (λ x. refl) i t.instances) v.alerts_refer;
  }

  -- The two ends of `update_status` together.
  pub update_status_lem :
      {x : Instance}
      → get instance_id i t.instances ≡ some x
      → request (update_status i body now) t ≡ (ok (answer x), left_by x)
  update_status_lem {x} h = elim (Bool-cases (is_same body x)) [
    | inl same ↦ rw same (update_same h same)
    | inr other ↦ rw other (update_changes h other)
  ]

  -- For an instance that is found, `update_status` answers the row `answer x`, which is then
  -- read under its id, and every other id reads as before.
  pub update_writes :
      {x : Instance}
      → get instance_id i t.instances ≡ some x
      → let out = request (update_status i body now) t in
        (out.0 ≡ ok (answer x))
        × ((j : ℕ)
            → get instance_id j out.1.instances
              ≡ (if j == i then some (answer x) else get instance_id j t.instances))
  update_writes {x} h = rw (update_status_lem h) (elim (Bool-cases (is_same body x)) [
    | inl same ↦ rw same (refl, λ j. get_if_self i j t.instances h)
    | inr other ↦
        rw other
          (refl, λ j. get-changed instance_id (updated body now) (λ x. refl) i j t.instances h)
  ])

-- The CPU usage after a request: the one given, or 0 if the instance is not to run, or the old one.
abbrev pub cpu_after : InstanceStatusUpdate → Instance → ℕ
cpu_after body x = elim body.cpu_usage [
  | some cpu ↦ cpu
  | none ↦ if status_eq body.status running then x.cpu_usage else 0
]

answer_sets :
    (i : ℕ) (body : InstanceStatusUpdate) (now : ℕ) (t : Tables) (x : Instance)
    → (status_eq (answer i body now t x).status body.status ≡ true)
      × ((answer i body now t x).cpu_usage ≡ cpu_after body x)
      × ((answer i body now t x).monthly_cost ≡ x.monthly_cost)
unfolding next_cpu_usage
answer_sets i body now t x = ground (arith, status_eq_self body.status)

-- For an instance that is found, `update_status` answers a row with the status of the request,
-- with the CPU usage given, or 0 if none is given and the instance is not to run, or else the
-- old one, and with the same monthly cost.
pub update_sets :
    (i : ℕ) (body : InstanceStatusUpdate) (now : ℕ) (t : Tables) {x : Instance}
    → get instance_id i t.instances ≡ some x
    → let y = answer i body now t x in
      ((request (update_status i body now) t).0 ≡ ok y)
      × (status_eq y.status body.status ≡ true)
      × (y.cpu_usage ≡ cpu_after body x)
      × (y.monthly_cost ≡ x.monthly_cost)
update_sets i body now t {x} h =
    let sets = answer_sets i body now t x in
    (ap (λ out. out.0) (update_status_lem i body now t h), sets.0, sets.1, sets.2)

-- The answer and the tables of a request that writes: the row answered has the status and the CPU usage of
-- the request, one of which is new, and its time; it is read under its id, and nothing else is changed.
module _ (i : ℕ) (body : InstanceStatusUpdate) (now : ℕ) (t : Tables) where
  abbrev pub Written : Instance → Result Instance × Tables → Type 0
  Written x out =
      (y : Instance) × (out.0 ≡ ok y)
      × (status_eq y.status body.status ≡ true)
      × (y.cpu_usage ≡ cpu_after body x)
      × (y.updated_at ≡ now)
      × ((status_eq x.status y.status ≡ false) ⊎ (x.cpu_usage ≢ y.cpu_usage))
      × ((j : ℕ)
          → get instance_id j out.1.instances
            ≡ (if j == i then some y else get instance_id j t.instances))
      × (out.1 ≡ with_instances t out.1.instances)

-- For an instance that is found, an `update_status` request that is repeated, at whatever time,
-- answers the row of the first request and writes nothing more.
pub update_again :
    (i : ℕ) (body : InstanceStatusUpdate) (now later : ℕ) (t : Tables) {x : Instance}
    → get instance_id i t.instances ≡ some x
    → request (update_status i body later) (request (update_status i body now) t).1
      ≡ request (update_status i body now) t
update_again i body now later t {x} h = elim (Bool-cases (is_same body x)) [
  | inl same ↦ rw (update_same i body now t h same) (update_same i body later t h same)
  | inr other ↦ rw (update_changes i body now t h other) (
      update_same i body later _
        (get-changed_self instance_id (updated body now) (λ x. refl) i t.instances h)
        (is_same-updated body now x))
]
