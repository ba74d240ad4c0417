-- ===== src/Instances/Delete.antt =====
-- `create_instance` and `delete_instance` (app/services/instance_service.py).
use assignment_cloud_instanc.Prelude.{
  ℕ, ◌≡◌, ◌≢◌, refl, true, false, not, none, some, [], ◌∷◌, ◌++◌, map, filter, arith, ◌==◌, All,
  ◌<◌, Bool-cases, Option-cases, inl, inr, if◌then◌else◌,
}
use assignment_cloud_instanc.Prelude.Perms.{All-filter, Ordered-filter}
use assignment_cloud_instanc.Models.{Client, Instance, Alert, Tables, running, status_eq}
use assignment_cloud_instanc.Config.{Settings}
use assignment_cloud_instanc.Session.{ok, err, active_instance, not_found, request}
use assignment_cloud_instanc.Database.{Database}
use assignment_cloud_instanc.Access.{elem, get}
use assignment_cloud_instanc.Integrity.{IsValid, client_id, instance_id}
use assignment_cloud_instanc.Integrity.Keys.{
  All-snoc, Distinct-snoc, fresh_rows, elem_of_get, get_deleted, get_snoc, Refers-grown,
  Refers-deleted,
}
use assignment_cloud_instanc.Instances.{
  InstanceCreate, with_instances, new_instance, create_instance, remove_instance, delete_instance,
}

module _ (i : ℕ) (t : Tables) where
  -- A RUNNING instance is not deleted: 409, and nothing is written.
  pub delete_running :
      {x : Instance}
      → get instance_id i t.instances ≡ some x
      → status_eq x.status running ≡ true
      → request (delete_instance i) t ≡ (err (active_instance i), t)
  unfolding delete_instance request
  delete_running h e = ground arith

  pub delete_missing :
      get instance_id i t.instances ≡ none
      → request (delete_instance i) t ≡ (err (not_found "Instance" i), t)
  unfolding delete_instance request
  delete_missing h = ground arith

  pub delete_stopped :
      {x : Instance}
      → get instance_id i t.instances ≡ some x
      → status_eq x.status running ≡ false
      → request (delete_instance i) t ≡ (ok tt, remove_instance i t)
  unfolding delete_instance request
  delete_stopped h e = ground arith

  pub remove-IsValid : IsValid t → IsValid (remove_instance i t)
  remove-IsValid v = record {
    members_distinct = v.members_distinct;
    clients_distinct = v.clients_distinct;
    instances_distinct = Ordered-filter _ _ t.instances v.instances_distinct;
    instances_pos = All-filter _ _ t.instances v.instances_pos;
    snapshots_distinct = v.snapshots_distinct;
    snapshots_refer = v.snapshots_refer;
    alerts_distinct = Ordered-filter _ _ t.alerts v.alerts_distinct;
    clients_refer = v.clients_refer;
    instances_refer = All-filter _ _ t.instances v.instances_refer;
    alerts_refer =
        Refers-deleted (λ (a : Alert). a.instance_id) instance_id i t.alerts t.instances
          v.alerts_refer;
  }

  -- The deletion of an instance that is found and not RUNNING succeeds: its id reads nothing,
  -- every other id reads as before, and the alerts left are those of the other instances.
  pub delete_leaves :
      {x : Instance}
      → get instance_id i t.instances ≡ some x
      → status_eq x.status running ≡ false
      → ((request (delete_instance i) t).0 ≡ ok tt)
        × ((j : ℕ)
            → get instance_id j (request (delete_instance i) t).1.instances
              ≡ (if j == i then none else get instance_id j t.instances))
        × ((request (delete_instance i) t).1.alerts
            ≡ filter (λ (a : Alert). not (a.instance_id == i)) t.alerts)
  delete_leaves h e =
      rw (delete_stopped h e) (refl, λ j. get_deleted instance_id j i t.instances, refl)

  -- Whatever it answers, a deletion leaves tables with sound keys so: no alert is left that
  -- names the deleted instance.
  pub delete-IsValid : IsValid t → IsValid (request (delete_instance i) t).1
  delete-IsValid v = elim (Option-cases (get instance_id i t.instances)) [
    | inl missing ↦ rw (delete_missing missing) v
    | inr (x, e) ↦ elim (Bool-cases (status_eq x.status running)) [
      | inl runs ↦ rw (delete_running e runs) v
      | inr idle ↦ rw (delete_stopped e idle) (remove-IsValid v)
    ]
  ]

module _ (db : Database) (settings : Settings) (body : InstanceCreate) (launched flushed : ℕ)
    (t : Tables) where
  -- The row that a registration makes.
  abbrev pub created : Instance
  created = new_instance db settings body launched flushed t.instances

  pub create_missing :
      get client_id body.client_id t.clients ≡ none
      → request (create_instance db settings body launched flushed) t
        ≡ (err (not_found "Client" body.client_id), t)
  unfolding create_instance request
  create_missing h = ground arith

  pub create_found :
      {c : Client}
      → get client_id body.client_id t.clients ≡ some c
      → request (create_instance db settings body launched flushed) t
        ≡ (ok created, with_instances t (t.instances ++ created ∷ []))
  unfolding create_instance request
  create_found h = ground arith

  pub created-IsValid :
      {c : Client}
      → get client_id body.client_id t.clients ≡ some c
      → IsValid t
      → IsValid (with_instances t (t.instances ++ created ∷ []))
  created-IsValid {c} h v = record {
    members_distinct = v.members_distinct;
    clients_distinct = v.clients_distinct;
    instances_distinct = Distinct-snoc instance_id t.instances created v.instances_distinct fresh;
    instances_pos =
        All-snoc (λ i. 0 < instance_id i) t.instances created v.instances_pos
          (db.next_id_pos (map instance_id t.instances));
    snapshots_distinct = v.snapshots_distinct;
    snapshots_refer = v.snapshots_refer;
    alerts_distinct = v.alerts_distinct;
    clients_refer = v.clients_refer;
    instances_refer =
        All-snoc (λ (i : Instance). elem i.client_id (map client_id t.clients) ≡ true) t.instances
          created v.instances_refer (elem_of_get client_id body.client_id t.clients c h);
    alerts_refer =
        Refers-grown (λ (a : Alert). a.instance_id) instance_id t.alerts t.instances created
          v.alerts_refer;
  }
    where
      fresh : All (λ b. instance_id b ≢ instance_id created) t.instances
      fresh =
          fresh_rows instance_id (instance_id created) t.instances
            (db.next_id_fresh (map instance_id t.instances))

  -- On tables with sound keys, a registration for a client that is found answers the new row,
  -- which is then read under its id, every other id reads as before, and the keys stay sound.
  pub create_reads :
      {c : Client}
      → get client_id body.client_id t.clients ≡ some c
      → IsValid t
      → let t' = (request (create_instance db settings body launched flushed) t).1 in
        ((request (create_instance db settings body launched flushed) t).0 ≡ ok created)
        × ((j : ℕ)
            → get instance_id j t'.instances
              ≡ (if j == instance_id created then some created else get instance_id j t.instances))
        × IsValid t'
  create_reads h v = rw (create_found h) (
    refl,
    λ j. get_snoc instance_id j t.instances created (
        fresh_rows instance_id (instance_id created) t.instances
          (db.next_id_fresh (map instance_id t.instances))),
    created-IsValid h v,
  )
