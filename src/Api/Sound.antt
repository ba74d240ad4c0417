-- ===== src/Api/Sound.antt =====
-- The changes of `Api.Changes`, and the integrity of the tables.
use assignment_cloud_instanc.Prelude.{
  ℕ, ◌≤◌, ◌≡◌, Bool, true, ◌&&◌, List, [], ◌∷◌, map, arith, filter, count, ◌==◌, All, All-imp, not,
}
use assignment_cloud_instanc.Models.{Member, Client, Instance, Alert, Tables}
use assignment_cloud_instanc.Database.{Database}
use assignment_cloud_instanc.Access.{elem}
use assignment_cloud_instanc.Integrity.{IsValid, instance_id}
use assignment_cloud_instanc.Clients.Create.{made-IsValid}
use assignment_cloud_instanc.Instances.Delete.{created-IsValid, remove-IsValid}
use assignment_cloud_instanc.Instances.Update.{update-IsValid}
use assignment_cloud_instanc.Alerts.Resolve.{left-IsValid, open_count-resolve_row-le}
use assignment_cloud_instanc.Monitor.{Detection, is_open, with_alerts}
use assignment_cloud_instanc.Monitor.Dedup.{record_each}
use assignment_cloud_instanc.Monitor.Invariant.{
  OneOpen-record_each, Distinct-record_each, All-record_each,
}
use assignment_cloud_instanc.Api.Changes.{
  Change, unchanged, client_registered, instance_registered, status_updated, instance_deleted,
  alert_resolved, alerts_recorded, IsSound, visible,
}

count-filter-le {ℓ} :
    {A : Type ℓ} (p q : A → Bool) (xs : List A) → count p (filter q xs) ≤ count p xs
count-filter-le p q [] = omega arith
count-filter-le p q (x ∷ xs) = ground (arith, count-filter-le p q xs)

elem-visible :
    (member : Member) (clients : List Client) (i : ℕ) (xs : List Instance)
    → visible member clients xs i ≡ true
    → elem i (map instance_id xs) ≡ true
elem-visible member clients i [] h = h
elem-visible member clients i (x ∷ xs) h = ground (arith, elem-visible member clients i xs)

module _ (db : Database) (member : Member) (t : Tables) where
  recorded-IsValid :
      (d : Detection) (found : List Instance)
      → All (λ (x : Instance). visible member t.clients t.instances x.id ≡ true) found
      → IsValid t
      → IsValid (with_alerts db t (record_each db d found t.alerts))
  recorded-IsValid d found h v = record {
    members_distinct = v.members_distinct;
    clients_distinct = v.clients_distinct;
    instances_distinct = v.instances_distinct;
    instances_pos = v.instances_pos;
    snapshots_distinct = v.snapshots_distinct;
    snapshots_refer = v.snapshots_refer;
    alerts_distinct = Distinct-record_each db d found t.alerts v.alerts_distinct;
    clients_refer = v.clients_refer;
    instances_refer = v.instances_refer;
    alerts_refer =
        All-record_each db d (λ a. elem a.instance_id (map instance_id t.instances) ≡ true) found
          t.alerts
          (All-imp _ _ found (λ x seen all. elem-visible member t.clients x.id t.instances seen) h)
          v.alerts_refer;
  }

  -- Whatever a member changes in sound tables, they stay sound.
  pub Change-IsSound : {t' : Tables} → Change db member t t' → IsSound t → IsSound t'
  Change-IsSound unchanged sound = sound
  Change-IsSound (client_registered body now manager admin found manages) (v, one) =
      (made-IsValid db body now t found v, one)
  Change-IsSound (instance_registered settings body launched flushed c found mine) (v, one) =
      (created-IsValid db settings body launched flushed t found v, one)
  Change-IsSound (status_updated i body now x found mine) (v, one) =
      (update-IsValid i body now t v, one)
  Change-IsSound (instance_deleted i x found mine idle) (v, one) = (
    remove-IsValid i t v,
    λ k j. omega (
      arith,
      one k j,
      count-filter-le (λ (a : Alert). a.instance_id == j && is_open k a)
          (λ (a : Alert). not (a.instance_id == i)) t.alerts,
    ),
  )
  Change-IsSound (alert_resolved i now a found mine opened) (v, one) = (
    left-IsValid i now t v,
    λ k j. omega (arith, one k j, open_count-resolve_row-le i now k j t.alerts),
  )
  Change-IsSound (alerts_recorded d found mine) (v, one) =
      (recorded-IsValid d found mine v, OneOpen-record_each db d found t.alerts one)
