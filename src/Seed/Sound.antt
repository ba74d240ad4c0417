-- ===== src/Seed/Sound.antt =====
-- The tables that `seed` (app/seed.py) leaves, and a second start.
use assignment_cloud_instanc.Prelude.{
  ℕ, ◌<◌, ◌≡◌, refl, true, none, some, List, [], ◌∷◌, ◌++◌, map, arith, All, Option-cases, inl, inr,
  All-imp, String,
}
use assignment_cloud_instanc.Models.{Member, Client, Instance, Alert, CostSnapshot, Tables}
use assignment_cloud_instanc.Config.{Settings}
use assignment_cloud_instanc.Session.{ok, request}
use assignment_cloud_instanc.Database.{Database}
use assignment_cloud_instanc.Access.{elem}
use assignment_cloud_instanc.Integrity.{IsValid, member_id, client_id, instance_id, snapshot_id}
use assignment_cloud_instanc.Security.{Kdf}
use assignment_cloud_instanc.Api.Changes.{IsSound}
use assignment_cloud_instanc.Access.Membership.{elem-append}
use assignment_cloud_instanc.Seed.Added.{
  id_at-elem, map-append, length-added, added-keyed, All-added, Refers-appended, Refers-self,
}
use assignment_cloud_instanc.Seed.Rows.{
  ClientSpec, InstanceSpec, member_specs, client_specs, instance_specs,
}
use assignment_cloud_instanc.Seed.{
  id_at, has_row, added, seeded, seeded_client, seeded_instance, new_member, new_members,
  new_clients, new_instances, seed, snapshot,
}

module _ (db : Database) (kdf : Kdf) (settings : Settings) (salt : String → List ℕ)
    (now created : ℕ) (t : Tables) where
  abbrev ms : List Member
  ms = new_members db kdf settings salt now created t

  abbrev cs : List Client
  cs = new_clients db kdf settings salt now created t

  manager_known :
      (k : ℕ) → k < 3 → elem (id_at k (map member_id ms)) (map member_id (t.members ++ ms)) ≡ true
  manager_known k h =
      let short =
        length-added db member_id (new_member db kdf settings salt now created) (λ b i. refl)
          member_specs t.members in
      rw (map-append member_id t.members ms) (
        elem-append (id_at k (map member_id ms)) (map member_id t.members) (map member_id ms)
          (id_at-elem k (map member_id ms) (omega (arith, h, short))))

  client_known :
      (k : ℕ) → k < 10 → elem (id_at k (map client_id cs)) (map client_id (t.clients ++ cs)) ≡ true
  client_known k h =
      let short =
        length-added db client_id (seeded_client db kdf settings salt now created ms) (λ b i. refl)
          client_specs t.clients in
      rw (map-append client_id t.clients cs) (
        elem-append (id_at k (map client_id cs)) (map client_id t.clients) (map client_id cs)
          (id_at-elem k (map client_id cs) (omega (arith, h, short))))

  every_manager : All (λ (b : ClientSpec). b.manager < 3) client_specs
  every_manager = omega arith

  every_client : All (λ (b : InstanceSpec). b.client < 10) instance_specs
  every_client = omega arith

  managers_known :
      All
        (λ (b : ClientSpec).
          (ids : List ℕ)
          → elem (id_at b.manager (map member_id ms)) (map member_id (t.members ++ ms)) ≡ true)
        client_specs
  managers_known =
      All-imp (λ (b : ClientSpec). b.manager < 3)
        (λ (b : ClientSpec).
          (ids : List ℕ)
          → elem (id_at b.manager (map member_id ms)) (map member_id (t.members ++ ms)) ≡ true)
        client_specs (λ b h ids. manager_known b.manager h) every_manager

  clients_known :
      All
        (λ (b : InstanceSpec).
          (ids : List ℕ)
          → elem (id_at b.client (map client_id cs)) (map client_id (t.clients ++ cs)) ≡ true)
        instance_specs
  clients_known =
      All-imp (λ (b : InstanceSpec). b.client < 10)
        (λ (b : InstanceSpec).
          (ids : List ℕ)
          → elem (id_at b.client (map client_id cs)) (map client_id (t.clients ++ cs)) ≡ true)
        instance_specs (λ b h ids. client_known b.client h) every_client

  abbrev ns : List Instance
  ns = new_instances db kdf settings salt now created t

  -- The client of a new snapshot is a new one.
  new_clients_known :
      All (λ (c : Client). (ids : List ℕ) → elem c.id (map client_id (t.clients ++ cs)) ≡ true) cs
  new_clients_known = rw (map-append client_id t.clients cs) (
      All-imp (λ (c : Client). elem c.id (map client_id cs) ≡ true) _ cs
        (λ c h ids. elem-append c.id (map client_id t.clients) (map client_id cs) h)
        (Refers-self client_id cs))

  seeded-IsValid : IsValid t → IsValid (seeded db kdf settings salt now created t)
  seeded-IsValid v = record {
    members_distinct =
        added-keyed db member_id (new_member db kdf settings salt now created) (λ b i. refl)
          member_specs t.members v.members_distinct;
    clients_distinct =
        added-keyed db client_id (seeded_client db kdf settings salt now created ms) (λ b i. refl)
          client_specs t.clients v.clients_distinct;
    instances_distinct =
        added-keyed db instance_id (seeded_instance db kdf settings salt now created cs)
          (λ b i. refl) instance_specs t.instances v.instances_distinct;
    instances_pos =
        All-added db instance_id (seeded_instance db kdf settings salt now created cs) (λ b i. refl)
          (λ x. 0 < instance_id x) instance_specs t.instances (All_specs instance_specs)
          v.instances_pos;
    alerts_distinct = v.alerts_distinct;
    clients_refer =
        All-added db client_id (seeded_client db kdf settings salt now created ms) (λ b i. refl)
          (λ (c : Client). elem c.manager_id (map member_id (t.members ++ ms)) ≡ true) client_specs
          t.clients managers_known
          (Refers-appended (λ (c : Client). c.manager_id) member_id t.clients t.members ms
            v.clients_refer);
    instances_refer =
        All-added db instance_id (seeded_instance db kdf settings salt now created cs) (λ b i. refl)
          (λ (x : Instance). elem x.client_id (map client_id (t.clients ++ cs)) ≡ true)
          instance_specs t.instances clients_known
          (Refers-appended (λ (x : Instance). x.client_id) client_id t.instances t.clients cs
            v.instances_refer);
    alerts_refer =
        Refers-appended (λ (a : Alert). a.instance_id) instance_id t.alerts t.instances
          (new_instances db kdf settings salt now created t) v.alerts_refer;
    snapshots_distinct =
        added-keyed db snapshot_id (snapshot db kdf settings salt now created ns) (λ c i. refl) cs
          t.cost_snapshots v.snapshots_distinct;
    snapshots_refer =
        All-added db snapshot_id (snapshot db kdf settings salt now created ns) (λ c i. refl)
          (λ (s : CostSnapshot). elem s.client_id (map client_id (t.clients ++ cs)) ≡ true) cs
          t.cost_snapshots new_clients_known
          (Refers-appended (λ (s : CostSnapshot). s.client_id) client_id t.cost_snapshots t.clients
            cs v.snapshots_refer);
  }
    where
      All_specs :
          (specs : List InstanceSpec)
          → All (λ (b : InstanceSpec). (ids : List ℕ) → 0 < db.next_id ids) specs
      All_specs [] = tt
      All_specs (b ∷ specs) = (λ ids. db.next_id_pos ids, All_specs specs)

some_row :
    {A : Type 0} (xs : List A) (y : A) (ys : List A) → (x : A) × (has_row (xs ++ y ∷ ys) ≡ some x)
some_row [] y ys = (y, refl)
some_row (x ∷ xs) y ys = (x, refl)

module _ (db : Database) (kdf : Kdf) (settings : Settings) (salt : String → List ℕ)
    (now created : ℕ) (t : Tables) where
  seed_full :
      {m : Member}
      → has_row t.members ≡ some m
      → request (seed db kdf settings salt now created) t ≡ (ok tt, t)
  unfolding seed request
  seed_full h = rw h refl

  seed_empty :
      has_row t.members ≡ none
      → request (seed db kdf settings salt now created) t
        ≡ (ok tt, seeded db kdf settings salt now created t)
  unfolding seed request
  seed_empty h = rw h refl

  seeded_full :
      (m : Member) × (has_row (seeded db kdf settings salt now created t).members ≡ some m)
  unfolding added
  seeded_full = some_row t.members _ _

-- The start of the application leaves tables that are sound (keys and references of every
-- table, the cost snapshots included, one open alert per instance and type) sound, and a second
-- start, at whatever times and with whatever salts, succeeds and changes nothing.
pub seed-IsSound :
    (db : Database) (kdf : Kdf) (settings : Settings) (salt fresh : String → List ℕ)
    (now created later again : ℕ) (t : Tables)
    → IsSound t
    → let t' = (request (seed db kdf settings salt now created) t).1 in
      IsSound t' × (request (seed db kdf settings fresh later again) t' ≡ (ok tt, t'))
seed-IsSound db kdf settings salt fresh now created later again t (v, one) =
    elim (Option-cases (has_row t.members)) [
      | inl empty ↦
          let t' = seeded db kdf settings salt now created t in
          rw (seed_empty db kdf settings salt now created t empty) (
            (seeded-IsValid db kdf settings salt now created t v, one),
            seed_full db kdf settings fresh later again t'
                (seeded_full db kdf settings salt now created t).1,
          )
      | inr (m, full) ↦
          rw (seed_full db kdf settings salt now created t full)
            ((v, one), seed_full db kdf settings fresh later again t full)
    ]
