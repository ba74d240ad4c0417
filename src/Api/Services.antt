-- ===== src/Api/Services.antt =====
-- The services that write (app/services), as changes of `Api.Changes`.
use mathlib.Core.Path.{subst}
use mathlib.Core.Bool.{Bool-set}
use assignment_cloud_instanc.Prelude.{
  ℕ, ◌≡◌, sym, ap, Bool, true, some, List, [], ◌∷◌, filter, ==_self, arith, All, All-imp,
  Bool-cases, Option-cases, inl, inr,
}
use assignment_cloud_instanc.Models.{Member, Instance, Alert, Tables, is_admin, running, status_eq}
use assignment_cloud_instanc.Session.{Result, Action, request}
use assignment_cloud_instanc.Database.{Database}
use assignment_cloud_instanc.Access.{get}
use assignment_cloud_instanc.Access.Scope.{allowed}
use assignment_cloud_instanc.Integrity.{IsValid, member_id, instance_id, alert_id}
use assignment_cloud_instanc.Clients
use assignment_cloud_instanc.Clients.{ClientCreate, is_manager}
use assignment_cloud_instanc.Clients.Create.{
  create_client_missing, create_client_refused, create_client_found,
}
use assignment_cloud_instanc.Instances
use assignment_cloud_instanc.Instances.{InstanceCreate, InstanceStatusUpdate}
use assignment_cloud_instanc.Instances.Delete.{delete_running, delete_stopped}
use assignment_cloud_instanc.Instances.Update.{is_same, update_same, update_changes}
use assignment_cloud_instanc.Alerts
use assignment_cloud_instanc.Alerts.Resolve.{resolve_resolved, resolve_open}
use assignment_cloud_instanc.Monitor.{Detection, scan}
use assignment_cloud_instanc.Monitor.Effects.{after_scan-eq, All-matches}
use assignment_cloud_instanc.Monitor.Scan.{found}
use assignment_cloud_instanc.Api.Changes.{
  Change, unchanged, client_registered, status_updated, instance_deleted, alert_resolved,
  alerts_recorded, visible,
}

-- Each service that writes makes at most one change, where its row is the member's to see.
module _ (db : Database) (member : Member) (t : Tables) where
  abbrev pub Changes : {A : Type 0} → Action A → Type 0
  Changes m = Change db member t (request m t).1

  -- The rows that a change leads to, found by an equation.
  pub becomes :
      {A : Type 0} {out : Result A × Tables} {r : Result A} {t' : Tables}
      → out ≡ (r, t')
      → Change db member t t'
      → Change db member t out.1
  becomes e c = subst (Change db member t) (sym (ap (λ out. out.1) e)) c

  pub create_client-Changes :
      (body : ClientCreate) (now : ℕ)
      → is_admin member.role ≡ true
      → Changes (Clients.create_client db body now)
  create_client-Changes body now admin =
      elim (Option-cases (get member_id body.manager_id t.members)) [
        | inl missing ↦ becomes (create_client_missing db body now t missing) unchanged
        | inr (m, e) ↦ elim (Bool-cases (is_manager m.role)) [
          | inl manages ↦
              becomes (create_client_found db body now t e manages)
                (client_registered body now m admin e manages)
          | inr other ↦ becomes (create_client_refused db body now t e other) unchanged
        ]
      ]

  pub update_status-Changes :
      (i : ℕ) (body : InstanceStatusUpdate) (now : ℕ) (x : Instance)
      → get instance_id i t.instances ≡ some x
      → allowed member t.clients x.client_id ≡ true
      → Changes (Instances.update_status i body now)
  update_status-Changes i body now x h mine = elim (Bool-cases (is_same body x)) [
    | inl same ↦ becomes (update_same i body now t h same) unchanged
    | inr other ↦ becomes (update_changes i body now t h other) (status_updated i body now x h mine)
  ]

  pub delete_instance-Changes :
      (i : ℕ) (x : Instance)
      → get instance_id i t.instances ≡ some x
      → allowed member t.clients x.client_id ≡ true
      → Changes (Instances.delete_instance i)
  delete_instance-Changes i x h mine = elim (Bool-cases (status_eq x.status running)) [
    | inl runs ↦ becomes (delete_running i t h runs) unchanged
    | inr idle ↦ becomes (delete_stopped i t h idle) (instance_deleted i x h mine idle)
  ]

  pub resolve_alert-Changes :
      (i now : ℕ) (a : Alert)
      → get alert_id i t.alerts ≡ some a
      → visible member t.clients t.instances a.instance_id ≡ true
      → Changes (Alerts.resolve_alert i now)
  resolve_alert-Changes i now a h mine = elim (Bool-cases a.is_resolved) [
    | inl done ↦ becomes (resolve_resolved i now t h done) unchanged
    | inr opened ↦ becomes (resolve_open i now t h opened) (alert_resolved i now a h mine opened)
  ]

  visible-filter :
      (q : Instance → Bool)
      → ((x : Instance) → q x ≡ true → allowed member t.clients x.client_id ≡ true)
      → (xs : List Instance)
      → All (λ (x : Instance). visible member t.clients xs x.id ≡ true) (filter q xs)
  visible-filter q h [] = tt
  visible-filter q h (x ∷ xs) =
      let rest : All (λ (y : Instance). visible member t.clients (x ∷ xs) y.id ≡ true)
          (filter q xs) =
        All-imp _ _ (filter q xs) (λ y seen. ground (arith, seen)) (visible-filter q h xs) in
      elim (Bool-cases (q x)) [
        | inl hit ↦ rw hit (ground (arith, ==_self x.id, h x hit), rest)
        | inr miss ↦ rw miss rest
      ]

  -- A scan whose detection is restricted to the member's scope.
  pub scan-Changes :
      (d : Detection) (page size : ℕ)
      → IsValid t
      → ((x : Instance) → d.query t.clients x ≡ true → allowed member t.clients x.client_id ≡ true)
      → Changes (scan db d page size)
  scan-Changes d page size valid scoped =
      subst (Change db member t) (sym (after_scan-eq db d page size t valid)) (
        alerts_recorded d (found db d page size t valid) (
          All-matches db d page size t valid (λ x. visible member t.clients t.instances x.id ≡ true)
            (λ x. Bool-set _ _) (visible-filter (d.query t.clients) scoped t.instances)))
