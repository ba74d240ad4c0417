-- ===== src/Api/Errors/Services.antt =====
-- The statuses that the services (app/services) raise.
use assignment_cloud_instanc.Prelude.{
  ℕ, ◌≡◌, true, not, List, Option-cases, filter, inl, inr, if◌then◌else◌, ◌&&◌, Bool-cases,
}
use assignment_cloud_instanc.Models.{Client, Instance, running, status_eq}
use assignment_cloud_instanc.Config.{Settings}
use assignment_cloud_instanc.Session.{
  Action, active_instance, pure, raise, gets, modify, commit, ◌>>=◌, ◌>>◌,
}
use assignment_cloud_instanc.Session.Raises.{Raises, bind-Raises, rendered-Raises}
use assignment_cloud_instanc.Database.{Database}
use assignment_cloud_instanc.Access.{elem, get}
use assignment_cloud_instanc.Integrity.{client_id, instance_id, alert_id, member_id}
use assignment_cloud_instanc.Clients
use assignment_cloud_instanc.Clients.{
  ClientCreate, is_manager, not_a_manager, new_client, with_clients,
}
use assignment_cloud_instanc.Clients.Sla
use assignment_cloud_instanc.Instances
use assignment_cloud_instanc.Instances.{InstanceCreate, InstanceStatusUpdate}
use assignment_cloud_instanc.Alerts
use assignment_cloud_instanc.Pagination.{paginate}
use assignment_cloud_instanc.Database.Sorting.{by_id}
use assignment_cloud_instanc.Api.Errors.Checks.{get_client-Raises, get_instance-Raises}

module _ (statuses : List ℕ) (misses : elem 404 statuses ≡ true) where
  -- A service that needs the client, and then raises nothing.
  of_client :
      {A : Type 0} (i : ℕ) (f : Client → Action A)
      → ((c : Client) → Raises statuses (f c))
      → Raises statuses (Clients.get_client i >>= f)
  of_client i f h =
      bind-Raises statuses (Clients.get_client i) f (get_client-Raises statuses misses i) h

  pub get_client_instances-Raises :
      (db : Database) (i : ℕ) → Raises statuses (Clients.get_client_instances db i)
  unfolding Clients.get_client_instances
  get_client_instances-Raises db i =
      of_client i
        (λ _. gets (λ s.
          db.instance_rows.order_by (by_id instance_id) (filter (Clients.is_of i) s.instances)))
        (λ c s. tt)

  of_instances :
      {A : Type 0} (db : Database) (i : ℕ) (f : Client → List Instance → A)
      → Raises statuses
          (Clients.get_client i >>= λ c. Clients.get_client_instances db i >>= λ xs. pure (f c xs))
  of_instances db i f =
      of_client i (λ c. Clients.get_client_instances db i >>= λ xs. pure (f c xs))
        (λ c.
          rendered-Raises statuses (Clients.get_client_instances db i) (f c)
            (get_client_instances-Raises db i))

  pub list_client_instances-Raises :
      (db : Database) (i page size : ℕ)
      → Raises statuses (Clients.list_client_instances db i page size)
  unfolding Clients.list_client_instances
  list_client_instances-Raises db i page size =
      of_client i
        (λ _. gets (λ s.
          paginate db.instance_rows (by_id instance_id) (filter (Clients.is_of i) s.instances) page
            size))
        (λ c s. tt)

  pub get_client_cost-Raises :
      (db : Database) (now i : ℕ) → Raises statuses (Clients.get_client_cost db now i)
  unfolding Clients.get_client_cost
  get_client_cost-Raises db now i = of_instances db i (Clients.client_cost now)

  pub get_cost_forecast-Raises :
      (settings : Settings) (now i : ℕ) → Raises statuses (Clients.get_cost_forecast settings now i)
  unfolding Clients.get_cost_forecast
  get_cost_forecast-Raises settings now i =
      of_client i
        (λ c. gets (λ s. filter (Clients.runs_for i) s.instances) >>= λ rows.
          pure (Clients.forecast_of settings now c rows))
        (λ c s. tt)

  pub get_sla-Raises :
      (db : Database) (settings : Settings) (now i : ℕ)
      → Raises statuses (Sla.get_sla db settings now i)
  unfolding Sla.get_sla
  get_sla-Raises db settings now i = of_instances db i (Sla.sla_of settings now)

  pub create_client-Raises :
      (db : Database) (body : ClientCreate) (now : ℕ)
      → elem 400 statuses ≡ true
      → Raises statuses (Clients.create_client db body now)
  unfolding Clients.create_client
  create_client-Raises db body now invalid s =
      elim (Option-cases (get member_id body.manager_id s.members)) [
        | inl missing ↦ rw missing misses
        | inr (x, e) ↦ elim (Bool-cases (is_manager x.role)) [
          | inl manages ↦ rw (e, manages) tt
          | inr other ↦ rw (e, other) invalid
        ]
      ]

  pub create_instance-Raises :
      (db : Database) (settings : Settings) (body : InstanceCreate) (launched flushed : ℕ)
      → Raises statuses (Instances.create_instance db settings body launched flushed)
  unfolding Instances.create_instance
  create_instance-Raises db settings body launched flushed s =
      elim (Option-cases (get client_id body.client_id s.clients)) [
        | inl missing ↦ rw missing misses
        | inr (x, e) ↦ rw e tt
      ]

  pub update_status-Raises :
      (i : ℕ) (body : InstanceStatusUpdate) (now : ℕ)
      → Raises statuses (Instances.update_status i body now)
  unfolding Instances.update_status
  update_status-Raises i body now =
      bind-Raises statuses (Instances.get_instance i)
        (λ x.
          if not (not (status_eq x.status body.status))
            && not (Instances.cpu_changed x (Instances.next_cpu_usage body))
          then pure x
          else do
            modify (λ t.
                Instances.with_instances t
                  (Instances.replace i (Instances.updated body now) t.instances))
            commit
            pure (Instances.updated body now x))
        (get_instance-Raises statuses misses i)
        (λ x s.
          elim (Bool-cases (
            not (not (status_eq x.status body.status))
            && not (Instances.cpu_changed x (Instances.next_cpu_usage body)))) [
              | inl same ↦ rw same tt
              | inr other ↦ rw other tt
            ])

  pub delete_instance-Raises :
      (i : ℕ) → elem 409 statuses ≡ true → Raises statuses (Instances.delete_instance i)
  unfolding Instances.delete_instance
  delete_instance-Raises i conflicts =
      bind-Raises statuses (Instances.get_instance i)
        (λ x.
          if status_eq x.status running
          then raise (active_instance i)
          else do modify (Instances.remove_instance i); commit)
        (get_instance-Raises statuses misses i)
        (λ x s. elim (Bool-cases (status_eq x.status running)) [
          | inl runs ↦ rw runs conflicts
          | inr idle ↦ rw idle tt
        ])

  pub resolve_alert-Raises : (i now : ℕ) → Raises statuses (Alerts.resolve_alert i now)
  unfolding Alerts.resolve_alert
  resolve_alert-Raises i now s = elim (Option-cases (get alert_id i s.alerts)) [
    | inl missing ↦ rw missing misses
    | inr (x, e) ↦ elim (Bool-cases x.is_resolved) [
      | inl done ↦ rw (e, done) tt
      | inr opened ↦ rw (e, opened) tt
    ]
  ]
