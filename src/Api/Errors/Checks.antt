-- ===== src/Api/Errors/Checks.antt =====
-- The statuses that the checks before a service raise (app/core/deps.py, app/controllers).
use assignment_cloud_instanc.Prelude.{
  ℕ, ◌≡◌, true, not, none, List, [], ◌∷◌, Option-cases, inl, inr, ◌==◌, Bool-cases, some, map,
  arith, All,
}
use assignment_cloud_instanc.Models.{Member, Client, is_admin, Alert}
use assignment_cloud_instanc.Session.{Action, http, not_found, pure, raise_if, ◌>>=◌, Session}
use assignment_cloud_instanc.Session.Raises.{
  Raises, or_raise-Raises, raise_if-Raises, if-Raises, bind-Raises, rendered-Raises, RaisesAt,
}
use assignment_cloud_instanc.Access.{
  elem, get, forbidden_client, require_admin, assert_client_access, assert_client_id_access,
}
use assignment_cloud_instanc.Access.Scope.{allowed, assert_client_id_access_lem}
use assignment_cloud_instanc.Integrity.{client_id, instance_id, alert_id, Refers}
use assignment_cloud_instanc.Clients
use assignment_cloud_instanc.Clients.{
  ClientCreate, is_manager, not_a_manager, new_client, with_clients,
}
use assignment_cloud_instanc.Instances
use assignment_cloud_instanc.Instances.{InstanceCreate, InstanceStatusUpdate}
use assignment_cloud_instanc.Controllers.ClientRoutes.{visible_client}
use assignment_cloud_instanc.Controllers.InstanceRoutes.{visible_instance}
use mathlib.Core.Path.{subst}
use assignment_cloud_instanc.Controllers.AlertRoutes.{visible_alert}

module _ (statuses : List ℕ) where
  module _ (refuses : elem 403 statuses ≡ true) where
    pub require_admin-Raises : (member : Member) → Raises statuses (require_admin member)
    unfolding require_admin
    require_admin-Raises member =
        bind-Raises statuses
          (raise_if (not (is_admin member.role)) (http 403 "ADMIN role required" none))
          (λ _. pure member) (raise_if-Raises statuses _ _ refuses) (λ _ s. tt)

    pub assert_client_access-Raises :
        (member : Member) (c : Client) → Raises statuses (assert_client_access member c)
    unfolding assert_client_access
    assert_client_access-Raises member c =
        if-Raises statuses (is_admin member.role) (pure tt)
          (raise_if (not (c.manager_id == member.id)) forbidden_client) (λ s. tt)
          (raise_if-Raises statuses _ _ refuses)

    pub assert_client_id_access-Raises :
        (member : Member) (i : ℕ) → Raises statuses (assert_client_id_access member i)
    assert_client_id_access-Raises member i s =
        rw (assert_client_id_access_lem member i s)
          (elim (Bool-cases (allowed member s.clients i)) [
            | inl may ↦ rw may tt
            | inr refused ↦ rw refused refuses
          ])

  module _ (misses : elem 404 statuses ≡ true) where
    pub get_client-Raises : (i : ℕ) → Raises statuses (Clients.get_client i)
    unfolding Clients.get_client
    get_client-Raises i s =
        or_raise-Raises statuses (get client_id i s.clients) (not_found "Client" i) misses s

    pub get_instance-Raises : (i : ℕ) → Raises statuses (Instances.get_instance i)
    unfolding Instances.get_instance
    get_instance-Raises i s =
        or_raise-Raises statuses (get instance_id i s.instances) (not_found "Instance" i) misses s

    module _ (refuses : elem 403 statuses ≡ true) (member : Member) (i : ℕ) where
      pub visible_client-Raises : Raises statuses (visible_client member i)
      unfolding visible_client
      visible_client-Raises =
          bind-Raises statuses (Clients.get_client i)
            (λ c. assert_client_access member c >>= λ _. pure c) (get_client-Raises i)
            (λ c.
              bind-Raises statuses (assert_client_access member c) (λ _. pure c)
                (assert_client_access-Raises refuses member c) (λ _ s. tt))

      pub visible_instance-Raises : Raises statuses (visible_instance member i)
      unfolding visible_instance
      visible_instance-Raises =
          bind-Raises statuses (Instances.get_instance i)
            (λ x. assert_client_id_access member x.client_id >>= λ _. pure x)
            (get_instance-Raises i)
            (λ x.
              bind-Raises statuses (assert_client_id_access member x.client_id) (λ _. pure x)
                (assert_client_id_access-Raises refuses member x.client_id) (λ _ s. tt))

module _ {A : Type 0} (key : A → ℕ) where
  All_of_get :
      (P : A → Type 0) (i : ℕ) (xs : List A) (a : A) → get key i xs ≡ some a → All P xs → P a
  All_of_get P i [] a h all = absurd (ground arith)
  All_of_get P i (x ∷ xs) a h all = elim (Bool-cases (key x == i)) [
    | inl here ↦ let same : x ≡ a = ground (arith, h, here) in subst P same all.0
    | inr other ↦ All_of_get P i xs a (ground (arith, h, other)) all.1
  ]

  get_of_elem :
      (i : ℕ) (xs : List A) → elem i (map key xs) ≡ true → (a : A) × (get key i xs ≡ some a)
  get_of_elem i [] h = absurd (ground arith)
  get_of_elem i (x ∷ xs) h = elim (Bool-cases (key x == i)) [
    | inl here ↦ (x, ground (arith, here))
    | inr other ↦
        let rest = get_of_elem i xs (ground (arith, h, other)) in
        (rest.0, ground (arith, other, rest.1))
  ]

module _ (statuses : List ℕ) (refuses : elem 403 statuses ≡ true)
    (misses : elem 404 statuses ≡ true) (member : Member) (i : ℕ) where
  -- A service behind the check of a client, or of an instance.
  pub behind_client :
      {A B : Type 0} (m : Action A) (g : A → B)
      → Raises statuses m
      → Raises statuses (visible_client member i >>= λ _. m >>= λ a. pure (g a))
  behind_client m g h =
      bind-Raises statuses (visible_client member i) (λ _. m >>= λ a. pure (g a))
        (visible_client-Raises statuses misses refuses member i)
        (λ c. rendered-Raises statuses m g h)

  pub behind_instance :
      {A : Type 0} (m : Action A)
      → Raises statuses m
      → Raises statuses (visible_instance member i >>= λ _. m)
  behind_instance m h =
      bind-Raises statuses (visible_instance member i) (λ _. m)
        (visible_instance-Raises statuses misses refuses member i) (λ x. h)

  -- The alert of a row that refers to an instance.
  pub visible_alert-RaisesAt :
      (s : Session)
      → Refers (λ (a : Alert). a.instance_id) s.alerts instance_id s.instances
      → RaisesAt statuses s (visible_alert member i)
  unfolding visible_alert
  visible_alert-RaisesAt s refer = elim (Option-cases (get alert_id i s.alerts)) [
    | inl missing ↦ rw missing misses
    | inr (a, found) ↦
        let row = get_of_elem instance_id a.instance_id s.instances (
          All_of_get alert_id
            (λ (b : Alert). elem b.instance_id (map instance_id s.instances) ≡ true) i s.alerts a
            found refer) in
        rw (found, row.1)
          (bind-Raises statuses (assert_client_id_access member row.0.client_id) (λ _. pure a)
            (assert_client_id_access-Raises statuses refuses member row.0.client_id) (λ u s'. tt) _)
  ]
