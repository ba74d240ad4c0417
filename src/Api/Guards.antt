-- ===== src/Api/Guards.antt =====
-- The checks that the handlers of app/controllers make before they call a service.
use assignment_cloud_instanc.Prelude.{
  ℕ, ◌≡◌, refl, ap, ◌∙◌, sym, true, ◌||◌, ◌==◌, Option, some, arith, Bool-cases, inl, inr,
}
use assignment_cloud_instanc.Models.{Member, Client, Instance, Alert, is_admin}
use assignment_cloud_instanc.Session.{Session, ok, Action, or_raise, pure, gets, ◌>>=◌, ◌>>◌}
use assignment_cloud_instanc.Session.Reads.{
  ReadOnly, or_raise-ReadOnly, or_raise_returned, bind-ReadOnly, bind_returned,
}
use assignment_cloud_instanc.Access.{
  get, get_current_member, require_admin, assert_client_access, assert_client_id_access,
}
use assignment_cloud_instanc.Access.Scope.{
  allowed, allowed_of_get, assert_client_access_lem, assert_client_id_access_lem,
}
use assignment_cloud_instanc.Integrity.{client_id, instance_id, alert_id, member_id}
use assignment_cloud_instanc.Integrity.Keys.{any_of_get}
use assignment_cloud_instanc.Clients
use assignment_cloud_instanc.Instances
use assignment_cloud_instanc.Controllers.ClientRoutes.{visible_client}
use assignment_cloud_instanc.Controllers.InstanceRoutes.{visible_instance}
use assignment_cloud_instanc.Controllers.AlertRoutes.{alert_not_found, no_instance, visible_alert}
use assignment_cloud_instanc.Api.Changes.{visible}

pub get_current_member-ReadOnly : (sub : ℕ) → ReadOnly (get_current_member sub)
unfolding get_current_member
get_current_member-ReadOnly sub s = or_raise-ReadOnly (get member_id sub s.members) _ s

pub require_admin-ReadOnly : (member : Member) → ReadOnly (require_admin member)
unfolding require_admin
require_admin-ReadOnly member s = ground arith

pub assert_client_access-ReadOnly :
    (member : Member) (c : Client) → ReadOnly (assert_client_access member c)
assert_client_access-ReadOnly member c s = ap (λ out. out.1) (assert_client_access_lem member c s)

pub assert_client_id_access-ReadOnly :
    (member : Member) (i : ℕ) → ReadOnly (assert_client_id_access member i)
assert_client_id_access-ReadOnly member i s =
    ap (λ out. out.1) (assert_client_id_access_lem member i s)

pub get_client-ReadOnly : (i : ℕ) → ReadOnly (Clients.get_client i)
unfolding Clients.get_client
get_client-ReadOnly i s = or_raise-ReadOnly (get client_id i s.clients) _ s

pub get_instance-ReadOnly : (i : ℕ) → ReadOnly (Instances.get_instance i)
unfolding Instances.get_instance
get_instance-ReadOnly i s = or_raise-ReadOnly (get instance_id i s.instances) _ s

pub get_current_member_found :
    (sub : ℕ) (s : Session) {member : Member}
    → (get_current_member sub s).0 ≡ ok member
    → get member_id sub s.members ≡ some member
unfolding get_current_member
get_current_member_found sub s h = or_raise_returned (get member_id sub s.members) _ s h

pub get_client_found :
    (i : ℕ) (s : Session) {c : Client}
    → (Clients.get_client i s).0 ≡ ok c
    → get client_id i s.clients ≡ some c
unfolding Clients.get_client
get_client_found i s h = or_raise_returned (get client_id i s.clients) _ s h

get_instance_found :
    (i : ℕ) (s : Session) {x : Instance}
    → (Instances.get_instance i s).0 ≡ ok x
    → get instance_id i s.instances ≡ some x
unfolding Instances.get_instance
get_instance_found i s h = or_raise_returned (get instance_id i s.instances) _ s h

module _ (member : Member) (s : Session) where
  assert_client_access_passed :
      (c : Client) {u : Unit {0}}
      → (assert_client_access member c s).0 ≡ ok u
      → (is_admin member.role || c.manager_id == member.id) ≡ true
  assert_client_access_passed c h =
      elim (Bool-cases (is_admin member.role || c.manager_id == member.id)) [
        | inl may ↦ may
        | inr refused ↦
            absurd
              (ground (arith, refused, ap (λ out. out.0) (assert_client_access_lem member c s), h))
      ]

  assert_client_id_access_passed :
      (i : ℕ) {u : Unit {0}}
      → (assert_client_id_access member i s).0 ≡ ok u
      → allowed member s.clients i ≡ true
  assert_client_id_access_passed i h = elim (Bool-cases (allowed member s.clients i)) [
    | inl may ↦ may
    | inr refused ↦
        absurd
          (ground (arith, refused, ap (λ out. out.0) (assert_client_id_access_lem member i s), h))
  ]

-- The rest of a check once its row is loaded.
abbrev then_client : Member → Client → Action Client
then_client member c = do assert_client_access member c; pure c

abbrev then_instance : Member → Instance → Action Instance
then_instance member x = do assert_client_id_access member x.client_id; pure x

module _ (member : Member) (i : ℕ) where
  then_client-ReadOnly : (c : Client) → ReadOnly (then_client member c)
  then_client-ReadOnly c =
      bind-ReadOnly (assert_client_access member c) (λ _. pure c)
        (assert_client_access-ReadOnly member c) (λ _ s. refl)

  then_instance-ReadOnly : (x : Instance) → ReadOnly (then_instance member x)
  then_instance-ReadOnly x =
      bind-ReadOnly (assert_client_id_access member x.client_id) (λ _. pure x)
        (assert_client_id_access-ReadOnly member x.client_id) (λ _ s. refl)

  pub visible_client-ReadOnly : ReadOnly (visible_client member i)
  unfolding visible_client
  visible_client-ReadOnly =
      bind-ReadOnly (Clients.get_client i) (then_client member) (get_client-ReadOnly i)
        then_client-ReadOnly

  pub visible_instance-ReadOnly : ReadOnly (visible_instance member i)
  unfolding visible_instance
  visible_instance-ReadOnly =
      bind-ReadOnly (Instances.get_instance i) (then_instance member) (get_instance-ReadOnly i)
        then_instance-ReadOnly

  -- What `visible_instance` returns is the row of the id, of a client that the member may see.
  pub visible_instance-allowed :
      (s : Session) {x : Instance}
      → (visible_instance member i s).0 ≡ ok x
      → (get instance_id i s.instances ≡ some x) × (allowed member s.clients x.client_id ≡ true)
  unfolding visible_instance
  visible_instance-allowed s {x} h =
      let loaded =
        bind_returned (Instances.get_instance i) (then_instance member) (get_instance-ReadOnly i) s
          h in
      let passed =
        bind_returned (assert_client_id_access member loaded.0.client_id) (λ _. pure loaded.0)
          (assert_client_id_access-ReadOnly member loaded.0.client_id) s loaded.2 in
      let same : loaded.0 ≡ x = ground (arith, passed.2) in
      let may : allowed member s.clients loaded.0.client_id ≡ true =
        assert_client_id_access_passed member s loaded.0.client_id passed.1 in
      (
        get_instance_found i s loaded.1 ∙ ap some same,
        ap (λ (y : Instance). allowed member s.clients y.client_id) (sym same) ∙ may,
      )

-- What the check of the client before a registration lets through.
pub assert_client_access-allowed :
    (member : Member) (i : ℕ) (c : Client) (s : Session) {u : Unit {0}}
    → get client_id i s.clients ≡ some c
    → (assert_client_access member c s).0 ≡ ok u
    → allowed member s.clients i ≡ true
assert_client_access-allowed member i c s found h =
    allowed_of_get member i s.clients c found (assert_client_access_passed member s c h)

-- The steps of `visible_alert` after the alert is loaded, and after its instance is.
abbrev then_joined : Member → Alert → Instance → Action Alert
then_joined member a x = do assert_client_id_access member x.client_id; pure a

abbrev then_alert : Member → Alert → Action Alert
then_alert member a = do
  joined ← gets (λ s. get instance_id a.instance_id s.instances)
  x ← or_raise joined no_instance
  then_joined member a x

abbrev alert_of : ℕ → Option Alert → Action Alert
alert_of i found = or_raise found (alert_not_found i)

module _ (member : Member) where
  then_joined-ReadOnly : (a : Alert) (x : Instance) → ReadOnly (then_joined member a x)
  then_joined-ReadOnly a x =
      bind-ReadOnly (assert_client_id_access member x.client_id) (λ _. pure a)
        (assert_client_id_access-ReadOnly member x.client_id) (λ _ s. refl)

  then_alert-ReadOnly : (a : Alert) → ReadOnly (then_alert member a)
  then_alert-ReadOnly a s =
      bind-ReadOnly (or_raise (get instance_id a.instance_id s.instances) no_instance)
        (then_joined member a)
        (or_raise-ReadOnly (get instance_id a.instance_id s.instances) no_instance)
        (then_joined-ReadOnly a) s

  pub visible_alert-ReadOnly : (i : ℕ) → ReadOnly (visible_alert member i)
  unfolding visible_alert
  visible_alert-ReadOnly i s =
      bind-ReadOnly (alert_of i (get alert_id i s.alerts)) (then_alert member)
        (or_raise-ReadOnly (get alert_id i s.alerts) (alert_not_found i)) then_alert-ReadOnly s

  -- What `visible_alert` returns is the alert of the id, of an instance that the member may see.
  pub visible_alert-allowed :
      (i : ℕ) (s : Session) {a : Alert}
      → (visible_alert member i s).0 ≡ ok a
      → (get alert_id i s.alerts ≡ some a)
        × (visible member s.clients s.instances a.instance_id ≡ true)
  unfolding visible_alert
  visible_alert-allowed i s {a} h =
      let loaded =
        bind_returned (alert_of i (get alert_id i s.alerts)) (then_alert member)
          (or_raise-ReadOnly (get alert_id i s.alerts) (alert_not_found i)) s h in
      let b = loaded.0 in
      let row = get instance_id b.instance_id s.instances in
      let joined =
        bind_returned (or_raise row no_instance) (then_joined member b)
          (or_raise-ReadOnly row no_instance) s loaded.2 in
      let passed =
        bind_returned (assert_client_id_access member joined.0.client_id) (λ _. pure b)
          (assert_client_id_access-ReadOnly member joined.0.client_id) s joined.2 in
      let same : b ≡ a = ground (arith, passed.2) in
      let seen : visible member s.clients s.instances b.instance_id ≡ true =
        any_of_get instance_id (λ x. allowed member s.clients x.client_id) b.instance_id s.instances
          joined.0 (or_raise_returned row no_instance s joined.1)
          (assert_client_id_access_passed member s joined.0.client_id passed.1) in
      (
        or_raise_returned (get alert_id i s.alerts) (alert_not_found i) s loaded.1 ∙ ap some same,
        ap (λ (c : Alert). visible member s.clients s.instances c.instance_id) (sym same) ∙ seen,
      )
