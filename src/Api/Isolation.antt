-- ===== src/Api/Isolation.antt =====
-- What belongs to other managers, under the calls of a CLIENT_MANAGER (app/core/deps.py).
use mathlib.Core.Path.{subst}
use assignment_cloud_instanc.Prelude.{
  ℕ, ◌≡◌, refl, sym, ap, ◌∙◌, Bool, true, false, not, some, List, [], ◌∷◌, ◌++◌, map, filter, arith,
  ◌==◌, ==→eq, All, All-imp, Bool-cases, inl, inr, if◌then◌else◌,
}
use assignment_cloud_instanc.Models.{Member, Instance, Alert, Tables, is_admin}
use assignment_cloud_instanc.Database.{Database}
use assignment_cloud_instanc.Access.{get}
use assignment_cloud_instanc.Access.Scope.{allowed}
use assignment_cloud_instanc.Integrity.{IsValid, member_id, instance_id, alert_id}
use assignment_cloud_instanc.Integrity.Keys.{any_of_get, only_row}
use assignment_cloud_instanc.Instances.{updated}
use assignment_cloud_instanc.Instances.Delete.{created}
use assignment_cloud_instanc.Alerts.{resolved}
use assignment_cloud_instanc.Monitor.{Detection, new_alert}
use assignment_cloud_instanc.Monitor.Dedup.{record_each, has_open}
use assignment_cloud_instanc.Config.{Settings}
use assignment_cloud_instanc.Session.{ok}
use assignment_cloud_instanc.Revocation.{Claims, Decoded, get_token_claims}
use assignment_cloud_instanc.Api.{Call, Moment, World, handle}
use assignment_cloud_instanc.Api.Refines.{handle-HandledBy}
use assignment_cloud_instanc.Api.Changes.{
  Change, unchanged, client_registered, instance_registered, status_updated, instance_deleted,
  alert_resolved, alerts_recorded, visible,
}

module _ {A : Type 0} (p : A → Bool) where
  filter-snoc : (xs : List A) (a : A) → p a ≡ false → filter p (xs ++ a ∷ []) ≡ filter p xs
  filter-snoc [] a h = ground (arith, h)
  filter-snoc (x ∷ xs) a h = ground (arith, filter-snoc xs a h)

  filter-changed :
      (q : A → Bool) (change : A → A) (xs : List A)
      → All (λ x. q x ≡ true → (p x ≡ false) × (p (change x) ≡ false)) xs
      → filter p (map (λ x. if q x then change x else x) xs) ≡ filter p xs
  filter-changed q change [] h = refl
  filter-changed q change (x ∷ xs) h = elim (Bool-cases (q x)) [
    | inl hit ↦ rw hit (ground (arith, h.0 hit, filter-changed q change xs h.1))
    | inr miss ↦ rw miss (ground (arith, filter-changed q change xs h.1))
  ]

  filter-removed :
      (q : A → Bool) (xs : List A)
      → All (λ x. q x ≡ true → p x ≡ false) xs
      → filter p (filter (λ x. not (q x)) xs) ≡ filter p xs
  filter-removed q [] h = refl
  filter-removed q (x ∷ xs) h = elim (Bool-cases (q x)) [
    | inl hit ↦ ground (arith, hit, h.0 hit, filter-removed q xs h.1)
    | inr miss ↦ ground (arith, miss, filter-removed q xs h.1)
  ]

module _ {A : Type 0} {P : A → Type 0} where
  every_row : ((x : A) → P x) → (xs : List A) → All P xs
  every_row h [] = tt
  every_row h (x ∷ xs) = (h x, every_row h xs)

module _ (db : Database) (member : Member) (t : Tables) where
  -- Not the member's to see, as the tables stand before the request.
  abbrev pub foreign_instance : Instance → Bool
  foreign_instance x = not (allowed member t.clients x.client_id)

  abbrev pub foreign_alert : Alert → Bool
  foreign_alert a = not (visible member t.clients t.instances a.instance_id)

  pub record Isolated (t' : Tables) : Type 0 where
    pub members_kept : t'.members ≡ t.members
    pub clients_kept : t'.clients ≡ t.clients
    pub instances_kept : filter foreign_instance t'.instances ≡ filter foreign_instance t.instances
    pub alerts_kept : filter foreign_alert t'.alerts ≡ filter foreign_alert t.alerts

  recorded-kept :
      (d : Detection) (found : List Instance) (alerts : List Alert)
      → All (λ (x : Instance). visible member t.clients t.instances x.id ≡ true) found
      → filter foreign_alert (record_each db d found alerts) ≡ filter foreign_alert alerts
  recorded-kept d [] alerts h = refl
  recorded-kept d (x ∷ found) alerts h = elim (Bool-cases (has_open d.alert_type x.id alerts)) [
    | inl old ↦ rw old (recorded-kept d found alerts h.1)
    | inr fresh ↦ rw fresh (
        recorded-kept d found (alerts ++ new_alert db d x alerts ∷ []) h.1
        ∙ filter-snoc foreign_alert alerts (new_alert db d x alerts) (rw h.0 refl))
  ]

  module _ (i : ℕ) (x : Instance) (valid : IsValid t) (h : get instance_id i t.instances ≡ some x)
      (mine : allowed member t.clients x.client_id ≡ true) where
    -- The rows of the id are the member's.
    own_rows : All (λ (y : Instance). (y.id == i) ≡ true → foreign_instance y ≡ false) t.instances
    own_rows =
        All-imp _ _ t.instances (λ y same here. rw (same here) (rw mine refl))
          (only_row instance_id i t.instances x valid.instances_distinct h)

    own_alert : (a : Alert) → (a.instance_id == i) ≡ true → foreign_alert a ≡ false
    own_alert a here =
        let seen =
          any_of_get instance_id (λ (y : Instance). allowed member t.clients y.client_id) i
            t.instances x h mine in
        rw (==→eq a.instance_id i here) (rw seen refl)

  pub Change-Isolated :
      {t' : Tables} → is_admin member.role ≡ false → IsValid t → Change db member t t' → Isolated t'
  Change-Isolated manager valid unchanged = record {
    members_kept = refl;
    clients_kept = refl;
    instances_kept = refl;
    alerts_kept = refl;
  }
  Change-Isolated manager valid (client_registered body now m admin found manages) =
      absurd (ground (arith, manager, admin))
  Change-Isolated manager valid (instance_registered settings body launched flushed c found mine) =
      record {
        members_kept = refl;
        clients_kept = refl;
        instances_kept =
            filter-snoc foreign_instance t.instances (created db settings body launched flushed t)
              (rw mine refl);
        alerts_kept = refl;
      }
  Change-Isolated manager valid (status_updated i body now x h mine) = record {
    members_kept = refl;
    clients_kept = refl;
    instances_kept =
        filter-changed foreign_instance (λ (y : Instance). y.id == i) (updated body now) t.instances
          (All-imp _ _ t.instances (λ y own here. (own here, own here))
            (own_rows i x valid h mine));
    alerts_kept = refl;
  }
  Change-Isolated manager valid (instance_deleted i x h mine idle) = record {
    members_kept = refl;
    clients_kept = refl;
    instances_kept =
        filter-removed foreign_instance (λ (y : Instance). y.id == i) t.instances
          (own_rows i x valid h mine);
    alerts_kept =
        filter-removed foreign_alert (λ (a : Alert). a.instance_id == i) t.alerts
          (every_row (own_alert i x valid h mine) t.alerts);
  }
  Change-Isolated manager valid (alert_resolved i now a h mine opened) = record {
    members_kept = refl;
    clients_kept = refl;
    instances_kept = refl;
    alerts_kept =
        filter-changed foreign_alert (λ (b : Alert). b.id == i) (resolved now) t.alerts
          (All-imp _ _ t.alerts
            (λ b same here. (rw (same here) (rw mine refl), rw (same here) (rw mine refl)))
            (only_row alert_id i t.alerts a valid.alerts_distinct h));
  }
  Change-Isolated manager valid (alerts_recorded d found mine) = record {
    members_kept = refl;
    clients_kept = refl;
    instances_kept = refl;
    alerts_kept = recorded-kept d found t.alerts mine;
  }

same_ok {ℓ} : {A : Type ℓ} {a b : A} → ok a ≡ ok b → a ≡ b
same_ok h = ground (arith, h)

same_some {ℓ} : {A : Type ℓ} {a b : A} → some a ≡ some b → a ≡ b
same_some h = ground (arith, h)

module _ (db : Database) (settings : Settings) (m : Moment) where
  -- On tables with sound keys, a call whose token is admitted and names a CLIENT_MANAGER keeps
  -- all members and clients, every instance of a client that is not assigned to them, and every
  -- alert of such an instance, in order.
  pub handle-Isolated :
      (c : Call) (credentials : Decoded) (w : World) (claims : Claims) (member : Member)
      → (get_token_claims credentials m.store_now w.store).0 ≡ ok claims
      → get member_id claims.sub w.tables.members ≡ some member
      → is_admin member.role ≡ false
      → IsValid w.tables
      → Isolated db member w.tables (handle db settings m c credentials w).1.tables
  handle-Isolated c credentials w claims member admitted found manager valid =
      elim (handle-HandledBy db settings m c credentials w valid) [
        | inl same ↦ subst (Isolated db member w.tables) (sym same) kept
        | inr (claims', admitted', inl same) ↦ subst (Isolated db member w.tables) (sym same) kept
        | inr (claims', admitted', inr (member', found', change)) ↦
            let one : claims ≡ claims' = same_ok (sym admitted ∙ admitted') in
            let who : member ≡ member' = same_some (
              sym found ∙ ap (λ (k : Claims). get member_id k.sub w.tables.members) one ∙ found') in
            Change-Isolated db member w.tables manager valid (
              subst (λ x. Change db x w.tables (handle db settings m c credentials w).1.tables)
                (sym who) change)
      ]
    where
      kept : Isolated db member w.tables w.tables
      kept = Change-Isolated db member w.tables manager valid unchanged
