-- ===== src/Clients/Create.antt =====
-- `create_client`: who may manage a client, and what a creation leaves.
use assignment_cloud_instanc.Prelude.{
  ℕ, ◌≡◌, refl, ◌∙◌, Bool, true, false, none, some, List, [], ◌∷◌, ◌++◌, map, arith, any, ==_self,
  Bool-cases, Option-cases, inl, inr,
}
use assignment_cloud_instanc.Models.{Client, CostSnapshot, Instance, Member, Tables}
use assignment_cloud_instanc.Session.{ok, err, not_found, validation, request}
use assignment_cloud_instanc.Database.{Database}
use assignment_cloud_instanc.Access.{elem, get, in_scope, accessible_client_ids}
use assignment_cloud_instanc.Access.Scope.{assigned, in_scope-accessible}
use assignment_cloud_instanc.Integrity.{IsValid, client_id, member_id}
use assignment_cloud_instanc.Integrity.Keys.{
  All-snoc, Distinct-snoc, fresh_rows, elem_of_get, Refers-grown,
}
use assignment_cloud_instanc.Clients.{
  ClientCreate, is_manager, not_a_manager, with_clients, new_client, create_client,
}

any-snoc :
    {A : Type 0} (p : A → Bool) (xs : List A) (a : A) → p a ≡ true → any p (xs ++ a ∷ []) ≡ true
any-snoc p [] a h = ground arith
any-snoc p (x ∷ xs) a h = ground (arith, any-snoc p xs a h)

module _ (db : Database) (body : ClientCreate) (now : ℕ) (t : Tables) where
  -- The row that a creation makes.
  abbrev pub made : Client
  made = new_client db body now t.clients

  pub create_client_missing :
      get member_id body.manager_id t.members ≡ none
      → request (create_client db body now) t
        ≡ (err (not_found "Member (manager)" body.manager_id), t)
  unfolding create_client request
  create_client_missing h = ground arith

  pub create_client_refused :
      {m : Member}
      → get member_id body.manager_id t.members ≡ some m
      → is_manager m.role ≡ false
      → request (create_client db body now) t
        ≡ (err (validation (not_a_manager body.manager_id m.role)), t)
  unfolding create_client request
  create_client_refused h e = ground arith

  pub create_client_found :
      {m : Member}
      → get member_id body.manager_id t.members ≡ some m
      → is_manager m.role ≡ true
      → request (create_client db body now) t ≡ (ok made, with_clients t (t.clients ++ made ∷ []))
  unfolding create_client request
  create_client_found h e = ground arith

  pub made-IsValid :
      {m : Member}
      → get member_id body.manager_id t.members ≡ some m
      → IsValid t
      → IsValid (with_clients t (t.clients ++ made ∷ []))
  made-IsValid {m} h v = record {
    members_distinct = v.members_distinct;
    clients_distinct = Distinct-snoc client_id t.clients made v.clients_distinct (
        fresh_rows client_id (client_id made) t.clients
          (db.next_id_fresh (map client_id t.clients)));
    instances_distinct = v.instances_distinct;
    instances_pos = v.instances_pos;
    alerts_distinct = v.alerts_distinct;
    clients_refer =
        All-snoc (λ (c : Client). elem c.manager_id (map member_id t.members) ≡ true) t.clients made
          v.clients_refer (elem_of_get member_id body.manager_id t.members m h);
    instances_refer =
        Refers-grown (λ (i : Instance). i.client_id) client_id t.instances t.clients made
          v.instances_refer;
    alerts_refer = v.alerts_refer;
    snapshots_distinct = v.snapshots_distinct;
    snapshots_refer =
        Refers-grown (λ (s : CostSnapshot). s.client_id) client_id t.cost_snapshots t.clients made
          v.snapshots_refer;
  }

  -- Whatever it answers, `create_client` leaves tables with sound keys so: the new client has
  -- an id of its own and a manager that exists.
  pub create_client-IsValid : IsValid t → IsValid (request (create_client db body now) t).1
  create_client-IsValid v = elim (Option-cases (get member_id body.manager_id t.members)) [
    | inl missing ↦ rw (create_client_missing missing) v
    | inr (m, e) ↦ elim (Bool-cases (is_manager m.role)) [
      | inl manages ↦ rw (create_client_found e manages) (made-IsValid e v)
      | inr other ↦ rw (create_client_refused e other) v
    ]
  ]

  -- If the member that the request names as manager is found, by its own id, and is a
  -- CLIENT_MANAGER, `create_client` answers the new client, which is then in the scope of that
  -- member.
  pub create_client_scoped :
      {m : Member}
      → get member_id body.manager_id t.members ≡ some m
      → m.id ≡ body.manager_id
      → is_manager m.role ≡ true
      → let out = request (create_client db body now) t in
        (out.0 ≡ ok made)
        × (in_scope (accessible_client_ids m) out.1.clients (client_id made) ≡ true)
  create_client_scoped {m} h same manages =
      let mine : assigned m (client_id made) made ≡ true = rw (same, ==_self, ==_self) refl in
      rw (create_client_found h manages) (
        refl,
        in_scope-accessible m (client_id made) (t.clients ++ made ∷ [])
            ∙ ground (arith, any-snoc (assigned m (client_id made)) t.clients made mine),
      )
