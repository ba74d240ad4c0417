-- ===== src/Access/Scope.antt =====
-- The two forms of the scope rule, and what a manager's scope is.
use assignment_cloud_instanc.Prelude.{
  ℕ, if◌then◌else◌, ◌≡◌, ◌≢◌, ap, refl, Bool, true, false, ◌&&◌, ◌||◌, some, List, [], ◌∷◌, arith,
  map, filter, any, ◌==◌, All, Bool-cases, inl, inr,
}
use assignment_cloud_instanc.Models.{Member, Client, Distinct, is_admin}
use assignment_cloud_instanc.Session.{Session, ok, err}
use assignment_cloud_instanc.Access.{
  get, elem, in_scope, accessible_client_ids, assert_client_access, assert_client_id_access,
  forbidden_client,
}
use assignment_cloud_instanc.Integrity.{client_id}
use assignment_cloud_instanc.Integrity.Keys.{any_of_get}

-- The client `i` is assigned to the member.
abbrev pub assigned : Member → ℕ → Client → Bool
assigned member i c = c.id == i && c.manager_id == member.id

-- The member may see the client of this id.
abbrev pub allowed : Member → List Client → ℕ → Bool
allowed member clients i = is_admin member.role || any (assigned member i) clients

elem-scope :
    (member : Member) (i : ℕ) (clients : List Client)
    → elem i (map client_id (filter (λ c. c.manager_id == member.id) clients))
      ≡ any (assigned member i) clients
elem-scope member i [] = refl
elem-scope member i (c ∷ clients) = ground (arith, elem-scope member i clients)

-- The scope of a member lets a client id through exactly if the member is an ADMIN or a client
-- of that id is assigned to the member.
pub in_scope-accessible :
    (member : Member) (i : ℕ) (clients : List Client)
    → in_scope (accessible_client_ids member) clients i
      ≡ (is_admin member.role || any (assigned member i) clients)
unfolding accessible_client_ids
in_scope-accessible member i clients = elim (Bool-cases (is_admin member.role)) [
  | inl admin ↦ rw admin refl
  | inr manager ↦ rw manager (elem-scope member i clients)
]

none_other :
    (member : Member) (i : ℕ) (x : Client) (clients : List Client)
    → (client_id x == i) ≡ true
    → All (λ c. client_id x ≢ client_id c) clients
    → any (assigned member i) clients ≡ false
none_other member i x [] e h = refl
none_other member i x (c ∷ clients) e h =
    ground (arith, e, h.0, none_other member i x clients e h.1)

any-assigned :
    (member : Member) (i : ℕ) (c : Client) (clients : List Client)
    → Distinct client_id clients
    → get client_id i clients ≡ some c
    → any (assigned member i) clients ≡ (c.manager_id == member.id)
any-assigned member i c [] d h = absurd (ground arith)
any-assigned member i c (x ∷ clients) d h = elim (Bool-cases (client_id x == i)) [
  | inl here ↦
      let same : x ≡ c = ground (arith, h, here) in
      let manager : x.manager_id ≡ c.manager_id = ap (λ k. k.manager_id) same in
      let rest : any (assigned member i) clients ≡ false = none_other member i x clients here d.0 in
      rw rest (ground (arith, here, manager))
  | inr other ↦ ground (arith, any-assigned member i c clients d.1 (ground arith))
]

-- For a client that the session finds under its id, client ids being unique, the check by id
-- answers as the check of the loaded client does, and both leave the session as it was.
pub assert_client_id_access-eq :
    (member : Member) (i : ℕ) (c : Client) (s : Session)
    → Distinct client_id s.clients
    → get client_id i s.clients ≡ some c
    → assert_client_id_access member i s ≡ assert_client_access member c s
unfolding assert_client_id_access accessible_client_ids assert_client_access
assert_client_id_access-eq member i c s d h = elim (Bool-cases (is_admin member.role)) [
  | inl admin ↦ rw admin refl
  | inr manager ↦
      rw (manager, elem-scope member i s.clients, any-assigned member i c s.clients d h) refl
]

-- The check by id, on both branches.
pub assert_client_id_access_lem :
    (member : Member) (i : ℕ) (s : Session)
    → assert_client_id_access member i s
      ≡ (if allowed member s.clients i then ok tt else err forbidden_client, s)
unfolding assert_client_id_access accessible_client_ids
assert_client_id_access_lem member i s = elim (Bool-cases (is_admin member.role)) [
  | inl admin ↦ rw admin refl
  | inr manager ↦ rw (manager, elem-scope member i s.clients) (ground arith)
]

-- The check of the loaded client, on both branches.
pub assert_client_access_lem :
    (member : Member) (c : Client) (s : Session)
    → assert_client_access member c s ≡ (
      if is_admin member.role || c.manager_id == member.id then ok tt else err forbidden_client,
      s,
    )
unfolding assert_client_access
assert_client_access_lem member c s = ground arith

pub allowed_of_get :
    (member : Member) (i : ℕ) (clients : List Client) (c : Client)
    → get client_id i clients ≡ some c
    → (is_admin member.role || c.manager_id == member.id) ≡ true
    → allowed member clients i ≡ true
allowed_of_get member i clients c h e = elim (Bool-cases (is_admin member.role)) [
  | inl admin ↦ ground (arith, admin)
  | inr manager ↦ ground (
    arith,
    any_of_get client_id (λ x. x.manager_id == member.id) i clients c h (ground (arith, e)),
  )
]
