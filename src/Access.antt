-- ===== src/Access.antt =====
-- app/core/deps.py: who may see which client. (`get_token_claims` stands in Revocation.)
pub mod Scope
pub mod Membership
use assignment_cloud_instanc.Prelude.{
  ℕ, Bool, true, Option, none, some, List, map, filter, any, find, not, ◌==◌, if◌then◌else◌,
}
use assignment_cloud_instanc.Models.{Member, Client, is_admin}
use assignment_cloud_instanc.Session.{
  Failure, http, Action, pure, raise_if, gets, or_raise, ◌>>=◌, ◌>>◌,
}

-- A `SELECT` of client ids: it is run inside the statement that uses it.
abbrev pub Select : Type 0
Select = List Client → List ℕ

-- `db.get(Table, id)` on a table with the key `key`.
abbrev pub get {ℓ} : {A : Type ℓ} → (A → ℕ) → ℕ → List A → Option A
get key i = find (λ x. key x == i)

-- `x IN (…)`
abbrev pub elem : ℕ → List ℕ → Bool
elem i = any (λ j. j == i)

abbrev pub forbidden_client : Failure
forbidden_client = http 403 "CLIENT_MANAGER can only access clients assigned to them" none

-- The member that the token's `sub` names. (The claims are those of `get_token_claims`.)
unfoldable pub get_current_member : ℕ → Action Member
get_current_member sub = do
  found ← gets (λ s. get (λ (m : Member). m.id) sub s.members)
  or_raise found (http 401 "Member no longer exists" none)

unfoldable pub require_admin : Member → Action Member
require_admin member = do
  raise_if (not (is_admin member.role)) (http 403 "ADMIN role required" none)
  pure member

unfoldable pub assert_client_access : Member → Client → Action (Unit {0})
assert_client_access member client =
    if is_admin member.role
    then pure tt
    else raise_if (not (client.manager_id == member.id)) forbidden_client

-- `none` for an ADMIN: no filter.
unfoldable pub accessible_client_ids : Member → Option Select
accessible_client_ids member =
    if is_admin member.role
    then none
    else some (λ clients.
      map (λ (c : Client). c.id) (filter (λ (c : Client). c.manager_id == member.id) clients))

-- `if client_ids is not None: query.filter(x.in_(client_ids))`
abbrev pub in_scope : Option Select → List Client → ℕ → Bool
in_scope none clients i = true
in_scope (some scope) clients i = elem i (scope clients)

-- The `EXISTS` of the scope narrowed to one id.
assert_in : Option Select → ℕ → Action (Unit {0})
assert_in none client_id = pure tt
assert_in (some scope) client_id = do
  found ← gets (λ s. elem client_id (scope s.clients))
  raise_if (not found) forbidden_client

unfoldable pub assert_client_id_access : Member → ℕ → Action (Unit {0})
unfolding accessible_client_ids assert_in
assert_client_id_access member client_id = assert_in (accessible_client_ids member) client_id
