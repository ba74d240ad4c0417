-- ===== src/Alerts/Listing.antt =====
-- `list_alerts`: what a page of the history is.
use text.Mathlib.TextEquality.{IsScalar-prop}
use assignment_cloud_instanc.Prelude.{
  ℕ, ◌≡◌, refl, ap, true, false, any, ◌==◌, ◌&&◌, Option, arith, length, filter, take, drop, All,
  All-imp, List, Bool, [], ◌∷◌,
}
use assignment_cloud_instanc.Models.{Member, is_admin, Instance, Alert, Tables}
use assignment_cloud_instanc.Session.{ok, request}
use assignment_cloud_instanc.Database.{Database}
use assignment_cloud_instanc.Database.Sorting.{IsKeyed, order_by_unique}
use assignment_cloud_instanc.Pagination.{page_count, paginate, offset}
use assignment_cloud_instanc.Pagination.Items.{IsListing, items_of, paginate-IsListing}
use assignment_cloud_instanc.Access.{Select, in_scope, accessible_client_ids}
use assignment_cloud_instanc.Access.Scope.{assigned, in_scope-accessible}
use assignment_cloud_instanc.Prelude.Perms.{Ordered-filter}
use assignment_cloud_instanc.Integrity.{IsValid, alert_id}
use assignment_cloud_instanc.Alerts.{
  AlertFilters, alert_in_scope, alert_test, newest_first, list_alerts,
}

Alert-set : IsSet Alert
Alert-set = hlevel IsScalar-prop

pub newest_first-IsKeyed : IsKeyed alert_id newest_first
unfolding newest_first
newest_first-IsKeyed = record {
  order = record { trans = λ a b c h g. ground arith; total = λ a b. ground arith };
  tie = λ a b h g. ground arith;
}

module _ (db : Database) (client_ids : Option Select) (page size : ℕ) (f : AlertFilters)
    (t : Tables) where
  pub listed_alerts-IsListing :
      IsListing newest_first
        (alert_test client_ids f t.clients t.instances)
        t.alerts
        size
        (request (list_alerts db client_ids page size f) t).0
  unfolding list_alerts request
  listed_alerts-IsListing =
      paginate-IsListing db.alert_rows newest_first newest_first-IsKeyed.order
        (alert_test client_ids f t.clients t.instances) t.alerts page size

-- On tables with sound keys, two databases that keep the laws of ORDER BY answer one request of
-- `list_alerts` alike.
pub list_alerts_unique :
    (db db' : Database) (client_ids : Option Select) (page size : ℕ) (f : AlertFilters) (t : Tables)
    → IsValid t
    → request (list_alerts db client_ids page size f) t
      ≡ request (list_alerts db' client_ids page size f) t
unfolding list_alerts request paginate
list_alerts_unique db db' client_ids page size f t v =
    ap
      (λ rows. (
        ok (record {
          items = take size (drop (offset page size) rows);
          total = length query;
          total_pages = page_count (length query) size;
        }),
        t,
      ))
      (order_by_unique alert_id newest_first Alert-set newest_first-IsKeyed query
        (Ordered-filter _ _ t.alerts v.alerts_distinct) db.alert_rows db'.alert_rows)
  where
    query : List Alert
    query = filter (alert_test client_ids f t.clients t.instances) t.alerts

-- The alert is of an instance of a client that is assigned to the member.
abbrev pub is_mine : Member → Tables → Alert → Bool
is_mine member t a =
    any (λ (i : Instance). i.id == a.instance_id && any (assigned member i.client_id) t.clients)
      t.instances

module _ (member : Member) (t : Tables) (manager : is_admin member.role ≡ false) where
  any-instances :
      (a : Alert) (instances : List Instance)
      → any
          (λ i.
            i.id == a.instance_id && in_scope (accessible_client_ids member) t.clients i.client_id)
          instances
        ≡ any
            (λ (i : Instance). i.id == a.instance_id && any (assigned member i.client_id) t.clients)
            instances
  any-instances a [] = refl
  any-instances a (i ∷ instances) =
      rw (in_scope-accessible, manager, any-instances a instances) refl

  alert_in_scope-accessible :
      (a : Alert)
      → alert_in_scope (accessible_client_ids member) t.clients t.instances a ≡ is_mine member t a
  unfolding accessible_client_ids
  alert_in_scope-accessible a = rw manager (rw manager at any-instances a t.instances)

  alert_test-is_mine :
      (f : AlertFilters) (a : Alert)
      → alert_test (accessible_client_ids member) f t.clients t.instances a ≡ true
      → is_mine member t a ≡ true
  alert_test-is_mine f a h = ground (arith, h, alert_in_scope-accessible a)

  -- A CLIENT_MANAGER is listed alerts only of instances of clients that are assigned to them,
  -- whatever the filters and the page.
  pub list_alerts_scoped :
      (db : Database) (page size : ℕ) (f : AlertFilters)
      → All
          (λ a. is_mine member t a ≡ true)
          (items_of (request (list_alerts db (accessible_client_ids member) page size f) t).0)
  list_alerts_scoped db page size f =
      let listing = listed_alerts-IsListing db (accessible_client_ids member) page size f t in
      rw listing.returned (All-imp _ _ listing.answer.items (alert_test-is_mine f) listing.passing)
