-- ===== src/Alerts.antt =====
-- app/services/alert_service.py: the history of alerts, and resolving one.
pub mod Resolve
pub mod Listing
pub mod History
pub mod Newest
use assignment_cloud_instanc.Prelude.{
  ℕ, ◌+◌, ◌*◌, Bool, true, not, ◌&&◌, ◌||◌, Option, none, some, List, map, String, filter, any, ltb,
  leb, ◌==◌, if◌then◌else◌,
}
use assignment_cloud_instanc.Models.{Client, Instance, Alert, AlertType, Tables, alert_type_eq}
use assignment_cloud_instanc.Session.{
  Session, Action, not_found, pure, gets, modify, commit, or_raise, ◌>>=◌, ◌>>◌,
}
use assignment_cloud_instanc.Database.{Database}
use assignment_cloud_instanc.Pagination.{Page, paginate}
use assignment_cloud_instanc.Access.{Select, get, in_scope}
use assignment_cloud_instanc.Integrity.{alert_id}
use assignment_cloud_instanc.Instances.{passes}

-- The query parameters of `list_alerts` that filter. A date is a count of days.
pub record AlertFilters : Type 0 where
  pub alert_type : Option AlertType
  pub is_resolved : Option Bool
  pub date_from : Option ℕ
  pub date_to : Option ℕ

-- `datetime.combine(day, time.min)` and `datetime.combine(day, time.max)`, in microseconds
abbrev pub day_min : ℕ → ℕ
day_min day = day * 86_400_000_000

abbrev pub day_max : ℕ → ℕ
day_max day = day * 86_400_000_000 + 86_399_999_999

abbrev pub bool_eq : Bool → Bool → Bool
bool_eq a b = if a then b else not b

-- The join to the alert's instance, which is made for a scope only.
abbrev pub alert_in_scope : Option Select → List Client → List Instance → Alert → Bool
alert_in_scope none clients instances a = true
alert_in_scope (some scope) clients instances a =
    any (λ (i : Instance). i.id == a.instance_id && in_scope (some scope) clients i.client_id)
      instances

abbrev pub alert_test : Option Select → AlertFilters → List Client → List Instance → Alert → Bool
alert_test client_ids f clients instances a =
    alert_in_scope client_ids clients instances a
    && passes (λ k. alert_type_eq a.alert_type k) f.alert_type
    && passes (λ r. bool_eq a.is_resolved r) f.is_resolved
    && passes (λ day. leb (day_min day) a.detected_at) f.date_from
    && passes (λ day. leb a.detected_at (day_max day)) f.date_to

-- `order_by(Alert.detectedAt.desc(), Alert.id.desc())`
unfoldable pub newest_first : Alert → Alert → Bool
newest_first a b =
    ltb b.detected_at a.detected_at || (a.detected_at == b.detected_at && leb b.id a.id)

unfoldable pub list_alerts : Database → Option Select → ℕ → ℕ → AlertFilters → Action (Page Alert)
unfolding newest_first paginate
list_alerts db client_ids page size f = gets (λ s.
    paginate db.alert_rows newest_first
      (filter (alert_test client_ids f s.clients s.instances) s.alerts) page size)

abbrev pub with_alert_rows : Tables → List Alert → Tables
with_alert_rows t alerts = record t { alerts = alerts }

-- The row after `isResolved = True` and `resolvedAt = utcnow()`.
abbrev pub resolved : ℕ → Alert → Alert
resolved now a = record a { is_resolved = true; resolved_at = some now }

-- The `UPDATE` of that row.
abbrev pub resolve_row : ℕ → ℕ → List Alert → List Alert
resolve_row i now = map (λ (a : Alert). if alert_id a == i then resolved now a else a)

unfoldable pub resolve_alert : ℕ → ℕ → Action Alert
resolve_alert i now = do
  found ← gets (λ s. get alert_id i s.alerts)
  alert ← or_raise found (not_found "Alert" i)
  if alert.is_resolved then pure alert else do
    modify (λ t. with_alert_rows t (resolve_row i now t.alerts))
    commit
    pure (resolved now alert)
