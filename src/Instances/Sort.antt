-- ===== src/Instances/Sort.antt =====
-- The `sort` parameter of `list_instances`: "field" ascending, "-field" descending, `id` last.
use Prim.Native.Nat.{compare, Ordering}
use Prim.Native.Char.{code}
use Prim.Native.String.{compare as compare_string}
use text.Mathlib.Text.{◌==◌ as str_eq}
use assignment_cloud_instanc.Prelude.{Bool, true, false, String, leb, ◌==◌, if◌then◌else◌}
use assignment_cloud_instanc.Models.{Instance, status_value, type_value}

-- `SORTABLE_FIELDS`
pub data SortField : Type 0 where
  id instance_name region instance_type status cpu_usage monthly_cost client_id launched_at
        updated_at :
      SortField

-- `sort.startswith("-")`
abbrev pub descending : String → Bool
descending String.[] = false
descending (String.◌∷◌ c s) = code c == b'-'

-- `sort.lstrip("-")`
abbrev pub lstrip_dash : String → String
lstrip_dash String.[] = String.[]
lstrip_dash (String.◌∷◌ c s) =
    let rest = lstrip_dash s in if code c == b'-' then rest else String.◌∷◌ c s

-- The field of that name; any other name sorts by `id`.
unfoldable pub field_of : String → SortField
field_of name =
    if str_eq name "instanceName"
    then instance_name
    else if str_eq name "region"
    then region
    else if str_eq name "instanceType"
    then instance_type
    else if str_eq name "status"
    then status
    else if str_eq name "cpuUsage"
    then cpu_usage
    else if str_eq name "monthlyCost"
    then monthly_cost
    else if str_eq name "clientId"
    then client_id
    else if str_eq name "launchedAt"
    then launched_at
    else if str_eq name "updatedAt"
    then updated_at
    else id

-- The order of two rows by a column. An enumeration is stored by its name, and text is compared by
-- code points.
abbrev pub compare_by : SortField → Instance → Instance → Ordering
compare_by id a b = compare a.id b.id
compare_by instance_name a b = compare_string a.instance_name b.instance_name
compare_by region a b = compare_string a.region b.region
compare_by instance_type a b =
    compare_string (type_value a.instance_type) (type_value b.instance_type)
compare_by status a b = compare_string (status_value a.status) (status_value b.status)
compare_by cpu_usage a b = compare a.cpu_usage b.cpu_usage
compare_by monthly_cost a b = compare a.monthly_cost b.monthly_cost
compare_by client_id a b = compare a.client_id b.client_id
compare_by launched_at a b = compare a.launched_at b.launched_at
compare_by updated_at a b = compare a.updated_at b.updated_at

-- `ORDER BY column [DESC], id`. Two rows that tie on `id` itself are one row.
abbrev pub not_after : Bool → Ordering → Bool → Bool
not_after desc Ordering.lt tie = if desc then false else true
not_after desc Ordering.gt tie = desc
not_after desc Ordering.eq tie = tie

unfoldable pub sort_le : String → Instance → Instance → Bool
unfolding field_of
sort_le sort a b =
    not_after (descending sort) (compare_by (field_of (lstrip_dash sort)) a b) (leb a.id b.id)
