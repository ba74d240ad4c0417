-- ===== src/Alerts/Newest.antt =====
-- What the queries on alerts ask for (app/services/alert_service.py, `build_report` of
-- app/services/monitor_service.py), without their tests: an order, and conditions on an alert.
use assignment_cloud_instanc.Prelude.{
  ℕ, ◌+◌, ◌*◌, ◌<◌, ◌≤◌, ◌≡◌, refl, Bool, true, false, not, ◌&&◌, any, Option, none, some, List, [],
  ◌∷◌, Ordered, All-imp, arith, ltb, leb, ◌==◌, ==→eq, ==_self, ◌⊎◌, inl, inr, Bool-cases,
}
use assignment_cloud_instanc.Models.{
  Instance, Alert, AlertType, Tables, alert_type_eq, cpu_high, error_detected, long_stopped,
}
use assignment_cloud_instanc.Access.{Select, in_scope}
use assignment_cloud_instanc.Alerts.{
  AlertFilters, newest_first, bool_eq, day_min, day_max, alert_in_scope, alert_test,
}
use assignment_cloud_instanc.Instances.{passes}

-- `a` was detected after `b`, or at the same time and has no smaller id.
abbrev pub Newer : Alert → Alert → Type 0
Newer a b = (b.detected_at < a.detected_at) ⊎ ((a.detected_at ≡ b.detected_at) × (b.id ≤ a.id))

pub newest_first-Newer : (a b : Alert) → newest_first a b ≡ true → Newer a b
unfolding newest_first
newest_first-Newer a b h = elim (Bool-cases (ltb b.detected_at a.detected_at)) [
  | inl later ↦ inl (ground (arith, later))
  | inr other ↦ inr (ground (arith, h, other))
]

pub Ordered-imp :
    {A : Type 0} (R S : A → A → Type 0) (xs : List A)
    → ((a b : A) → R a b → S a b)
    → Ordered R xs
    → Ordered S xs
Ordered-imp R S [] f h = tt
Ordered-imp R S (x ∷ xs) f h = (All-imp (R x) (S x) xs (λ b. f x b) h.0, Ordered-imp R S xs f h.1)

-- A test decides a condition.
abbrev pub Decides : Bool → Type 0 → Type 0
Decides b P = (b ≡ true → P) × (P → b ≡ true)

abbrev pub Exists : {A : Type 0} → (A → Type 0) → List A → Type 0
Exists P [] = ⊥
Exists P (x ∷ xs) = P x ⊎ Exists P xs

any-Decides :
    {A : Type 0} (p : A → Bool) (P : A → Type 0)
    → ((x : A) → Decides (p x) (P x))
    → (xs : List A) → Decides (any p xs) (Exists P xs)
any-Decides p P d [] = (λ h. absurd (ground arith), λ h. absurd h)
any-Decides p P d (x ∷ xs) =
    let rest = any-Decides p P d xs in
    (
      λ h. elim (Bool-cases (p x)) [
        | inl here ↦ inl ((d x).0 here)
        | inr other ↦ inr (rest.0 (ground (arith, h, other)))
      ],
      λ h. elim h [
        | inl here ↦ ground (arith, (d x).1 here)
        | inr there ↦ ground (arith, rest.1 there)
      ],
    )

pub and-Decides : (b c : Bool) (P Q : Type 0) → Decides b P → Decides c Q → Decides (b && c) (P × Q)
and-Decides true c P Q d e = (λ h. (d.0 refl, e.0 h), λ h. e.1 h.1)
and-Decides false c P Q d e = (λ h. absurd (ground arith), λ h. absurd (ground (arith, d.1 h.0)))

pub not-Decides : (b : Bool) → Decides (not b) (b ≡ false)
not-Decides true = (λ h. absurd (ground arith), λ h. absurd (ground (arith, h)))
not-Decides false = (λ h. refl, λ h. refl)

-- The alert's instance is one of a client in the scope.
abbrev pub OfScope : Option Select → Tables → Alert → Type 0
OfScope client_ids t a =
    Exists
      (λ (i : Instance).
        (i.id ≡ a.instance_id) × (in_scope client_ids t.clients i.client_id ≡ true))
      t.instances

pub OfScope-Decides :
    (client_ids : Option Select) (t : Tables) (a : Alert)
    → Decides
        (any
          (λ (i : Instance). i.id == a.instance_id && in_scope client_ids t.clients i.client_id)
          t.instances)
        (OfScope client_ids t a)
OfScope-Decides client_ids t a =
    any-Decides _ _
      (λ i.
        and-Decides (i.id == a.instance_id) (in_scope client_ids t.clients i.client_id) _ _
          (==→eq i.id a.instance_id, λ h. rw h (==_self a.instance_id)) (λ h. h, λ h. h))
      t.instances

-- Without a scope, every alert.
abbrev pub Seen : Option Select → Tables → Alert → Type 0
Seen none t a = Unit
Seen (some scope) t a = OfScope (some scope) t a

-- What an optional parameter asks for.
abbrev pub Asked : {K : Type 0} → Option K → (K → Type 0) → Type 0
Asked none P = Unit
Asked (some k) P = P k

passes-Decides :
    {K : Type 0} (test : K → Bool) (P : K → Type 0)
    → ((k : K) → Decides (test k) (P k))
    → (o : Option K) → Decides (passes test o) (Asked o P)
passes-Decides test P d none = (λ h. tt, λ h. refl)
passes-Decides test P d (some k) = d k

type_same : (a b : AlertType) → Decides (alert_type_eq a b) (a ≡ b)
type_same cpu_high cpu_high = (λ h. refl, λ h. refl)
type_same error_detected error_detected = (λ h. refl, λ h. refl)
type_same long_stopped long_stopped = (λ h. refl, λ h. refl)
type_same cpu_high error_detected = (λ h. absurd (ground arith), λ h. absurd (ground (arith, h)))
type_same cpu_high long_stopped = (λ h. absurd (ground arith), λ h. absurd (ground (arith, h)))
type_same error_detected cpu_high = (λ h. absurd (ground arith), λ h. absurd (ground (arith, h)))
type_same error_detected long_stopped =
    (λ h. absurd (ground arith), λ h. absurd (ground (arith, h)))
type_same long_stopped cpu_high = (λ h. absurd (ground arith), λ h. absurd (ground (arith, h)))
type_same long_stopped error_detected =
    (λ h. absurd (ground arith), λ h. absurd (ground (arith, h)))

bool_same : (a b : Bool) → Decides (bool_eq a b) (a ≡ b)
bool_same true b = (λ h. ground (arith, h), λ h. ground (arith, h))
bool_same false b = (λ h. ground (arith, h), λ h. ground (arith, h))

-- The microseconds of a day.
abbrev pub day_length : ℕ
day_length = 86_400_000_000

-- The alerts that the parameters of `list_alerts` ask for.
abbrev pub IsWanted : Option Select → AlertFilters → Tables → Alert → Type 0
IsWanted client_ids f t a =
    (((Seen client_ids t a × Asked f.alert_type (λ k. a.alert_type ≡ k))
        × Asked f.is_resolved (λ r. a.is_resolved ≡ r))
      × Asked f.date_from (λ day. day * day_length ≤ a.detected_at))
    × Asked f.date_to (λ day. a.detected_at < (day + 1) * day_length)

Seen-Decides :
    (client_ids : Option Select) (t : Tables) (a : Alert)
    → Decides (alert_in_scope client_ids t.clients t.instances a) (Seen client_ids t a)
Seen-Decides none t a = (λ h. tt, λ h. refl)
Seen-Decides (some scope) t a = OfScope-Decides (some scope) t a

pub alert_test-Decides :
    (client_ids : Option Select) (f : AlertFilters) (t : Tables) (a : Alert)
    → Decides (alert_test client_ids f t.clients t.instances a) (IsWanted client_ids f t a)
alert_test-Decides client_ids f t a =
    and-Decides _ _ _ _
      (and-Decides _ _ _ _
        (and-Decides _ _ _ _
          (and-Decides _ _ _ _ (Seen-Decides client_ids t a) (
            passes-Decides (λ k. alert_type_eq a.alert_type k) _ (type_same a.alert_type)
              f.alert_type))
          (passes-Decides (λ r. bool_eq a.is_resolved r) _ (bool_same a.is_resolved) f.is_resolved))
        (passes-Decides (λ day. leb (day_min day) a.detected_at) _ from_day f.date_from))
      (passes-Decides (λ day. leb a.detected_at (day_max day)) _ to_day f.date_to)
  where
    from_day :
        (day : ℕ) → Decides (leb (day_min day) a.detected_at) (day * day_length ≤ a.detected_at)
    from_day day = (λ h. ground (arith, h), λ h. ground (arith, h))

    to_day :
        (day : ℕ)
        → Decides (leb a.detected_at (day_max day)) (a.detected_at < (day + 1) * day_length)
    to_day day = (λ h. ground (arith, h), λ h. ground (arith, h))
