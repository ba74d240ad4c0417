-- ===== src/Clients/Costs.antt =====
-- What a client costs: the sums of `get_client_cost` and `get_cost_forecast`.
use mathlib.Core.List.{Perm, Permᴰ}
use mathlib.Core.Logic.{∥∥₁_elim}
use native.Mathlib.Nat.{ℕ_set, suc-mul}
use assignment_cloud_instanc.Prelude.{
  ℕ, ◌+◌, ◌*◌, ◌≡◌, refl, ap, ◌∙◌, some, List, [], ◌∷◌, ◌++◌, map, arith, filter, count, length,
  leb, length-filter, Bool-cases, inl, inr, suc, if◌then◌else◌,
}
use assignment_cloud_instanc.Models.{
  Client, Instance, InstanceType, Tables, small, medium, large, type_eq,
}
use assignment_cloud_instanc.Config.{Settings, unit_prices}
use assignment_cloud_instanc.Session.{Result, ok, request}
use assignment_cloud_instanc.Database.{Database}
use assignment_cloud_instanc.Database.Sorting.{by_id, length-order_by}
use assignment_cloud_instanc.Access.{get}
use assignment_cloud_instanc.Integrity.{client_id, instance_id}
use assignment_cloud_instanc.Clients.{
  ClientCost, Forecast, InstanceCost, TypeCost, sum_of, cost_of, forecast_of, client_cost, runs_for,
  is_of, group_of, counts_by_type, type_cost, get_client, get_client_instances, get_client_cost,
  get_cost_forecast,
}

module _ {A : Type 0} (f : A → ℕ) where
  sum_of-append : (xs ys : List A) → sum_of f (xs ++ ys) ≡ sum_of f xs + sum_of f ys
  sum_of-append [] ys = omega arith
  sum_of-append (x ∷ xs) ys = omega (arith, sum_of-append xs ys)

  sum_of-permᴰ : {xs ys : List A} → Permᴰ xs ys → sum_of f xs ≡ sum_of f ys
  sum_of-permᴰ Permᴰ.nil = refl
  sum_of-permᴰ (Permᴰ.cons e r) = rw (e, sum_of-permᴰ r) refl
  sum_of-permᴰ (Permᴰ.swap e g) = rw (e, g) (omega arith)
  sum_of-permᴰ (Permᴰ.trans r s) = sum_of-permᴰ r ∙ sum_of-permᴰ s

  sum_of-perm : {xs ys : List A} → Perm xs ys → sum_of f xs ≡ sum_of f ys
  sum_of-perm r = ∥∥₁_elim r (ℕ_set _ _) sum_of-permᴰ

sum_of-cost_of :
    (xs : List Instance)
    → sum_of (λ (e : InstanceCost). e.monthly_cost) (map cost_of xs)
      ≡ sum_of (λ (x : Instance). x.monthly_cost) xs
sum_of-cost_of [] = refl
sum_of-cost_of (x ∷ xs) = omega (arith, sum_of-cost_of xs)

abbrev of_type : InstanceType → List Instance → ℕ
of_type k rows = count (λ (x : Instance). type_eq x.instance_type k) rows

group_count :
    (settings : Settings) (rows : List Instance) (k : InstanceType)
    → sum_of (λ (e : TypeCost). e.instance_count) (map (type_cost settings) (group_of rows k))
      ≡ of_type k rows
group_count settings rows k = ground arith

group_subtotal :
    (settings : Settings) (rows : List Instance) (k : InstanceType)
    → sum_of (λ (e : TypeCost). e.subtotal) (map (type_cost settings) (group_of rows k))
      ≡ of_type k rows * unit_prices settings k
group_subtotal settings rows k = elim (Bool-cases (leb 1 (of_type k rows))) [
  | inl some_rows ↦ rw some_rows (omega arith)
  | inr no_rows ↦
      let zero_rows : of_type k rows ≡ 0 = ground arith in rw no_rows (rw zero_rows (omega arith))
]

types_partition :
    (rows : List Instance)
    → of_type large rows + of_type medium rows + of_type small rows ≡ length rows
types_partition [] = refl
types_partition (x ∷ rows) = ground (arith, types_partition rows)

add_row :
    (settings : Settings) (k : InstanceType) (a b c s : ℕ)
    → a * settings.price_large + b * settings.price_medium + c * settings.price_small ≡ s
    → (if type_eq k large then suc a else a) * settings.price_large
        + (if type_eq k medium then suc b else b) * settings.price_medium
        + (if type_eq k small then suc c else c) * settings.price_small
      ≡ unit_prices settings k + s
add_row settings InstanceType.large a b c s h = rw suc-mul (omega (arith, h))
add_row settings InstanceType.medium a b c s h = rw suc-mul (omega (arith, h))
add_row settings InstanceType.small a b c s h = rw suc-mul (omega (arith, h))

types_sum :
    (settings : Settings) (rows : List Instance)
    → of_type large rows * settings.price_large
        + of_type medium rows * settings.price_medium
        + of_type small rows * settings.price_small
      ≡ sum_of (λ (x : Instance). unit_prices settings x.instance_type) rows
types_sum settings [] = omega arith
types_sum settings (x ∷ rows) = add_row settings x.instance_type _ _ _ _ (types_sum settings rows)

sum_of-map_append :
    {A B : Type 0} (f : B → ℕ) (g : A → B) (xs ys : List A)
    → sum_of f (map g (xs ++ ys)) ≡ sum_of f (map g xs) + sum_of f (map g ys)
sum_of-map_append f g [] ys = omega arith
sum_of-map_append f g (x ∷ xs) ys = omega (arith, sum_of-map_append f g xs ys)

sum_of-groups :
    (settings : Settings) (f : TypeCost → ℕ) (rows : List Instance)
    → sum_of f (map (type_cost settings) (counts_by_type rows))
      ≡ sum_of f (map (type_cost settings) (group_of rows large))
        + sum_of f (map (type_cost settings) (group_of rows medium))
        + sum_of f (map (type_cost settings) (group_of rows small))
sum_of-groups settings f rows =
    sum_of-map_append f (type_cost settings) (group_of rows large ++ group_of rows medium)
      (group_of rows small)
    ∙ ap (λ n. n + sum_of f (map (type_cost settings) (group_of rows small)))
        (sum_of-map_append f (type_cost settings) (group_of rows large) (group_of rows medium))

breakdown_count :
    (settings : Settings) (rows : List Instance)
    → sum_of (λ (e : TypeCost). e.instance_count) (map (type_cost settings) (counts_by_type rows))
      ≡ length rows
breakdown_count settings rows =
    sum_of-groups settings (λ e. e.instance_count) rows
    ∙ omega (
      arith,
      group_count settings rows large,
      group_count settings rows medium,
      group_count settings rows small,
      types_partition rows,
    )

breakdown_cost :
    (settings : Settings) (rows : List Instance)
    → sum_of (λ (e : TypeCost). e.subtotal) (map (type_cost settings) (counts_by_type rows))
      ≡ sum_of (λ (x : Instance). unit_prices settings x.instance_type) rows
breakdown_cost settings rows =
    sum_of-groups settings (λ e. e.subtotal) rows
    ∙ omega (
      arith,
      group_subtotal settings rows large,
      group_subtotal settings rows medium,
      group_subtotal settings rows small,
    )
    ∙ types_sum settings rows

module _ (i : ℕ) (t : Tables) {c : Client} (h : get client_id i t.clients ≡ some c) where
  -- The answer of a forecast, by the instances that run.
  pub record IsSummed (settings : Settings) (out : Result Forecast × Tables) : Type 0 where
    pub answer : Forecast
    pub returned : out ≡ (ok answer, t)
    pub counts : answer.running_instance_count ≡ count (runs_for i) t.instances
    pub costs :
        answer.forecast_cost
        ≡ sum_of
            (λ (x : Instance). unit_prices settings x.instance_type)
            (filter (runs_for i) t.instances)

  forecast_found :
      (settings : Settings) (now : ℕ)
      → request (get_cost_forecast settings now i) t
        ≡ (ok (forecast_of settings now c (filter (runs_for i) t.instances)), t)
  unfolding get_cost_forecast get_client request
  forecast_found settings now = ground arith

  cost_found :
      (db : Database) (now : ℕ)
      → request (get_client_cost db now i) t ≡ (
        ok (
            client_cost now c
              (db.instance_rows.order_by (by_id instance_id) (filter (is_of i) t.instances))),
        t,
      )
  unfolding get_client_cost get_client get_client_instances request
  cost_found db now = ground arith

  -- For a client that is found, the forecast counts the RUNNING instances of the client, and
  -- its cost, which is summed by type, is the sum of the unit prices of those instances;
  -- nothing is written.
  pub forecast-IsSummed :
      (settings : Settings) (now : ℕ)
      → IsSummed settings (request (get_cost_forecast settings now i) t)
  forecast-IsSummed settings now = rw forecast_found (record {
    answer = forecast_of settings now c (filter (runs_for i) t.instances);
    returned = refl;
    counts =
        breakdown_count settings (filter (runs_for i) t.instances)
        ∙ length-filter (runs_for i) t.instances;
    costs = breakdown_cost settings (filter (runs_for i) t.instances);
  })

  -- The answer of a cost, by the instances of the client.
  pub record IsListed (out : Result ClientCost × Tables) : Type 0 where
    pub answer : ClientCost
    pub returned : out ≡ (ok answer, t)
    pub counts : answer.instance_count ≡ count (is_of i) t.instances
    pub costs :
        answer.total_monthly_cost
        ≡ sum_of (λ (x : Instance). x.monthly_cost) (filter (is_of i) t.instances)
    pub adds_up :
        sum_of (λ (e : InstanceCost). e.monthly_cost) answer.cost_by_instance
        ≡ answer.total_monthly_cost

  -- For a client that is found, the cost counts the instances of the client, its total is the
  -- sum of their monthly costs and of the rows that it lists, and nothing is written.
  pub cost-IsListed : (db : Database) (now : ℕ) → IsListed (request (get_client_cost db now i) t)
  cost-IsListed db now = rw cost_found (record {
    answer =
        client_cost now c
          (db.instance_rows.order_by (by_id instance_id) (filter (is_of i) t.instances));
    returned = refl;
    counts =
        length-order_by db.instance_rows (by_id instance_id) (filter (is_of i) t.instances)
        ∙ length-filter (is_of i) t.instances;
    costs =
        sum_of-perm _
          (db.instance_rows.order_by_perm (by_id instance_id) (filter (is_of i) t.instances));
    adds_up = sum_of-cost_of _;
  })
