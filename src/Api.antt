-- ===== src/Api.antt =====
-- The API as a whole: the dependencies of app/core/deps.py, the checks of a request's parameters, and
-- the routes of app/controllers, on the rows of the database and the shared store. (The log in, the log out and the
-- diagnosis stand in the child Requests.)
pub mod Changes
pub mod Guards
pub mod Services
pub mod Errors
pub mod Routes
pub mod Refines
pub mod Isolation
pub mod Requests
pub mod Stores
pub mod Denials
pub mod Tokens
pub mod Runs
pub mod Sound
pub mod Logins
use assignment_cloud_instanc.Prelude.{ℕ, Bool, true, not, ◌&&◌, List, [], ◌∷◌, String, none}
use assignment_cloud_instanc.Models.{Instance, Member, Tables}
use assignment_cloud_instanc.Config.{Settings}
use assignment_cloud_instanc.Session.{
  Action, Failure, http, Result, ok, err, pure, raise_if, request, overflow, ◌>>=◌, ◌>>◌,
}
use assignment_cloud_instanc.Database.{Database, binds}
use assignment_cloud_instanc.Pagination.{offset_binds}
use assignment_cloud_instanc.Access.{get_current_member, require_admin}
use assignment_cloud_instanc.Instances.{InstanceCreate, InstanceStatusUpdate, Filters, passes}
use assignment_cloud_instanc.Clients.{ClientCreate, ClientCost, Forecast}
use assignment_cloud_instanc.Clients.Sla.{Sla}
use assignment_cloud_instanc.Alerts.{AlertFilters}
use assignment_cloud_instanc.Schemas.Summaries.{
  ReportResponse, ClientCostResponse, CostForecastResponse, SlaResponse,
}
use assignment_cloud_instanc.Schemas.{
  ClientOut, InstanceOut, AlertOut, PageResponse, client_create_fits, instance_create_fits,
  status_update_fits, page_fits,
}
use assignment_cloud_instanc.Store.{Store}
use assignment_cloud_instanc.Revocation.{Claims, Decoded, get_token_claims}
use assignment_cloud_instanc.Controllers.ClientRoutes
use assignment_cloud_instanc.Controllers.InstanceRoutes
use assignment_cloud_instanc.Controllers.AlertRoutes
use assignment_cloud_instanc.Controllers.MonitorRoutes

-- What outlives a request.
pub record World : Type 0 where
  pub tables : Tables
  pub store : Store

-- The readings of the clocks in one request: `utcnow` in the handler, again at the insert of a row
-- and for each new alert, and the clock of the store.
pub record Moment : Type 0 where
  pub now : ℕ
  pub flushed : ℕ
  pub detected_at : Instance → ℕ
  pub store_now : ℕ

-- The routes with their parameters. (Negative ids, which name no row, are left out.)
pub data Call : Type 0 where
  create_client : ClientCreate → Call
  list_clients : ℕ → ℕ → Call
  client_instances : ℕ → ℕ → ℕ → Call
  client_cost client_cost_forecast client_sla : ℕ → Call
  create_instance : InstanceCreate → Call
  list_instances : ℕ → ℕ → Filters → String → Call
  get_instance : ℕ → Call
  update_status : ℕ → InstanceStatusUpdate → Call
  delete_instance : ℕ → Call
  list_alerts : ℕ → ℕ → AlertFilters → Call
  resolve_alert : ℕ → Call
  warnings errors long_stopped : ℕ → ℕ → Call
  report : Call

-- `response_model`
abbrev pub Answer : Call → Type 0
Answer (Call.create_client body) = ClientOut
Answer (Call.list_clients page size) = PageResponse ClientOut
Answer (Call.client_instances i page size) = PageResponse InstanceOut
Answer (Call.client_cost i) = ClientCostResponse
Answer (Call.client_cost_forecast i) = CostForecastResponse
Answer (Call.client_sla i) = SlaResponse
Answer (Call.create_instance body) = InstanceOut
Answer (Call.list_instances page size f sort) = PageResponse InstanceOut
Answer (Call.get_instance i) = InstanceOut
Answer (Call.update_status i body) = InstanceOut
Answer (Call.delete_instance i) = Unit {0}
Answer (Call.list_alerts page size f) = PageResponse AlertOut
Answer (Call.resolve_alert i) = AlertOut
Answer (Call.warnings page size) = PageResponse InstanceOut
Answer (Call.errors page size) = PageResponse InstanceOut
Answer (Call.long_stopped page size) = PageResponse InstanceOut
Answer Call.report = ReportResponse

-- The bounds that the schemas and the query parameters set.
abbrev pub fits : Call → Bool
fits (Call.create_client body) = client_create_fits body
fits (Call.list_clients page size) = page_fits page size
fits (Call.client_instances i page size) = page_fits page size
fits (Call.create_instance body) = instance_create_fits body
fits (Call.list_instances page size f sort) = page_fits page size
fits (Call.update_status i body) = status_update_fits body
fits (Call.list_alerts page size f) = page_fits page size
fits (Call.warnings page size) = page_fits page size
fits (Call.errors page size) = page_fits page size
fits (Call.long_stopped page size) = page_fits page size
fits _ = true

-- The first statement of a route, which writes nothing, takes the id that the call names, or the OFFSET of its
-- page. (An instance's page comes after its client: `ClientRoutes.client_instances`. A scan cuts its page itself.)
abbrev pub parameters_bind : Call → Bool
parameters_bind (Call.create_client body) = binds body.manager_id
parameters_bind (Call.list_clients page size) = offset_binds page size
parameters_bind (Call.client_instances i page size) = binds i
parameters_bind (Call.client_cost i) = binds i
parameters_bind (Call.client_cost_forecast i) = binds i
parameters_bind (Call.client_sla i) = binds i
parameters_bind (Call.create_instance body) = binds body.client_id
parameters_bind (Call.list_instances page size f sort) =
    offset_binds page size && passes binds f.client_id
parameters_bind (Call.get_instance i) = binds i
parameters_bind (Call.update_status i body) = binds i
parameters_bind (Call.delete_instance i) = binds i
parameters_bind (Call.list_alerts page size f) = offset_binds page size
parameters_bind (Call.resolve_alert i) = binds i
parameters_bind _ = true

abbrev pub unprocessable : Failure
unprocessable = http 422 "Unprocessable Content" none

-- The dependency of a route on its member.
abbrev pub dependency : Call → Member → Action Member
dependency (Call.create_client body) member = require_admin member
dependency _ member = pure member

module _ (db : Database) (settings : Settings) (m : Moment) where
  abbrev pub route : (c : Call) → Member → Action (Answer c)
  route (Call.create_client body) member = ClientRoutes.create_client db body m.now
  route (Call.list_clients page size) member = ClientRoutes.list_clients db member page size
  route (Call.client_instances i page size) member =
      ClientRoutes.client_instances db member i page size
  route (Call.client_cost i) member = ClientRoutes.client_cost db member m.now i
  route (Call.client_cost_forecast i) member =
      ClientRoutes.client_cost_forecast db member settings m.now i
  route (Call.client_sla i) member = ClientRoutes.client_sla db member settings m.now i
  route (Call.create_instance body) member =
      InstanceRoutes.create_instance db member settings body m.now m.flushed
  route (Call.list_instances page size f sort) member =
      InstanceRoutes.list_instances db member page size f sort
  route (Call.get_instance i) member = InstanceRoutes.get_instance member i
  route (Call.update_status i body) member = InstanceRoutes.update_status member i body m.now
  route (Call.delete_instance i) member = InstanceRoutes.delete_instance member i
  route (Call.list_alerts page size f) member = AlertRoutes.list_alerts db member page size f
  route (Call.resolve_alert i) member = AlertRoutes.resolve_alert member i m.now
  route (Call.warnings page size) member =
      MonitorRoutes.warnings db settings member m.detected_at page size
  route (Call.errors page size) member =
      MonitorRoutes.errors db settings member m.detected_at page size
  route (Call.long_stopped page size) member =
      MonitorRoutes.long_stopped db settings member m.detected_at page size m.now
  route Call.report member = MonitorRoutes.report db settings member m.now

  -- The route once its claims are known. The framework resolves the dependencies before it
  -- answers for the parameters.
  unfoldable pub admitted : (c : Call) → ℕ → Action (Answer c)
  admitted c sub = do
    raise_if (not (binds sub)) overflow
    found ← get_current_member sub
    member ← dependency c found
    raise_if (not (fits c)) unprocessable
    raise_if (not (parameters_bind c)) overflow
    route c member

  -- The end of a call, from what `get_token_claims` gives.
  abbrev pub authorised : (c : Call) → Tables → Result Claims × Store → Result (Answer c) × World
  authorised c t (ok claims, st) =
      let (r, t') = request (admitted c claims.sub) t in (r, record { tables = t'; store = st })
  authorised c t (err e, st) = (err e, record { tables = t; store = st })

  unfoldable pub handle : (c : Call) → Decoded → World → Result (Answer c) × World
  handle c credentials w = authorised c w.tables (get_token_claims credentials m.store_now w.store)
