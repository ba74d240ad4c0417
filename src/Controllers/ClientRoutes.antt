-- ===== src/Controllers/ClientRoutes.antt =====
-- app/controllers/client_controller.py
use assignment_cloud_instanc.Prelude.{ℕ, not}
use assignment_cloud_instanc.Models.{Client, Member}
use assignment_cloud_instanc.Config.{Settings}
use assignment_cloud_instanc.Session.{Action, pure, raise_if, overflow, ◌>>=◌, ◌>>◌}
use assignment_cloud_instanc.Database.{Database}
use assignment_cloud_instanc.Access.{assert_client_access, accessible_client_ids}
use assignment_cloud_instanc.Pagination.{offset_binds}
use assignment_cloud_instanc.Clients
use assignment_cloud_instanc.Clients.{ClientCreate}
use assignment_cloud_instanc.Clients.Sla
use assignment_cloud_instanc.Schemas.Summaries.{
  ClientCostResponse, CostForecastResponse, SlaResponse, cost_response, forecast_response,
  sla_response,
}
use assignment_cloud_instanc.Schemas.{
  ClientOut, InstanceOut, PageResponse, client_out, instance_out, page_response,
}

-- The client of the path, once the member may see it.
unfoldable pub visible_client : Member → ℕ → Action Client
visible_client member i = do
  client ← Clients.get_client i
  assert_client_access member client
  pure client

-- `Depends(require_admin)` stands with the other dependencies, in Api.
unfoldable pub create_client : Database → ClientCreate → ℕ → Action ClientOut
create_client db body now = do client ← Clients.create_client db body now; pure (client_out client)

module _ (db : Database) (member : Member) where
  unfoldable pub list_clients : ℕ → ℕ → Action (PageResponse ClientOut)
  list_clients page size = do
    p ← Clients.list_clients db (accessible_client_ids member) page size
    pure (page_response client_out page size p)

  unfoldable pub client_instances : ℕ → ℕ → ℕ → Action (PageResponse InstanceOut)
  client_instances i page size = do
    client ← visible_client member i
    raise_if (not (offset_binds page size)) overflow
    p ← Clients.list_client_instances db i page size
    pure (page_response instance_out page size p)

  unfoldable pub client_cost : ℕ → ℕ → Action ClientCostResponse
  client_cost now i = do
    client ← visible_client member i
    cost ← Clients.get_client_cost db now i
    pure (cost_response cost)

  unfoldable pub client_cost_forecast : Settings → ℕ → ℕ → Action CostForecastResponse
  client_cost_forecast settings now i = do
    client ← visible_client member i
    forecast ← Clients.get_cost_forecast settings now i
    pure (forecast_response forecast)

  unfoldable pub client_sla : Settings → ℕ → ℕ → Action SlaResponse
  client_sla settings now i = do
    client ← visible_client member i
    sla ← Sla.get_sla db settings now i
    pure (sla_response sla)
