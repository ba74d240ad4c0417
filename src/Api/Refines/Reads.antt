-- ===== src/Api/Refines/Reads.antt =====
-- The services that only read (app/services), and the routes of a client's summaries.
use assignment_cloud_instanc.Prelude.{ℕ, refl, arith}
use assignment_cloud_instanc.Models.{Member, Tables}
use assignment_cloud_instanc.Config.{Settings}
use assignment_cloud_instanc.Session.{Action, pure, ◌>>=◌}
use assignment_cloud_instanc.Session.Reads.{ReadOnly, bind-ReadOnly}
use assignment_cloud_instanc.Database.{Database}
use assignment_cloud_instanc.Clients
use assignment_cloud_instanc.Clients.Sla
use assignment_cloud_instanc.Controllers.ClientRoutes.{visible_client}
use assignment_cloud_instanc.Api.Services.{Changes}
use assignment_cloud_instanc.Api.Routes.{client_reading}

-- The services that only read.
module _ (db : Database) (settings : Settings) (i : ℕ) where
  pub listed-ReadOnly : (page size : ℕ) → ReadOnly (Clients.list_client_instances db i page size)
  unfolding Clients.list_client_instances Clients.get_client
  listed-ReadOnly page size s = ground arith

  pub cost-ReadOnly : (now : ℕ) → ReadOnly (Clients.get_client_cost db now i)
  unfolding Clients.get_client_cost Clients.get_client_instances Clients.get_client
  cost-ReadOnly now s = ground arith

  pub forecast-ReadOnly : (now : ℕ) → ReadOnly (Clients.get_cost_forecast settings now i)
  unfolding Clients.get_cost_forecast Clients.get_client
  forecast-ReadOnly now s = ground arith

  pub sla-ReadOnly : (now : ℕ) → ReadOnly (Sla.get_sla db settings now i)
  unfolding Sla.get_sla Clients.get_client_instances Clients.get_client
  sla-ReadOnly now s = ground arith

-- A route that reads for a client that the member may see, and answers by its response model.
pub answered :
    (db : Database) (settings : Settings) (member : Member) (t : Tables) (i : ℕ) {A B : Type 0}
    (m : Action A) (out : A → B)
    → ReadOnly m
    → Changes db member t (visible_client member i >>= λ _. m >>= λ a. pure (out a))
answered db settings member t i m out reads =
    client_reading db settings member t i (m >>= λ a. pure (out a))
      (bind-ReadOnly m (λ a. pure (out a)) reads (λ a s. refl))
