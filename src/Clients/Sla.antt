-- ===== src/Clients/Sla.antt =====
-- `get_sla`: the uptime of a client in the current month.
pub mod Uptime
use Prim.Native.Nat.{min, max}
use assignment_cloud_instanc.Prelude.{
  ℕ, ◌+◌, ◌-◌, ◌*◌, Bool, List, [], ◌∷◌, map, String, length, leb, ltb, if◌then◌else◌,
}
use assignment_cloud_instanc.Prelude.Text.{round_div}
use assignment_cloud_instanc.Prelude.Calendar.{month_of, month_start_of}
use assignment_cloud_instanc.Models.{
  Client, ContractPlan, Instance, InstanceStatus, running, status_eq,
}
use assignment_cloud_instanc.Config.{Settings, sla_thresholds}
use assignment_cloud_instanc.Session.{Action, pure, ◌>>=◌}
use assignment_cloud_instanc.Database.{Database}
use assignment_cloud_instanc.Clients.{sum_of, get_client, get_client_instances}

-- One row of `instanceDetails`. Hours are in tenths, a percentage in thousandths.
pub record InstanceDetail : Type 0 where
  pub instance_id : ℕ
  pub instance_name : String
  pub status : InstanceStatus
  pub measured_hours : ℕ
  pub running_hours : ℕ
  pub uptime_percent : ℕ

-- The answer of `get_sla`.
pub record Sla : Type 0 where
  pub client_id : ℕ
  pub client_name : String
  pub contract_plan : ContractPlan
  pub sla_threshold : ℕ
  pub month : String
  pub uptime_percent : ℕ
  pub is_violation : Bool
  pub instance_details : List InstanceDetail

abbrev pub tenth_hour : ℕ
tenth_hour = 360_000_000

-- 100 percent
abbrev pub full : ℕ
full = 100_000

module _ (month_start now : ℕ) where
  abbrev pub window_start : Instance → ℕ
  window_start inst = max month_start inst.launched_at

  abbrev pub up_end : Instance → ℕ
  up_end inst =
      if status_eq inst.status running
      then now
      else min (max inst.updated_at (window_start inst)) now

  -- The measured time and the time up, in microseconds.
  abbrev pub measured : Instance → ℕ
  measured inst = now - window_start inst

  abbrev pub up : Instance → ℕ
  up inst = up_end inst - window_start inst

  -- `round(min(up / total, 1.0) * 100, 3)`
  abbrev pub uptime_of : Instance → ℕ
  uptime_of inst = round_div (min (up inst) (measured inst) * full) (measured inst)

  abbrev pub detail_of : Instance → InstanceDetail
  detail_of inst = record {
    instance_id = inst.id;
    instance_name = inst.instance_name;
    status = inst.status;
    measured_hours = round_div (measured inst) tenth_hour;
    running_hours = round_div (up inst) tenth_hour;
    uptime_percent = uptime_of inst;
  }

  -- The loop: an instance whose window is empty is skipped.
  abbrev pub details : List Instance → List InstanceDetail
  details [] = []
  details (inst ∷ rest) =
      let after = details rest in
      if leb now (window_start inst) then after else detail_of inst ∷ after

-- `round(sum(percents) / len(percents), 3) if percents else 100.0`
abbrev pub average : List InstanceDetail → ℕ
average [] = full
average (d ∷ ds) =
    round_div (sum_of (λ (x : InstanceDetail). x.uptime_percent) (d ∷ ds)) (length (d ∷ ds))

abbrev pub sla_of : Settings → ℕ → Client → List Instance → Sla
sla_of settings now client instances =
    let rows = details (month_start_of now) now instances in
    let threshold = sla_thresholds settings client.contract_plan in
    record {
      client_id = client.id;
      client_name = client.client_name;
      contract_plan = client.contract_plan;
      sla_threshold = threshold;
      month = month_of now;
      uptime_percent = average rows;
      is_violation = ltb (average rows) threshold;
      instance_details = rows;
    }

unfoldable pub get_sla : Database → Settings → ℕ → ℕ → Action Sla
unfolding get_client get_client_instances
get_sla db settings now i = do
  client ← get_client i
  instances ← get_client_instances db i
  pure (sla_of settings now client instances)
