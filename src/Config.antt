-- ===== src/Config.antt =====
-- app/config.py: the settings that the code reads. The environment may change each of them, so the
-- services take them as an argument; `defaults` has the values written in the file.
use assignment_cloud_instanc.Prelude.{ℕ}
use assignment_cloud_instanc.Models.{
  ContractPlan, basic, standard, premium, InstanceType, small, medium, large,
}

-- Percentages are in thousandths of a percent, prices in cents, times in the unit of the name.
pub record Settings : Type 0 where
  pub access_token_expire_minutes : ℕ
  pub login_max_failures_per_account : ℕ
  pub login_max_failures_per_ip : ℕ
  pub login_window_seconds : ℕ
  pub diagnosis_cache_ttl_seconds : ℕ
  pub cpu_warning_threshold : ℕ
  pub long_stopped_hours : ℕ
  pub price_small : ℕ
  pub price_medium : ℕ
  pub price_large : ℕ
  pub sla_premium : ℕ
  pub sla_standard : ℕ
  pub sla_basic : ℕ

abbrev pub defaults : Settings
defaults = record {
  access_token_expire_minutes = 120;
  login_max_failures_per_account = 10;
  login_max_failures_per_ip = 50;
  login_window_seconds = 900;
  diagnosis_cache_ttl_seconds = 1800;
  cpu_warning_threshold = 80_000;
  long_stopped_hours = 48;
  price_small = 50_00;
  price_medium = 120_00;
  price_large = 250_00;
  sla_premium = 99_900;
  sla_standard = 99_000;
  sla_basic = 95_000;
}

-- `UNIT_PRICES`, by the name of an instance type.
abbrev pub unit_prices : Settings → InstanceType → ℕ
unit_prices settings small = settings.price_small
unit_prices settings medium = settings.price_medium
unit_prices settings large = settings.price_large

-- `SLA_THRESHOLDS`, by the name of a contract plan.
abbrev pub sla_thresholds : Settings → ContractPlan → ℕ
sla_thresholds settings premium = settings.sla_premium
sla_thresholds settings standard = settings.sla_standard
sla_thresholds settings basic = settings.sla_basic
