-- ===== src/Diagnosis.antt =====
-- app/services/llm_service.py: the diagnosis of an instance, from the provider's model or from rules,
-- and its cache. The provider, SHA-256 and `str.strip` are parameters.
pub mod Cache
use Prim.Native.String.{◌++◌}
use text.Mathlib.Text.{◌==◌ as str_eq}
use assignment_cloud_instanc.Prelude.{
  ℕ, suc, ◌/◌, ◌%◌, Bool, true, false, not, Option, none, some, String, List, [], ◌∷◌,
  ◌++◌ as append, filter, any, length, leb, if◌then◌else◌,
}
use assignment_cloud_instanc.Prelude.Ints.{ℤ, pos, negsuc}
use assignment_cloud_instanc.Prelude.Text.{show, fixed_1, join}
use assignment_cloud_instanc.Prelude.Calendar.{two, stamp}
use assignment_cloud_instanc.Models.{
  Instance, Alert, cpu_high, alert_type_eq, alert_type_value, type_value, status_value,
}
use assignment_cloud_instanc.Config.{Settings}
use assignment_cloud_instanc.Store.{Value, number, str, Store, get, set}

-- A block of the provider's answer, and the outcome of one request: `none` is an exception.
pub record Block : Type 0 where
  pub is_text : Bool
  pub text : String

abbrev pub Provider : Type 0
Provider = String → Option (List Block)

-- `MODEL` and `SYSTEM_PROMPT`
abbrev pub model : String
model = "claude-opus-4-8"

abbrev pub system_prompt : String
system_prompt =
    "You are a senior cloud infrastructure engineer at TechValley, an IT consulting firm monitoring cloud instances for client companies. Given an instance in ERROR state, produce a concise incident diagnosis in English with exactly three sections: 'Probable Causes' (2-4 bullet points, most likely first), 'Recommended Actions' (numbered, ordered steps), and 'Prevention' (1-2 bullets). Keep it under 250 words."

-- `s or default`
abbrev pub or_else : String → String → String
or_else s default = if str_eq s "" then default else s

unfoldable pub alert_line : Alert → String
unfolding stamp
alert_line a =
    "- ["
    ++ alert_type_value a.alert_type
    ++ "] "
    ++ stamp a.detected_at
    ++ " ("
    ++ (if a.is_resolved then "resolved" else "UNRESOLVED")
    ++ "): "
    ++ a.message

-- `_build_context`
unfoldable pub build_context : Instance → List Alert → String
unfolding alert_line fixed_1 show two stamp
build_context instance alerts =
    "Instance name: "
    ++ instance.instance_name
    ++ "\nRegion: "
    ++ instance.region
    ++ "\nType: "
    ++ type_value instance.instance_type
    ++ "\nStatus: "
    ++ status_value instance.status
    ++ "\nCPU usage: "
    ++ fixed_1 instance.cpu_usage
    ++ "%\nMonthly cost: $"
    ++ show (instance.monthly_cost / 100)
    ++ "."
    ++ two (instance.monthly_cost % 100)
    ++ "\nLaunched at: "
    ++ stamp instance.launched_at
    ++ "\nLast status update: "
    ++ stamp instance.updated_at
    ++ "\nRecent alerts:\n"
    ++ or_else (join alert_line "\n" alerts) "- (no alerts on record)"

unfoldable pub user_message : Instance → List Alert → String
unfolding build_context
user_message instance alerts =
    "Diagnose this cloud instance that is in ERROR state:\n\n" ++ build_context instance alerts

-- `_rule_based_diagnosis`
unfoldable pub causes : Settings → Instance → List Alert → List String
unfolding fixed_1
causes settings instance alerts =
    append
      (if leb settings.cpu_warning_threshold instance.cpu_usage
        then ("- Resource exhaustion: CPU was at "
            ++ fixed_1 instance.cpu_usage
            ++ "% before failure; the workload likely exceeded the instance capacity.")
          ∷ []
        else [])
      (append
        (if any (λ (a : Alert). alert_type_eq a.alert_type cpu_high) alerts
          then "- Repeated CPU_HIGH alerts suggest sustained overload leading to a crash." ∷ []
          else [])
        ("- Application-level fault (unhandled exception, OOM kill, or failed deployment)."
          ∷ ("- Possible infrastructure/zone issue in region '" ++ instance.region ++ "'.")
          ∷ []))

unfoldable pub rule_based_diagnosis : Settings → Instance → List Alert → String
unfolding causes show stamp
rule_based_diagnosis settings instance alerts =
    let unresolved = filter (λ (a : Alert). not a.is_resolved) alerts in
    "Probable Causes\n"
    ++ join (λ s. s) "\n" (causes settings instance alerts)
    ++ "\n\nRecommended Actions\n1. Check system and application logs for the failure timestamp (last status change "
    ++ stamp instance.updated_at
    ++ ").\n2. Attempt a controlled restart of the instance and monitor boot diagnostics.\n3. If overload-related, resize the instance (currently "
    ++ type_value instance.instance_type
    ++ ") or add horizontal capacity.\n4. Verify recent deployments/config changes and roll back if correlated.\n5. Resolve the "
    ++ show (length unresolved)
    ++ " unresolved alert(s) after confirming recovery.\n\nPrevention\n- Configure auto-restart/health checks and capacity alerts below the 80% CPU threshold.\n- Review sizing against workload trends during the monthly cost review."

-- The text of a value of the store.
abbrev pub int_text : ℤ → String
int_text (pos n) = show n
int_text (negsuc n) = "-" ++ show (suc n)

abbrev pub text_of : Value → String
text_of (number z) = int_text z
text_of (str s) = s

module _ (sha256 strip : String → String) where
  -- `_cache_key`
  unfoldable pub cache_key : Instance → List Alert → String
  unfolding show user_message
  cache_key instance alerts =
      "diagnosis:"
      ++ show instance.id
      ++ ":"
      ++ sha256 (model ++ "\0" ++ system_prompt ++ "\0" ++ user_message instance alerts)

  abbrev pub text_or_none : Option (List Block) → Option String
  text_or_none none = none
  text_or_none (some content) =
      let text =
        strip (join (λ (b : Block). b.text) "" (filter (λ (b : Block). b.is_text) content)) in
      if str_eq text "" then none else some text

  -- `_llm_diagnosis`
  unfoldable pub llm_diagnosis : Provider → Instance → List Alert → Option String
  unfolding user_message
  llm_diagnosis provider instance alerts = text_or_none (provider (user_message instance alerts))

  module _ (settings : Settings) (provider : Provider) (instance : Instance)
      (alerts : List Alert) where
    -- The end of `diagnose`, from what `_llm_diagnosis` gives and the key, if there is one. The clock of the
    -- store is read at `now`.
    abbrev pub answered : Option String → Option String → ℕ → Store → (String × String) × Store
    answered (some text) (some key) now st =
        ((text, "llm"), set key (str text) settings.diagnosis_cache_ttl_seconds now st)
    answered (some text) none now st = ((text, "llm"), st)
    answered none key now st = ((rule_based_diagnosis settings instance alerts, "rule-based"), st)

    -- From what the cache holds.
    abbrev pub from_cache : String → ℕ → Option Value × Store → (String × String) × Store
    from_cache key now (some cached, st) = ((text_of cached, "llm"), st)
    from_cache key now (none, st) =
        answered (llm_diagnosis provider instance alerts) (some key) now st

    -- The cache is read at `now` and written at `later`.
    unfoldable pub diagnose : ℕ → ℕ → Store → (String × String) × Store
    unfolding cache_key llm_diagnosis
    diagnose now later st =
        let key = cache_key instance alerts in
        if leb 1 settings.diagnosis_cache_ttl_seconds
        then from_cache key later (get key now st)
        else answered (llm_diagnosis provider instance alerts) none later st
