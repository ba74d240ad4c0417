-- ===== src/Diagnosis/Cache.antt =====
-- What the cache of diagnoses holds and answers (app/services/llm_service.py).
use Prim.Native.String.{count as characters}
use assignment_cloud_instanc.Prelude.{
  ℕ, ◌≤◌, ◌<◌, ◌+◌, ◌≡◌, refl, ap, ◌∙◌, true, false, none, some, String, List, arith, leb,
}
use assignment_cloud_instanc.Models.{Instance, Alert}
use assignment_cloud_instanc.Config.{Settings}
use assignment_cloud_instanc.Store.{Value, str, Store, seconds, get, set, value_of}
use assignment_cloud_instanc.Store.Keys.{str_eq_self}
use assignment_cloud_instanc.Store.Live.{IsMap, held}
use assignment_cloud_instanc.Store.Timed.{get_answers, set_writes}
use assignment_cloud_instanc.Diagnosis.{
  Provider, rule_based_diagnosis, cache_key, llm_diagnosis, answered, diagnose, text_of,
}

nul_text : characters "\0" ≡ 1
nul_text = refl

module _ (sha256 strip : String → String) (settings : Settings) (instance : Instance)
    (alerts : List Alert) where
  abbrev pub key : String
  key = cache_key sha256 strip instance alerts

  abbrev pub ttl : ℕ
  ttl = settings.diagnosis_cache_ttl_seconds

  module _ (provider : Provider) (now later : ℕ) (st : Store) (m : IsMap st.entries)
      (caches : 1 ≤ ttl) where
    caching : leb 1 ttl ≡ true
    caching = ground arith

    diagnose_cached :
        {v : Value}
        → value_of (held key now st) ≡ some v
        → (diagnose sha256 strip settings provider instance alerts now later st).0
          ≡ (text_of v, "llm")
    unfolding diagnose
    diagnose_cached h =
        let out : (get key now st).0 ≡ some _ =
          (get_answers key key now now (omega arith) st m).0 ∙ h in
        rw (caching, out) refl

    missed :
        {r : (String × String) × Store}
        → value_of (held key now st) ≡ none
        → answered sha256 strip settings provider instance alerts
            (llm_diagnosis sha256 strip provider instance alerts)
            (some key)
            later
            (get key now st).1
          ≡ r
        → diagnose sha256 strip settings provider instance alerts now later st ≡ r
    unfolding diagnose
    missed h e =
        let out : (get key now st).0 ≡ none =
          (get_answers key key now now (omega arith) st m).0 ∙ h in
        rw (caching, out) e

    -- With caching on, on a store with every key once that holds no diagnosis of the instance
    -- and its alerts: if the model gives no text, the rule-based diagnosis is answered, and no
    -- key of the store holds anything else than before from then on.
    pub diagnose_falls_back :
        (k : String) (t : ℕ)
        → now ≤ t
        → value_of (held key now st) ≡ none
        → llm_diagnosis sha256 strip provider instance alerts ≡ none
        → let out = diagnose sha256 strip settings provider instance alerts now later st in
          (out.0 ≡ (rule_based_diagnosis settings instance alerts, "rule-based"))
          × (held k t out.1 ≡ held k t st)
    diagnose_falls_back k t h empty fails =
        let out = missed empty (
          ap
            (λ text.
              answered sha256 strip settings provider instance alerts text (some key) later
                (get key now st).1)
            fails) in
        rw out (refl, (get_answers key k now t h st m).1)

  -- With caching on, on a store with every key once that holds no diagnosis of the instance and
  -- its alerts: a diagnosis that the model answers returns its text, and until the lifetime of
  -- the cache is over the same instance and alerts are answered that text again, whatever the
  -- provider would answer then.
  pub diagnose_reuses :
      (provider provider' : Provider) (now later now' later' : ℕ) (st : Store) {text : String}
      → IsMap st.entries
      → 1 ≤ ttl
      → now ≤ later
      → later ≤ now'
      → now' < later + seconds ttl
      → value_of (held key now st) ≡ none
      → llm_diagnosis sha256 strip provider instance alerts ≡ some text
      → let out = diagnose sha256 strip settings provider instance alerts now later st in
        (out.0 ≡ (text, "llm"))
        × ((diagnose sha256 strip settings provider' instance alerts now' later' out.1).0
            ≡ (text, "llm"))
  diagnose_reuses provider provider' now later now' later' st {text} m caches h g early empty
        answers =
      let read : Store = (get key now st).1 in
      let read_map : IsMap read.entries = (get_answers key key now later h st m).2 in
      let out = missed provider now later st m caches empty (
        ap
          (λ text.
            answered sha256 strip settings provider instance alerts text (some key) later read)
          answers) in
      let written = set_writes key key later now' g read read_map (str text) ttl in
      let alive : leb (later + seconds ttl) now' ≡ false = ground arith in
      let kept : value_of (held key now' (set key (str text) ttl later read)) ≡ some (str text) =
        rw written.0 (rw (str_eq_self, alive) refl) in
      rw out (
        refl,
        diagnose_cached provider' now' later' (set key (str text) ttl later read) written.1 caches
            kept,
      )
