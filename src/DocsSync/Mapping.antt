-- ===== src/DocsSync/Mapping.antt =====
-- scripts/check_docs_sync.py: the mapping from sources to documents, and the paths that the script names.
use assignment_cloud_instanc.Prelude.{String, List, [], ◌∷◌}

abbrev pub mapping : List (String × List String)
mapping =
    (
      "app/controllers/",
      "docs/api/ENDPOINTS.md" ∷ "docs/api/OVERVIEW.md" ∷ "docs/requirements/FRS.md"
          ∷ "docs/manual/USER_MANUAL.md" ∷ [],
    )
    ∷ ("app/schemas/", "docs/api/ENDPOINTS.md" ∷ "docs/requirements/FRS.md" ∷ [])
    ∷ ("app/models/", "docs/design/ERD.md" ∷ [])
    ∷ ("app/services/instance_service.py", "docs/business-rules/INSTANCE_LIFECYCLE.md" ∷ [])
    ∷ ("app/services/monitor_service.py", "docs/business-rules/ALERTING.md" ∷ [])
    ∷ ("app/services/alert_service.py", "docs/business-rules/ALERTING.md" ∷ [])
    ∷ (
      "app/services/client_service.py",
      "docs/business-rules/COST.md" ∷ "docs/business-rules/SLA.md" ∷ [],
    )
    ∷ ("app/services/llm_service.py", "docs/design/LLM_FEATURE.md" ∷ [])
    ∷ (
      "app/core/",
      "docs/api/AUTHENTICATION.md" ∷ "docs/business-rules/AUTHORIZATION.md" ∷ "docs/api/ERRORS.md"
          ∷ [],
    )
    ∷ ("app/database.py", "docs/design/DATABASE.md" ∷ "docs/design/ARCHITECTURE.md" ∷ [])
    ∷ ("app/pagination.py", "docs/api/CONVENTIONS.md" ∷ [])
    ∷ (
      "app/config.py",
      "docs/business-rules/README.md" ∷ "docs/design/ARCHITECTURE.md"
          ∷ "docs/operations/CONFIGURATION.md" ∷ [],
    )
    ∷ ("app/seed.py", "docs/demo/SEED_DATA.md" ∷ "docs/demo/ACCOUNTS.md" ∷ [])
    ∷ (
      "app/main.py",
      "docs/design/ARCHITECTURE.md" ∷ "docs/api/ERRORS.md" ∷ "docs/operations/DEPLOYMENT.md" ∷ [],
    )
    ∷ ("tests/", "docs/testing/FUNCTIONAL_TESTS.md" ∷ "docs/testing/TEST_CASES.md" ∷ [])
    ∷ []

abbrev pub swagger_sources : List String
swagger_sources =
    "app/controllers/" ∷ "app/schemas/" ∷ "app/core/" ∷ "app/main.py" ∷ "app/seed.py" ∷ []

abbrev pub changelog : String
changelog = "docs/changelog/CHANGELOG.md"

abbrev pub reading_order : String
reading_order = "docs/onboarding/READING_ORDER.md"

abbrev pub walkthrough : String
walkthrough = "docs/demo/WALKTHROUGH.md"

abbrev pub screenshots : String
screenshots = "docs/screenshots/"
