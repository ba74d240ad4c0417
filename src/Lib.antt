-- ===== src/Lib.antt =====
-- Cloud instance monitoring backend.
--
-- The service keeps members, clients, instances and alerts in a relational database. Its monitoring
-- scans look for instances in a bad state and record alerts; managers see their own clients only.
--
-- Parts and files (paths from the root of the repository):
--   Models        app/models/models.py: rows and enumerations
--   Config        app/config.py: settings, prices, thresholds
--   Session       app/database.py `get_db`, the exceptions, `commit`
--   Database      what is relied on of the database: new ids and ORDER BY
--   Integrity     keys and references of the tables
--   Pagination    app/pagination.py `paginate`
--   Access        app/core/deps.py
--   Security      app/core/security.py
--   Schemas       app/schemas/schemas.py
--   Monitor       app/services/monitor_service.py: `_scan`, `_record_alerts`, the checks
--   Report        the same file: `build_report`
--   Instances     app/services/instance_service.py
--   Alerts        app/services/alert_service.py; `Alerts.Newest` says without its tests what the queries
--                 on alerts ask for
--   Clients       app/services/client_service.py
--   Store         app/core/store.py: `MemoryStore`; `Store.Redis` is `RedisStore`, and `Store.Singleton` the
--                 double-checked lock of `get_store` and of `_get_client` in app/services/llm_service.py;
--                 `Store.Ideal` says without purges what the calls of a store answer
--   RateLimit     app/core/rate_limit.py; `RateLimit.Threads` is log ins that run at the same time
--   Revocation    app/core/revocation.py, and `get_token_claims` of app/core/deps.py
--   Diagnosis     app/services/llm_service.py
--   Controllers   app/controllers, one child for each file
--   Api           the requests as steps on the rows and the store: dependencies, bounds, routes; what one
--                 call may change (`Api.Changes`), runs of requests (`Api.Requests`), and the errors of the
--                 API against docs/api/ERRORS.md (`Api.Errors`)
--   Seed          app/seed.py: the demo rows
--   DocsSync      scripts/check_docs_sync.py: the documents that a commit leaves out
--   Responses     the exception handlers of app/main.py, and app/core/exceptions.py
--   Prelude       lists, Boolean tests, permutations, integers, text, dates
--   Samples       a concrete database and tables, and the theorems on them
--
-- "Tables with sound keys" are those of `Integrity.IsValid`: the ids of a table are unique, those of
-- instances positive, and every foreign key names a row; so for all five tables, the cost snapshots of
-- app/seed.py included.
--
-- A request runs on the committed rows and answers a result with the rows that it leaves committed
-- (`Session.request`); a raise drops what was not committed. WHERE, LIMIT and OFFSET are list functions;
-- the ids of new rows and ORDER BY are a parameter (`Database`) with the laws that the code relies on.
-- A reading of the clock is an argument. An operation of the store takes the store and gives it back,
-- one step under its lock; what a key holds at a time is `Store.Live.held`.
--
-- Bounds: the loop of `_scan` runs on fuel, one more than the rows of the table, which is enough since
-- every round but the last takes a full batch; what would happen without fuel is an argument of
-- the model. Ids and pages are natural numbers (negative ids, which name no row, are left out); one that a
-- statement takes and that is above 2^63 - 1, the greatest integer of the default SQLite, raises in the
-- driver, and nothing handles that (`Database.binds`, `Pagination.offset_binds`, `Session.overflow`).
-- Percentages are whole thousandths and money is in cents, so the rounding errors of floats are not in the
-- model.
--
-- A whole request (`Api.handle`) runs as the framework composes it: the token's claims, by the store; the
-- member; the route's dependency; the bounds of the parameters; the handler. Nothing of it but `logout` and
-- `login` writes the store, except the cache of diagnoses. `Api.Changes.Change` says without the code what
-- a call may do to the rows.
--
-- Parameters, with the laws that the code relies on: the database (`Database`), the key derivation (`Kdf`),
-- the signed encoding of tokens (`Jwt`; a token is decoded from the time of its `iat` on and before its
-- `exp`), `int` and `str.strip`, SHA-256, the provider of diagnoses, and the Redis server (`Server`: what a transaction answers, or that it fails; `Documented`
-- says of the commands what their documentation does).
--
-- Not modelled: the parsing of requests and the rendering of responses by the HTTP framework, the rest of
-- the start of the application, the script that captures screenshots in a browser, and requests that run at
-- the same time, but for the double-checked lock and the counters of log ins.
pub mod Prelude
pub mod Models
pub mod Config
pub mod Session
pub mod Database
pub mod Pagination
pub mod Access
pub mod Integrity
pub mod Monitor
pub mod Instances
pub mod Alerts
pub mod Clients
pub mod Report
pub mod Responses
pub mod Store
pub mod RateLimit
pub mod Revocation
pub mod Schemas
pub mod Security
pub mod Diagnosis
pub mod Controllers
pub mod Api
pub mod Seed
pub mod DocsSync
mod Samples
