-- ===== src/Lib.antt =====
-- Perimetr: the operator's server for Pods, app/ of this repository.
--
-- The operator signs in with an Access Key and manages Subjects. For a Subject a provisioning record
-- is created, whose bundle carries a one-time token; the program that runs from the bundle enrolls
-- as a Pod with the token, a login and a P-256 key, then proves its user and sends signed heartbeats.
-- Revoked keys, devices and tokens stand on a deny list. Every action leaves an audit event.
--
-- The files, and the code they model:
--   Prelude        Boolean tests, lists, options and texts that all parts share
--   Json           values of JSON columns and payloads
--   Http           the end of a request: `HTTPException`, commit and roll-back (app/database.py)
--   Platform       what the code calls of the Python library and of cryptography, as parameters
--   Settings       the settings that are read (app/settings.py), the clock and the drawn secrets
--   Database       the tables (app/models.py), and their look-ups
--   RateLimiter    `LoginRateLimiter` (app/security.py)
--   Security       the verifier of the Access Key, and in Startup the settings that production does
--                  not start with (app/security.py)
--   RequestPolicy  origin and CSRF checks, in Client the address of a client, and in Boundary the
--                  limit of a request's body (app/request_policy.py)
--   Preferences    the operator's preferences (app/operator_settings.py): Edits, Update
--                  (`update_preferences`)
--   Redaction      `text`, `redact` and `bounded` (app/redaction.py)
--   Audit          `audit` (app/services.py), `trim_audit_events` (app/logs_service/service.py)
--   Sessions       logins, leases and authorizations (app/services.py, app/api_service/app.py):
--                  Login, Leases (`require_core_access`, `direct_logout`, `update_access_key`), Direct
--                  (`direct_login`, `change_access_key`), Subjects (`authorize_subject`,
--                  `revoke_subject`)
--   Pods           app/pod_service.py and the Pod routes of app/api_service/app.py: Credentials,
--                  Config, Names, Provision (`create_subject_pod`, `download_subject_pod`),
--                  Applicant and Enroll (`enroll_pod`), Heartbeat, Access (`verify_pod_access`,
--                  `read_pod_runtime_status`), Manage (`revoke_pod` and the other changes of one
--                  Pod), Removal (`delete_pending_pod`, `delete_subject`)
--   Artifacts      app/pod_artifacts.py: Version (`compare_versions`), Manifest (`_verify_manifest`),
--                  Stored (the cache), Download, Latest (`ensure_latest_pod_artifact`), Pinned
--                  (`resolve_pinned_pod_artifact`); their theorems in Version.Order,
--                  Manifest.Signed and Ready
--   Kernel         app/kernel_register.py: References, Snapshot (`load_snapshot`), Values
--                  (`_resolve`, `resolve_values`, `_replace_resolved`), Apply (`apply_register`);
--                  Current (`get_settings` of app/settings.py), Connection
--                  (app/kernel_connection.py)
--   Samples        concrete parameters and rows for the tests
--
-- A handler is a function from the database to an `Outcome`: the new database with the answer, or the
-- committed database with the status and detail of the exception. Requests are serialized by the
-- advisory lock of app/database.py, so one request is one step. A request reads the clock once, and
-- the identifiers and secrets that it draws are numbered. Times are microseconds, those of the
-- limiter nanoseconds. Loops are recursions on the rows, so no fuel is needed; redaction recurses on
-- the value.
--
-- Hashes, ciphers, signatures, regular expressions and the parsers of the standard library are
-- functions of `Platform` and of `Patterns`; what a theorem needs of them stands among its
-- hypotheses. The provisioning handlers take the functions of app/pod_artifacts.py as an
-- argument. Its cache is a function from digests to slots with the state file as a record, the
-- network a function from requests to replies; a file is written in one step, its bytes are the
-- characters of a text, and a number in a text may have any length. The bounds of text columns are
-- modelled for heartbeats only. Not modelled: pages and files,
-- images, tags, policies, overview and correlation, the updater, backups, migrations and scripts.
pub mod Prelude
pub mod Json
pub mod Http
pub mod Redaction
pub mod Platform
pub mod Settings
pub mod Samples
pub mod Database
pub mod Audit
pub mod Pods
pub mod Security
pub mod RequestPolicy
pub mod Sessions
pub mod RateLimiter
pub mod Artifacts
pub mod Kernel
pub mod Preferences
