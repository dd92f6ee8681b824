-- ===== src/Lib.antt =====
-- The attendance tracker: a multi-tenant server that recognises faces and records attendance.
-- Modelled are its sign-in and session core, its accounts and departments, the marking of
-- attendance with its lists, statistics, exports and charts, API keys, organizations and the rate
-- limit, the checks of the configuration, and its recognition: the matcher and its registry, the
-- liveness checks, the settings of an organization, recognition and the registration of faces.
--
-- Parts, and how they meet. A route runs in one database session (`Handler`): it reads and writes
-- the working tables, may commit, and calls mail, the live feed or the match index (`Effect`).
-- `request` runs a route as src/database/session.py does: commit on return, rollback on an
-- exception. Routes call the services, and the services change the tables; sign-out, a reused
-- refresh token and a new password meet in `revoke_all_user_tokens`, and `get_current_user` and
-- `rotate_refresh_token` read what it writes.
--
--   Prelude, Prelude/*      shared names, Boolean tests, table queries and their laws
--   Database/Rows           the tables of src/database/models.py as records, `Db` for all of them
--   Database/Session        src/database/session.py: `Handler`, `commit`, `get_db`, `request`
--   Database/Keeps, Refuse  rules for invariants of handlers and for handlers that only test
--   Platform                parameters: jose, bcrypt, HMAC, Unicode tables, settings, random draws
--   Tokens                  src/services/auth_service.py and the JWT part of src/utils/security.py
--   Identity                src/api/dependencies.py
--   Audit                   src/services/audit.py, `record_audit`
--   Passwords               the password part of src/utils/security.py
--   Reset                   src/services/password_reset.py
--   SignIn                  src/api/routes/auth.py; SignIn/History runs its routes in sequence
--   Marking                 src/services/attendance_service.py and the marking routes of
--                           src/api/routes/attendance.py
--   Reports                 the reading routes of the same file: Reports has the lists,
--                           Reports/Stats the statistics, Reports/Sheet and Reports/Task the
--                           rows of the exports of the route and of the worker (the latter in
--                           src/workers/tasks/export_tasks.py)
--   Dashboard               the summary, the charts and the feed of src/api/routes/dashboard.py
--   Feed                    the local part of src/services/events.py, and the event stream of
--                           src/api/routes/dashboard.py
--   Departments             src/api/routes/departments.py
--   Users, Users/*          src/api/routes/users.py: creation, update, deactivation, bulk import,
--                           administrator passwords, lists
--   ApiKeys                 the API keys of src/api/routes/admin.py
--   Organizations           the organizations of the same file
--   Config                  the validators of src/config.py
--   Export                  src/services/export_safety.py
--   RateLimit               src/api/middleware/rate_limit.py
--   Numerics                parameters: floats, vectors, images, FAISS, detectors and networks
--   Matcher                 src/inference/matcher.py
--   Registry                src/inference/index_manager.py, a matcher for each organization; loads,
--                           updates and removals beside the tables are the steps of Registry/Steps
--   Images                  `decode_base64_image` of src/api/routes/recognition.py, and
--                           `QualityChecker.check` of src/preprocessing/quality_checker.py
--   Liveness                src/anti_spoofing/liveness.py
--   Challenge               src/anti_spoofing/challenge_response.py
--   OrgSettings             src/services/org_settings.py, and the settings routes of
--                           src/api/routes/dashboard.py
--   Recognition             `recognize` of src/api/routes/recognition.py; a `Task` changes the
--                           session, the registry and the liveness detector
--   Batch                   `batch_recognize` of the same file
--   Registration            the routes of the same file that register, remove and show a template
--   Maintenance             src/workers/tasks/maintenance_tasks.py
--   Tests, Tests/*          a small installation, and an application of each result that has one
--
-- Definitions carry the names of the functions that they model; the modules below a definition's
-- module hold its theorems. UUIDs, token ids, digests and hashes are numbers, since the code only
-- compares them; text is a list of code points; an instant is a number of microseconds. A lookup
-- that the source reads by `scalar_one_or_none` is the first row that meets the condition.
--
-- Bounds. All loops are recursions on lists; nothing runs on fuel. `create_reset_token` draws its
-- candidates from a list, of five in the source. Python's integers do not wrap, and neither do the
-- numbers here; subtraction stops at 0 where the source takes a maximum with 0 or where the
-- instant is later than the amount.
--
-- A date is the number of its day in one time zone, that of the server and of the database. The
-- order of rows with one timestamp is the database's and may differ from query to query:
-- `newest_first` is a parameter of each query. The two properties that relate several queries, on
-- the pages of a list and on the two exports, give each query an order of its own, which arranges
-- the rows by descending timestamp, and assume that no two of the rows have one timestamp.
--
-- Not modelled: failures of the database itself, and two requests at once, but for a removal that
-- comes between the steps of a load; Redis, mail, file storage and Celery, with the routes that
-- only start a task (training jobs, large exports); CSV and Excel output; what
-- networks compute, preprocessing and training; start-up, metrics and logging.
pub mod Prelude
pub mod Database
pub mod Platform
pub mod Numerics
pub mod Tokens
pub mod Identity
pub mod Audit
pub mod Passwords
pub mod Reset
pub mod SignIn
pub mod Maintenance
pub mod Marking
pub mod Departments
pub mod Users
pub mod OrgSettings
pub mod Images
pub mod Recognition
pub mod Registration
pub mod Registry
pub mod Reports
pub mod Config
pub mod Feed
pub mod Dashboard
pub mod Organizations
pub mod ApiKeys
pub mod Export
pub mod RateLimit
pub mod Matcher
pub mod Liveness
pub mod Batch
pub mod Challenge
pub mod Tests
