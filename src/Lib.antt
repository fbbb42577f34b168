-- ===== src/Lib.antt =====
-- The model training platform: an API (apps/api) that takes training, benchmark and inference jobs
-- into PostgreSQL, Python workers (workers) that run them, a web client (apps/web), and a scheduler
-- (apps/scheduler) that recovers what workers lose. The API and the scheduler meet in the database:
-- a job is a row with a status, an attempt at it is a row of `job_executions`, and a row of
-- `outbox_events` hands the attempt to a worker. This library models the code that moves jobs
-- between statuses, and the code that admits requests.
--
-- Tables. Database/Status has the enumerations and Database/Rows the rows of
-- packages/db/src/index.ts, with the columns that the modelled code uses; `Database` holds every
-- table as a list of rows. An UPDATE is `update`, a SELECT `select` or `take_first`, a count
-- `count` (Common/Lists). Ids, UUIDs and times in seconds are natural numbers, a status and a
-- column of `training_jobs` are data. A transaction's body is a function from the database to the
-- one that it leaves, or to none where it throws. Json has the values of a JSON column.
--
-- Audit (apps/api/src/audit/audit.service.ts): `append`, `deepRedact` and `SENSITIVE_KEYS`.
--
-- Training/Machine (apps/api/src/training/training-state-machine.ts): LEGAL is `legal`,
-- TIMESTAMP_FOR `timestamp_for`, `transition` the method of that name, whose error is the HTTP code
-- and status. `extraSet` is a list of assignments, in its order. Training/Service is
-- apps/api/src/training/training.service.ts: Submit has `create` and `clone`, Retry `retry`, Stop
-- `requestStop`, and Configuration the checks, the snapshot and the first dispatch.
--
-- Execution: the attempts of a job, and the unique constraint on them, which makes an INSERT throw.
--
-- Scheduler: each file of apps/scheduler/src is a module. Retry is retry.ts
-- (Retry/Stage its `retryFailedTrainingJobs`), Promote promote.ts,
-- Reconcile reconcile.ts (Benchmark and Inference its two finalisers, Training the recovery of a
-- training job, Records that of the other job types), Workers workers.ts, Reindex reindex.ts and
-- Tick index.ts. A stage runs one transaction for each candidate that its first query returned, on
-- the database that the earlier ones left; `Env` holds its clock, the identifiers that it draws and
-- which commits the database refuses. Tick composes the stages, each of whose first queries may
-- throw, and Tick/Leader interleaves the steps of several instances' ticks: the flag, the
-- advisory lock, which belongs to a session of the database, and the stages by name only.
--
-- Auth: Auth/Session is apps/api/src/auth/session.service.ts, over the tables of Auth/Store, where
-- `redis` is what Redis answers for a token's hash; Auth/Permission is
-- apps/api/src/auth/permission.map.ts, and Auth/Guard is apps/api/src/auth/guards/auth.guard.ts,
-- whose token hash and CSRF signature are arguments. Roots is apps/api/src/common/roots.ts, on the
-- codes of a path's characters, and Weights packages/shared-types/src/yolo-weights.ts.
--
-- Auth/Login and Auth/Password are apps/api/src/auth/auth.controller.ts, over the same tables: `login`,
-- `logout`, `change_password` and `delete_session` are its methods, `increment_failed_login` its
-- lockout; argon2 is a parameter. Admin/Users is apps/api/src/admin/users/admin-users.service.ts:
-- Status has `disable`, `enable`, `unlock` and `set_password`, Creating `create`, Editing `update`,
-- Sessions the two ways to end sessions, and Rows what they share.
--
-- Outbox is apps/api/src/outbox: Outbox/Rows has the table and `enqueue`, Outbox/Publisher the tick,
-- which may be rolled back when part of its batch is on the stream already. Idempotency is
-- apps/api/src/common/interceptors/idempotency.interceptor.ts; Idempotency/Runs interleaves requests.
-- Http has the errors that the services throw, Common/Text what they do with strings.
--
-- RateLimit is apps/api/src/common/rate-limit: `consume` and the guard of the login. The three
-- checks of a request run at once in the source and one after another here; their keys differ.
-- RateLimit/Window has what Redis documents of its three commands, as hypotheses.
--
-- Bounds. Every loop runs over a list of rows, so there is no fuel. Numbers are unbounded: attempt
-- numbers, row versions and delays stay far below what JavaScript and PostgreSQL hold exactly.
--
-- Parameters. The clock, `randomUUID`, the commit's success, the grant of the advisory lock: all
-- are arguments. PostgreSQL's isolation is taken at its word: each transaction is one step.
--
-- Not modelled: logging, timers and signals, the other services of the API,
-- `normalizeHyperparameters` of the training service, the web client, the
-- Python workers, and the aborts of a reindex transaction, which end that stage early.
pub mod Common
pub mod Json
pub mod Http
pub mod Database
pub mod Audit
pub mod Auth
pub mod Admin
pub mod Outbox
pub mod Idempotency
pub mod RateLimit
pub mod Execution
pub mod Scheduler
pub mod Training
pub mod Roots
pub mod Weights
pub mod Tests
