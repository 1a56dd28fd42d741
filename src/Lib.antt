-- ===== src/Lib.antt =====
-- FDM Platform backend: command templates and their registry, the job engine with its locks and logs,
-- maintenance windows, schedules, backups, alerts, compliance and sign-in.
--
-- The platform runs administrative commands on servers. A caller asks for an action by name with
-- parameters; the registry names a template for it; the parameters are checked against whitelists
-- and rendered to an argument vector, never to a shell line; the job engine stores a job, takes a
-- lock that is named by its target and its action or lock class, hands it to a queue, and a worker runs
-- it and drives it to a terminal status.
-- A scheduler creates such jobs when they are due; sweeps compare samples with alert rules and backups
-- with policies; users sign in with a password and, if they enrolled, a second factor.
--
-- The parts, and the files that model them (paths from the repository's root):
--   Base         lists, texts as lists of code points, dictionaries, results of code that may raise.
--   Regex        the regular expressions that the whitelists use, matched by derivatives.
--   Templates    backend/app/core/commands/templates.py: `ParamSpec.validate` is `validate`, the loop
--                of `render` is `collect`, its end is `finish`, the whole is `render`. `str.format`
--                constants are lists of pieces; `shlex.quote` and `join` are in Templates/Quoting.
--   Permissions  backend/app/core/permissions.py: the default roles.
--   Registry     backend/app/core/commands/registry.py and report_actions.py: each registered
--                template as data, `get_template`, and what holds of all of them.
--   Logs         `LogWriter` of backend/app/core/jobs.py: redaction, batches, publication.
--   Windows      backend/app/models/maintenance_window.py: `is_active_at`, `occurrences_between`.
--                An instant is a number of microseconds.
--   Jobs         backend/app/core/jobs.py, backend/app/core/secrets_resolve.py and
--                backend/app/models/job.py. The shared state is the record `World`: the committed
--                rows, the queue, the audit trail, the calls of the notifier, the runner's own log
--                lines, and the state of a backend behind the interface `JobBackend`, which
--                `InMemoryJobBackend` fills (Jobs/Backend), and `RedisJobBackend` as long as no
--                key expires (Jobs/Redis). `JobRunner.create` is in Jobs/Create,
--                `cancel` and `retry` in Jobs/Cancel, `run_job` and `_to_terminal` in Jobs/Run.
--                Jobs/Steps has the calls as a step relation, in which API processes and workers
--                interleave in any order; a step is one whole call, though a call may commit
--                more than once, and what others see in between is not modelled.
--   Throttle     `LoginThrottle` of backend/app/core/ratelimit.py: failures, lockouts and eviction.
--   Retention    `plan_retention` of backend/app/core/backups.py: the sweep of old backups.
--   Restic       backend/app/core/restic.py with the rows of models/restic.py and models/storage.py.
--   Schedules    backend/app/core/scheduler.py and backend/app/models/schedule.py. `Store` is the
--                database around the job engine's `World`; `_build_fire` is in Schedules/Fire with the
--                targets in Schedules/Targets, `dispatch_schedule` and `tick` in Schedules/Dispatch.
--   Alerts       backend/app/core/alerts.py and backend/app/models/alert.py: `evaluate_alerts` is in
--                Alerts/Sweep, `deliver_firing` with `post_webhook` in Alerts/Deliver.
--   Compliance   backend/app/core/compliance.py and backend/app/models/compliance.py:
--                `evaluate_policy`, and `evaluate_all` in Compliance/Sweep.
--   Mfa          backend/app/core/mfa.py and `totp_verify` of backend/app/api/routes/auth.py, which
--                goes through a `LoginThrottle` of its own. `Mfa/Verify` has the handler.
--   Login        `login` of backend/app/api/routes/auth.py over a `LoginThrottle`.
--
-- How they interact: `create` asks `get_template`, `blocking_window`, `resolve_secrets` and `render`;
-- `run_job` renders again from the stored parameters; the log of a run goes through `LogWriter`. A tick
-- of the scheduler fires through `create`; both steps of a sign-in go through a `LoginThrottle`.
--
-- Bounds and fuel: the loop of `run_job` has fuel 4, one attempt and at most three retries; the loop
-- of `occurrences_between` has fuel end - start + 2, since each turn moves to a later instant.
--
-- What stands outside is a parameter: the letters of Unicode, the cron library with its laws, Fernet,
-- RQ (it raises or answers with an id), what comes of the calls of `create` to the backend of the
-- locks (an answer, or an exception before or after their effect), the commands of Redis, pyotp,
-- argon2, `ipaddress`, HMAC, SMTP and HTTP, the rows of other tables, the clock, and what each attempt
-- of an action comes to. Not modelled: a failure of any other call to that backend or of a commit, the
-- bodies of the actions, SSH and the executors, the expiry of Redis keys, the HTTP routes except for
-- `login`, `totp_verify` and the permission check of `create_job`, the frontend and the migrations. The
-- calls of `cancel` and `run_job` see the row as committed; a stale read by a concurrent
-- session is not modelled. An alert sweep, a compliance sweep and a sign-in are one step each.
pub mod Base
pub mod Regex
pub mod Permissions
pub mod Templates
pub mod Registry
pub mod Logs
pub mod Windows
pub mod Jobs
pub mod Throttle
pub mod Retention
pub mod Restic
pub mod Schedules
pub mod Alerts
pub mod Compliance
pub mod Mfa
pub mod Login
