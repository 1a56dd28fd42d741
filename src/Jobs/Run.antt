-- ===== src/Jobs/Run.antt =====
-- `JobRunner.run_job` and `_to_terminal` of backend/app/core/jobs.py. The action itself, its session
-- and its executor are given by what each attempt comes to.
use frappe_os.Base.{Option, [], false, ltb, none, some, suc, true, zero, ℕ, ◌&&◌, ◌++◌, ◌+◌, ◌∷◌}
use frappe_os.Base.Results.{Result, err, ok, ◌>>=◌}
use frappe_os.Jobs.{
  CommandJob, JobError, World, set_row, Status, success, failure, cancelled, pending, running,
  max_auto_retries, Notice, cannot_start, retrying, unknown_action,
}
use frappe_os.Jobs.Backend.{JobBackend}
use frappe_os.Jobs.Cancel.{release, as_params}
use frappe_os.Jobs.Create.{Env, resolved_or, rendered_or, server_row, with_secrets, is_filled}
use frappe_os.Jobs.Secrets.{resolve_secrets}
use frappe_os.Registry.{get_template}
use frappe_os.Templates.{CommandTemplate, RenderedCommand}
use frappe_os.Templates.Render.{render}

-- How an attempt ends: it returns, or raises JobCancelled, JobFailedNoRetry or another exception.
pub data Outcome : Type 0 where
  returned job_cancelled failed_no_retry failed : Outcome

-- What a delivery comes to before the action runs.
pub data Start : Type 0 where
  idle : Start
  crashed : JobError → Start
  started : CommandJob → CommandTemplate → RenderedCommand → Start

-- Rendering on the worker: it has the stored parameters only.
unfoldable pub prepare_run : Env → CommandTemplate → CommandJob → Result JobError RenderedCommand
prepare_run env t job = elim (is_filled t.secret_sources) [
  | true ↦
      resolved_or (resolve_secrets env.secrets t job.secrets_enc (server_row env job.server_id))
      >>= λ resolved.
          rendered_or
            (render env.unicode t (with_secrets resolved (as_params job.params_sanitized)) false)
  | false ↦ rendered_or (render env.unicode t (as_params job.params_sanitized) true)
]

abbrev code_or : Option ℕ → Option ℕ → Option ℕ
code_or none old = old
code_or (some code) old = some code

-- The row after `_to_terminal`.
abbrev pub ended_row : Status → Option ℕ → ℕ → CommandJob → CommandJob
ended_row status code now job = record job {
  status = status;
  ended_at = some now;
  exit_code = code_or code job.exit_code;
}

abbrev pub running_row : ℕ → CommandJob → CommandJob
running_row now job = record job { status = running; started_at = some now }

abbrev pub retried_row : CommandJob → CommandJob
retried_row job = record job { retry_count = job.retry_count + 1 }

abbrev pub log_line : {S : Type 0} → ℕ → Notice → World S → World S
log_line i line w = record w { log = w.log ++ (i, line) ∷ [] }

module _ {S : Type 0} (B : JobBackend S) where
  -- JobRunner._to_terminal
  unfoldable pub to_terminal : Status → Option ℕ → ℕ → CommandJob → World S → World S
  unfolding release
  to_terminal status code now job w =
      record (set_row job.id (some (ended_row status code now job)) w) {
        backend = release B job w.backend;
        notified = w.notified ++ (job.id, status) ∷ [];
      }

  -- The rendered job is committed as running, or fails at once.
  unfoldable pub start_row : Env → CommandTemplate → CommandJob → World S → Start × World S
  unfolding prepare_run to_terminal
  start_row env t job w =
      let job' = running_row env.now job in
      let w' = set_row job.id (some job') w in
      elim (prepare_run env t job) [
        | ok cmd ↦ (started job' t cmd, w')
        | err e ↦
            (idle, to_terminal failure (some 1) env.now job' (log_line job.id (cannot_start e) w'))
      ]

  -- run_job up to the loop, for a row that is there.
  unfoldable pub begin_row : Env → CommandJob → World S → Start × World S
  unfolding release start_row to_terminal
  begin_row env job w = elim job.status [
    | pending ↦ elim (B.is_cancel_requested job.id w.backend) [
      | true ↦ (idle, to_terminal cancelled none env.now job w)
      | false ↦ elim (get_template job.action_name) [
        | none ↦ (crashed unknown_action, w)
        | some t ↦ start_row env t job w
      ]
    ]
    | cancelled ↦ (idle, record w { backend = release B job w.backend })
    | running ↦ (idle, w)
    | success ↦ (idle, w)
    | failure ↦ (idle, w)
  ]

  unfoldable pub begin : Env → ℕ → World S → Start × World S
  unfolding begin_row
  begin env i w = elim (w.jobs i) [ none ↦ (idle, w) | some job ↦ begin_row env job w ]

  -- The loop; `attempt n` is what the n-th run of the action comes to.
  unfoldable pub run_loop :
      ℕ → (ℕ → Outcome) → ℕ → CommandTemplate → CommandJob → World S → Option (World S)
  unfolding to_terminal
  run_loop zero attempt now t job w = none
  run_loop (suc fuel) attempt now t job w = elim (attempt (job.retry_count + 1)) [
    | returned ↦ some (to_terminal success (some 0) now job w)
    | job_cancelled ↦ some (to_terminal cancelled none now job w)
    | failed_no_retry ↦ some (to_terminal failure (some 1) now job w)
    | failed ↦ elim (t.idempotent && ltb job.retry_count max_auto_retries) [
      | true ↦
          let job' = retried_row job in
          let w' = log_line job.id (retrying job'.retry_count) (set_row job.id (some job') w) in
          run_loop fuel attempt now t job' w'
      | false ↦ some (to_terminal failure (some 1) now job w)
    ]
  ]

  -- The fuel is enough: an attempt follows each of at most three retries.
  abbrev pub loop_fuel : ℕ
  loop_fuel = max_auto_retries + 1

  abbrev pub finished : Option (World S) → Option (Result JobError (Unit {0}) × World S)
  finished none = none
  finished (some w) = some (ok tt, w)

  unfoldable pub run_started :
      (ℕ → Outcome) → ℕ → Start × World S → Option (Result JobError (Unit {0}) × World S)
  unfolding run_loop
  run_started attempt now (idle, w) = some (ok tt, w)
  run_started attempt now (crashed e, w) = some (err e, w)
  run_started attempt now (started job t cmd, w) = finished (run_loop loop_fuel attempt now t job w)

  -- JobRunner.run_job: it begins at `env.now`, and the loop ends at `now`.
  unfoldable pub run_job :
      Env → (ℕ → Outcome) → ℕ → ℕ → World S → Option (Result JobError (Unit {0}) × World S)
  unfolding begin run_started
  run_job env attempt now i w = run_started attempt now (begin env i w)
