-- ===== src/Jobs/Cancel.antt =====
-- `JobRunner.cancel`, `retry` and `_release` of backend/app/core/jobs.py. The removal of the RQ job is
-- best effort, so a delivery of a cancelled job stays possible.
use frappe_os.Base.{Bool, Option, [], false, if◌then◌else◌, some, true, ℕ, ◌∷◌}
use frappe_os.Base.Dicts.{Dict}
use frappe_os.Base.Results.{Result, err}
use frappe_os.Base.Text.{Str}
use frappe_os.Jobs.{
  CommandJob, JobError, World, set_row, Status, failure, cancelled, not_retryable, is_pending,
  is_terminal,
}
use frappe_os.Jobs.Backend.{JobBackend}
use frappe_os.Jobs.Create.{Env, Request, create, release_if_locked}
use frappe_os.Templates.Render.{Params}

-- The stored parameters as arguments of a new call.
abbrev pub as_params : Dict Str → Params
as_params [] = []
as_params ((name, v) ∷ params) = (name, some v) ∷ as_params params

abbrev pub is_retryable : Status → Bool
is_retryable failure = true
is_retryable cancelled = true
is_retryable _ = false

abbrev pub retry_request : Option ℕ → CommandJob → Request
retry_request created_by job = record {
  action_name = job.action_name;
  server_id = job.server_id;
  target_type = job.target_type;
  target_id = job.target_id;
  params = as_params job.params_sanitized;
  priority = job.priority;
  created_by = created_by;
  user_secrets = [];
  from_sanitized = true;
}

module _ {S : Type 0} (B : JobBackend S) where
  -- JobRunner._release
  unfoldable pub release : CommandJob → S → S
  unfolding release_if_locked
  release job s = B.clear_cancel job.id (release_if_locked B job s)

  -- JobRunner.cancel, on the row as it was just read.
  unfoldable pub cancel : ℕ → CommandJob → World S → CommandJob × World S
  unfolding release
  cancel now job w =
      let requested = B.request_cancel job.id w.backend in
      let job' = record job { status = cancelled; ended_at = some now } in
      if is_terminal job.status
      then (job, w)
      else if is_pending job.status
      then (job', set_row job.id (some job') (record w { backend = release job requested }))
      else (job, record w { backend = requested })

  -- JobRunner.retry
  unfoldable pub retry :
      Env → Option ℕ → CommandJob → World S → Result JobError CommandJob × World S
  unfolding create
  retry env created_by job w =
      if is_retryable job.status
      then create B env (retry_request created_by job) w
      else (err not_retryable, w)
