-- ===== src/Jobs.antt =====
-- The job engine of backend/app/core/jobs.py over the tables of backend/app/models/job.py: the state
-- that the API processes and the workers share, and the helpers that change it.
pub mod Backend
pub mod Redis
pub mod Secrets
pub mod Create
pub mod Cancel
pub mod Run
pub mod Ends
pub mod Deliveries
pub mod Verdict
pub mod Refinement
pub mod Cancellation
pub mod Requested
pub mod Handover
pub mod Creation
pub mod Leftover
pub mod Steps
pub mod Touches
pub mod Preservation
pub mod Exclusion
mod Examples
use frappe_os.Base.{Bool, List, Option, String, any, false, if◌then◌else◌, none, true, ℕ, ◌==◌}
use frappe_os.Base.Dicts.{Dict}
use frappe_os.Base.Text.{Str}
use frappe_os.Templates.{RenderError}
use frappe_os.Jobs.Secrets.{SecretResolutionError}

-- JOB_STATUSES
pub data Status : Type 0 where
  pending running success failure cancelled : Status

-- The row `CommandJob`. Times are instants; `created_at` and `updated_at` are set by the database.
pub record CommandJob : Type 0 where
  pub id : ℕ
  pub server_id : Option ℕ
  pub target_type : String
  pub target_id : Option Str
  pub action_name : String
  pub priority : String
  pub status : Status
  pub rq_job_id : Option String
  pub params_sanitized : Dict Str
  pub secrets_enc : Option Str
  pub lock_key : Option Str
  pub retry_count : ℕ
  pub exit_code : Option ℕ
  pub started_at : Option ℕ
  pub ended_at : Option ℕ
  pub created_by : Option ℕ

pub record AuditRow : Type 0 where
  pub action : String
  pub job_id : ℕ
  pub user_id : Option ℕ
  pub params : Dict Str

-- MAX_AUTO_RETRIES
abbrev pub max_auto_retries : ℕ
max_auto_retries = 3

-- What leaves a method as an exception.
pub data JobError : Type 0 where
  unknown_action : JobError
  window_blocked : ℕ → String → JobError
  render_error : RenderError → JobError
  secret_error : SecretResolutionError → JobError
  lock_conflict : ℕ → JobError
  -- RQ refuses the job; no call to the lock's backend, Redis, gets an answer
  enqueue_failed backend_failed : JobError
  not_retryable : JobError

-- A line that the runner itself writes to the log of a job.
pub data Notice : Type 0 where
  cannot_start : JobError → Notice
  retrying : ℕ → Notice

-- The committed tables, the RQ queue, and the backend behind its interface.
pub record World (S : Type 0) : Type 0 where
  pub backend : S
  pub jobs : ℕ → Option CommandJob
  pub next_id : ℕ
  -- the ids that were handed to RQ; a delivery may be repeated, so none is taken out
  pub queue : List ℕ
  pub audits : List AuditRow
  -- the calls of `dispatch_job_event`
  pub notified : List (ℕ × Status)
  pub log : List (ℕ × Notice)

abbrev pub set_row : {S : Type 0} → ℕ → Option CommandJob → World S → World S
set_row i row w = record w { jobs = λ n. if n == i then row else w.jobs n }

abbrev pub is_pending : Status → Bool
is_pending pending = true
is_pending _ = false

abbrev pub is_running : Status → Bool
is_running running = true
is_running _ = false

abbrev pub is_terminal : Status → Bool
is_terminal success = true
is_terminal failure = true
is_terminal cancelled = true
is_terminal _ = false

abbrev pub was_queued : {S : Type 0} → ℕ → World S → Bool
was_queued i w = any (λ n. n == i) w.queue
