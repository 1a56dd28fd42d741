-- ===== src/Jobs/Requested.antt =====
-- What a call of `JobRunner.create` of backend/app/core/jobs.py may come to.
use frappe_os.Base.{String, Bool, Option, [], false, none, some, true, ℕ, ◌++◌, ◌∷◌, ◌≡◌, ◌≢◌}
use frappe_os.Base.Results.{Result, err, ok}
use frappe_os.Base.Text.{Str}
use frappe_os.Registry.{get_template}
use frappe_os.Templates.{RenderedCommand, CommandTemplate}
use frappe_os.Jobs.Backend.{JobBackend}
use frappe_os.Jobs.{
  was_queued, JobError, pending, CommandJob, World, JobError, pending, enqueue_failed,
  backend_failed,
}
use frappe_os.Jobs.Create.{lock_key, prepare, Env, Request}

-- The row is left behind only where RQ refuses the job, or no call to the lock's backend gets an
-- answer.
abbrev pub leaves_row : JobError → Bool
leaves_row enqueue_failed = true
leaves_row backend_failed = true
leaves_row _ = false

module _ {S : Type 0} (B : JobBackend S) where
  -- The jobs, the queue, the audit trail, the listeners and the locks are as they were.
  pub record Unchanged (w v : World S) : Type 0 where
    pub same_rows : (i : ℕ) → v.jobs i ≡ w.jobs i
    pub same_queue : v.queue ≡ w.queue
    pub same_audits : v.audits ≡ w.audits
    pub same_notified : v.notified ≡ w.notified
    pub same_holders : (k : Str) → B.holder k v.backend ≡ B.holder k w.backend

  -- Job `job` was made from the registered template of `req`: it names what `req` asks for, keeps the
  -- parameters that rendering lets through and the token of the secrets, and names a lock on the
  -- target exactly if the template needs one.
  pub record Asked (env : Env) (req : Request) (job : CommandJob) : Type 0 where
    pub same_action : job.action_name ≡ req.action_name
    pub same_server : job.server_id ≡ req.server_id
    pub same_target_type : job.target_type ≡ req.target_type
    pub same_target_id : job.target_id ≡ req.target_id
    pub same_priority : job.priority ≡ req.priority
    pub same_user : job.created_by ≡ req.created_by
    pub template : CommandTemplate
    pub command : RenderedCommand
    pub token : Option Str
    pub registered : get_template req.action_name ≡ some template
    pub rendered : prepare env template req ≡ ok (command, token)
    pub same_params : job.params_sanitized ≡ command.params_sanitized
    pub same_secrets : job.secrets_enc ≡ token
    pub locked_class :
        (c : String)
        → template.requires_lock ≡ true
        → template.lock_class ≡ some c
        → job.lock_key ≡ some (lock_key req.server_id req.target_type req.target_id c)
    pub locked_action :
        template.requires_lock ≡ true
        → template.lock_class ≡ none
        → job.lock_key ≡ some (lock_key req.server_id req.target_type req.target_id req.action_name)
    pub not_locked : template.requires_lock ≡ false → job.lock_key ≡ none

  -- Job `job` was made from `req`: its row is the only new one and waits, it stands last in the queue,
  -- it holds the lock that it names, and one audit row names it.
  pub record Created (env : Env) (req : Request) (job : CommandJob) (w v : World S) : Type 0 where
    pub new_id : job.id ≡ w.next_id
    pub row : v.jobs w.next_id ≡ some job
    pub waits : job.status ≡ pending
    pub unstarted :
        (job.retry_count ≡ 0)
        × (job.exit_code ≡ none)
        × (job.started_at ≡ none)
        × (job.ended_at ≡ none)
    pub asked : Asked env req job
    pub others : (i : ℕ) → i ≢ w.next_id → v.jobs i ≡ w.jobs i
    pub enqueued : v.queue ≡ w.queue ++ w.next_id ∷ []
    pub audited :
        v.audits
        ≡ w.audits
          ++ record {
            action = req.action_name;
            job_id = w.next_id;
            user_id = req.created_by;
            params = job.params_sanitized;
          }
            ∷ []
    pub locked : (k : Str) → job.lock_key ≡ some k → B.holder k v.backend ≡ some w.next_id

  -- What a call may come to.
  abbrev pub Answered : Env → Request → World S → Result JobError CommandJob × World S → Type 0
  Answered env req w (ok job, v) = Created env req job w v
  Answered env req w (err e, v) = leaves_row e ≡ false → Unchanged w v

  -- The row to insert was made from `req`.
  pub record MadeFrom (env : Env) (req : Request) (w : World S) (job : CommandJob) : Type 0 where
    pub id : job.id ≡ w.next_id
    pub fresh : job.status ≡ pending
    pub not_sent_yet : job.rq_job_id ≡ none
    pub unstarted :
        (job.retry_count ≡ 0)
        × (job.exit_code ≡ none)
        × (job.started_at ≡ none)
        × (job.ended_at ≡ none)
    pub asked : Asked env req job

  -- What a call leaves that raised `e` after its row was committed: the row of a job that was made from
  -- `req` waits under the new id, but no worker will be told of it. Nothing else of the tables changed,
  -- no other job lost a lock, and if it was RQ that raised, no lock changed.
  pub record Left (env : Env) (req : Request) (e : JobError) (w v : World S) : Type 0 where
    pub job : CommandJob
    pub asked : Asked env req job
    pub row : v.jobs w.next_id ≡ some job
    pub waits : (job.status ≡ pending) × (job.rq_job_id ≡ none)
    pub not_queued : was_queued w.next_id v ≡ false
    pub others : (i : ℕ) → i ≢ w.next_id → v.jobs i ≡ w.jobs i
    pub same_queue : v.queue ≡ w.queue
    pub same_audits : v.audits ≡ w.audits
    pub same_notified : v.notified ≡ w.notified
    pub kept :
        (k : Str) (j : ℕ)
        → j ≢ w.next_id
        → B.holder k w.backend ≡ some j
        → B.holder k v.backend ≡ some j
    pub released : e ≡ enqueue_failed → (k : Str) → B.holder k v.backend ≡ B.holder k w.backend

  -- What an error leaves that `leaves_row` names.
  abbrev pub LeftBehind : Env → Request → World S → Result JobError CommandJob × World S → Type 0
  LeftBehind env req w (ok job, v) = Unit
  LeftBehind env req w (err e, v) = leaves_row e ≡ true → Left env req e w v
