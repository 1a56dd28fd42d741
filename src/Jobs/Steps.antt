-- ===== src/Jobs/Steps.antt =====
-- Locks of backend/app/core/jobs.py: the API processes and the workers as steps on the shared state,
-- in any order, and what the steps keep. A step is one whole call of the job engine. Some calls commit more than once;
-- what others see between two commits of one call is not modelled.
use frappe_os.Base.{Bool, Option, some, true, ℕ, ◌&&◌, ◌<◌, ◌||◌, ◌≡◌}
use frappe_os.Base.Text.{Str}
use frappe_os.Jobs.{
  CommandJob, World, set_row, Status, is_pending, is_running, is_terminal, was_queued, Notice,
}
use frappe_os.Jobs.Backend.{JobBackend}
use frappe_os.Jobs.Cancel.{cancel, retry}
use frappe_os.Jobs.Create.{Env, Request, create}
use frappe_os.Jobs.Run.{begin, to_terminal, retried_row, log_line}

-- A job that may touch its target: it runs, or it waits in the queue.
abbrev pub is_active : {S : Type 0} → ℕ → CommandJob → World S → Bool
is_active i job w = is_running job.status || (is_pending job.status && was_queued i w)

module _ {S : Type 0} (B : JobBackend S) where
  -- One call: of the API, of a worker that was delivered a job, or of the loop of a running job.
  pub data Step : World S → World S → Type 0 where
    creates : {w : World S} (env : Env) (req : Request) → Step w (create B env req w).1
    cancels :
        {w : World S} (now i : ℕ) (job : CommandJob)
        → w.jobs i ≡ some job
        → Step w (cancel B now job w).1
    retries :
        {w : World S} (env : Env) (created_by : Option ℕ) (i : ℕ) (job : CommandJob)
        → w.jobs i ≡ some job
        → Step w (retry B env created_by job w).1
    begins : {w : World S} (env : Env) (i : ℕ) → was_queued i w ≡ true → Step w (begin B env i w).1
    tries_again :
        {w : World S} (i : ℕ) (job : CommandJob) (line : Notice)
        → w.jobs i ≡ some job
        → is_running job.status ≡ true
        → Step w (log_line job.id line (set_row job.id (some (retried_row job)) w))
    ends :
        {w : World S} (status : Status) (code : Option ℕ) (now i : ℕ) (job : CommandJob)
        → w.jobs i ≡ some job
        → is_running job.status ≡ true
        → is_terminal status ≡ true
        → Step w (to_terminal B status code now job w)

  pub data Steps : World S → World S → Type 0 where
    done : {w : World S} → Steps w w
    then_step : {w v u : World S} → Step w v → Steps v u → Steps w u

  -- An active job holds the lock that its row names.
  abbrev pub Holds : World S → Type 0
  Holds w =
      (i : ℕ) (job : CommandJob) (k : Str)
      → w.jobs i ≡ some job
      → is_active i job w ≡ true
      → job.lock_key ≡ some k
      → B.holder k w.backend ≡ some i

  abbrev pub Keyed : World S → Type 0
  Keyed w = (i : ℕ) (job : CommandJob) → w.jobs i ≡ some job → (job.id ≡ i) × (i < w.next_id)

  abbrev pub QueueOk : World S → Type 0
  QueueOk w = (i : ℕ) → was_queued i w ≡ true → i < w.next_id

  pub record Consistent (w : World S) : Type 0 where
    pub holds : Holds w
    pub keyed : Keyed w
    pub queue_ok : QueueOk w
