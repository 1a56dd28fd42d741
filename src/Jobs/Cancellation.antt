-- ===== src/Jobs/Cancellation.antt =====
-- A cancelled job does not run: `JobRunner.cancel` and `run_job` of backend/app/core/jobs.py together.
use frappe_os.Jobs.Deliveries.{run_job-redelivered}
use frappe_os.Jobs.Run.{run_job, Outcome}
use frappe_os.Jobs.Cancel.{release, cancel}
use frappe_os.Jobs.Create.{Env}
use frappe_os.Jobs.Backend.{JobBackend}
use frappe_os.Base.{ap, arith, some, ℕ, ◌∙◌, ◌≡◌}
use frappe_os.Base.Results.{ok}
use frappe_os.Jobs.{set_row, World, CommandJob, pending, cancelled}

abbrev pub called_off : ℕ → CommandJob → CommandJob
called_off now job = record job { status = cancelled; ended_at = some now }

module _ {S : Type 0} (B : JobBackend S) where
  cancel-pending :
      (now : ℕ) (job : CommandJob) (w : World S)
      → job.status ≡ pending
      → (cancel B now job w).1 ≡ record (set_row job.id (some (called_off now job)) w) {
        backend = release B job (B.request_cancel job.id w.backend);
      }
  unfolding cancel
  cancel-pending now job w waits = ground arith

  -- If a pending job is cancelled and then delivered, the delivery returns, the row stays cancelled with
  -- the time of the cancellation, and nothing is told or logged.
  pub run_job-cancel :
      (env : Env) (attempt : ℕ → Outcome) (at now i : ℕ) (job : CommandJob) (w : World S)
      → job.id ≡ i
      → job.status ≡ pending
      → (u : World S) × (run_job B env attempt at i (cancel B now job w).1 ≡ some (ok tt, u))
        × (u.jobs i ≡ some (called_off now job))
        × (u.notified ≡ w.notified)
        × (u.log ≡ w.log)
  run_job-cancel env attempt at now i job w id waits =
      let v : World S = record (set_row job.id (some (called_off now job)) w) {
        backend = release B job (B.request_cancel job.id w.backend);
      } in
      let row : v.jobs i ≡ some (called_off now job) = ground (arith, id) in
      let (u, end, rows, told, logged, locks) =
        run_job-redelivered B env attempt at i (called_off now job) v row (λ e. cc) in
      (
        u,
        ap (run_job B env attempt at i) (cancel-pending now job w waits) ∙ end,
        ap (λ f. f i) rows ∙ row,
        told,
        logged,
      )
