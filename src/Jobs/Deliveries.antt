-- ===== src/Jobs/Deliveries.antt =====
-- What a delivery of a job to a worker comes to: `JobRunner.run_job` of backend/app/core/jobs.py.
use frappe_os.Base.{
  Bool-cases, ap, arith, false, inl, inr, none, refl, some, true, ℕ, ◌∙◌, ◌≡◌, ◌≢◌, ◌⊎◌,
}
use frappe_os.Base.Results.{Result-cases, ok}
use frappe_os.Base.Text.{Str}
use frappe_os.Jobs.Touches.{holder-release_lem}
use frappe_os.Jobs.Cancel.{release}
use frappe_os.Registry.{get_template}
use frappe_os.Jobs.Create.{Env}
use frappe_os.Jobs.Ends.{to_terminal-Ended, run_loop-Ended, Ended, OnTheWay}
use frappe_os.Jobs.Backend.{JobBackend}
use frappe_os.Templates.{CommandTemplate}
use frappe_os.Jobs.{
  running, success, failure, cancelled, pending, failure, cannot_start, cancelled, set_row, World,
  CommandJob, Status, pending, running, success, failure, cancelled,
}
use frappe_os.Jobs.Run.{
  idle, finished, begin_row, begin, to_terminal, run_job, log_line, prepare_run, running_row,
  run_started, start_row, Outcome,
}

Status-cases :
    (s : Status)
    → (s ≡ pending) ⊎ ((s ≡ cancelled) ⊎ ((s ≡ running) ⊎ ((s ≡ success) ⊎ (s ≡ failure))))
Status-cases pending = inl refl
Status-cases cancelled = inr (inl refl)
Status-cases running = inr (inr (inl refl))
Status-cases success = inr (inr (inr (inl refl)))
Status-cases failure = inr (inr (inr (inr refl)))

module _ {S : Type 0} (B : JobBackend S) where
  first_way :
      (t : CommandTemplate) (i at : ℕ) (job : CommandJob) (w : World S)
      → job.id ≡ i
      → OnTheWay B t i job (running_row at job) w (set_row job.id (some (running_row at job)) w)
  first_way t i at job w id = record {
    same_id = id;
    same_key = refl;
    no_less = omega arith;
    so_far = omega arith;
    same_locks = refl;
    same_told = refl;
    same_others = λ j other. ground (arith, id);
  }

  start_row-Ended :
      (env : Env) (attempt : ℕ → Outcome) (at i : ℕ) (t : CommandTemplate) (job : CommandJob)
      (w : World S)
      → job.id ≡ i
      → (v : World S) × (run_started B attempt at (start_row B env t job w) ≡ some (ok tt, v))
        × Ended B t i job w v
  unfolding start_row run_started
  start_row-Ended env attempt at i t job w id = elim (Result-cases (prepare_run env t job)) [
    | inl (e, f) ↦
        rw (f, start_row)
          (let now = running_row env.now job in
            let failing = log_line job.id (cannot_start e) (set_row job.id (some now) w) in
            let way : OnTheWay B t i job now w failing = record {
              same_id = id;
              same_key = refl;
              no_less = omega arith;
              so_far = omega arith;
              same_locks = refl;
              same_told = refl;
              same_others = λ j other. ground (arith, id);
            } in
            (
              to_terminal B failure (some 1) env.now now failing,
              refl,
              to_terminal-Ended B failure (some 1) env.now t i job now w failing refl way,
            ))
    | inr (cmd, f) ↦
        rw (f, start_row, run_started)
          (let now = running_row env.now job in
            let (v, end, ended) =
              run_loop-Ended B 4 attempt at t i job now w (set_row job.id (some now) w)
                (omega arith) (omega arith) (first_way t i env.now job w id) in
            (v, ap (finished B) end, ended))
  ]

  pub begin-start_row :
      (env : Env) (i : ℕ) (t : CommandTemplate) (job : CommandJob) (w : World S)
      → w.jobs i ≡ some job
      → job.status ≡ pending
      → B.is_cancel_requested job.id w.backend ≡ false
      → get_template job.action_name ≡ some t
      → begin B env i w ≡ start_row B env t job w
  unfolding begin begin_row
  begin-start_row env i t job w row waits f known = rw (row, begin, waits, begin_row, f, known) refl

  pub begin-to_terminal :
      (env : Env) (i : ℕ) (job : CommandJob) (w : World S)
      → w.jobs i ≡ some job
      → job.status ≡ pending
      → B.is_cancel_requested job.id w.backend ≡ true
      → begin B env i w ≡ (idle, to_terminal B cancelled none env.now job w)
  unfolding begin begin_row
  begin-to_terminal env i job w row waits f = rw (row, begin, waits, begin_row, f) refl

  -- A delivery of a pending job whose template is registered returns, and leaves the job ended.
  pub run_job-Ended :
      (env : Env) (attempt : ℕ → Outcome) (at i : ℕ) (t : CommandTemplate) (job : CommandJob)
      (w : World S)
      → w.jobs i ≡ some job
      → job.id ≡ i
      → job.status ≡ pending
      → get_template job.action_name ≡ some t
      → (v : World S) × (run_job B env attempt at i w ≡ some (ok tt, v)) × Ended B t i job w v
  unfolding run_job run_started
  run_job-Ended env attempt at i t job w row id waits known =
      elim (Bool-cases (B.is_cancel_requested job.id w.backend)) [
        | inl f ↦
            let way : OnTheWay B t i job job w w = record {
              same_id = id;
              same_key = refl;
              no_less = omega arith;
              so_far = omega arith;
              same_locks = refl;
              same_told = refl;
              same_others = λ j other. refl;
            } in
            (
              to_terminal B cancelled none env.now job w,
              ap (run_started B attempt at) (begin-to_terminal env i job w row waits f),
              to_terminal-Ended B cancelled none env.now t i job job w w refl way,
            )
        | inr f ↦
            let (v, end, ended) = start_row-Ended env attempt at i t job w id in
            (
              v,
              ap (run_started B attempt at) (begin-start_row env i t job w row waits f known) ∙ end,
              ended,
            )
      ]

  -- A delivery of a job that is not pending, a repeated one say, returns: no row changes, nothing is
  -- told or logged, and the locks of the other jobs stay.
  pub run_job-redelivered :
      (env : Env) (attempt : ℕ → Outcome) (at i : ℕ) (job : CommandJob) (w : World S)
      → w.jobs i ≡ some job
      → job.status ≢ pending
      → (v : World S) × (run_job B env attempt at i w ≡ some (ok tt, v))
        × (v.jobs ≡ w.jobs)
        × (v.notified ≡ w.notified)
        × (v.log ≡ w.log)
        × ((k : Str) (j : ℕ)
            → B.holder k w.backend ≡ some j
            → j ≢ job.id
            → B.holder k v.backend ≡ some j)
  unfolding run_job begin begin_row run_started
  run_job-redelivered env attempt at i job w row other = elim (Status-cases job.status) [
    | inl e ↦ elim (other e) [ ]
    | inr (inl e) ↦
        rw (row, run_job, begin, e, begin_row, run_started)
          (
            record w { backend = release B job w.backend },
            refl,
            refl,
            refl,
            refl,
            λ k j held different. holder-release_lem B job k j w.backend held different,
          )
    | inr (inr (inl e)) ↦
        rw (row, run_job, begin, e, begin_row, run_started)
          (w, refl, refl, refl, refl, λ k j held different. held)
    | inr (inr (inr (inl e))) ↦
        rw (row, run_job, begin, e, begin_row, run_started)
          (w, refl, refl, refl, refl, λ k j held different. held)
    | inr (inr (inr (inr e))) ↦
        rw (row, run_job, begin, e, begin_row, run_started)
          (w, refl, refl, refl, refl, λ k j held different. held)
  ]
