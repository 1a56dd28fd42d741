-- ===== src/Jobs/Verdict.antt =====
-- The status in which `JobRunner.run_job` of backend/app/core/jobs.py leaves a job, told from what its
-- attempts come to.
use frappe_os.Jobs.Deliveries.{begin-start_row}
use frappe_os.Registry.{get_template}
use frappe_os.Jobs.Create.{Env}
use frappe_os.Jobs.Ends.{Outcome-cases}
use frappe_os.Jobs.Backend.{JobBackend}
use frappe_os.Templates.{RenderedCommand, CommandTemplate}
use frappe_os.Base.{
  Bool-cases, List, Option, [], ap, arith, false, if◌then◌else◌, inl, inr, ltb, none, refl, some,
  subst, suc, zero, ℕ, ◌&&◌, ◌+◌, ◌-◌, ◌<◌, ◌∙◌, ◌∷◌, ◌≡◌,
}
use frappe_os.Base.Results.{ok}
use frappe_os.Jobs.{
  set_row, retrying, max_auto_retries, World, Status, CommandJob, pending, success, failure,
  cancelled,
}
use frappe_os.Jobs.Run.{
  finished, finished, started, running_row, prepare_run, log_line, retried_row, run_started,
  ended_row, start_row, run_loop, to_terminal, run_job, Outcome, returned, job_cancelled,
  failed_no_retry, failed,
}

-- The status that a list of outcomes, one for each attempt that is allowed, leads to.
abbrev pub verdict : List Outcome → Status
verdict [] = failure
verdict (returned ∷ later) = success
verdict (job_cancelled ∷ later) = cancelled
verdict (failed_no_retry ∷ later) = failure
verdict (failed ∷ later) = verdict later

-- The outcomes of `count` attempts from the n-th.
abbrev pub outcomes : (ℕ → Outcome) → ℕ → ℕ → List Outcome
outcomes attempt n zero = []
outcomes attempt n (suc count) = attempt n ∷ outcomes attempt (n + 1) count

abbrev pub retries_left : CommandTemplate → CommandJob → ℕ
retries_left t job = if t.idempotent then 3 - job.retry_count else 0

module _ {S : Type 0} (B : JobBackend S) where
  -- The row under `i` after the loop.
  abbrev pub StatusIs : ℕ → Status → Option (World S) → Type 0
  StatusIs i status end =
      (u : World S) × (final : CommandJob) × (end ≡ some u)
      × (u.jobs i ≡ some final)
      × (final.status ≡ status)

  to_terminal-StatusIs :
      (status : Status) (code : Option ℕ) (at : ℕ) (job : CommandJob) (v : World S)
      → StatusIs job.id status (some (to_terminal B status code at job v))
  unfolding to_terminal
  to_terminal-StatusIs status code at job v =
      (to_terminal B status code at job v, ended_row status code at job, refl, ground arith, refl)

  run_loop-verdict :
      (fuel : ℕ) (attempt : ℕ → Outcome) (at : ℕ) (t : CommandTemplate) (now : CommandJob)
      (v : World S)
      → 3 < fuel + now.retry_count
      → 0 < fuel
      → StatusIs now.id
          (verdict (outcomes attempt (now.retry_count + 1) (suc (retries_left t now))))
          (run_loop B fuel attempt at t now v)
  unfolding run_loop
  run_loop-verdict zero attempt at t now v enough some_left = ground arith
  run_loop-verdict (suc fuel) attempt at t now v enough some_left =
      elim (Outcome-cases B (attempt (now.retry_count + 1))) [
        | inl o ↦ rw (o, run_loop) (to_terminal-StatusIs success (some 0) at now v)
        | inr (inl o) ↦ rw (o, run_loop) (to_terminal-StatusIs cancelled none at now v)
        | inr (inr (inl o)) ↦ rw (o, run_loop) (to_terminal-StatusIs failure (some 1) at now v)
        | inr (inr (inr o)) ↦
            elim (Bool-cases (t.idempotent && ltb now.retry_count max_auto_retries)) [
              | inl e ↦
                  rw (o, run_loop, e)
                    (let more : retries_left t now ≡ suc (retries_left t (retried_row now)) =
                        ground arith in
                      rw more (
                        run_loop-verdict fuel attempt at t (retried_row now)
                          (log_line now.id (retrying (now.retry_count + 1))
                            (set_row now.id (some (retried_row now)) v))
                          (omega (arith, enough)) (ground arith)))
              | inr e ↦
                  let none_left : retries_left t now ≡ 0 = ground arith in
                  rw (o, run_loop, e, none_left) (to_terminal-StatusIs failure (some 1) at now v)
            ]
      ]

  -- A delivery of a pending job that starts leaves the status that its attempts lead to: the first
  -- outcome that is not a plain failure decides, among one attempt and the retries that are left.
  pub run_job-verdict :
      (env : Env) (attempt : ℕ → Outcome) (at i : ℕ) (t : CommandTemplate) (job : CommandJob)
      (cmd : RenderedCommand) (w : World S)
      → w.jobs i ≡ some job
      → job.id ≡ i
      → job.status ≡ pending
      → B.is_cancel_requested job.id w.backend ≡ false
      → get_template job.action_name ≡ some t
      → prepare_run env t job ≡ ok cmd
      → (v : World S) × (final : CommandJob) × (run_job B env attempt at i w ≡ some (ok tt, v))
        × (v.jobs i ≡ some final)
        × (final.status
            ≡ verdict (outcomes attempt (job.retry_count + 1) (suc (retries_left t job))))
  unfolding run_job start_row run_started
  run_job-verdict env attempt at i t job cmd w row id waits f known rendered =
      let now = running_row env.now job in
      let (v, final, end, there, status) =
        run_loop-verdict 4 attempt at t now (set_row job.id (some now) w) (omega arith)
          (omega arith) in
      let begun : start_row B env t job w ≡ (started now t cmd, set_row job.id (some now) w) =
        rw (rendered, start_row) refl in
      (
        v,
        final,
        ap (run_started B attempt at) (begin-start_row B env i t job w row waits f known ∙ begun)
            ∙ ap (finished B) end,
        subst (λ n. v.jobs n ≡ some final) id there,
        status,
      )
