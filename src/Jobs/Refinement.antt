-- ===== src/Jobs/Refinement.antt =====
-- `JobRunner.run_job` of backend/app/core/jobs.py, run without interruption, as steps of the engine.
use frappe_os.Jobs.Deliveries.{begin-start_row, begin-to_terminal}
use frappe_os.Registry.{get_template}
use frappe_os.Jobs.Ends.{Outcome-cases}
use frappe_os.Templates.{RenderedCommand, CommandTemplate}
use frappe_os.Jobs.Create.{Env}
use frappe_os.Jobs.Run.{
  finished, begin, idle, started, retried_row, log_line, running_row, to_terminal, prepare_run,
  Outcome, run_started, run_loop, start_row, run_job,
}
use frappe_os.Jobs.Backend.{JobBackend}
use frappe_os.Base.{
  Bool-cases, ap, arith, inl, inr, ltb, none, refl, some, subst, suc, true, zero, ℕ, ◌&&◌, ◌+◌, ◌<◌,
  ◌∙◌, ◌≡◌,
}
use frappe_os.Base.Results.{Result-cases, err, ok}
use frappe_os.Jobs.{
  cannot_start, retrying, set_row, max_auto_retries, pending, is_running, JobError, was_queued,
  CommandJob, World, success, failure, cancelled,
}
use frappe_os.Jobs.Steps.{Steps, Step, begins, tries_again, ends, done, then_step}

module _ {S : Type 0} (B : JobBackend S) where
  one-Step : {w v : World S} → Step B w v → Steps B w v
  one-Step step = then_step step done

  run_loop-Steps :
      (fuel : ℕ) (attempt : ℕ → Outcome) (at : ℕ) (t : CommandTemplate) (now : CommandJob)
      (v : World S)
      → 3 < fuel + now.retry_count
      → 0 < fuel
      → v.jobs now.id ≡ some now
      → is_running now.status ≡ true
      → (u : World S) × (run_loop B fuel attempt at t now v ≡ some u) × Steps B v u
  unfolding run_loop
  run_loop-Steps zero attempt at t now v enough some_left row runs = ground arith
  run_loop-Steps (suc fuel) attempt at t now v enough some_left row runs =
      elim (Outcome-cases B (attempt (now.retry_count + 1))) [
        | inl o ↦
            rw (o, run_loop)
              (
                to_terminal B success (some 0) at now v,
                refl,
                one-Step (ends success (some 0) at now.id now row runs refl),
              )
        | inr (inl o) ↦
            rw (o, run_loop)
              (
                to_terminal B cancelled none at now v,
                refl,
                one-Step (ends cancelled none at now.id now row runs refl),
              )
        | inr (inr (inl o)) ↦
            rw (o, run_loop)
              (
                to_terminal B failure (some 1) at now v,
                refl,
                one-Step (ends failure (some 1) at now.id now row runs refl),
              )
        | inr (inr (inr o)) ↦
            elim (Bool-cases (t.idempotent && ltb now.retry_count max_auto_retries)) [
              | inl e ↦
                  rw (o, run_loop, e)
                    (let line = retrying (now.retry_count + 1) in
                      let (u, end, steps) =
                        run_loop-Steps fuel attempt at t (retried_row now)
                          (log_line now.id line (set_row now.id (some (retried_row now)) v))
                          (omega (arith, enough)) (ground arith) (ground arith) runs in
                      (u, end, then_step (tries_again now.id now line row runs) steps))
              | inr e ↦
                  rw (o, run_loop, e)
                    (
                      to_terminal B failure (some 1) at now v,
                      refl,
                      one-Step (ends failure (some 1) at now.id now row runs refl),
                    )
            ]
      ]

  start_row-ok :
      (env : Env) (t : CommandTemplate) (job : CommandJob) (w : World S) (cmd : RenderedCommand)
      → prepare_run env t job ≡ ok cmd
      → start_row B env t job w ≡ (
        started (running_row env.now job) t cmd,
        set_row job.id (some (running_row env.now job)) w,
      )
  unfolding start_row
  start_row-ok env t job w cmd g = rw (g, start_row) refl

  start_row-err :
      (env : Env) (t : CommandTemplate) (job : CommandJob) (w : World S) (e : JobError)
      → prepare_run env t job ≡ err e
      → start_row B env t job w ≡ (
        idle,
        to_terminal B failure
            (some 1)
            env.now
            (running_row env.now job)
            (log_line job.id (cannot_start e) (set_row job.id (some (running_row env.now job)) w)),
      )
  unfolding start_row
  start_row-err env t job w e g = rw (g, start_row) refl

  -- A delivery of a queued job whose row is pending and whose template is registered returns, and what
  -- it does is a sequence of steps of the engine.
  pub run_job-Steps :
      (env : Env) (attempt : ℕ → Outcome) (at i : ℕ) (t : CommandTemplate) (job : CommandJob)
      (w : World S)
      → was_queued i w ≡ true
      → w.jobs i ≡ some job
      → job.status ≡ pending
      → get_template job.action_name ≡ some t
      → (v : World S) × (run_job B env attempt at i w ≡ some (ok tt, v)) × Steps B w v
  unfolding run_job run_started
  run_job-Steps env attempt at i t job w queued row waits known =
      let first = begins {w = w} env i queued in
      elim (Bool-cases (B.is_cancel_requested job.id w.backend)) [
        | inl f ↦
            let begun = begin-to_terminal B env i job w row waits f in
            (
              to_terminal B cancelled none env.now job w,
              ap (run_started B attempt at) begun,
              one-Step (subst (λ r. Step B w r.1) begun first),
            )
        | inr f ↦ elim (Result-cases (prepare_run env t job)) [
          | inl (e, g) ↦
              let now = running_row env.now job in
              let u =
                to_terminal B failure (some 1) env.now now
                  (log_line job.id (cannot_start e) (set_row job.id (some now) w)) in
              let begun : begin B env i w ≡ (idle, u) =
                begin-start_row B env i t job w row waits f known ∙ start_row-err env t job w e g in
              (
                u,
                ap (run_started B attempt at) begun,
                one-Step (subst (λ r. Step B w r.1) begun first),
              )
          | inr (cmd, g) ↦
              let now = running_row env.now job in
              let u = set_row job.id (some now) w in
              let begun : begin B env i w ≡ (started now t cmd, u) =
                begin-start_row B env i t job w row waits f known
                ∙ start_row-ok env t job w cmd g in
              let (v, end, steps) =
                run_loop-Steps 4 attempt at t now u (omega arith) (omega arith) (ground arith)
                  refl in
              (
                v,
                ap (run_started B attempt at) begun ∙ ap (finished B) end,
                then_step (subst (λ r. Step B w r.1) begun first) steps,
              )
        ]
      ]
