-- ===== src/Jobs/Exclusion.antt =====
-- Mutual exclusion of the job engine of backend/app/core/jobs.py: each call keeps the state consistent,
-- and two active jobs whose rows name the same lock are one job. Jobs of different actions or lock
-- classes name different locks, also on one target.
use frappe_os.Jobs.Touches.{holder-release_lem}
use frappe_os.Registry.{get_template}
use frappe_os.Jobs.Preservation.{create-Consistent, ended-Consistent, changed-Consistent}
use frappe_os.Jobs.Steps.{
  creates, cancels, retries, begins, tries_again, ends, done, then_step, is_active, Step, Steps,
  Consistent,
}
use frappe_os.Templates.{CommandTemplate}
use frappe_os.Jobs.Create.{Env}
use frappe_os.Jobs.Cancel.{is_retryable, retry_request, retry, release, cancel}
use frappe_os.Jobs.Run.{
  retried_row, begin, log_line, to_terminal, ended_row, prepare_run, running_row, begin_row,
  start_row,
}
use frappe_os.Jobs.Backend.{JobBackend}
use frappe_os.Base.{
  ==_iff, Bool-cases, Option, Option-cases, [], arith, inl, inr, none, refl, some, true, ℕ, ◌∙◌,
  ◌≡◌,
}
use frappe_os.Base.Results.{Result-cases}
use frappe_os.Base.Text.{Str}
use frappe_os.Jobs.{
  cannot_start, set_row, was_queued, World, Status, CommandJob, pending, running, success, failure,
  cancelled,
}

module _ {S : Type 0} (B : JobBackend S) where
  cancel-Consistent :
      (now i : ℕ) (job : CommandJob) (status : Status) (w : World S)
      → Consistent B w
      → w.jobs i ≡ some job
      → job.status ≡ status
      → Consistent B (cancel B now job w).1
  unfolding cancel
  cancel-Consistent now i job pending w good row e =
      rw (e, cancel)
        (changed-Consistent B i job (record job { status = cancelled; ended_at = some now }) w
          (record (set_row job.id (some (record job { status = cancelled; ended_at = some now }))
            w) { backend = release B job (B.request_cancel job.id w.backend) })
          good row refl (λ n. refl) refl refl
          (λ k j held other.
            holder-release_lem B job k j (B.request_cancel job.id w.backend)
              (B.holder-request job.id k w.backend ∙ held) other)
          (λ k active key. ground arith))
  cancel-Consistent now i job running w good row e =
      rw (e, cancel)
        (changed-Consistent B i job job w (record w { backend = B.request_cancel job.id w.backend })
          good row refl (λ n. ground (arith, ==_iff n job.id, good.keyed i job row)) refl refl
          (λ k j held other. B.holder-request job.id k w.backend ∙ held)
          (λ k active key. B.holder-request job.id k w.backend ∙ good.holds i job k row active key))
  cancel-Consistent now i job success w good row e = rw (e, cancel) good
  cancel-Consistent now i job failure w good row e = rw (e, cancel) good
  cancel-Consistent now i job cancelled w good row e = rw (e, cancel) good

  start_row-Consistent :
      (env : Env) (t : CommandTemplate) (i : ℕ) (job : CommandJob) (w : World S)
      → Consistent B w
      → w.jobs i ≡ some job
      → job.status ≡ pending
      → was_queued i w ≡ true
      → Consistent B (start_row B env t job w).1
  unfolding start_row
  start_row-Consistent env t i job w good row waiting delivered =
      let started =
        changed-Consistent B i job (running_row env.now job) w
          (set_row job.id (some (running_row env.now job)) w) good row refl (λ n. refl) refl refl
          (λ k j held other. held) (λ k active key. good.holds i job k row (ground arith) key) in
      elim (Result-cases (prepare_run env t job)) [
        | inr (cmd, e) ↦ rw (e, start_row) started
        | inl (raised_by, e) ↦
            rw (e, start_row)
              (changed-Consistent B i job
                (ended_row failure (some 1) env.now (running_row env.now job)) w
                (to_terminal B failure (some 1) env.now (running_row env.now job) (
                  log_line job.id (cannot_start raised_by)
                    (set_row job.id (some (running_row env.now job)) w)))
                good row refl (λ n. ground arith) refl refl
                (λ k j held other.
                  holder-release_lem B (running_row env.now job) k j w.backend held other)
                (λ k active key. ground arith))
      ]

  begin_row-Consistent :
      (env : Env) (i : ℕ) (job : CommandJob) (status : Status) (w : World S)
      → Consistent B w
      → w.jobs i ≡ some job
      → job.status ≡ status
      → was_queued i w ≡ true
      → Consistent B (begin_row B env job w).1
  unfolding begin_row
  begin_row-Consistent env i job pending w good row e delivered =
      elim (Bool-cases (B.is_cancel_requested job.id w.backend)) [
        | inl f ↦
            rw (e, f, begin_row) (ended-Consistent B cancelled none env.now i job w good row refl)
        | inr f ↦ elim (Option-cases (get_template job.action_name)) [
          | inl g ↦ rw (e, f, g, begin_row) good
          | inr (t, g) ↦
              rw (e, f, g, begin_row) (start_row-Consistent env t i job w good row e delivered)
        ]
      ]
  begin_row-Consistent env i job cancelled w good row e delivered =
      rw (e, begin_row)
        (changed-Consistent B i job job w (record w { backend = release B job w.backend }) good row
          refl (λ n. ground (arith, ==_iff n job.id, good.keyed i job row)) refl refl
          (λ k j held other. holder-release_lem B job k j w.backend held other)
          (λ k active key. ground arith))
  begin_row-Consistent env i job running w good row e delivered = rw (e, begin_row) good
  begin_row-Consistent env i job success w good row e delivered = rw (e, begin_row) good
  begin_row-Consistent env i job failure w good row e delivered = rw (e, begin_row) good

  begin-Consistent :
      (env : Env) (i : ℕ) (w : World S)
      → Consistent B w
      → was_queued i w ≡ true
      → Consistent B (begin B env i w).1
  unfolding begin
  begin-Consistent env i w good delivered = elim (Option-cases (w.jobs i)) [
    | inl e ↦ rw (e, begin) good
    | inr (job, e) ↦
        rw (e, begin) (begin_row-Consistent env i job job.status w good e refl delivered)
  ]

  retry-Consistent :
      (env : Env) (by : Option ℕ) (job : CommandJob) (w : World S)
      → Consistent B w
      → Consistent B (retry B env by job w).1
  unfolding retry
  retry-Consistent env by job w good =
      let made = create-Consistent B env (retry_request by job) w good in
      elim (Bool-cases (is_retryable job.status)) [
        | inl e ↦ rw (e, retry) made
        | inr e ↦ rw (e, retry) good
      ]

  Step-Consistent : {w v : World S} → Step B w v → Consistent B w → Consistent B v
  Step-Consistent {w} (creates env req) good = create-Consistent B env req w good
  Step-Consistent {w} (cancels now i job row) good =
      cancel-Consistent now i job job.status w good row refl
  Step-Consistent {w} (retries env by i job row) good = retry-Consistent env by job w good
  Step-Consistent {w} (begins env i delivered) good = begin-Consistent env i w good delivered
  Step-Consistent {w} (tries_again i job line row runs) good =
      changed-Consistent B i job (retried_row job) w
        (log_line job.id line (set_row job.id (some (retried_row job)) w)) good row refl (λ n. refl)
        refl refl (λ k j held other. held) (λ k active key. good.holds i job k row active key)
  Step-Consistent {w} (ends status code now i job row runs final) good =
      ended-Consistent B status code now i job w good row final

  -- Each call keeps the tables and the locks consistent: every row stands under its id, only ids in
  -- use are queued, and each active job holds the lock that its row names.
  pub Steps-Consistent : {w v : World S} → Steps B w v → Consistent B w → Consistent B v
  Steps-Consistent done good = good
  Steps-Consistent (then_step step more) good = Steps-Consistent more (Step-Consistent step good)

  -- Over a backend that meets the laws of its interface (Redis does as long as no key expires): after
  -- any calls, from a state with no rows and an empty queue, two active jobs whose rows name
  -- the same lock are the same job.
  pub active-exclusive :
      {w v : World S}
      → ((i : ℕ) → w.jobs i ≡ none)
      → w.queue ≡ []
      → Steps B w v
      → (i j : ℕ) (a b : CommandJob) (k : Str) → v.jobs i ≡ some a
      → v.jobs j ≡ some b
      → is_active i a v ≡ true
      → is_active j b v ≡ true
      → a.lock_key ≡ some k
      → b.lock_key ≡ some k
      → i ≡ j
  active-exclusive {w} {v} empty idle steps i j a b k row row' active active' key key' =
      let good = Steps-Consistent steps (record {
        holds = λ n job l at active key. ground (arith, empty n, at);
        keyed = λ n job at. ground (arith, empty n, at);
        queue_ok = λ n waits. ground (arith, idle);
      }) in
      let mine = good.holds i a k row active key in
      let yours = good.holds j b k row' active' key' in cc
