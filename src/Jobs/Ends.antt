-- ===== src/Jobs/Ends.antt =====
-- Termination of `JobRunner.run_job` of backend/app/core/jobs.py, and the state in which it leaves a job.
use frappe_os.Base.{
  Bool-cases, Option, [], ap, arith, false, if◌then◌else◌, inl, inr, ltb, max, none, refl, some,
  suc, true, zero, ℕ, ◌&&◌, ◌++◌, ◌+◌, ◌<◌, ◌∙◌, ◌∷◌, ◌≡◌, ◌≢◌, ◌≤◌, ◌⊎◌,
}
use frappe_os.Base.Text.{Str, same_refl}
use frappe_os.Jobs.Touches.{holder-release_lem}
use frappe_os.Jobs.Create.{release_if_locked}
use frappe_os.Templates.{CommandTemplate}
use frappe_os.Jobs.Cancel.{release}
use frappe_os.Jobs.Backend.{JobBackend}
use frappe_os.Jobs.Run.{
  log_line, Outcome, retried_row, run_loop, returned, job_cancelled, failed_no_retry, failed,
  ended_row, to_terminal, returned, job_cancelled, failed_no_retry, failed,
}
use frappe_os.Jobs.{
  Notice, retrying, max_auto_retries, set_row, Notice, success, failure, cancelled, is_terminal,
  World, Status, CommandJob, success, failure, cancelled,
}

-- How many retries in flight the template allows.
abbrev pub retry_limit : CommandTemplate → ℕ
retry_limit t = if t.idempotent then 3 else 0

module _ {S : Type 0} (B : JobBackend S) where
  -- How job `i`, whose row was `job` in `w`, ended in `v`: it was retried no more often than
  -- its template `t` allows; it holds no lock of its row, no cancel is left, the listeners were told
  -- once, and the rows and the locks of other jobs are as they were.
  pub record Ended (t : CommandTemplate) (i : ℕ) (job : CommandJob) (w v : World S) : Type 0 where
    pub final : CommandJob
    pub row : v.jobs i ≡ some final
    pub terminal : is_terminal final.status ≡ true
    pub no_fewer : job.retry_count ≤ final.retry_count
    pub retries : final.retry_count ≤ max job.retry_count (retry_limit t)
    pub unlocked : (k : Str) → job.lock_key ≡ some k → B.holder k v.backend ≢ some i
    pub uncancelled : B.is_cancel_requested i v.backend ≡ false
    pub told : v.notified ≡ w.notified ++ (i, final.status) ∷ []
    pub others : (j : ℕ) → j ≢ i → v.jobs j ≡ w.jobs j
    pub locks_of_others :
        (k : Str) (j : ℕ) → B.holder k w.backend ≡ some j → j ≢ i → B.holder k v.backend ≡ some j

  -- On the way there: `now` is the row in memory.
  pub record OnTheWay (t : CommandTemplate) (i : ℕ) (job now : CommandJob) (w v : World S)
      : Type 0 where
    pub same_id : now.id ≡ i
    pub same_key : now.lock_key ≡ job.lock_key
    pub no_less : job.retry_count ≤ now.retry_count
    pub so_far : now.retry_count ≤ max job.retry_count (retry_limit t)
    pub same_locks : v.backend ≡ w.backend
    pub same_told : v.notified ≡ w.notified
    pub same_others : (j : ℕ) → j ≢ i → v.jobs j ≡ w.jobs j

  holder-release-own :
      (job : CommandJob) (k : Str) (s : S)
      → job.lock_key ≡ some k
      → B.holder k (release B job s) ≢ some job.id
  unfolding release release_if_locked
  holder-release-own job k s key = ground (
    arith,
    B.holder-clear job.id k (B.release_lock k job.id s),
    B.holder-release k k job.id s,
    same_refl k,
  )

  pub to_terminal-Ended :
      (status : Status) (code : Option ℕ) (at : ℕ) (t : CommandTemplate) (i : ℕ)
      (job now : CommandJob) (w v : World S)
      → is_terminal status ≡ true
      → OnTheWay t i job now w v
      → Ended t i job w (to_terminal B status code at now v)
  unfolding to_terminal release
  to_terminal-Ended status code at t i job now w v final way = record {
    final = ended_row status code at now;
    row = ground (arith, way.same_id);
    terminal = final;
    no_fewer = way.no_less;
    retries = way.so_far;
    unlocked =
        λ k key. rw (← way.same_id) (holder-release-own now k v.backend (way.same_key ∙ key));
    uncancelled =
        B.cancel-clear now.id i (release_if_locked B now v.backend) ∙ ground (arith, way.same_id);
    told = rw (way.same_told, way.same_id) refl;
    others = λ j other. ground (arith, way.same_id, way.same_others j);
    locks_of_others = λ k j held other.
        holder-release_lem B now k j v.backend (ap (B.holder k) way.same_locks ∙ held)
          (rw way.same_id other);
  }

  retried-OnTheWay :
      (t : CommandTemplate) (i : ℕ) (job now : CommandJob) (w v : World S) (line : Notice)
      → t.idempotent ≡ true
      → now.retry_count < 3
      → OnTheWay t i job now w v
      → OnTheWay t i job
          (retried_row now)
          w
          (log_line now.id line (set_row now.id (some (retried_row now)) v))
  retried-OnTheWay t i job now w v line idempotent left way = record {
    same_id = way.same_id;
    same_key = way.same_key;
    no_less = omega (arith, way.no_less);
    so_far = ground (arith, left, idempotent);
    same_locks = way.same_locks;
    same_told = way.same_told;
    same_others = λ j other. ground (arith, way.same_id, way.same_others j);
  }

  pub Outcome-cases :
      (o : Outcome)
      → (o ≡ returned) ⊎ ((o ≡ job_cancelled) ⊎ ((o ≡ failed_no_retry) ⊎ (o ≡ failed)))
  Outcome-cases returned = inl refl
  Outcome-cases job_cancelled = inr (inl refl)
  Outcome-cases failed_no_retry = inr (inr (inl refl))
  Outcome-cases failed = inr (inr (inr refl))

  -- The loop ends when its fuel and the retries so far exceed the retries allowed.
  pub run_loop-Ended :
      (fuel : ℕ) (attempt : ℕ → Outcome) (at : ℕ) (t : CommandTemplate) (i : ℕ)
      (job now : CommandJob) (w v : World S)
      → 3 < fuel + now.retry_count
      → 0 < fuel
      → OnTheWay t i job now w v
      → (u : World S) × (run_loop B fuel attempt at t now v ≡ some u) × Ended t i job w u
  unfolding run_loop
  run_loop-Ended zero attempt at t i job now w v enough some_left way = ground arith
  run_loop-Ended (suc fuel) attempt at t i job now w v enough some_left way =
      elim (Outcome-cases (attempt (now.retry_count + 1))) [
        | inl o ↦
            rw (o, run_loop)
              (
                to_terminal B success (some 0) at now v,
                refl,
                to_terminal-Ended success (some 0) at t i job now w v refl way,
              )
        | inr (inl o) ↦
            rw (o, run_loop)
              (
                to_terminal B cancelled none at now v,
                refl,
                to_terminal-Ended cancelled none at t i job now w v refl way,
              )
        | inr (inr (inl o)) ↦
            rw (o, run_loop)
              (
                to_terminal B failure (some 1) at now v,
                refl,
                to_terminal-Ended failure (some 1) at t i job now w v refl way,
              )
        | inr (inr (inr o)) ↦
            elim (Bool-cases (t.idempotent && ltb now.retry_count max_auto_retries)) [
              | inl e ↦
                  rw (o, run_loop, e)
                    (let line = retrying (now.retry_count + 1) in
                      run_loop-Ended fuel attempt at t i job (retried_row now) w
                        (log_line now.id line (set_row now.id (some (retried_row now)) v))
                        (omega (arith, enough)) (ground arith)
                        (retried-OnTheWay t i job now w v line (ground arith) (ground arith) way))
              | inr e ↦
                  rw (o, run_loop, e)
                    (
                      to_terminal B failure (some 1) at now v,
                      refl,
                      to_terminal-Ended failure (some 1) at t i job now w v refl way,
                    )
            ]
      ]
