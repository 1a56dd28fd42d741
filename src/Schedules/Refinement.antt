-- ===== src/Schedules/Refinement.antt =====
-- `tick` of backend/app/core/scheduler.py as calls of the job engine.
use frappe_os.Jobs.Exclusion.{Steps-Consistent}
use frappe_os.Schedules.Sides.{build_fire-Built, Inserted-world, Built}
use frappe_os.Jobs.{
  unknown_action, window_blocked, render_error, secret_error, enqueue_failed, backend_failed,
  not_retryable, lock_conflict,
}
use frappe_os.Schedules.{due_schedules, crashed}
use frappe_os.Schedules.Tables.{Fleet, backup, platform_backup}
use frappe_os.Jobs.Create.{create, Request, Env}
use frappe_os.Schedules.{schedule_error, job_error, ScheduleError, DispatchError, Schedule}
use frappe_os.Schedules.Tables.{Fire, Store, Side, remove_side, link_side}
use frappe_os.Schedules.Fire.{build_fire, fire_schedule, fire_request, after_build, after_create}
use frappe_os.Schedules.Dispatch.{
  dispatch_found, find_schedule, dispatch_schedule, tick, tick_ids, after_fire, advance,
}
use frappe_os.Jobs.{render_error, window_blocked, lock_conflict, CommandJob, JobError, World}
use frappe_os.Jobs.Backend.{JobBackend}
use frappe_os.Base.{List, Option, [], ap, map, none, refl, some, subst, sym, ℕ, ◌∷◌, ◌≡◌}
use frappe_os.Base.Results.{Result, err, ok}
use frappe_os.Base.Text.{same}
use frappe_os.Jobs.Steps.{Consistent, Steps, done, then_step, creates}

module _ {S : Type 0} (B : JobBackend S) where
  advance-world :
      (r : Result DispatchError ℕ) (s : Schedule) (job : Option CommandJob) (st : Store S)
      → (advance r s job st).1.world ≡ st.world
  unfolding advance
  advance-world (err e) s job st = refl
  advance-world (ok at) s job st = refl

  after_fire-world :
      (now : ℕ) (s : Schedule) (r : Result DispatchError CommandJob × Store S)
      → (after_fire now s r).1.world ≡ r.1.world
  unfolding after_fire
  after_fire-world now s (ok job, st) = advance-world _ _ _ st
  after_fire-world now s (err (job_error (lock_conflict holder)), st) = advance-world _ _ _ st
  after_fire-world now s (err (schedule_error e), st) = refl
  after_fire-world now s (err crashed, st) = refl
  after_fire-world now s (err (job_error unknown_action), st) = refl
  after_fire-world now s (err (job_error (window_blocked w why)), st) = refl
  after_fire-world now s (err (job_error (render_error e)), st) = refl
  after_fire-world now s (err (job_error (secret_error e)), st) = refl
  after_fire-world now s (err (job_error enqueue_failed), st) = refl
  after_fire-world now s (err (job_error backend_failed), st) = refl
  after_fire-world now s (err (job_error not_retryable), st) = refl

  remove_side-world : (side : Option Side) (st : Store S) → (remove_side side st).world ≡ st.world
  unfolding remove_side
  remove_side-world none st = refl
  remove_side-world (some (backup i)) st = refl
  remove_side-world (some (platform_backup i)) st = refl

  link_side-world :
      (job : ℕ) (side : Option Side) (st : Store S) → (link_side job side st).world ≡ st.world
  unfolding link_side
  link_side-world job none st = refl
  link_side-world job (some (backup i)) st = refl
  link_side-world job (some (platform_backup i)) st = refl

  -- The job engine was called at most once, and for a creation.
  data Called (w : World S) : World S → Type 0 where
    not_called : Called w w
    called : (env : Env) (req : Request) → Called w (create B env req w).1

  after_create-world :
      (now : ℕ) (s : Schedule) (side : Option Side) (answer : Result JobError CommandJob × World S)
      (st : Store S)
      → (after_create B now s side answer st).1.world ≡ answer.1
  unfolding after_create
  after_create-world now s side (err e, w) st = remove_side-world side (record st { world = w })
  after_create-world now s side (ok job, w) st =
      link_side-world job.id side (record st { world = w })

  after_build-Called :
      (env : Env) (now : ℕ) (by : Option ℕ) (s : Schedule) (st : Store S)
      (r : Result ScheduleError Fire × Store S)
      → r.1.world ≡ st.world
      → Called st.world (after_build B env now by s r).1.world
  unfolding after_build
  after_build-Called env now by s st (err e, built) same =
      subst (Called st.world) (sym same) not_called
  after_build-Called env now by s st (ok fire, built) same =
      subst (Called st.world) (sym (after_create-world now s fire.side _ built)) (
        subst (λ w. Called st.world (create B env (fire_request s by fire) w).1) (sym same)
          (called env (fire_request s by fire)))

  Built-world :
      (st : Store S) (r : Result ScheduleError Fire × Store S) → Built st r → r.1.world ≡ st.world
  Built-world st (err e, built) same = ap (λ b. b.world) same
  Built-world st (ok fire, built) inserted = Inserted-world fire.side st built inserted

  dispatch_found-Called :
      (env : Env) (fleet : Fleet) (now : ℕ) (found : Option Schedule) (st : Store S)
      → Called st.world (dispatch_found B env fleet now found st).1.world
  unfolding dispatch_schedule fire_schedule
  dispatch_found-Called env fleet now none st = not_called
  dispatch_found-Called env fleet now (some s) st =
      let built = build_fire env.unicode fleet s st in
      subst (Called st.world)
        (sym (after_fire-world now s (fire_schedule B env fleet now none s st)))
        (after_build-Called env now none s st built
          (Built-world st built (build_fire-Built env.unicode fleet s st)))

  Called-Steps : {w v u : World S} → Called w v → Steps B v u → Steps B w u
  Called-Steps not_called rest = rest
  Called-Steps (called env req) rest = then_step (creates env req) rest

  tick_ids-Steps :
      (env : Env) (fleet : Fleet) (now : ℕ) (is : List ℕ) (st : Store S)
      → Steps B st.world (tick_ids B env fleet now is st).1.world
  unfolding tick_ids
  tick_ids-Steps env fleet now [] st = done
  tick_ids-Steps env fleet now (i ∷ is) st =
      let found = find_schedule i st.schedules in
      Called-Steps (dispatch_found-Called env fleet now found st)
        (tick_ids-Steps env fleet now is (dispatch_found B env fleet now found st).1)

  -- From a consistent state of the job engine, its state after a tick is reached by steps of the job
  -- engine, and it is consistent.
  pub tick-Steps :
      (env : Env) (fleet : Fleet) (now : ℕ) (st : Store S)
      → Consistent B st.world
      → Steps B st.world (tick B env fleet now st).1.world
        × Consistent B (tick B env fleet now st).1.world
  unfolding tick
  tick-Steps env fleet now st good =
      let steps =
        tick_ids-Steps env fleet now (map (λ s. s.id) (due_schedules now st.schedules)) st in
      (steps, Steps-Consistent B steps good)
