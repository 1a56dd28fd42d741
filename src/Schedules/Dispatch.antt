-- ===== src/Schedules/Dispatch.antt =====
-- `dispatch_schedule` and `tick` of backend/app/core/scheduler.py.
use frappe_os.Jobs.Create.{Env}
use frappe_os.Schedules.Fire.{fired_row, fire_schedule}
use frappe_os.Schedules.Tables.{Fleet, write_schedule, Store, set_schedule}
use frappe_os.Jobs.Backend.{JobBackend}
use frappe_os.Base.{List, Option, [], if◌then◌else◌, map, none, some, ℕ, ◌==◌, ◌∷◌}
use frappe_os.Base.Results.{Result, err, ok}
use frappe_os.Schedules.{
  compute_next_run, due_schedules, Schedule, DispatchError, schedule_error, job_error,
}
use frappe_os.Jobs.{CommandJob, lock_conflict}

abbrev pub with_next : Option ℕ → Schedule → Schedule
with_next at s = record s { next_run_at = at }

-- `db.get(Schedule, sid)`
abbrev pub find_schedule : ℕ → List Schedule → Option Schedule
find_schedule i [] = none
find_schedule i (s ∷ ss) = if s.id == i then some s else find_schedule i ss

-- What a tick did: the schedules that fired a job, and those whose dispatch raised, which is logged.
pub record TickResult : Type 0 where
  pub fired : List ℕ
  pub raised_for : List ℕ

abbrev pub add_result : ℕ → Result DispatchError (Option CommandJob) → TickResult → TickResult
add_result i (err e) r = record r { raised_for = i ∷ r.raised_for }
add_result i (ok none) r = r
add_result i (ok (some job)) r = record r { fired = i ∷ r.fired }

abbrev pub nothing_done : TickResult
nothing_done = record { fired = []; raised_for = [] }

module _ {S : Type 0} where
  -- `schedule.next_run_at = compute_next_run(schedule, after=now)`
  unfoldable pub advance :
      Result DispatchError ℕ
      → Schedule
      → Option CommandJob
      → Store S
      → Result DispatchError (Option CommandJob) × Store S
  unfolding set_schedule
  advance (err e) s job st = (err e, st)
  advance (ok at) s job st = (ok job, write_schedule (with_next (some at) s) st)

  -- `dispatch_schedule` after `fire_schedule`.
  unfoldable pub after_fire :
      ℕ
      → Schedule
      → Result DispatchError CommandJob × Store S
      → Result DispatchError (Option CommandJob) × Store S
  unfolding advance set_schedule
  after_fire now s (ok job, st) =
      let s' = fired_row now job s in advance (compute_next_run s' now) s' (some job) st
  after_fire now s (err (job_error (lock_conflict holder)), st) =
      advance (compute_next_run s now) s none st
  after_fire now s (err (schedule_error e), st) = (ok none, write_schedule (with_next none s) st)
  after_fire now s (err e, st) = (err e, st)

module _ {S : Type 0} (B : JobBackend S) where
  -- dispatch_schedule
  unfoldable pub dispatch_schedule :
      Env → Fleet → ℕ → Schedule → Store S → Result DispatchError (Option CommandJob) × Store S
  unfolding fire_schedule after_fire
  dispatch_schedule env fleet now s st = after_fire now s (fire_schedule B env fleet now none s st)

  abbrev pub dispatch_found :
      Env
      → Fleet
      → ℕ
      → Option Schedule
      → Store S
      → Result DispatchError (Option CommandJob) × Store S
  dispatch_found env fleet now none st = (ok none, st)
  dispatch_found env fleet now (some s) st = dispatch_schedule env fleet now s st

  -- The loop of `tick` over the ids that were due; a row that was deleted is passed over.
  unfoldable pub tick_ids : Env → Fleet → ℕ → List ℕ → Store S → TickResult × Store S
  unfolding dispatch_schedule
  tick_ids env fleet now [] st = (nothing_done, st)
  tick_ids env fleet now (i ∷ is) st =
      let (result, st') = dispatch_found env fleet now (find_schedule i st.schedules) st in
      let (rest, st'') = tick_ids env fleet now is st' in (add_result i result rest, st'')

  -- tick
  unfoldable pub tick : Env → Fleet → ℕ → Store S → TickResult × Store S
  unfolding due_schedules tick_ids
  tick env fleet now st =
      tick_ids env fleet now (map (λ s. s.id) (due_schedules now st.schedules)) st
