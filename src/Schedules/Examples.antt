-- ===== src/Schedules/Examples.antt =====
-- The hourly backup of a site, on the in-memory backend.
use frappe_os.Registry.Backups.{site_backup}
use frappe_os.Templates.Quoting.{join}
use frappe_os.Base.{
  ◌*◌, ◌≢◌, ◌≢◌, ◌+◌, ◌/◌, ◌↔◌, ◌↔◌, ◌/◌, All, [], arith, false, none, refl, some, true, ◌∷◌, ◌≡◌,
}
use frappe_os.Base.Results.{Result, err, ok}
use frappe_os.Base.Text.{Str, codes}
use frappe_os.Templates.Render.{
  unknown_names, select, substitute_cwd, substitute_all, finish, collect, render,
}
use frappe_os.Schedules.{crashed, validate_cadence}
use frappe_os.Templates.Render.{render}
use frappe_os.Registry.{templates, get_template}
use frappe_os.Templates.{validate, disallowed_characters}
use frappe_os.Schedules.Targets.{resolve_site_target}
use frappe_os.Schedules.Progress.{tick-progress, among}
use frappe_os.Schedules.Refinement.{tick-Steps}
use frappe_os.Schedules.Cadence.{compute_next_run-validate_cadence, one_given, Ahead}
use frappe_os.Schedules.Rollback.{fire_schedule-Undone, Undone, Fresh}
use frappe_os.Schedules.Fire.{after_create, after_build, build_site_fire, build_fire, fire_schedule}
use frappe_os.Base.{All, [], arith, false, none, refl, some, true, ◌∷◌, ◌≡◌}
use frappe_os.Base.Results.{Result, err, ok}
use frappe_os.Base.Text.{Str, codes}
use frappe_os.Jobs.Create.{replied, prepare, refusing_window, create_from, create, queued, Env}
use frappe_os.Jobs.Steps.{Steps, Consistent}
use frappe_os.Schedules.Tables.{remove_side, Fleet, Store}
use frappe_os.Schedules.Dispatch.{tick, TickResult}
use frappe_os.Schedules.{
  job_error, schedule_error, ScheduleError, CronExpr, validate_cadence, is_due, compute_next_run,
  Schedule, DispatchError,
}
use frappe_os.Regex.{fullmatch, Unicode}
use frappe_os.Jobs.Backend.{in_memory, no_locks, InMemory}
use frappe_os.Base.{[], arith, false, none, some, true, ◌∷◌}
use frappe_os.Base.Results.{Result}
use frappe_os.Base.Text.{Str, codes}
use frappe_os.Jobs.{render_error, CommandJob, World}

abbrev ascii : Unicode
ascii = record { is_word = λ c. false; is_space = λ c. false }

abbrev env : Env
env = record {
  unicode = ascii;
  now = 1000;
  windows = [];
  servers = λ i. none;
  secrets = record {
    encrypt_bundle = λ values. [];
    decrypt_bundle = λ token. none;
    decrypt = λ token. none;
  };
  enqueue = λ job. queued (some "rq-1");
  acquire_reply = replied;
  release_reply = replied;
}

abbrev nothing : World InMemory
nothing = record {
  backend = no_locks;
  jobs = λ i. none;
  next_id = 0;
  queue = [];
  audits = [];
  notified = [];
  log = [];
}

nothing-Consistent : Consistent in_memory nothing
nothing-Consistent = record {
  holds = λ i job k row. ground arith;
  keyed = λ i job row. ground arith;
  queue_ok = λ i waits. ground arith;
}

abbrev hourly : Schedule
hourly = record {
  id = 5;
  target_type = "site";
  target_id = some 1;
  params = [];
  action_name = "site.backup";
  cron = none;
  interval_seconds = some 3600;
  priority = "default";
  with_files = false;
  retention_keep_last = none;
  retention_keep_days = none;
  enabled = true;
  next_run_at = some 900;
  last_run_at = none;
  last_run_job_id = none;
  created_by = none;
}

abbrev fleet_at : Str → Fleet
fleet_at path = record {
  sites = λ i. some (record { id = 1; name = codes "a.test"; bench_id = 2 });
  benches = λ i. some (record { id = 2; path = path; server_id = 4 });
  server_rows = λ i. none;
  repos = λ i. none;
  storage_target = λ i. none;
  storage_targets = [];
}

abbrev store : Store InMemory
store = record {
  world = nothing;
  schedules = hourly ∷ [];
  backups = λ i. none;
  next_backup = 1;
  platform_backups = λ i. none;
  next_platform = 1;
}

abbrev bad_path : Result DispatchError CommandJob × Store InMemory
bad_path = fire_schedule in_memory env (fleet_at (codes "home/b")) 1000 none hourly store

abbrev good_path : TickResult × Store InMemory
good_path = tick in_memory env (fleet_at (codes "/home/b")) 1000 store

-- The path of the bench is not absolute: the job is refused, and the pending backup is gone.
refused :
    bad_path ≡ (err (job_error (render_error (disallowed_characters "bench_path"))), bad_path.1)
unfolding fire_schedule build_fire build_site_fire resolve_site_target after_build after_create
    create create_from get_template templates refusing_window prepare render collect finish validate
    fullmatch substitute_all substitute_cwd join select unknown_names site_backup remove_side
refused = refl

store-Fresh : Fresh in_memory store
store-Fresh = record { backup_free = refl; platform_free = refl; consistent = nothing-Consistent }

fire_schedule-Undone_example : Undone in_memory store bad_path.1
fire_schedule-Undone_example =
    fire_schedule-Undone in_memory env (fleet_at (codes "home/b")) 1000 none hourly
      (job_error (render_error (disallowed_characters "bench_path"))) store bad_path.1 store-Fresh
      refused refl

-- "* * * * *": the next full minute.
abbrev minutely_cron : CronExpr
minutely_cron = record {
  blank = false;
  zone_known = true;
  parses = true;
  get_next = λ after. some ((after / 60000000 + 1) * 60000000);
}

minutely_cron-Ahead : Ahead minutely_cron
minutely_cron-Ahead = record { later = λ after at e. ground arith }

abbrev minutely : Schedule
minutely = record hourly { id = 6; cron = some minutely_cron; interval_seconds = none }

abbrev two_due : Store InMemory
two_due = record store { schedules = hourly ∷ (minutely ∷ []) }

abbrev two_ticked : TickResult × Store InMemory
two_ticked = tick in_memory env (fleet_at (codes "/home/b")) 1000 two_due

tick-progress_example :
    All
      (λ s. is_due 1000 s ≡ true → among s.id two_ticked.0.raised_for ≡ true)
      two_ticked.1.schedules
tick-progress_example =
    tick-progress in_memory env (fleet_at (codes "/home/b")) 1000 two_due
      (tt, (minutely_cron-Ahead, tt))

tick-Steps_example :
    Steps in_memory nothing good_path.1.world × Consistent in_memory good_path.1.world
tick-Steps_example =
    tick-Steps in_memory env (fleet_at (codes "/home/b")) 1000 store nothing-Consistent

compute_next_run-validate_cadence_example : (validate_cadence (some minutely_cron) none ≡ ok tt) ↔ (
    (one_given (some minutely_cron) none ≡ true)
    × ((e : ScheduleError) → compute_next_run minutely 1000 ≢ err (schedule_error e)))
compute_next_run-validate_cadence_example = compute_next_run-validate_cadence minutely 1000

-- An expression that parses and never matches, such as "0 0 30 2 *": it is accepted, and computing the
-- next run raises another exception.
abbrev never_cron : CronExpr
never_cron = record minutely_cron { get_next = λ after. none }

no_match :
    (validate_cadence (some never_cron) none ≡ ok tt)
    × (compute_next_run (record minutely { cron = some never_cron }) 1000 ≡ err crashed)
unfolding compute_next_run validate_cadence
no_match = (refl, refl)

-- The next full minute.
minutely_runs : compute_next_run minutely 1000 ≡ ok 60000000
unfolding compute_next_run
minutely_runs = refl
