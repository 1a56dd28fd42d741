-- ===== src/Schedules/Fire.antt =====
-- `_build_fire` and `fire_schedule` of backend/app/core/scheduler.py: what a schedule runs, and its
-- firing through `JobRunner.create`.
use frappe_os.Regex.{Unicode}
use frappe_os.Jobs.Create.{show, Request, Env, create}
use frappe_os.Jobs.{World, JobError, CommandJob}
use frappe_os.Jobs.Backend.{JobBackend}
use frappe_os.Schedules.Targets.{
  keep_params, site_params, platform_fire, first_enabled, on_site, drift_fire, site_fire, is_action,
  build_report_fire, build_restic_fire, resolve_site_target,
}
use frappe_os.Base.{Option, [], false, if◌then◌else◌, none, some, str_eq, ℕ, ◌++◌, ◌||◌, ◌∷◌}
use frappe_os.Base.Results.{Result, err, ok}
use frappe_os.Base.Text.{codes}
use frappe_os.Schedules.{
  Schedule, ScheduleError, no_storage_target, unschedulable, DispatchError, schedule_error,
  job_error,
}
use frappe_os.Schedules.Tables.{
  write_schedule, add_platform, add_backup, Side, set_schedule, link_side, remove_side, BenchRow,
  Store, Fire, SiteRow, Fleet, backup, platform_backup,
}

abbrev pub first_some : Option ℕ → Option ℕ → Option ℕ
first_some none b = b
first_some (some a) b = some a

abbrev pub fire_request : Schedule → Option ℕ → Fire → Request
fire_request s created_by fire = record {
  action_name = s.action_name;
  server_id = fire.server_id;
  target_type = s.target_type;
  target_id = fire.target_id;
  params = fire.params;
  priority = s.priority;
  created_by = first_some created_by s.created_by;
  user_secrets = [];
  from_sanitized = false;
}

abbrev pub fired_row : ℕ → CommandJob → Schedule → Schedule
fired_row now job s = record s { last_run_at = some now; last_run_job_id = some job.id }

module _ {S : Type 0} where
  -- _build_platform_fire
  unfoldable pub build_platform_fire :
      Fleet → Schedule → Store S → Result ScheduleError Fire × Store S
  build_platform_fire fleet s st =
      if is_action s "platform.self_backup"
      then elim (first_enabled fleet.storage_targets) [
        | none ↦ (err no_storage_target, st)
        | some target ↦ (
          ok (
              platform_fire
                (("backup_id", some (show st.next_platform))
                  ∷ ("storage_target_id", some (show target.id))
                  ∷ [])
                (some (platform_backup st.next_platform))),
          add_platform (record { owner = none; kind = "platform"; taken_by_job_id = none }) st,
        )
      ]
      else if is_action s "platform.self_backup_retention_sweep"
      then (ok (platform_fire (keep_params s) none), st)
      else (err unschedulable, st)

  -- The `site.backup` branch of `_build_fire`, with `create_pending_backup`.
  abbrev pub backup_fire :
      Schedule
      → Result ScheduleError (SiteRow × BenchRow)
      → Store S
      → Result ScheduleError Fire × Store S
  backup_fire s (err e) st = (err e, st)
  backup_fire s (ok (site, bench)) st = (
    ok (
        site_fire site bench
          (("site", some site.name)
            ∷ ("bench_path", some bench.path)
            ∷ ("with_files", some (codes (if s.with_files then "1" else "0")))
            ∷ ("backup_id", some (show st.next_backup))
            ∷ [])
          (some (backup st.next_backup))),
    add_backup
        (record {
          owner = some site.id;
          kind = if s.with_files then "with-files" else "db";
          taken_by_job_id = none;
        })
        st,
  )

  -- The branches of `_build_fire` for a site.
  unfoldable pub build_site_fire : Fleet → Schedule → Store S → Result ScheduleError Fire × Store S
  unfolding resolve_site_target
  build_site_fire fleet s st =
      let target = resolve_site_target fleet s in
      if is_action s "site.backup"
      then backup_fire s target st
      else if is_action s "backup.retention_sweep"
      then (
        on_site target
            (λ site bench. site_fire site bench (site_params site bench ++ keep_params s) none),
        st,
      )
      else if is_action s "ssl.certbot_renew" || is_action s "ssl.expiry_scan"
      then (on_site target (λ site bench. site_fire site bench (site_params site bench) none), st)
      else (elim target [ err e ↦ err e | ok p ↦ err unschedulable ], st)

  -- _build_fire
  unfoldable pub build_fire :
      Unicode → Fleet → Schedule → Store S → Result ScheduleError Fire × Store S
  unfolding build_restic_fire build_report_fire build_platform_fire build_site_fire
  build_fire u fleet s st =
      if is_action s "server.drift_check"
      then (drift_fire fleet s, st)
      else if is_action s "restic.backup"
          || is_action s "restic.forget"
          || is_action s "restic.check"
      then (build_restic_fire u fleet s, st)
      else if is_action s "report.generate"
      then (build_report_fire s, st)
      else if str_eq s.target_type "platform"
      then build_platform_fire fleet s st
      else build_site_fire fleet s st

module _ {S : Type 0} (B : JobBackend S) where
  -- `fire_schedule` after `create`.
  unfoldable pub after_create :
      ℕ
      → Schedule
      → Option Side
      → Result JobError CommandJob × World S
      → Store S
      → Result DispatchError CommandJob × Store S
  unfolding remove_side link_side set_schedule
  after_create now s side (err e, w) st =
      (err (job_error e), remove_side side (record st { world = w }))
  after_create now s side (ok job, w) st = (
    ok job,
    write_schedule (fired_row now job s) (link_side job.id side (record st { world = w })),
  )

  -- `fire_schedule` after `_build_fire`.
  unfoldable pub after_build :
      Env
      → ℕ
      → Option ℕ
      → Schedule
      → Result ScheduleError Fire × Store S
      → Result DispatchError CommandJob × Store S
  unfolding after_create create
  after_build env now created_by s (err e, st) = (err (schedule_error e), st)
  after_build env now created_by s (ok fire, st) =
      after_create now s fire.side (create B env (fire_request s created_by fire) st.world) st

  -- fire_schedule
  unfoldable pub fire_schedule :
      Env → Fleet → ℕ → Option ℕ → Schedule → Store S → Result DispatchError CommandJob × Store S
  unfolding build_fire after_build
  fire_schedule env fleet now created_by s st =
      after_build env now created_by s (build_fire env.unicode fleet s st)
