-- ===== src/Schedules.antt =====
-- backend/app/core/scheduler.py and backend/app/models/schedule.py: schedules and when they are due.
-- An instant is a number of microseconds. `croniter` and `ZoneInfo` are not code of the repository: a
-- cron expression in a time zone is the record `CronExpr` of what the two libraries say of it.
pub mod Tables
pub mod Targets
pub mod Fire
pub mod Dispatch
pub mod Cadence
pub mod Sides
pub mod Rollback
pub mod Rows
pub mod Progress
pub mod Refinement
mod Examples
use frappe_os.Base.{
  Bool, List, Option, String, [], false, if◌then◌else◌, keep_if, leb, none, not, some, ℕ, ◌&&◌, ◌*◌,
  ◌+◌, ◌==◌, ◌||◌, ◌∷◌,
}
use frappe_os.Base.Dicts.{Dict}
use frappe_os.Base.Results.{◌>>=◌, ◌>>◌, Result, err, ok, raise_if}
use frappe_os.Base.Text.{Str, has, same}
use frappe_os.Windows.{second}
use frappe_os.Jobs.{JobError}

pub record CronExpr : Type 0 where
  -- the text is empty
  pub blank : Bool
  -- ZoneInfo(timezone) finds the zone
  pub zone_known : Bool
  -- croniter(cron, base) accepts the expression
  pub parses : Bool
  -- croniter(cron, base).get_next(), the next match after an instant; `none` where it raises
  pub get_next : ℕ → Option ℕ

-- What a JSON value of `Schedule.params` may be. A list has the texts of its items and the text that
-- `str` gives of the whole; `other` has the text that `str` gives, and whether it counts as false.
pub data Json : Type 0 where
  null : Json
  text : Str → Json
  texts : List Str → Str → Json
  other : Bool → Str → Json

-- The row `Schedule`. An interval that is negative takes the same branches as 0.
pub record Schedule : Type 0 where
  pub id : ℕ
  pub target_type : String
  pub target_id : Option ℕ
  pub params : Dict Json
  pub action_name : String
  pub cron : Option CronExpr
  pub interval_seconds : Option ℕ
  pub priority : String
  pub with_files : Bool
  pub retention_keep_last : Option ℕ
  pub retention_keep_days : Option ℕ
  pub enabled : Bool
  pub next_run_at : Option ℕ
  pub last_run_at : Option ℕ
  pub last_run_job_id : Option ℕ
  pub created_by : Option ℕ

-- ScheduleError, by its message.
pub data ScheduleError : Type 0 where
  interval_not_positive unknown_timezone invalid_cron no_cadence : ScheduleError
  two_cadences unsupported_target site_gone no_bench server_gone : ScheduleError
  no_report_id no_repo no_password not_initialised no_retention : ScheduleError
  no_storage_target no_credentials bad_repository unschedulable : ScheduleError

-- What may leave `dispatch_schedule`: `crashed` is an exception of the cron library.
pub data DispatchError : Type 0 where
  schedule_error : ScheduleError → DispatchError
  job_error : JobError → DispatchError
  crashed : DispatchError

abbrev next_of : Option ℕ → Result DispatchError ℕ
next_of none = err crashed
next_of (some at) = ok at

-- The branch of `compute_next_run` for a cron expression.
abbrev next_match : Option CronExpr → ℕ → Result DispatchError ℕ
next_match none after = err (schedule_error no_cadence)
next_match (some cron) after = do
  raise_if cron.blank (schedule_error no_cadence)
  raise_if (not cron.zone_known) (schedule_error unknown_timezone)
  raise_if (not cron.parses) (schedule_error invalid_cron)
  next_of (cron.get_next after)

abbrev next_run : Option ℕ → Option CronExpr → ℕ → Result DispatchError ℕ
next_run none cron after = next_match cron after
next_run (some interval) cron after =
    if interval == 0
    then err (schedule_error interval_not_positive)
    else ok (after + interval * second)

-- compute_next_run
unfoldable pub compute_next_run : Schedule → ℕ → Result DispatchError ℕ
compute_next_run s after = next_run s.interval_seconds s.cron after

-- validate_cadence
unfoldable pub validate_cadence : Option CronExpr → Option ℕ → Result ScheduleError (Unit {0})
validate_cadence none none = err two_cadences
validate_cadence (some cron) (some interval) = err two_cadences
validate_cadence none (some interval) = if interval == 0 then err interval_not_positive else ok tt
validate_cadence (some cron) none = do
  raise_if (not cron.zone_known) unknown_timezone
  raise_if (not cron.parses || cron.blank) invalid_cron
  ok tt

abbrev arrived : ℕ → Option ℕ → Bool
arrived now none = false
arrived now (some at) = leb at now

-- The condition of `due_schedules`.
unfoldable pub is_due : ℕ → Schedule → Bool
is_due now s = s.enabled && arrived now s.next_run_at

abbrev due_at : Option ℕ → ℕ
due_at none = 0
due_at (some at) = at

-- ORDER BY next_run_at; rows with one instant keep the order of the table.
unfoldable pub insert_due : Schedule → List Schedule → List Schedule
insert_due s [] = s ∷ []
insert_due s (x ∷ xs) =
    let rest = insert_due s xs in
    if leb (due_at s.next_run_at) (due_at x.next_run_at) then s ∷ (x ∷ xs) else x ∷ rest

unfoldable pub order_by_due : List Schedule → List Schedule
unfolding insert_due
order_by_due [] = []
order_by_due (s ∷ ss) = insert_due s (order_by_due ss)

-- due_schedules
unfoldable pub due_schedules : ℕ → List Schedule → List Schedule
unfolding order_by_due is_due
due_schedules now table = order_by_due (keep_if (is_due now) table)
