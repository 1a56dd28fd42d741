-- ===== src/Schedules/Cadence.antt =====
-- The cadence of a schedule in backend/app/core/scheduler.py: `validate_cadence` at the boundary, and
-- `compute_next_run` in the worker.
use frappe_os.Base.{
  true, Bool, Option, Option-cases, arith, inl, inr, none, some, ℕ, ◌<◌, ◌≡◌, ◌≢◌, ◌↔◌, refl,
  Bool-cases, false,
}
use frappe_os.Base.Results.{ok, err}
use frappe_os.Schedules.{
  next_run, next_match, validate_cadence, compute_next_run, CronExpr, Schedule, ScheduleError,
  schedule_error, no_cadence, unknown_timezone, invalid_cron, interval_not_positive,
}

-- The documentation of croniter: a match that `get_next` gives lies after the instant it starts from.
-- That there is one is not assumed.
pub record Ahead (cron : CronExpr) : Type 0 where
  pub later : (after at : ℕ) → cron.get_next after ≡ some at → after < at

abbrev pub CadenceOk : Option CronExpr → Type 0
CadenceOk none = Unit
CadenceOk (some cron) = Ahead cron

next_run-later :
    (cron : Option CronExpr) (interval : Option ℕ) (after at : ℕ)
    → CadenceOk cron
    → next_run interval cron after ≡ ok at
    → after < at
next_run-later none none after at fine found = ground arith
next_run-later (some cron) none after at fine found = elim (Option-cases (cron.get_next after)) [
  | inl e ↦ ground arith
  | inr (t, e) ↦ ground (arith, fine.later after t)
]
next_run-later cron (some interval) after at fine found = ground arith

-- Whenever the next run is computed, it lies after the instant that it is computed from, if the matches
-- of its cron expression do.
pub compute_next_run-later :
    (s : Schedule) (after at : ℕ) → CadenceOk s.cron → compute_next_run s after ≡ ok at → after < at
unfolding compute_next_run
compute_next_run-later s after at fine found =
    next_run-later s.cron s.interval_seconds after at fine found

-- Exactly one of the two is given.
abbrev pub one_given : Option CronExpr → Option ℕ → Bool
one_given none none = false
one_given (some cron) none = true
one_given none (some interval) = true
one_given (some cron) (some interval) = false

-- What `compute_next_run` answers for a cron expression that was accepted.
next_match-accepted :
    (cron : CronExpr) (after : ℕ) (e : ScheduleError)
    → validate_cadence (some cron) none ≡ ok tt
    → next_match (some cron) after ≢ err (schedule_error e)
unfolding validate_cadence
next_match-accepted cron after e valid raised = elim (Option-cases (cron.get_next after)) [
  | inl f ↦ ground arith
  | inr (at, f) ↦ ground arith
]

next_match-accepts :
    (cron : CronExpr) (after : ℕ)
    → ((e : ScheduleError) → next_match (some cron) after ≢ err (schedule_error e))
    → validate_cadence (some cron) none ≡ ok tt
unfolding validate_cadence
next_match-accepts cron after fine = elim (Bool-cases cron.blank) [
  | inl b ↦ absurd (fine no_cadence (ground arith))
  | inr b ↦ elim (Bool-cases cron.zone_known) [
    | inr z ↦ absurd (fine unknown_timezone (ground arith))
    | inl z ↦ elim (Bool-cases cron.parses) [
      | inr p ↦ absurd (fine invalid_cron (ground arith))
      | inl p ↦ ground arith
    ]
  ]
]

next_run-validate_cadence :
    (cron : Option CronExpr) (interval : Option ℕ) (after : ℕ)
    → (validate_cadence cron interval ≡ ok tt) ↔ (
        (one_given cron interval ≡ true)
        × ((e : ScheduleError) → next_run interval cron after ≢ err (schedule_error e)))
unfolding validate_cadence
next_run-validate_cadence none none after = (λ valid. ground arith, λ h. ground (arith, h.0))
next_run-validate_cadence (some cron) none after = (
  λ valid. (refl, λ e. next_match-accepted cron after e valid),
  λ h. next_match-accepts cron after h.1,
)
next_run-validate_cadence none (some interval) after =
    (λ valid. (refl, λ e raised. ground arith), λ h. ground (arith, h.1 interval_not_positive))
next_run-validate_cadence (some cron) (some interval) after =
    (λ valid. ground arith, λ h. ground (arith, h.0))

-- `validate_cadence` accepts the cadence of a schedule exactly if one of cron expression and interval
-- is given, not both, and `compute_next_run` raises no ScheduleError for it. Whether the cron library
-- finds a match is not a part of this.
pub compute_next_run-validate_cadence :
    (s : Schedule) (after : ℕ)
    → (validate_cadence s.cron s.interval_seconds ≡ ok tt) ↔ (
        (one_given s.cron s.interval_seconds ≡ true)
        × ((e : ScheduleError) → compute_next_run s after ≢ err (schedule_error e)))
unfolding compute_next_run
compute_next_run-validate_cadence s after =
    next_run-validate_cadence s.cron s.interval_seconds after
