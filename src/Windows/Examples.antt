-- ===== src/Windows/Examples.antt =====
-- A cron expression that fires at every full hour.
use mathlib.Core.List.{Memᴰ}
use frappe_os.Base.{
  [], arith, if◌then◌else◌, none, refl, some, true, ℕ, ◌*◌, ◌+◌, ◌-◌, ◌/◌, ◌<◌, ◌==◌, ◌↔◌, ◌∷◌, ◌≡◌,
  ◌≤◌,
}
use frappe_os.Windows.{Cron, MaintenanceWindow, is_active_at, occurrences_between, occurrences_from}
use frappe_os.Windows.Triggers.{Finds, Open, is_active_at-Open}
use frappe_os.Windows.Occurrences.{occurrences_between-Fires}

abbrev hour : ℕ
hour = 3600000000

-- The hours are the multiples of `hour`.
abbrev OnTheHour : ℕ → Type 0
OnTheHour t = (k : ℕ) × (t ≡ k * hour)

abbrev hourly : Cron
hourly = record {
  get_prev = λ p. if p == 0 then none else some ((p - 1) / hour * hour);
  get_next = λ s. some ((s / hour + 1) * hour);
}

hourly_prev : (p t : ℕ) → hourly.get_prev p ≡ some t → t ≡ (p - 1) / hour * hour
hourly_prev p t e = ground arith

hourly-Finds : Finds hourly OnTheHour
hourly-Finds = record {
  prev_fires = λ p t e. (((p - 1) / hour, ground arith), ground arith);
  prev_last = λ p t s e fires before. prev_last p t s fires.0 e fires.1 before;
  prev_none = λ p s e fires. ground arith;
  next_fires = λ p t e. ((p / hour + 1, ground arith), ground arith);
  next_first = λ p t s e fires after. next_first p t s fires.0 e fires.1 after;
}
  where
    prev_last : (p t s k : ℕ) → hourly.get_prev p ≡ some t → s ≡ k * hour → s < p → s ≤ t
    prev_last p t s k e q h = ground arith

    next_first : (p t s k : ℕ) → hourly.get_next p ≡ some t → s ≡ k * hour → p < s → t ≤ s
    next_first p t s k e q h = ground arith

abbrev nightly : MaintenanceWindow
nightly = record {
  id = 1;
  name = "nightly";
  server_id = 4;
  cron = hourly;
  duration_minutes = 30;
  blocked_danger_classes = "update" ∷ [];
  enabled = true;
}

-- Half a second before the full hour.
abbrev early : ℕ
early = 10 * hour - 500000

is_active_at-Open_example :
    (is_active_at nightly early ≡ true) ↔ ((nightly.enabled ≡ true) × Open nightly OnTheHour early)
is_active_at-Open_example = is_active_at-Open nightly OnTheHour early hourly-Finds

-- The window counts as active although its trigger is still ahead.
active_early : is_active_at nightly early ≡ true
unfolding is_active_at
active_early = refl

occurrences_between-Fires_example :
    Memᴰ (3 * hour) (occurrences_between nightly hour (3 * hour))
    ↔ (OnTheHour (3 * hour) × (hour < 3 * hour) × (3 * hour ≤ 3 * hour))
occurrences_between-Fires_example =
    occurrences_between-Fires nightly OnTheHour hour (3 * hour) (3 * hour) hourly-Finds
      (λ s h. ((s / hour + 1) * hour, refl)) (omega arith)

-- The end is listed and the start is not.
half_open : occurrences_from 5 hourly hour (3 * hour) ≡ some ((2 * hour) ∷ (3 * hour) ∷ [])
unfolding occurrences_from
half_open = refl
