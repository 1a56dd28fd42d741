-- ===== src/Windows.antt =====
-- backend/app/models/maintenance_window.py: windows that block dangerous action classes. Instants
-- are microseconds since the epoch. `croniter` and `ZoneInfo` are not code of the repository: an
-- expression in a time zone is the record `Cron` of their two searches, which return `none` where
-- the libraries raise.
pub mod Triggers
pub mod Occurrences
mod Examples
use frappe_os.Base.{
  ◌&&◌, ◌==◌, ℕ, zero, suc, ◌+◌, ◌-◌, ◌*◌, String, Bool, true, false, List, [], ◌∷◌, Option, none,
  some, ltb, if◌then◌else◌,
}
use frappe_os.Base.Dicts.{listed}

pub record Cron : Type 0 where
  -- croniter(cron, probe).get_prev(), the trigger before an instant
  pub get_prev : ℕ → Option ℕ
  -- croniter(cron, start).get_next(), the trigger after an instant
  pub get_next : ℕ → Option ℕ

pub record MaintenanceWindow : Type 0 where
  pub id : ℕ
  pub name : String
  pub server_id : ℕ
  -- the columns `cron` and `timezone` together
  pub cron : Cron
  pub duration_minutes : ℕ
  pub blocked_danger_classes : List String
  pub enabled : Bool

abbrev pub second : ℕ
second = 1000000

-- The instant at which the window that a trigger opened ends.
abbrev pub window_end : MaintenanceWindow → ℕ → ℕ
window_end w trigger = trigger + w.duration_minutes * (60 * second)

abbrev covers : MaintenanceWindow → ℕ → Option ℕ → Bool
covers w at none = false
covers w at (some trigger) = ltb at (window_end w trigger)

-- MaintenanceWindow.is_active_at
unfoldable pub is_active_at : MaintenanceWindow → ℕ → Bool
is_active_at w at = if w.enabled then covers w at (w.cron.get_prev (at + second)) else false

-- The loop of `occurrences_between`; `none` means that `get_next` raised, or that the fuel ran out.
unfoldable pub occurrences_from : ℕ → Cron → ℕ → ℕ → Option (List ℕ)
occurrences_from zero cron start end = none
occurrences_from (suc fuel) cron start end = elim (cron.get_next start) [
  | none ↦ none
  | some next ↦ elim (ltb end next) [
    | true ↦ some []
    | false ↦ elim (occurrences_from fuel cron next end) [
      | none ↦ none
      | some rest ↦ some (next ∷ rest)
    ]
  ]
]

abbrev pub or_empty : Option (List ℕ) → List ℕ
or_empty none = []
or_empty (some ts) = ts

-- MaintenanceWindow.occurrences_between: each turn moves on by at least a microsecond.
unfoldable pub occurrences_between : MaintenanceWindow → ℕ → ℕ → List ℕ
unfolding occurrences_from
occurrences_between w start end = or_empty (occurrences_from (end - start + 2) w.cron start end)

-- The windows that `JobRunner.create` meets: enabled ones of the server, in the order of the query.
unfoldable pub blocking_window : List MaintenanceWindow → ℕ → String → ℕ → Option MaintenanceWindow
unfolding is_active_at
blocking_window [] server_id danger_class now = none
blocking_window (w ∷ ws) server_id danger_class now =
    let rest = blocking_window ws server_id danger_class now in
    if w.server_id == server_id && w.enabled
    then (if listed danger_class w.blocked_danger_classes && is_active_at w now
        then some w
        else rest)
    else rest
