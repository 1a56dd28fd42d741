-- ===== src/Windows/Triggers.antt =====
-- When a window is active, against the triggers of its cron expression.
use frappe_os.Base.{Option, arith, none, refl, some, true, ℕ, ◌+◌, ◌<◌, ◌↔◌, ◌≡◌, ◌≤◌}
use frappe_os.Windows.{Cron, MaintenanceWindow, second, window_end, is_active_at}

-- What croniter documents: `get_prev` and `get_next` find the nearest trigger strictly before and
-- strictly after an instant, and raise if there is none.
pub record Finds (cron : Cron) (Fires : ℕ → Type 0) : Type 0 where
  pub prev_fires : (p t : ℕ) → cron.get_prev p ≡ some t → Fires t × (t < p)
  pub prev_last : (p t s : ℕ) → cron.get_prev p ≡ some t → Fires s → s < p → s ≤ t
  pub prev_none : (p s : ℕ) → cron.get_prev p ≡ none → Fires s → p ≤ s
  pub next_fires : (p t : ℕ) → cron.get_next p ≡ some t → Fires t × (p < t)
  pub next_first : (p t s : ℕ) → cron.get_next p ≡ some t → Fires s → p < s → t ≤ s

-- Some trigger less than a second ahead, or earlier, opened a window that has not ended.
abbrev pub Open : MaintenanceWindow → (ℕ → Type 0) → ℕ → Type 0
Open w Fires at = (t : ℕ) × Fires t × (t < at + second) × (at < window_end w t)

-- An enabled window is active exactly when some trigger up to one second ahead of the instant
-- opened a window that has not ended; a disabled one never is.
pub is_active_at-Open :
    (w : MaintenanceWindow) (Fires : ℕ → Type 0) (at : ℕ)
    → Finds w.cron Fires
    → (is_active_at w at ≡ true) ↔ ((w.enabled ≡ true) × Open w Fires at)
unfolding is_active_at
is_active_at-Open w Fires at f = (forth, back)
  where
    found :
        (o : Option ℕ)
        → w.cron.get_prev (at + second) ≡ o
        → is_active_at w at ≡ true
        → (w.enabled ≡ true) × Open w Fires at
    found none e h = absurd (ground arith)
    found (some t) e h =
        let (fires, before) = f.prev_fires (at + second) t e in
        (ground arith, (t, fires, before, ground arith))

    forth : is_active_at w at ≡ true → (w.enabled ≡ true) × Open w Fires at
    forth h = found (w.cron.get_prev (at + second)) refl h

    lost :
        (o : Option ℕ)
        → w.cron.get_prev (at + second) ≡ o
        → (w.enabled ≡ true) × Open w Fires at
        → is_active_at w at ≡ true
    lost none e (on, (t, fires, before, open_)) =
        absurd (omega (arith, f.prev_none (at + second) t e fires))
    lost (some s) e (on, (t, fires, before, open_)) =
        let later = f.prev_last (at + second) s t e fires before in ground arith

    back : (w.enabled ≡ true) × Open w Fires at → is_active_at w at ≡ true
    back h = lost (w.cron.get_prev (at + second)) refl h
