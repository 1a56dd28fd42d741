-- ===== src/Retention/Examples.antt =====
-- A sweep over four backups, one of which failed.
use frappe_os.Retention.Floor.{
  plan_retention-newest, plan_retention-keep_days, plan_retention-keep_last,
}
use frappe_os.Retention.{
  keep_ids, insert, not_after, sorted, plan_retention, day, Backup, successful,
}
use frappe_os.Base.{
  All, List, String, [], length, min, none, refl, some, true, ℕ, ◌*◌, ◌+◌, ◌<◌, ◌∷◌, ◌≡◌, ◌≢◌, ◌≤◌,
}

abbrev backup : ℕ → String → ℕ → Backup
backup id status created_at = record { id = id; status = status; created_at = created_at * day }

abbrev four : List Backup
four =
    backup 1 "success" 10
    ∷ backup 2 "success" 12
    ∷ backup 3 "failed" 14
    ∷ backup 4 "success" 13
    ∷ []

abbrev older : List Backup
older = backup 2 "success" 12 ∷ backup 1 "success" 10 ∷ []

newest_found : successful four ≡ backup 4 "success" 13 ∷ older
unfolding successful sorted insert
newest_found = refl

-- Neither rule keeps anything, so the newest alone stays.
swept : plan_retention four (some 0) (some 1) (30 * day) ≡ (backup 4 "success" 13 ∷ [], older)
unfolding plan_retention successful sorted insert keep_ids
swept = refl

plan_retention-newest_example :
    ((kept : List Backup) × ((plan_retention four (some 0) (some 1) (30 * day)).0
        ≡ backup 4 "success" 13 ∷ kept))
    × All
        (λ b. (not_after b (backup 4 "success" 13) ≡ true) × (b.id ≢ 4))
        (plan_retention four (some 0) (some 1) (30 * day)).1
plan_retention-newest_example =
    plan_retention-newest four (some 0) (some 1) (30 * day) (backup 4 "success" 13) older
      newest_found

plan_retention-keep_days_example :
    All
      (λ b. b.created_at + 5 * day < 17 * day)
      (plan_retention four (some 0) (some 5) (17 * day)).1
plan_retention-keep_days_example = plan_retention-keep_days four (some 0) 5 (17 * day)

plan_retention-keep_last_example :
    min 2 (length (successful four)) ≤ length (plan_retention four (some 2) none (30 * day)).0
plan_retention-keep_last_example = plan_retention-keep_last four 2 (30 * day) none
