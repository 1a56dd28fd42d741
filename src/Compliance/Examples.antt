-- ===== src/Compliance/Examples.antt =====
-- Two sites: one with a fresh backup off site, one without a backup.
use frappe_os.Compliance.Events.{
  evaluate_all-events, enabled_policies, DistinctSites, entered_events,
}
use frappe_os.Compliance.Policies.{evaluate_policy-Meets, Meets}
use frappe_os.Base.{List, [], arith, map, none, refl, some, true, ℕ, ◌*◌, ◌++◌, ◌+◌, ◌↔◌, ◌∷◌, ◌≡◌}
use frappe_os.Base.Text.{codes}
use frappe_os.Compliance.Sweep.{evaluate_each, evaluate_all, ComplianceDb}
use frappe_os.Compliance.{
  insert_newest, newest_first, hour, successful_backups, evaluate_policy, BackupPolicy,
  StoredBackup, PolicedSite, compliant,
}
use frappe_os.Retention.{day}

abbrev site : ℕ → PolicedSite
site i = record { id = i; name = codes "a.test"; created_at = some 0 }

abbrev policy : ℕ → BackupPolicy
policy i = record {
  site_id = i;
  rpo_hours = 24;
  retention_days = some 7;
  require_offsite = true;
  enabled = true;
}

abbrev taken : ℕ → StoredBackup
taken at = record { site_id = 1; status = "success"; created_at = at; storage_state = "offsite" }

-- Ten days after the site was made: a backup of the second day, and one of this morning.
abbrev backups : List StoredBackup
backups = taken (2 * day) ∷ (taken (10 * day) ∷ [])

abbrev now : ℕ
now = 10 * day + 5 * hour

evaluate_policy-Meets_example :
    ((evaluate_policy backups now (site 1) (policy 1)).state ≡ compliant)
    ↔ Meets backups now (site 1) (policy 1)
evaluate_policy-Meets_example = evaluate_policy-Meets backups now (site 1) (policy 1)

first_compliant : (evaluate_policy backups now (site 1) (policy 1)).state ≡ compliant
unfolding evaluate_policy successful_backups newest_first insert_newest
first_compliant = refl

first-Meets : Meets backups now (site 1) (policy 1)
first-Meets = (evaluate_policy-Meets backups now (site 1) (policy 1)).0 first_compliant

abbrev db : ComplianceDb
db = record {
  sites = λ i. some (site i);
  backups = backups;
  policies = policy 1 ∷ (policy 2 ∷ []);
  statuses = λ i. none;
  events = [];
}

db-DistinctSites : DistinctSites (enabled_policies db)
db-DistinctSites = (((λ e. ground arith), tt), (tt, tt))

evaluate_all-events_example :
    (evaluate_all now db).0.events ≡ [] ++ entered_events now db (enabled_policies db)
evaluate_all-events_example = evaluate_all-events now db db-DistinctSites

-- Only the site without a backup is reported, and a second sweep reports nothing more.
reported : map (λ e. e.site_id) (evaluate_all now (evaluate_all now db).0).0.events ≡ 2 ∷ []
unfolding evaluate_all evaluate_each evaluate_policy successful_backups newest_first insert_newest
reported = refl
