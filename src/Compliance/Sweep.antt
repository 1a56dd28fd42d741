-- ===== src/Compliance/Sweep.antt =====
-- `evaluate_all` of backend/app/core/compliance.py.
use frappe_os.Restic.{is_set}
use frappe_os.Restic.{is_set}
use frappe_os.Compliance.{
  compliant, breached, evaluate_policy, StoredBackup, BackupPolicy, BreachCode, ComplianceState,
  PolicyResult, PolicedSite,
}
use frappe_os.Base.{
  Bool, List, Option, [], false, if◌then◌else◌, keep_if, length, none, not, some, true, ℕ, ◌&&◌,
  ◌++◌, ◌+◌, ◌==◌, ◌∷◌,
}
use frappe_os.Base.Text.{Str}

pub record ComplianceStatus : Type 0 where
  pub state : ComplianceState
  pub last_backup_at : Option ℕ
  pub breaches : List BreachCode
  pub evaluated_at : ℕ

pub record ComplianceBreachEvent : Type 0 where
  pub site_id : ℕ
  pub site_name : Str
  pub breaches : List BreachCode
  pub last_backup_at : Option ℕ
  pub rpo_hours : ℕ

pub record ComplianceDb : Type 0 where
  pub sites : ℕ → Option PolicedSite
  pub backups : List StoredBackup
  pub policies : List BackupPolicy
  pub statuses : ℕ → Option ComplianceStatus
  pub events : List ComplianceBreachEvent

-- The summary of a sweep.
pub record SweepCounts : Type 0 where
  pub compliant_sites : ℕ
  pub breached_sites : ℕ
  pub events_emitted : ℕ

abbrev pub status_from : ℕ → PolicyResult → ComplianceStatus
status_from now result = record {
  state = result.state;
  last_backup_at = result.last_backup_at;
  breaches = result.breaches;
  evaluated_at = now;
}

-- _upsert_status
abbrev pub upsert_status : ℕ → ℕ → PolicyResult → ComplianceDb → ComplianceDb
upsert_status site_id now result db = record db {
  statuses = λ i. if i == site_id then some (status_from now result) else db.statuses i;
}

abbrev pub breach_event : PolicedSite → BackupPolicy → PolicyResult → ComplianceBreachEvent
breach_event site policy result = record {
  site_id = site.id;
  site_name = site.name;
  breaches = result.breaches;
  last_backup_at = result.last_backup_at;
  rpo_hours = policy.rpo_hours;
}

abbrev pub is_breached : ComplianceState → Bool
is_breached compliant = false
is_breached breached = true

-- The state before the write; a new row has none.
abbrev pub was_breached : Option ComplianceStatus → Bool
was_breached none = false
was_breached (some status) = is_breached status.state

abbrev pub add_event : Bool → ComplianceBreachEvent → ComplianceDb → ComplianceDb
add_event entered event db = if entered then record db { events = db.events ++ event ∷ [] } else db

-- The sweep of one policy whose site is there.
abbrev pub evaluate_site :
    ℕ → BackupPolicy → PolicedSite → ComplianceDb × SweepCounts → ComplianceDb × SweepCounts
evaluate_site now policy site (db, counts) =
    let result = evaluate_policy db.backups now site policy in
    let entered = is_breached result.state && not (was_breached (db.statuses policy.site_id)) in
    (
      add_event entered (breach_event site policy result)
          (upsert_status policy.site_id now result db),
      record {
        compliant_sites =
            if is_breached result.state then counts.compliant_sites else counts.compliant_sites + 1;
        breached_sites =
            if is_breached result.state then counts.breached_sites + 1 else counts.breached_sites;
        events_emitted = if entered then counts.events_emitted + 1 else counts.events_emitted;
      },
    )

abbrev pub evaluate_found :
    ℕ → BackupPolicy → Option PolicedSite → ComplianceDb × SweepCounts → ComplianceDb × SweepCounts
evaluate_found now policy none state = state
evaluate_found now policy (some site) state = evaluate_site now policy site state

unfoldable pub evaluate_each :
    ℕ → List BackupPolicy → ComplianceDb × SweepCounts → ComplianceDb × SweepCounts
unfolding evaluate_policy
evaluate_each now [] state = state
evaluate_each now (policy ∷ policies) (db, counts) =
    evaluate_each now policies (evaluate_found now policy (db.sites policy.site_id) (db, counts))

-- evaluate_all
unfoldable pub evaluate_all : ℕ → ComplianceDb → ComplianceDb × SweepCounts
unfolding evaluate_each
evaluate_all now db =
    evaluate_each now (keep_if (λ policy. policy.enabled) db.policies)
      (db, record { compliant_sites = 0; breached_sites = 0; events_emitted = 0 })

-- compliance_counts: of the status rows that stand for an enabled policy, how many are compliant.
abbrev pub compliance_counts : ComplianceDb → ℕ × ℕ
compliance_counts db =
    let rows =
      keep_if (λ policy. policy.enabled && is_set (db.statuses policy.site_id)) db.policies in
    (length (keep_if (λ policy. not (was_breached (db.statuses policy.site_id))) rows), length rows)
