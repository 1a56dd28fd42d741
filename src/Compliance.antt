-- ===== src/Compliance.antt =====
-- backend/app/core/compliance.py and backend/app/models/compliance.py: whether the backups of a site
-- meet its policy. An instant is a number of microseconds; where the source subtracts from the clock,
-- the model adds on the other side. A negative number of hours or days is not modelled, and the texts
-- that go with a breach are left out.
pub mod Sweep
pub mod Order
pub mod Policies
pub mod Events
mod Examples
use frappe_os.Base.{
  &&-true, ==_iff, All, All-Memᴰ, All-append, All-map, Bool, Bool-cases, List, Option, Option-cases,
  String, [], all, any, any-append, ap, arith, drop, eq_iff, false, if_either, if◌then◌else◌, inl,
  inr, keep_if, leb, leb→le, length, length-append, length-keep_if, ltb, ltb→lt, map, max, min,
  none, not, refl, some, str_eq, subst, suc, sym, take, true, zero, ||-false, ℕ, ◌%◌, ◌&&◌, ◌*◌,
  ◌++◌, ◌+◌, ◌-◌, ◌/◌, ◌<◌, ◌==◌, ◌^◌, ◌||◌, ◌↔◌, ◌∙◌, ◌∷◌, ◌≡◌, ◌≢◌, ◌≤◌, ◌⊎◌,
}
use frappe_os.Base.Dicts.{Dict, get, get-put, listed, put}
use frappe_os.Base.Results.{>>=-eq-ok, Result, Result-cases, err, ok, raise_if, ◌>>=◌, ◌>>◌}
use frappe_os.Base.Text.{
  Str, codes, has, join_on, lstrip, occurs, rstrip, same, same_refl, same→eq, split_on, starts_with,
  strip,
}
use frappe_os.Retention.{day}

-- The columns of `Backup` and `Site` that are read.
pub record StoredBackup : Type 0 where
  pub site_id : ℕ
  pub status : String
  pub created_at : ℕ
  pub storage_state : String

pub record PolicedSite : Type 0 where
  pub id : ℕ
  pub name : Str
  pub created_at : Option ℕ

pub record BackupPolicy : Type 0 where
  pub site_id : ℕ
  pub rpo_hours : ℕ
  pub retention_days : Option ℕ
  pub require_offsite : Bool
  pub enabled : Bool

-- The code of a breach.
pub data BreachCode : Type 0 where
  rpo : BreachCode
  retention : BreachCode
  offsite : BreachCode

pub data ComplianceState : Type 0 where
  compliant : ComplianceState
  breached : ComplianceState

-- What `evaluate_policy` returns.
pub record PolicyResult : Type 0 where
  pub state : ComplianceState
  pub last_backup_at : Option ℕ
  pub breaches : List BreachCode

abbrev pub hour : ℕ
hour = 3600000000

-- ORDER BY created_at DESC; rows of one instant keep the order of the table.
unfoldable pub insert_newest : StoredBackup → List StoredBackup → List StoredBackup
insert_newest b [] = b ∷ []
insert_newest b (x ∷ xs) =
    let rest = insert_newest b xs in
    if leb x.created_at b.created_at then b ∷ (x ∷ xs) else x ∷ rest

unfoldable pub newest_first : List StoredBackup → List StoredBackup
unfolding insert_newest
newest_first [] = []
newest_first (b ∷ bs) = insert_newest b (newest_first bs)

abbrev pub is_success_of : ℕ → StoredBackup → Bool
is_success_of site_id b = b.site_id == site_id && str_eq b.status "success"

-- _successful_backups
unfoldable pub successful_backups : ℕ → List StoredBackup → List StoredBackup
unfolding newest_first
successful_backups site_id backups = newest_first (keep_if (is_success_of site_id) backups)

abbrev pub newest_of : List StoredBackup → Option StoredBackup
newest_of [] = none
newest_of (b ∷ bs) = some b

abbrev pub oldest_of : List StoredBackup → Option StoredBackup
oldest_of [] = none
oldest_of (b ∷ []) = some b
oldest_of (b ∷ (c ∷ bs)) = oldest_of (c ∷ bs)

abbrev pub created : Option StoredBackup → Option ℕ
created none = none
created (some b) = some b.created_at

-- 1. RPO
abbrev pub rpo_breaches : BackupPolicy → ℕ → Option StoredBackup → List BreachCode
rpo_breaches policy now none = rpo ∷ []
rpo_breaches policy now (some newest) =
    if ltb (newest.created_at + policy.rpo_hours * hour) now then rpo ∷ [] else []

abbrev pub site_old_enough : ℕ → ℕ → Option ℕ → Bool
site_old_enough days now none = true
site_old_enough days now (some created_at) = leb (created_at + days * day) now

-- `(now - oldest_at) >= (window - _RETENTION_GRACE)`
abbrev pub history_reaches : ℕ → ℕ → StoredBackup → Bool
history_reaches days now oldest = leb (oldest.created_at + days * day) (now + day)

-- 2. Retention
abbrev pub retention_breaches : Option ℕ → ℕ → PolicedSite → Option StoredBackup → List BreachCode
retention_breaches none now site oldest = []
retention_breaches (some days) now site none = []
retention_breaches (some days) now site (some oldest) =
    if site_old_enough days now site.created_at && not (history_reaches days now oldest)
    then retention ∷ []
    else []

abbrev pub is_offsite : StoredBackup → Bool
is_offsite b = str_eq b.storage_state "offsite"

abbrev pub all_but_offsite : Option StoredBackup → Bool
all_but_offsite none = true
all_but_offsite (some newest) = not (is_offsite newest)

-- 3. Offsite
abbrev pub offsite_breaches : Bool → Option StoredBackup → List BreachCode
offsite_breaches required newest = if required && all_but_offsite newest then offsite ∷ [] else []

abbrev pub state_of : List BreachCode → ComplianceState
state_of [] = compliant
state_of (code ∷ codes) = breached

abbrev pub result_of : Option StoredBackup → List BreachCode → PolicyResult
result_of newest breaches = record {
  state = state_of breaches;
  last_backup_at = created newest;
  breaches = breaches;
}

-- evaluate_policy
unfoldable pub evaluate_policy : List StoredBackup → ℕ → PolicedSite → BackupPolicy → PolicyResult
unfolding successful_backups
evaluate_policy backups now site policy =
    let mine = successful_backups policy.site_id backups in
    let newest = newest_of mine in
    result_of newest (
      rpo_breaches policy now newest
      ++ (retention_breaches policy.retention_days now site (oldest_of mine)
          ++ offsite_breaches policy.require_offsite newest))
