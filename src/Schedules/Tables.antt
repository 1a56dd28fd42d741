-- ===== src/Schedules/Tables.antt =====
-- The tables that the scheduler of backend/app/core/scheduler.py reads and writes.
use frappe_os.Templates.Render.{Params}
use frappe_os.Jobs.{World}
use frappe_os.Restic.{StorageTarget, ResticRepo}
use frappe_os.Base.{List, Option, String, [], if◌then◌else◌, none, some, ℕ, ◌+◌, ◌==◌, ◌∷◌}
use frappe_os.Base.Text.{Str}
use frappe_os.Schedules.{Schedule}

-- The columns that a fire reads of the other tables.
pub record SiteRow : Type 0 where
  pub id : ℕ
  pub name : Str
  pub bench_id : ℕ

pub record BenchRow : Type 0 where
  pub id : ℕ
  pub path : Str
  pub server_id : ℕ

pub record ServerRow : Type 0 where
  pub id : ℕ
  pub name : Str
  pub hostname : Str

pub record Fleet : Type 0 where
  pub sites : ℕ → Option SiteRow
  pub benches : ℕ → Option BenchRow
  pub server_rows : ℕ → Option ServerRow
  pub repos : ℕ → Option ResticRepo
  pub storage_target : ℕ → Option StorageTarget
  -- all of them, by id
  pub storage_targets : List StorageTarget

-- The rows that a fire inserts: a pending `Backup`, or a pending `PlatformBackup`.
pub record SideRow : Type 0 where
  pub owner : Option ℕ
  pub kind : String
  pub taken_by_job_id : Option ℕ

pub data Side : Type 0 where
  backup : ℕ → Side
  platform_backup : ℕ → Side

-- The database of the scheduler around the job engine's.
pub record Store (S : Type 0) : Type 0 where
  pub world : World S
  pub schedules : List Schedule
  pub backups : ℕ → Option SideRow
  pub next_backup : ℕ
  pub platform_backups : ℕ → Option SideRow
  pub next_platform : ℕ

-- What `_build_fire` returns.
pub record Fire : Type 0 where
  pub server_id : Option ℕ
  pub target_id : Option Str
  pub params : Params
  pub side : Option Side

abbrev pub at_row : {A : Type 0} → ℕ → Option A → (ℕ → Option A) → ℕ → Option A
at_row i row table n = if n == i then row else table n

abbrev taken_by : ℕ → Option SideRow → Option SideRow
taken_by job none = none
taken_by job (some row) = some (record row { taken_by_job_id = some job })

-- The row of a schedule is written.
unfoldable pub set_schedule : Schedule → List Schedule → List Schedule
set_schedule s [] = []
set_schedule s (x ∷ xs) = (if x.id == s.id then s else x) ∷ set_schedule s xs

module _ {S : Type 0} where
  abbrev pub add_backup : SideRow → Store S → Store S
  add_backup row st = record st {
    backups = at_row st.next_backup (some row) st.backups;
    next_backup = st.next_backup + 1;
  }

  abbrev pub add_platform : SideRow → Store S → Store S
  add_platform row st = record st {
    platform_backups = at_row st.next_platform (some row) st.platform_backups;
    next_platform = st.next_platform + 1;
  }

  -- `db.delete(side_row)`
  unfoldable pub remove_side : Option Side → Store S → Store S
  remove_side none st = st
  remove_side (some (backup i)) st = record st { backups = at_row i none st.backups }
  remove_side (some (platform_backup i)) st = record st {
    platform_backups = at_row i none st.platform_backups;
  }

  -- `side_row.taken_by_job_id = job.id`
  unfoldable pub link_side : ℕ → Option Side → Store S → Store S
  link_side job none st = st
  link_side job (some (backup i)) st = record st {
    backups = at_row i (taken_by job (st.backups i)) st.backups;
  }
  link_side job (some (platform_backup i)) st = record st {
    platform_backups = at_row i (taken_by job (st.platform_backups i)) st.platform_backups;
  }

  abbrev pub write_schedule : Schedule → Store S → Store S
  write_schedule s st = record st { schedules = set_schedule s st.schedules }
