-- ===== src/Permissions.antt =====
-- backend/app/core/permissions.py: the action-class permissions, the default role matrix and the
-- check that every route makes.
use frappe_os.Base.{String, Bool, ◌||◌, List, [], ◌∷◌}
use frappe_os.Base.Dicts.{Dict, listed}

abbrev pub wildcard : String
wildcard = "*"

abbrev pub read : String
read = "read"

abbrev pub bench_operate : String
bench_operate = "bench:operate"

abbrev pub site_operate : String
site_operate = "site:operate"

abbrev pub app_manage : String
app_manage = "app:manage"

abbrev pub backup_create : String
backup_create = "backup:create"

abbrev pub backup_restore : String
backup_restore = "backup:restore"

abbrev pub backup_transfer : String
backup_transfer = "backup:transfer"

abbrev pub job_manage : String
job_manage = "job:manage"

abbrev pub terminal_access : String
terminal_access = "terminal:access"

abbrev pub server_manage : String
server_manage = "server:manage"

abbrev pub danger : String
danger = "danger"

abbrev pub user_manage : String
user_manage = "user:manage"

abbrev pub settings_manage : String
settings_manage = "settings:manage"

abbrev pub schedule_manage : String
schedule_manage = "schedule:manage"

abbrev pub ssl_manage : String
ssl_manage = "ssl:manage"

abbrev pub ai_manage : String
ai_manage = "ai:manage"

abbrev pub ai_operate : String
ai_operate = "ai:operate"

abbrev pub alert_manage : String
alert_manage = "alert:manage"

abbrev pub report_generate : String
report_generate = "report:generate"

abbrev pub report_sensitive : String
report_sensitive = "report:sensitive"

abbrev pub maintenance_manage : String
maintenance_manage = "maintenance:manage"

abbrev pub tool_scan : String
tool_scan = "tool:scan"

-- DEFAULT_ROLES
abbrev pub default_roles : Dict (List String)
default_roles =
    ("Admin", wildcard ∷ [])
    ∷ (
      "Developer",
      read ∷ server_manage ∷ bench_operate ∷ site_operate ∷ app_manage ∷ backup_create
          ∷ backup_restore ∷ backup_transfer ∷ job_manage ∷ terminal_access ∷ schedule_manage
          ∷ maintenance_manage ∷ ssl_manage ∷ ai_manage ∷ ai_operate ∷ alert_manage
          ∷ report_generate ∷ tool_scan ∷ [],
    )
    ∷ (
      "Operator",
      read ∷ site_operate ∷ backup_create ∷ job_manage ∷ ssl_manage ∷ alert_manage ∷ tool_scan ∷ [],
    )
    ∷ ("Read-only", read ∷ [])
    ∷ []

-- role_allows
unfoldable pub role_allows : List String → String → Bool
role_allows permissions permission = listed wildcard permissions || listed permission permissions
