-- ===== src/Registry/Backups.antt =====
-- Templates registered by backend/app/core/commands (backup, platform, report, site).
use frappe_os.Base.{true, false, List, [], ◌∷◌, none, some}
use frappe_os.Permissions.{
  backup_create, backup_restore, backup_transfer, report_sensitive, settings_manage,
}
use frappe_os.Templates.{CommandTemplate}
use frappe_os.Registry.Patterns.{
  abs_path, app_name, domain_id, encryption_key, inline_range_days, inline_within_days,
  positive_int, recipients_re, secret_text, site_name,
}
use frappe_os.Registry.Specs.{
  matched, one_of, path_like, secret, optional, template, word_of, arg, restore_modes, with_files,
}

unfoldable pub site_backup_db : CommandTemplate
site_backup_db =
    template "site.backup_db"
      (word_of "bench" ∷ word_of "--site" ∷ arg "site" ∷ word_of "backup" ∷ [])
      (some (arg "bench_path"))
      (matched "site" site_name ∷ path_like (matched "bench_path" abs_path) ∷ []) "SiteBackupAction"
      true true backup_create

unfoldable pub site_backup_files : CommandTemplate
site_backup_files =
    template "site.backup_files"
      (word_of "bench"
        ∷ word_of "--site"
        ∷ arg "site"
        ∷ word_of "backup"
        ∷ word_of "--with-files"
        ∷ [])
      (some (arg "bench_path"))
      (matched "site" site_name ∷ path_like (matched "bench_path" abs_path) ∷ []) "SiteBackupAction"
      true true backup_create

unfoldable pub site_backup : CommandTemplate
site_backup =
    template "site.backup" (word_of "true" ∷ []) none
      (matched "site" site_name
        ∷ path_like (matched "bench_path" abs_path)
        ∷ one_of "with_files" with_files
        ∷ optional (matched "backup_id" domain_id)
        ∷ optional (matched "storage_target_id" domain_id)
        ∷ [])
      "BackupAction" false true backup_create

unfoldable pub backup_validate : CommandTemplate
backup_validate =
    template "backup.validate" (word_of "true" ∷ []) none
      (matched "backup_id" domain_id
        ∷ matched "site" site_name
        ∷ path_like (matched "bench_path" abs_path)
        ∷ [])
      "ValidateBackupAction" true false backup_create

unfoldable pub backup_move_across_servers : CommandTemplate
backup_move_across_servers =
    template "backup.move_across_servers" (word_of "true" ∷ []) none
      (matched "backup_id" domain_id
        ∷ matched "storage_target_id" domain_id
        ∷ path_like (matched "dest_dir" abs_path)
        ∷ matched "target_site" site_name
        ∷ matched "target_bench_id" domain_id
        ∷ [])
      "MoveBackupAction" false true backup_transfer

unfoldable pub site_restore_db : CommandTemplate
site_restore_db =
    template "site.restore_db"
      (word_of "bench"
        ∷ word_of "--site"
        ∷ arg "site"
        ∷ word_of "--force"
        ∷ word_of "restore"
        ∷ arg "db_path"
        ∷ [])
      (some (arg "bench_path"))
      (matched "site" site_name
        ∷ path_like (matched "bench_path" abs_path)
        ∷ path_like (matched "db_path" abs_path)
        ∷ [])
      "RestoreAction" false true backup_restore

unfoldable pub site_restore_files : CommandTemplate
site_restore_files =
    template "site.restore_files"
      (word_of "bench"
        ∷ word_of "--site"
        ∷ arg "site"
        ∷ word_of "--force"
        ∷ word_of "restore"
        ∷ arg "db_path"
        ∷ word_of "--with-public-files"
        ∷ arg "public_files"
        ∷ word_of "--with-private-files"
        ∷ arg "private_files"
        ∷ [])
      (some (arg "bench_path"))
      (matched "site" site_name
        ∷ path_like (matched "bench_path" abs_path)
        ∷ path_like (matched "db_path" abs_path)
        ∷ path_like (matched "public_files" abs_path)
        ∷ path_like (matched "private_files" abs_path)
        ∷ [])
      "RestoreAction" false true backup_restore

unfoldable pub site_set_encryption_key : CommandTemplate
site_set_encryption_key =
    template "site.set_encryption_key"
      (word_of "bench"
        ∷ word_of "--site"
        ∷ arg "site"
        ∷ word_of "set-config"
        ∷ word_of "encryption_key"
        ∷ arg "key"
        ∷ [])
      (some (arg "bench_path"))
      (matched "site" site_name
        ∷ path_like (matched "bench_path" abs_path)
        ∷ secret (matched "key" encryption_key)
        ∷ [])
      "RestoreAction" true true backup_restore

unfoldable pub site_restore : CommandTemplate
site_restore =
    record (template "site.restore" (word_of "true" ∷ []) none
      (matched "site" site_name
        ∷ path_like (matched "bench_path" abs_path)
        ∷ one_of "mode" restore_modes
        ∷ one_of "with_files" with_files
        ∷ matched "backup_id" domain_id
        ∷ path_like (matched "db_path" abs_path)
        ∷ optional (path_like (matched "public_files" abs_path))
        ∷ optional (path_like (matched "private_files" abs_path))
        ∷ optional (path_like (matched "config_path" abs_path))
        ∷ optional (secret (matched "admin_pw" secret_text))
        ∷ optional (secret (matched "db_root_pw" secret_text))
        ∷ [])
      "RestoreAction" false true backup_restore) {
        danger_class = some "restore";
        secret_sources =
            ("admin_pw", "job") ∷ ("db_root_pw", "server:mariadb_root_password_enc") ∷ [];
      }

unfoldable pub backup_restore_test : CommandTemplate
backup_restore_test =
    record (template "backup.restore_test" (word_of "true" ∷ []) none
      (matched "site" site_name
        ∷ path_like (matched "bench_path" abs_path)
        ∷ optional (matched "backup_id" domain_id)
        ∷ optional (matched "scratch_site" site_name)
        ∷ optional (secret (matched "admin_pw" secret_text))
        ∷ optional (secret (matched "db_root_pw" secret_text))
        ∷ [])
      "RestoreTestAction" false true backup_restore) {
        danger_class = some "restore";
        secret_sources =
            ("admin_pw", "job") ∷ ("db_root_pw", "server:mariadb_root_password_enc") ∷ [];
      }

unfoldable pub backup_retention_sweep : CommandTemplate
backup_retention_sweep =
    template "backup.retention_sweep" (word_of "true" ∷ []) none
      (matched "site" site_name
        ∷ path_like (matched "bench_path" abs_path)
        ∷ optional (matched "keep_last" positive_int)
        ∷ optional (matched "keep_days" positive_int)
        ∷ [])
      "RetentionSweepAction" false true backup_create

unfoldable pub platform_self_backup : CommandTemplate
platform_self_backup =
    record (template "platform.self_backup" (word_of "true" ∷ []) none
      (matched "backup_id" domain_id ∷ matched "storage_target_id" domain_id ∷ [])
      "PlatformSelfBackupAction" false true settings_manage) { local = true }

unfoldable pub platform_self_backup_verify : CommandTemplate
platform_self_backup_verify =
    record (template "platform.self_backup_verify" (word_of "true" ∷ []) none
      (matched "backup_id" domain_id ∷ []) "PlatformSelfBackupVerifyAction" true false
      settings_manage) { local = true }

unfoldable pub platform_self_backup_retention_sweep : CommandTemplate
platform_self_backup_retention_sweep =
    record (template "platform.self_backup_retention_sweep" (word_of "true" ∷ []) none
      (optional (matched "keep_last" positive_int)
        ∷ optional (matched "keep_days" positive_int)
        ∷ [])
      "PlatformBackupRetentionSweepAction" false true settings_manage) { local = true }

unfoldable pub report_generate : CommandTemplate
report_generate =
    record (template "report.generate" (word_of "true" ∷ []) none
      (matched "report_id" app_name
        ∷ one_of "format" ("csv" ∷ "pdf" ∷ [])
        ∷ optional (matched "recipients" recipients_re)
        ∷ optional (matched "range_days" inline_range_days)
        ∷ optional (matched "within_days" inline_within_days)
        ∷ optional (
            one_of "status"
              ("all" ∷ "pending" ∷ "running" ∷ "success" ∷ "failure" ∷ "cancelled" ∷ []))
        ∷ optional (matched "requested_by" domain_id)
        ∷ [])
      "ReportGenerateAction" true false report_sensitive) { local = true }

unfoldable pub backups_templates : List CommandTemplate
unfolding site_backup_db site_backup_files site_backup backup_validate backup_move_across_servers
    site_restore_db site_restore_files site_set_encryption_key site_restore backup_restore_test
    backup_retention_sweep platform_self_backup platform_self_backup_verify
    platform_self_backup_retention_sweep report_generate
backups_templates =
    site_backup_db ∷ site_backup_files ∷ site_backup ∷ backup_validate ∷ backup_move_across_servers
    ∷ site_restore_db ∷ site_restore_files ∷ site_set_encryption_key ∷ site_restore
    ∷ backup_restore_test ∷ backup_retention_sweep ∷ platform_self_backup
    ∷ platform_self_backup_verify ∷ platform_self_backup_retention_sweep ∷ report_generate ∷ []
