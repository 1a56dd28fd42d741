-- ===== src/Registry/Sites.antt =====
-- Templates registered by backend/app/core/commands (site).
use frappe_os.Base.{true, false, List, [], ◌∷◌, none, some}
use frappe_os.Permissions.{app_manage, backup_restore, danger, read, site_operate}
use frappe_os.Templates.{lit, hole, CommandTemplate}
use frappe_os.Registry.Patterns.{
  abs_path, app_name, app_source, branch_name, dep_plan, deploy_key, doctype, domain_id,
  dotted_method, secret_text, site_name,
}
use frappe_os.Registry.Specs.{
  matched, one_of, path_like, secret, optional, template, word_of, arg, scheduler_states,
  ssl_states,
}

unfoldable pub site_new : CommandTemplate
site_new =
    template "site.new"
      (word_of "bench"
        ∷ word_of "new-site"
        ∷ arg "site"
        ∷ word_of "--mariadb-root-username"
        ∷ word_of "root"
        ∷ word_of "--mariadb-root-password"
        ∷ arg "db_root_pw"
        ∷ word_of "--admin-password"
        ∷ arg "admin_pw"
        ∷ word_of "--mariadb-user-host-login-scope=%"
        ∷ [])
      (some (arg "bench_path"))
      (matched "site" site_name
        ∷ secret (matched "db_root_pw" secret_text)
        ∷ secret (matched "admin_pw" secret_text)
        ∷ path_like (matched "bench_path" abs_path)
        ∷ [])
      "CreateSiteAction" false true site_operate

unfoldable pub site_create : CommandTemplate
site_create =
    record (template "site.create" (word_of "true" ∷ []) none
      (matched "site" site_name
        ∷ path_like (matched "bench_path" abs_path)
        ∷ secret (matched "db_root_pw" secret_text)
        ∷ secret (matched "admin_pw" secret_text)
        ∷ optional (one_of "environment" ("dev" ∷ "staging" ∷ "prod" ∷ []))
        ∷ [])
      "CreateSiteAction" false true site_operate) {
        secret_sources =
            ("db_root_pw", "server:mariadb_root_password_enc") ∷ ("admin_pw", "job") ∷ [];
        writes_config = "site_config" ∷ "common_site_config" ∷ [];
      }

unfoldable pub site_set_scheduler : CommandTemplate
site_set_scheduler =
    record (template "site.set_scheduler"
      (word_of "bench" ∷ word_of "--site" ∷ arg "site" ∷ word_of "scheduler" ∷ arg "state" ∷ [])
      (some (arg "bench_path"))
      (matched "site" site_name
        ∷ path_like (matched "bench_path" abs_path)
        ∷ one_of "state" scheduler_states
        ∷ [])
      "SetSchedulerAction" true true site_operate) { writes_config = "site_config" ∷ [] }

unfoldable pub site_set_maintenance : CommandTemplate
site_set_maintenance =
    record (template "site.set_maintenance"
      (word_of "bench"
        ∷ word_of "--site"
        ∷ arg "site"
        ∷ word_of "set-maintenance-mode"
        ∷ arg "state"
        ∷ [])
      (some (arg "bench_path"))
      (matched "site" site_name
        ∷ path_like (matched "bench_path" abs_path)
        ∷ one_of "state" ssl_states
        ∷ [])
      "SetMaintenanceAction" true true site_operate) { writes_config = "site_config" ∷ [] }

unfoldable pub site_install_app : CommandTemplate
site_install_app =
    record (template "site.install_app" (word_of "true" ∷ []) none
      (matched "site" site_name
        ∷ path_like (matched "bench_path" abs_path)
        ∷ matched "app" app_name
        ∷ optional (matched "source" app_source)
        ∷ optional (matched "branch" branch_name)
        ∷ optional (matched "source_name" app_name)
        ∷ optional (secret (matched "deploy_key" deploy_key))
        ∷ optional (matched "dep_plan" dep_plan)
        ∷ [])
      "InstallAppOnSiteAction" false true app_manage) {
        secret_sources = ("deploy_key", "job") ∷ [];
      }

unfoldable pub site_migrate : CommandTemplate
site_migrate =
    template "site.migrate"
      (word_of "bench" ∷ word_of "--site" ∷ arg "site" ∷ word_of "migrate" ∷ [])
      (some (arg "bench_path"))
      (matched "site" site_name ∷ path_like (matched "bench_path" abs_path) ∷ [])
      "SiteMaintenanceAction" false true site_operate

unfoldable pub site_clear_cache : CommandTemplate
site_clear_cache =
    template "site.clear_cache"
      (word_of "bench" ∷ word_of "--site" ∷ arg "site" ∷ word_of "clear-cache" ∷ [])
      (some (arg "bench_path"))
      (matched "site" site_name ∷ path_like (matched "bench_path" abs_path) ∷ [])
      "SiteMaintenanceAction" true true site_operate

unfoldable pub site_clear_website_cache : CommandTemplate
site_clear_website_cache =
    template "site.clear_website_cache"
      (word_of "bench" ∷ word_of "--site" ∷ arg "site" ∷ word_of "clear-website-cache" ∷ [])
      (some (arg "bench_path"))
      (matched "site" site_name ∷ path_like (matched "bench_path" abs_path) ∷ [])
      "SiteMaintenanceAction" true true site_operate

unfoldable pub site_ping : CommandTemplate
site_ping =
    template "site.ping"
      (word_of "bench"
        ∷ word_of "--site"
        ∷ arg "site"
        ∷ word_of "execute"
        ∷ word_of "frappe.ping"
        ∷ [])
      (some (arg "bench_path"))
      (matched "site" site_name ∷ path_like (matched "bench_path" abs_path) ∷ []) "Action" true
      false read

unfoldable pub site_scheduler_status : CommandTemplate
site_scheduler_status =
    template "site.scheduler_status"
      (word_of "bench"
        ∷ word_of "--site"
        ∷ arg "site"
        ∷ word_of "scheduler"
        ∷ word_of "status"
        ∷ [])
      (some (arg "bench_path"))
      (matched "site" site_name ∷ path_like (matched "bench_path" abs_path) ∷ []) "Action" true
      false read

unfoldable pub site_count_doctype : CommandTemplate
site_count_doctype =
    template "site.count_doctype"
      (word_of "bench"
        ∷ word_of "--site"
        ∷ arg "site"
        ∷ word_of "execute"
        ∷ word_of "frappe.client.get_count"
        ∷ word_of "--args"
        ∷ (lit "[\"" ∷ hole "doctype" ∷ lit "\"]" ∷ [])
        ∷ [])
      (some (arg "bench_path"))
      (matched "site" site_name
        ∷ path_like (matched "bench_path" abs_path)
        ∷ matched "doctype" doctype
        ∷ [])
      "Action" true false read

unfoldable pub site_scrub : CommandTemplate
site_scrub =
    template "site.scrub"
      (word_of "bench" ∷ word_of "--site" ∷ arg "site" ∷ word_of "execute" ∷ arg "method" ∷ [])
      (some (arg "bench_path"))
      (matched "site" site_name
        ∷ path_like (matched "bench_path" abs_path)
        ∷ matched "method" dotted_method
        ∷ [])
      "Action" false true site_operate

unfoldable pub site_clone_to_staging : CommandTemplate
site_clone_to_staging =
    record (template "site.clone_to_staging" (word_of "true" ∷ []) none
      (matched "source_site" site_name
        ∷ path_like (matched "source_bench_path" abs_path)
        ∷ matched "site" site_name
        ∷ path_like (matched "bench_path" abs_path)
        ∷ optional (matched "scrub_method" dotted_method)
        ∷ optional (matched "pipeline_id" domain_id)
        ∷ optional (secret (matched "admin_pw" secret_text))
        ∷ optional (secret (matched "db_root_pw" secret_text))
        ∷ [])
      "CloneToStagingAction" false true backup_restore) {
        danger_class = some "update";
        secret_sources =
            ("admin_pw", "job") ∷ ("db_root_pw", "server:mariadb_root_password_enc") ∷ [];
      }

unfoldable pub site_verify_checklist : CommandTemplate
site_verify_checklist =
    template "site.verify_checklist" (word_of "true" ∷ []) none
      (matched "site" site_name
        ∷ path_like (matched "bench_path" abs_path)
        ∷ optional (matched "source_site" site_name)
        ∷ optional (path_like (matched "source_bench_path" abs_path))
        ∷ optional (matched "pipeline_id" domain_id)
        ∷ [])
      "VerifyChecklistAction" false true site_operate

unfoldable pub site_promote_update : CommandTemplate
site_promote_update =
    record (template "site.promote_update" (word_of "true" ∷ []) none
      (matched "site" site_name
        ∷ path_like (matched "bench_path" abs_path)
        ∷ optional (matched "pipeline_id" domain_id)
        ∷ [])
      "PromoteUpdateAction" false true backup_restore) { danger_class = some "update" }

unfoldable pub site_drop : CommandTemplate
site_drop =
    record (template "site.drop"
      (word_of "bench"
        ∷ word_of "drop-site"
        ∷ arg "site"
        ∷ word_of "--force"
        ∷ word_of "--no-backup"
        ∷ word_of "--root-login"
        ∷ word_of "root"
        ∷ word_of "--root-password"
        ∷ arg "db_root_pw"
        ∷ [])
      (some (arg "bench_path"))
      (matched "site" site_name
        ∷ path_like (matched "bench_path" abs_path)
        ∷ secret (matched "db_root_pw" secret_text)
        ∷ [])
      "Action" false true danger) {
        secret_sources = ("db_root_pw", "server:mariadb_root_password_enc") ∷ [];
      }

unfoldable pub sites_templates : List CommandTemplate
unfolding site_new site_create site_set_scheduler site_set_maintenance site_install_app site_migrate
    site_clear_cache site_clear_website_cache site_ping site_scheduler_status site_count_doctype
    site_scrub site_clone_to_staging site_verify_checklist site_promote_update site_drop
sites_templates =
    site_new ∷ site_create ∷ site_set_scheduler ∷ site_set_maintenance ∷ site_install_app
    ∷ site_migrate ∷ site_clear_cache ∷ site_clear_website_cache ∷ site_ping ∷ site_scheduler_status
    ∷ site_count_doctype ∷ site_scrub ∷ site_clone_to_staging ∷ site_verify_checklist
    ∷ site_promote_update ∷ site_drop ∷ []
