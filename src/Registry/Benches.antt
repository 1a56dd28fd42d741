-- ===== src/Registry/Benches.antt =====
-- Templates registered by backend/app/core/commands (bench, server, system).
use frappe_os.Base.{true, false, List, [], ◌∷◌, none, some}
use frappe_os.Permissions.{bench_operate, read, server_manage, site_operate}
use frappe_os.Templates.{CommandTemplate}
use frappe_os.Registry.Patterns.{
  abs_path, base_paths, bench_name, linux_user, safe_text, supervisor_group,
}
use frappe_os.Registry.Specs.{
  matched, one_of, path_like, optional, template, word_of, arg, supported_majors,
  supported_branches, service_names,
}

unfoldable pub system_echo_demo : CommandTemplate
system_echo_demo =
    template "system.echo_demo" (word_of "echo" ∷ arg "message" ∷ []) none
      (matched "message" safe_text ∷ []) "EchoDemoAction" true true server_manage

unfoldable pub bench_discover : CommandTemplate
bench_discover =
    template "bench.discover" (word_of "true" ∷ []) none
      (optional (matched "base_paths" base_paths) ∷ []) "DiscoverBenchesAction" true true
      server_manage

unfoldable pub bench_preflight : CommandTemplate
bench_preflight =
    template "bench.preflight" (word_of "true" ∷ []) none
      (one_of "frappe_version" supported_majors ∷ path_like (matched "path" abs_path) ∷ [])
      "BenchPreflightAction" true false bench_operate

unfoldable pub bench_init : CommandTemplate
bench_init =
    template "bench.init"
      (word_of "bench"
        ∷ word_of "init"
        ∷ word_of "--frappe-branch"
        ∷ arg "branch"
        ∷ arg "name"
        ∷ [])
      (some (arg "path"))
      (one_of "branch" supported_branches
        ∷ matched "name" bench_name
        ∷ path_like (matched "path" abs_path)
        ∷ [])
      "CreateBenchAction" false true bench_operate

unfoldable pub bench_create : CommandTemplate
bench_create =
    template "bench.create" (word_of "true" ∷ []) none
      (one_of "frappe_version" supported_majors
        ∷ matched "name" bench_name
        ∷ path_like (matched "path" abs_path)
        ∷ [])
      "CreateBenchAction" false true bench_operate

unfoldable pub server_detect_tools : CommandTemplate
server_detect_tools =
    template "server.detect_tools" (word_of "true" ∷ []) none ([]) "DetectToolsAction" true false
      server_manage

unfoldable pub bench_build : CommandTemplate
bench_build =
    template "bench.build" (word_of "bench" ∷ word_of "build" ∷ []) (some (arg "bench_path"))
      (path_like (matched "bench_path" abs_path) ∷ []) "BenchBuildAction" true true bench_operate

unfoldable pub bench_supervisor_restart : CommandTemplate
bench_supervisor_restart =
    template "bench.supervisor_restart"
      (word_of "sudo"
        ∷ word_of "-n"
        ∷ word_of "supervisorctl"
        ∷ word_of "restart"
        ∷ arg "group"
        ∷ [])
      none (matched "group" supervisor_group ∷ []) "BenchRestartAction" false true bench_operate

unfoldable pub bench_restart : CommandTemplate
bench_restart =
    template "bench.restart" (word_of "true" ∷ []) none
      (path_like (matched "bench_path" abs_path) ∷ []) "BenchRestartAction" false true bench_operate

unfoldable pub bench_migrate_all : CommandTemplate
bench_migrate_all =
    template "bench.migrate_all" (word_of "true" ∷ []) none
      (path_like (matched "bench_path" abs_path) ∷ []) "MigrateAllSitesAction" false true
      site_operate

unfoldable pub bench_update : CommandTemplate
bench_update =
    record (template "bench.update" (word_of "bench" ∷ word_of "update" ∷ [])
      (some (arg "bench_path")) (path_like (matched "bench_path" abs_path) ∷ []) "BenchUpdateAction"
      false true bench_operate) { danger_class = some "update" }

unfoldable pub server_disk_free : CommandTemplate
server_disk_free =
    template "server.disk_free" (word_of "df" ∷ word_of "-Pk" ∷ arg "path" ∷ []) none
      (path_like (matched "path" abs_path) ∷ []) "Action" true false read

unfoldable pub server_restart_service : CommandTemplate
server_restart_service =
    template "server.restart_service"
      (word_of "sudo" ∷ word_of "-n" ∷ word_of "systemctl" ∷ word_of "restart" ∷ arg "service" ∷ [])
      none (one_of "service" service_names ∷ []) "RestartServiceAction" false true server_manage

unfoldable pub bench_setup_production_run : CommandTemplate
bench_setup_production_run =
    template "bench.setup_production_run"
      (word_of "sudo"
        ∷ word_of "-n"
        ∷ arg "bench_bin"
        ∷ word_of "setup"
        ∷ word_of "production"
        ∷ arg "production_user"
        ∷ [])
      (some (arg "bench_path"))
      (path_like (matched "bench_bin" abs_path)
        ∷ matched "production_user" linux_user
        ∷ path_like (matched "bench_path" abs_path)
        ∷ [])
      "SetupProductionAction" false true bench_operate

unfoldable pub bench_nginx_test : CommandTemplate
bench_nginx_test =
    template "bench.nginx_test"
      (word_of "sudo" ∷ word_of "-n" ∷ word_of "/usr/sbin/nginx" ∷ word_of "-t" ∷ []) none ([])
      "SetupProductionAction" true false bench_operate

unfoldable pub bench_setup_production : CommandTemplate
bench_setup_production =
    record (template "bench.setup_production" (word_of "true" ∷ []) none
      (path_like (matched "bench_path" abs_path) ∷ matched "production_user" linux_user ∷ [])
      "SetupProductionAction" false true bench_operate) {
        danger_class = some "production_setup";
        writes_config = "nginx.conf" ∷ "supervisor.conf" ∷ "supervisor.confd" ∷ [];
      }

unfoldable pub server_drift_check : CommandTemplate
server_drift_check =
    template "server.drift_check" (word_of "true" ∷ []) none ([]) "DriftCheckAction" true true
      server_manage

unfoldable pub server_scan_tools : CommandTemplate
server_scan_tools =
    template "server.scan_tools" (word_of "true" ∷ []) none ([]) "ScanToolsAction" true false read

unfoldable pub benches_templates : List CommandTemplate
unfolding system_echo_demo bench_discover bench_preflight bench_init bench_create
    server_detect_tools bench_build bench_supervisor_restart bench_restart bench_migrate_all
    bench_update server_disk_free server_restart_service bench_setup_production_run bench_nginx_test
    bench_setup_production server_drift_check server_scan_tools
benches_templates =
    system_echo_demo ∷ bench_discover ∷ bench_preflight ∷ bench_init ∷ bench_create
    ∷ server_detect_tools ∷ bench_build ∷ bench_supervisor_restart ∷ bench_restart
    ∷ bench_migrate_all ∷ bench_update ∷ server_disk_free ∷ server_restart_service
    ∷ bench_setup_production_run ∷ bench_nginx_test ∷ bench_setup_production ∷ server_drift_check
    ∷ server_scan_tools ∷ []
