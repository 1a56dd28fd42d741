-- ===== src/Registry/Apps.antt =====
-- Templates registered by backend/app/core/commands (app).
use frappe_os.Base.{true, false, List, [], ◌∷◌, none, some}
use frappe_os.Permissions.{app_manage, danger}
use frappe_os.Templates.{CommandTemplate}
use frappe_os.Registry.Patterns.{abs_path, app_name, app_source, branch_name, deploy_key, site_name}
use frappe_os.Registry.Specs.{matched, path_like, secret, optional, template, word_of, arg}

unfoldable pub app_get : CommandTemplate
app_get =
    template "app.get"
      (word_of "bench" ∷ word_of "get-app" ∷ word_of "--branch" ∷ arg "branch" ∷ arg "source" ∷ [])
      (some (arg "bench_path"))
      (matched "branch" branch_name
        ∷ matched "source" app_source
        ∷ path_like (matched "bench_path" abs_path)
        ∷ [])
      "GetAppAction" false true app_manage

unfoldable pub app_install : CommandTemplate
app_install =
    template "app.install"
      (word_of "bench" ∷ word_of "--site" ∷ arg "site" ∷ word_of "install-app" ∷ arg "app" ∷ [])
      (some (arg "bench_path"))
      (matched "site" site_name
        ∷ matched "app" app_name
        ∷ path_like (matched "bench_path" abs_path)
        ∷ [])
      "InstallAppOnSiteAction" false true app_manage

unfoldable pub app_uninstall : CommandTemplate
app_uninstall =
    template "app.uninstall"
      (word_of "bench"
        ∷ word_of "--site"
        ∷ arg "site"
        ∷ word_of "uninstall-app"
        ∷ arg "app"
        ∷ word_of "--yes"
        ∷ [])
      (some (arg "bench_path"))
      (matched "site" site_name
        ∷ matched "app" app_name
        ∷ path_like (matched "bench_path" abs_path)
        ∷ [])
      "UninstallAppAction" false true danger

unfoldable pub app_list_branches : CommandTemplate
app_list_branches =
    record (template "app.list_branches"
      (word_of "git" ∷ word_of "ls-remote" ∷ word_of "--heads" ∷ arg "url" ∷ []) none
      (matched "url" app_source ∷ optional (secret (matched "deploy_key" deploy_key)) ∷ [])
      "ListBranchesAction" true false app_manage) { secret_sources = ("deploy_key", "job") ∷ [] }

unfoldable pub apps_templates : List CommandTemplate
unfolding app_get app_install app_uninstall app_list_branches
apps_templates = app_get ∷ app_install ∷ app_uninstall ∷ app_list_branches ∷ []
