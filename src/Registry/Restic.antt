-- ===== src/Registry/Restic.antt =====
-- Templates registered by backend/app/core/commands (restic).
use frappe_os.Base.{true, false, List, [], ◌∷◌, none}
use frappe_os.Permissions.{server_manage}
use frappe_os.Templates.{CommandTemplate}
use frappe_os.Registry.Patterns.{restic_check_subset, restic_host, restic_repo_uri}
use frappe_os.Registry.Specs.{matched, template, word_of, arg}

unfoldable pub restic_install : CommandTemplate
restic_install =
    template "restic.install" (word_of "true" ∷ []) none ([]) "ResticInstallAction" true false
      server_manage

unfoldable pub restic_init : CommandTemplate
restic_init =
    template "restic.init" (word_of "restic" ∷ word_of "-r" ∷ arg "repo" ∷ word_of "init" ∷ []) none
      (matched "repo" restic_repo_uri ∷ []) "ResticInitAction" false true server_manage

unfoldable pub restic_backup : CommandTemplate
restic_backup =
    template "restic.backup"
      (word_of "restic"
        ∷ word_of "-r"
        ∷ arg "repo"
        ∷ word_of "backup"
        ∷ word_of "--tag"
        ∷ word_of "fdm-config-tier"
        ∷ word_of "--host"
        ∷ arg "host"
        ∷ [])
      none (matched "repo" restic_repo_uri ∷ matched "host" restic_host ∷ []) "ResticBackupAction"
      false true server_manage

unfoldable pub restic_snapshots : CommandTemplate
restic_snapshots =
    template "restic.snapshots"
      (word_of "restic"
        ∷ word_of "-r"
        ∷ arg "repo"
        ∷ word_of "snapshots"
        ∷ word_of "--tag"
        ∷ word_of "fdm-config-tier"
        ∷ [])
      none (matched "repo" restic_repo_uri ∷ []) "ResticSnapshotsAction" true false server_manage

unfoldable pub restic_forget : CommandTemplate
restic_forget =
    template "restic.forget"
      (word_of "restic"
        ∷ word_of "-r"
        ∷ arg "repo"
        ∷ word_of "forget"
        ∷ word_of "--tag"
        ∷ word_of "fdm-config-tier"
        ∷ word_of "--prune"
        ∷ [])
      none (matched "repo" restic_repo_uri ∷ []) "ResticForgetAction" false true server_manage

unfoldable pub restic_check : CommandTemplate
restic_check =
    template "restic.check"
      (word_of "restic"
        ∷ word_of "-r"
        ∷ arg "repo"
        ∷ word_of "check"
        ∷ word_of "--read-data-subset"
        ∷ arg "subset"
        ∷ [])
      none (matched "repo" restic_repo_uri ∷ matched "subset" restic_check_subset ∷ [])
      "ResticCheckAction" false true server_manage

unfoldable pub restic_templates : List CommandTemplate
unfolding restic_install restic_init restic_backup restic_snapshots restic_forget restic_check
restic_templates =
    restic_install ∷ restic_init ∷ restic_backup ∷ restic_snapshots ∷ restic_forget ∷ restic_check
    ∷ []
