-- ===== src/Registry/Agents.antt =====
-- Templates registered by backend/app/core/commands (ai).
use frappe_os.Base.{true, false, List, [], ◌∷◌, none, some}
use frappe_os.Permissions.{ai_operate}
use frappe_os.Templates.{CommandTemplate}
use frappe_os.Registry.Patterns.{abs_path, ai_commit_msg, domain_id, git_sha}
use frappe_os.Registry.Specs.{matched, path_like, template, word_of, arg}

unfoldable pub ai_git_add_all : CommandTemplate
ai_git_add_all =
    template "ai.git_add_all" (word_of "git" ∷ word_of "add" ∷ word_of "-A" ∷ [])
      (some (arg "working_dir")) (path_like (matched "working_dir" abs_path) ∷ [])
      "AIRollbackAction" true false ai_operate

unfoldable pub ai_git_status : CommandTemplate
ai_git_status =
    template "ai.git_status" (word_of "git" ∷ word_of "status" ∷ word_of "--porcelain" ∷ [])
      (some (arg "working_dir")) (path_like (matched "working_dir" abs_path) ∷ [])
      "AIRollbackAction" true false ai_operate

unfoldable pub ai_git_clean : CommandTemplate
ai_git_clean =
    template "ai.git_clean" (word_of "git" ∷ word_of "clean" ∷ word_of "-fd" ∷ [])
      (some (arg "working_dir")) (path_like (matched "working_dir" abs_path) ∷ [])
      "AIRollbackAction" true false ai_operate

unfoldable pub ai_git_diff_cached : CommandTemplate
ai_git_diff_cached =
    template "ai.git_diff_cached"
      (word_of "git"
        ∷ word_of "-c"
        ∷ word_of "core.quotepath=false"
        ∷ word_of "diff"
        ∷ word_of "--cached"
        ∷ arg "base"
        ∷ [])
      (some (arg "working_dir"))
      (path_like (matched "working_dir" abs_path) ∷ matched "base" git_sha ∷ []) "AIRollbackAction"
      true false ai_operate

unfoldable pub ai_git_reset_hard : CommandTemplate
ai_git_reset_hard =
    template "ai.git_reset_hard"
      (word_of "git" ∷ word_of "reset" ∷ word_of "--hard" ∷ arg "ref" ∷ [])
      (some (arg "working_dir"))
      (path_like (matched "working_dir" abs_path) ∷ matched "ref" git_sha ∷ []) "AIRollbackAction"
      true false ai_operate

unfoldable pub ai_git_stash_apply : CommandTemplate
ai_git_stash_apply =
    template "ai.git_stash_apply"
      (word_of "git" ∷ word_of "stash" ∷ word_of "apply" ∷ arg "ref" ∷ [])
      (some (arg "working_dir"))
      (path_like (matched "working_dir" abs_path) ∷ matched "ref" git_sha ∷ []) "AIRollbackAction"
      true false ai_operate

unfoldable pub ai_git_commit : CommandTemplate
ai_git_commit =
    template "ai.git_commit"
      (word_of "git"
        ∷ word_of "-c"
        ∷ word_of "user.email=ai@fdm.local"
        ∷ word_of "-c"
        ∷ word_of "user.name=FDM AI"
        ∷ word_of "commit"
        ∷ word_of "-m"
        ∷ arg "message"
        ∷ [])
      (some (arg "working_dir"))
      (path_like (matched "working_dir" abs_path) ∷ matched "message" ai_commit_msg ∷ [])
      "AIRollbackAction" true false ai_operate

unfoldable pub ai_pre_change_snapshot : CommandTemplate
ai_pre_change_snapshot =
    template "ai.pre_change_snapshot" (word_of "true" ∷ []) none
      (path_like (matched "working_dir" abs_path) ∷ matched "session_id" domain_id ∷ [])
      "AIPreChangeSnapshotAction" true true ai_operate

unfoldable pub ai_capture_diff : CommandTemplate
ai_capture_diff =
    template "ai.capture_diff" (word_of "true" ∷ []) none
      (path_like (matched "working_dir" abs_path) ∷ matched "session_id" domain_id ∷ [])
      "AICaptureDiffAction" false true ai_operate

unfoldable pub ai_apply : CommandTemplate
ai_apply =
    template "ai.apply" (word_of "true" ∷ []) none
      (path_like (matched "working_dir" abs_path)
        ∷ matched "session_id" domain_id
        ∷ matched "message" ai_commit_msg
        ∷ [])
      "AIApplyAction" false true ai_operate

unfoldable pub ai_rollback : CommandTemplate
ai_rollback =
    template "ai.rollback" (word_of "true" ∷ []) none
      (path_like (matched "working_dir" abs_path) ∷ matched "session_id" domain_id ∷ [])
      "AIRollbackAction" false true ai_operate

unfoldable pub agents_templates : List CommandTemplate
unfolding ai_git_add_all ai_git_status ai_git_clean ai_git_diff_cached ai_git_reset_hard
    ai_git_stash_apply ai_git_commit ai_pre_change_snapshot ai_capture_diff ai_apply ai_rollback
agents_templates =
    ai_git_add_all ∷ ai_git_status ∷ ai_git_clean ∷ ai_git_diff_cached ∷ ai_git_reset_hard
    ∷ ai_git_stash_apply ∷ ai_git_commit ∷ ai_pre_change_snapshot ∷ ai_capture_diff ∷ ai_apply
    ∷ ai_rollback ∷ []
