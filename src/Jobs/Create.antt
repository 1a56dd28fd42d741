-- ===== src/Jobs/Create.antt =====
-- `JobRunner.create` of backend/app/core/jobs.py.
use frappe_os.Base.{
  str_eq, Bool, List, Option, String, [], false, if◌then◌else◌, ltb, none, not, some, suc, true,
  zero, ℕ, ◌%◌, ◌&&◌, ◌++◌, ◌+◌, ◌/◌, ◌∷◌,
}
use frappe_os.Base.Dicts.{Dict, put}
use frappe_os.Base.Results.{Result, err, ok, ◌>>=◌}
use frappe_os.Base.Text.{Str, codes}
use frappe_os.Regex.{Unicode}
use frappe_os.Templates.{RenderError, CommandTemplate, RenderedCommand}
use frappe_os.Templates.Render.{Params, render}
use frappe_os.Registry.{get_template}
use frappe_os.Windows.{MaintenanceWindow, blocking_window}
use frappe_os.Jobs.{
  CommandJob, AuditRow, JobError, World, set_row, pending, unknown_action, window_blocked,
  render_error, secret_error, lock_conflict, enqueue_failed, backend_failed,
}
use frappe_os.Jobs.Backend.{JobBackend}
use frappe_os.Jobs.Secrets.{
  SecretsService, Server, SecretResolutionError, encrypt_job_secrets, resolve_secrets,
}

-- What RQ does with a job: it raises, or answers with the id of its own job, if any.
pub data Enqueued : Type 0 where
  raised : Enqueued
  queued : Option String → Enqueued

-- What comes of a call to the backend: its answer, or an exception, before or after the call took
-- effect there.
pub data Reply : Type 0 where
  replied not_sent unanswered : Reply

-- What a call finds around it: the clock, rows of other tables, and the services.
pub record Env : Type 0 where
  pub unicode : Unicode
  pub now : ℕ
  pub windows : List MaintenanceWindow
  pub servers : ℕ → Option Server
  pub secrets : SecretsService
  pub enqueue : CommandJob → Enqueued
  pub acquire_reply : Reply
  pub release_reply : Reply

-- The arguments of `create`.
pub record Request : Type 0 where
  pub action_name : String
  pub server_id : Option ℕ
  pub target_type : String
  pub target_id : Option Str
  pub params : Params
  pub priority : String
  pub created_by : Option ℕ
  pub user_secrets : Dict Str
  pub from_sanitized : Bool

-- `str(n)`: decimal digits.
unfoldable pub show_from : ℕ → ℕ → Str
show_from zero n = []
show_from (suc fuel) n =
    let more = show_from fuel (n / 10) in
    if ltb n 10 then (48 + n) ∷ [] else more ++ (48 + n % 10) ∷ []

unfoldable pub show : ℕ → Str
unfolding show_from
show n = show_from (n + 1) n

abbrev scope_of : Option ℕ → Str
scope_of none = codes "local"
scope_of (some server_id) = show server_id

-- `target_id or '-'`
abbrev target_or_dash : Option Str → Str
target_or_dash none = codes "-"
target_or_dash (some []) = codes "-"
target_or_dash (some (c ∷ s)) = c ∷ s

-- JobRunner._lock_key
unfoldable pub lock_key : Option ℕ → String → Option Str → String → Str
unfolding show
lock_key server_id target_type target_id action =
    scope_of server_id
    ++ 58 ∷ (codes target_type ++ 58 ∷ (target_or_dash target_id ++ 58 ∷ codes action))

abbrev or_name : Option String → String → String
or_name none name = name
or_name (some c) name = c

-- The key that the new row stores.
abbrev pub key_of : CommandTemplate → Request → Option Str
key_of t req =
    if t.requires_lock
    then some (
        lock_key req.server_id req.target_type req.target_id (or_name t.lock_class req.action_name))
    else none

-- The maintenance window that refuses the job.
unfoldable pub refusing_window : Env → CommandTemplate → Request → Option MaintenanceWindow
unfolding blocking_window
refusing_window env t req = elim t.danger_class [
  | none ↦ none
  | some danger ↦ elim req.server_id [
    | none ↦ none
    | some server_id ↦ blocking_window env.windows server_id danger env.now
  ]
]

abbrev pub server_row : Env → Option ℕ → Option Server
server_row env none = none
server_row env (some i) = env.servers i

-- `{**params, **resolved}`
abbrev pub with_secrets : Dict Str → Params → Params
with_secrets [] params = params
with_secrets ((name, v) ∷ resolved) params = with_secrets resolved (put name (some v) params)

abbrev pub rendered_or : Result RenderError RenderedCommand → Result JobError RenderedCommand
rendered_or (ok cmd) = ok cmd
rendered_or (err e) = err (render_error e)

abbrev pub resolved_or : Result SecretResolutionError (Dict Str) → Result JobError (Dict Str)
resolved_or (ok d) = ok d
resolved_or (err e) = err (secret_error e)

abbrev pub is_filled {ℓ} : {A : Type ℓ} → List A → Bool
is_filled [] = false
is_filled (x ∷ xs) = true

-- Rendering, and the token of the user's secrets.
unfoldable pub prepare :
    Env → CommandTemplate → Request → Result JobError (RenderedCommand × Option Str)
unfolding encrypt_job_secrets
prepare env t req = elim (not req.from_sanitized && is_filled t.secret_sources) [
  | true ↦
      let secrets_enc = encrypt_job_secrets env.secrets req.user_secrets in
      resolved_or (resolve_secrets env.secrets t secrets_enc (server_row env req.server_id))
      >>= λ resolved.
          rendered_or (render env.unicode t (with_secrets resolved req.params) false) >>= λ cmd.
          ok (cmd, secrets_enc)
  | false ↦
      rendered_or (render env.unicode t req.params req.from_sanitized) >>= λ cmd. ok (cmd, none)
]

unfoldable pub new_row : ℕ → CommandTemplate → Request → RenderedCommand → Option Str → CommandJob
new_row id t req cmd secrets_enc = record {
  id = id;
  server_id = req.server_id;
  target_type = req.target_type;
  target_id = req.target_id;
  action_name = req.action_name;
  priority = req.priority;
  status = pending;
  rq_job_id = none;
  params_sanitized = cmd.params_sanitized;
  secrets_enc = secrets_enc;
  lock_key = key_of t req;
  retry_count = 0;
  exit_code = none;
  started_at = none;
  ended_at = none;
  created_by = req.created_by;
}

-- `if rq_job_id`: an empty id is not stored.
abbrev pub id_or_none : Option String → Option String
id_or_none none = none
id_or_none (some id) = if str_eq id "" then none else some id

-- What leaves the unwinding: an exception of the release replaces the one of RQ.
abbrev pub unwind_error : Option Str → Reply → JobError
unwind_error none reply = enqueue_failed
unwind_error (some k) replied = enqueue_failed
unwind_error (some k) not_sent = backend_failed
unwind_error (some k) unanswered = backend_failed

module _ {S : Type 0} (B : JobBackend S) where
  unfoldable pub release_if_locked : CommandJob → S → S
  release_if_locked job s = elim job.lock_key [ none ↦ s | some k ↦ B.release_lock k job.id s ]

  -- RQ raised: the release of the lock.
  unfoldable pub unwind : Reply → CommandJob → S → S
  unfolding release_if_locked
  unwind replied job s = release_if_locked job s
  unwind not_sent job s = s
  unwind unanswered job s = release_if_locked job s

  -- The row is committed under a new id.
  abbrev pub insert_row : CommandJob → World S → World S
  insert_row job w = record (set_row job.id (some job) w) { next_id = w.next_id + 1 }

  -- After the lock: hand the job to RQ, and write the audit row.
  unfoldable pub enqueue_row :
      Reply → Enqueued → CommandJob → World S → Result JobError CommandJob × World S
  unfolding unwind
  enqueue_row reply raised job w =
      (err (unwind_error job.lock_key reply), record w { backend = unwind reply job w.backend })
  enqueue_row reply (queued rq) job w =
      let job' = record job { rq_job_id = id_or_none rq } in
      let audit : AuditRow = record {
        action = job.action_name;
        job_id = job.id;
        user_id = job.created_by;
        params = job.params_sanitized;
      } in
      (
        ok job',
        record (set_row job.id (some job') w) {
          queue = w.queue ++ job.id ∷ [];
          audits = w.audits ++ audit ∷ [];
        },
      )

  -- On a conflict the committed row is deleted again.
  unfoldable pub after_lock :
      Env → CommandJob → Option ℕ × S → World S → Result JobError CommandJob × World S
  unfolding enqueue_row
  after_lock env job (none, s) w =
      enqueue_row env.release_reply (env.enqueue job) job (record w { backend = s })
  after_lock env job (some holder, s) w =
      (err (lock_conflict holder), set_row job.id none (record w { backend = s }))

  -- `acquire_lock`: no handler stands around the call, so the row stays where it raises.
  unfoldable pub acquire_row :
      Reply → Env → CommandJob → Str → World S → Result JobError CommandJob × World S
  unfolding after_lock
  acquire_row replied env job k w = after_lock env job (B.acquire_lock k job.id w.backend) w
  acquire_row not_sent env job k w = (err backend_failed, w)
  acquire_row unanswered env job k w =
      (err backend_failed, record w { backend = (B.acquire_lock k job.id w.backend).1 })

  -- Take the lock of a committed row, if it has a key.
  unfoldable pub lock_row :
      Env → CommandJob → Option Str → World S → Result JobError CommandJob × World S
  unfolding enqueue_row acquire_row
  lock_row env job none w = enqueue_row env.release_reply (env.enqueue job) job w
  lock_row env job (some k) w = acquire_row env.acquire_reply env job k w

  unfoldable pub create_from :
      Env → CommandTemplate → Request → World S → Result JobError CommandJob × World S
  create_from env t req w = elim (refusing_window env t req) [
    | some mw ↦ (err (window_blocked mw.id mw.name), w)
    | none ↦ elim (prepare env t req) [
      | err e ↦ (err e, w)
      | ok (cmd, secrets_enc) ↦
          let job = new_row w.next_id t req cmd secrets_enc in
          lock_row env job job.lock_key (insert_row job w)
    ]
  ]

  -- JobRunner.create
  unfoldable pub create : Env → Request → World S → Result JobError CommandJob × World S
  create env req w = elim (get_template req.action_name) [
    | none ↦ (err unknown_action, w)
    | some t ↦ create_from env t req w
  ]
