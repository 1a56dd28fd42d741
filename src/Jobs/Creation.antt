-- ===== src/Jobs/Creation.antt =====
-- What `JobRunner.create` and `retry` of backend/app/core/jobs.py do to the state, success and errors.
use frappe_os.Jobs.Handover.{lock_row-Answered}
use frappe_os.Jobs.Requested.{MadeFrom, leaves_row, Asked, Answered, Created, Unchanged}
use frappe_os.Base.{
  ◌⊎◌, Bool-cases, Option, Option-cases, [], arith, false, inl, inr, none, refl, some, subst, sym,
  true, ℕ, ◌∙◌, ◌≡◌,
}
use frappe_os.Base.Results.{Result-cases, err, ok}
use frappe_os.Base.Text.{Str}
use frappe_os.Registry.{get_template}
use frappe_os.Jobs.Steps.{Consistent}
use frappe_os.Templates.{RenderedCommand, CommandTemplate}
use frappe_os.Jobs.Cancel.{as_params, is_retryable, retry_request, retry}
use frappe_os.Jobs.Backend.{JobBackend}
use frappe_os.Jobs.{
  not_retryable, Status, failure, cancelled, running, success, JobError, pending, CommandJob, World,
  JobError, pending,
}
use frappe_os.Jobs.Create.{prepare, refusing_window, new_row, Env, create, create_from, Request}

is_retryable-cases : (s : Status) → is_retryable s ≡ true → (s ≡ failure) ⊎ (s ≡ cancelled)
is_retryable-cases failure e = inl refl
is_retryable-cases cancelled e = inr refl
is_retryable-cases pending e = ground arith
is_retryable-cases running e = ground arith
is_retryable-cases success e = ground arith

module _ {S : Type 0} (B : JobBackend S) where
  pub unchanged : (w : World S) → Unchanged B w w
  unchanged w = record {
    same_rows = λ i. refl;
    same_queue = refl;
    same_audits = refl;
    same_notified = refl;
    same_holders = λ k. refl;
  }

  new_row-Asked :
      (id : ℕ) (env : Env) (t : CommandTemplate) (req : Request) (cmd : RenderedCommand)
      (token : Option Str)
      → get_template req.action_name ≡ some t
      → prepare env t req ≡ ok (cmd, token)
      → Asked B env req (new_row id t req cmd token)
  unfolding new_row
  new_row-Asked id env t req cmd token found made = record {
    same_action = refl;
    same_server = refl;
    same_target_type = refl;
    same_target_id = refl;
    same_priority = refl;
    same_user = refl;
    template = t;
    command = cmd;
    token = token;
    registered = found;
    rendered = made;
    same_params = refl;
    same_secrets = refl;
    locked_class = λ c locks class. rw (locks, class) refl;
    locked_action = λ locks class. rw (locks, class) refl;
    not_locked = λ free. rw free refl;
  }

  pub new_row-MadeFrom :
      (env : Env) (t : CommandTemplate) (req : Request) (w : World S) (cmd : RenderedCommand)
      (token : Option Str)
      → get_template req.action_name ≡ some t
      → prepare env t req ≡ ok (cmd, token)
      → MadeFrom B env req w (new_row w.next_id t req cmd token)
  unfolding new_row
  new_row-MadeFrom env t req w cmd token found made = record {
    id = refl;
    fresh = refl;
    not_sent_yet = refl;
    unstarted = (refl, refl, refl, refl);
    asked = new_row-Asked w.next_id env t req cmd token found made;
  }

  create_from-Answered :
      (env : Env) (t : CommandTemplate) (req : Request) (w : World S)
      → w.jobs w.next_id ≡ none
      → get_template req.action_name ≡ some t
      → Answered B env req w (create_from B env t req w)
  unfolding create_from new_row
  create_from-Answered env t req w free found = elim (Option-cases (refusing_window env t req)) [
    | inr (mw, e) ↦ rw (e, create_from) (λ left. unchanged w)
    | inl e ↦ elim (Result-cases (prepare env t req)) [
      | inl (raised_by, f) ↦ rw (e, f, create_from) (λ left. unchanged w)
      | inr ((cmd, token), f) ↦
          let job = new_row w.next_id t req cmd token in
          rw (e, f, create_from)
            (lock_row-Answered B env req job job.lock_key w
              (new_row-MadeFrom env t req w cmd token found f) free refl)
    ]
  ]

  create-Answered :
      (env : Env) (req : Request) (w : World S)
      → Consistent B w
      → Answered B env req w (create B env req w)
  unfolding create
  create-Answered env req w good =
      let free : w.jobs w.next_id ≡ none = elim (Option-cases (w.jobs w.next_id)) [
        | inl e ↦ e
        | inr (job, e) ↦ ground (arith, good.keyed w.next_id job e)
      ] in
      elim (Option-cases (get_template req.action_name)) [
        | inl e ↦ rw (e, create) (λ left. unchanged w)
        | inr (t, e) ↦ rw (e, create) (create_from-Answered env t req w free e)
      ]

  retry-Answered :
      (env : Env) (by : Option ℕ) (job : CommandJob) (w : World S)
      → Consistent B w
      → Answered B env (retry_request by job) w (retry B env by job w)
  unfolding retry
  retry-Answered env by job w good =
      let made = create-Answered env (retry_request by job) w good in
      elim (Bool-cases (is_retryable job.status)) [
        | inl e ↦ rw (e, retry) made
        | inr e ↦ rw (e, retry) (λ left. unchanged w)
      ]

  -- If `create` returns on a consistent state, then it made one job, the one that was asked for. The
  -- action is registered, and its command rendered. The row has the action, server, target, priority
  -- and user of the request, the parameters and the token of secrets that rendering gave, waits and
  -- was never started. It names a lock on the target, by the class of the template or else its action,
  -- exactly if the template needs a lock, and holds it. Its id stands last in the queue, one audit row
  -- names it, and no other row changed.
  pub create-Created :
      (env : Env) (req : Request) (job : CommandJob) (w v : World S)
      → Consistent B w
      → create B env req w ≡ (ok job, v)
      → Created B env req job w v
  create-Created env req job w v good returned =
      subst (Answered B env req w) returned (create-Answered env req w good)

  -- If `create` raises on a consistent state, and neither because RQ refused the job nor because a
  -- call to the lock's backend got no answer, then the rows, the queue, the audit trail, the listeners
  -- and the locks are as before.
  pub create-Unchanged :
      (env : Env) (req : Request) (e : JobError) (w v : World S)
      → Consistent B w
      → create B env req w ≡ (err e, v)
      → leaves_row e ≡ false
      → Unchanged B w v
  create-Unchanged env req e w v good raised_by =
      subst (Answered B env req w) raised_by (create-Answered env req w good)

  -- If a manual retry returns on a consistent state, then the old job had failed or was cancelled, and
  -- one new job was made: as `create` makes it for the action, server, target and priority of the old
  -- one, with its stored parameters, no new secrets, and the user who asks for the retry.
  pub retry-Created :
      (env : Env) (by : Option ℕ) (old job : CommandJob) (w v : World S)
      → Consistent B w
      → retry B env by old w ≡ (ok job, v)
      → ((old.status ≡ failure) ⊎ (old.status ≡ cancelled))
        × Created B env
            (record {
              action_name = old.action_name;
              server_id = old.server_id;
              target_type = old.target_type;
              target_id = old.target_id;
              params = as_params old.params_sanitized;
              priority = old.priority;
              created_by = by;
              user_secrets = [];
              from_sanitized = true;
            })
            job
            w
            v
  unfolding retry
  retry-Created env by old job w v good returned = elim (Bool-cases (is_retryable old.status)) [
    | inl e ↦ (
      is_retryable-cases old.status e,
      create-Created env (retry_request by old) job w v good (sym (rw (e, retry) refl) ∙ returned),
    )
    | inr e ↦
        let refused : retry B env by old w ≡ (err not_retryable, w) = rw (e, retry) refl in
        ground (arith, sym refused ∙ returned)
  ]
