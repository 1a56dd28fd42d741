-- ===== src/Jobs/Leftover.antt =====
-- What `JobRunner.create` of backend/app/core/jobs.py leaves behind where RQ or the locks' backend fails.
use frappe_os.Templates.Render.{render}
use frappe_os.Jobs.Creation.{new_row-MadeFrom}
use frappe_os.Jobs.Touches.{locked, unlocked, holder-unwind, Locked}
use frappe_os.Registry.{get_template}
use frappe_os.Jobs.Requested.{Left, MadeFrom, LeftBehind, leaves_row}
use frappe_os.Jobs.Steps.{Consistent}
use frappe_os.Base.Text.{same→eq, same, Str}
use frappe_os.Jobs.{backend_failed, enqueue_failed, World, JobError, CommandJob}
use frappe_os.Jobs.Secrets.{resolve_secrets, encrypt_job_secrets}
use frappe_os.Jobs.Backend.{JobBackend}
use frappe_os.Templates.{CommandTemplate, RenderedCommand, RenderError}
use frappe_os.Base.{
  ap, ◌&&◌, ◌&&◌, not, Bool-cases, ◌∙◌, ◌∙◌, ◌≢◌, sym, Option-cases, subst, ◌≢◌, ◌≡◌, ◌≡◌, ℕ,
  Option, refl, arith, inl, inr, none, some, true, false,
}
use frappe_os.Base.Results.{◌>>=◌, Result, Result-cases, ok, err}
use frappe_os.Jobs.Create.{
  with_secrets, server_row, is_filled, refusing_window, insert_row, unwind_error, rendered_or,
  Request, new_row, release_if_locked, after_lock, lock_row, create, Env, create_from, enqueue_row,
  acquire_row, prepare, Reply, replied, not_sent, unanswered, raised, queued, Enqueued, unwind,
}

-- An error of the secrets or of rendering comes before the row.
leaves_row-rendered :
    (r : Result RenderError RenderedCommand) (token : Option Str) (e : JobError)
    → ◌>>=◌ {B = RenderedCommand × Option Str} (rendered_or r) (λ cmd. ok (cmd, token)) ≡ err e
    → leaves_row e ≡ false
leaves_row-rendered (ok cmd) token e found = ground arith
leaves_row-rendered (err s) token e found = ground arith

leaves_row-prepare :
    (env : Env) (t : CommandTemplate) (req : Request) (e : JobError)
    → prepare env t req ≡ err e
    → leaves_row e ≡ false
unfolding prepare
leaves_row-prepare env t req e found =
    let token = encrypt_job_secrets env.secrets req.user_secrets in
    elim (Bool-cases (not req.from_sanitized && is_filled t.secret_sources)) [
      | inr s ↦
          leaves_row-rendered (render env.unicode t req.params req.from_sanitized) none e
            (rw (s, prepare) at found)
      | inl s ↦
          elim (Result-cases (resolve_secrets env.secrets t token (server_row env req.server_id))) [
            | inl (f, r) ↦ ground (arith, rw (s, r, prepare) at found)
            | inr (d, r) ↦
                leaves_row-rendered (render env.unicode t (with_secrets d req.params) false) token e
                  (rw (s, r, prepare) at found)
          ]
    ]

module _ {S : Type 0} (B : JobBackend S) where
  -- A lock that was just taken, if any, is free again after its release.
  holder-release_taken :
      (job : CommandJob) (k l : Str) (s : S)
      → job.lock_key ≡ some k
      → (B.acquire_lock k job.id s).0 ≡ none
      → B.holder l (release_if_locked B job (B.acquire_lock k job.id s).1) ≡ B.holder l s
  unfolding release_if_locked
  holder-release_taken job k l s e free = rw e (elim (Bool-cases (same k l)) [
    | inl q ↦ ground (
      arith,
      B.holder-release k l job.id (B.acquire_lock k job.id s).1,
      B.holder-acquire k l job.id s,
      sym (B.acquire_answer k job.id s) ∙ free,
      ap (λ m. B.holder m s) (same→eq k l q),
    )
    | inr q ↦ ground (
      arith,
      B.holder-release k l job.id (B.acquire_lock k job.id s).1,
      B.holder-acquire k l job.id s,
    )
  ])

  holder-release_none :
      (job : CommandJob) (l : Str) (s : S)
      → job.lock_key ≡ none
      → B.holder l (release_if_locked B job s) ≡ B.holder l s
  unfolding release_if_locked
  holder-release_none job l s e = rw e refl

  -- If the error is that of RQ, then the release went through, or there was no lock.
  holder-unwind_failed :
      (r : Reply) (job : CommandJob) (key : Option Str) (l : Str) (s : S)
      → job.lock_key ≡ key
      → unwind_error key r ≡ enqueue_failed
      → B.holder l (unwind B r job s) ≡ B.holder l (release_if_locked B job s)
  unfolding unwind
  holder-unwind_failed replied job key l s e failed = refl
  holder-unwind_failed unanswered job key l s e failed = refl
  holder-unwind_failed not_sent job none l s e failed = sym (holder-release_none job l s e)
  holder-unwind_failed not_sent job (some k) l s e failed = ground arith

  insert_row-Left :
      (env : Env) (req : Request) (e : JobError) (job : CommandJob) (w : World S) (s : S)
      → Consistent B w
      → MadeFrom B env req w job
      → ((k : Str) (j : ℕ) → B.holder k w.backend ≡ some j → j ≢ job.id → B.holder k s ≡ some j)
      → (e ≡ enqueue_failed → (k : Str) → B.holder k s ≡ B.holder k w.backend)
      → Left B env req e w (record (insert_row B job w) { backend = s })
  insert_row-Left env req e job w s good made kept released = record {
    job = job;
    asked = made.asked;
    row = ground (arith, made.id);
    waits = (made.fresh, made.not_sent_yet);
    not_queued = ground (arith, good.queue_ok w.next_id);
    others = λ i other. ground (arith, made.id);
    same_queue = refl;
    same_audits = refl;
    same_notified = refl;
    kept = λ k j other held. kept k j held (rw made.id other);
    released = released;
  }

  enqueue_row-LeftBehind :
      (env : Env) (r : Reply) (e : Enqueued) (req : Request) (job : CommandJob) (w : World S)
      (s : S)
      → Consistent B w
      → MadeFrom B env req w job
      → Locked B job w.backend s
      → ((k : Str) → B.holder k (release_if_locked B job s) ≡ B.holder k w.backend)
      → LeftBehind B env req w (enqueue_row B r e job (record (insert_row B job w) { backend = s }))
  unfolding enqueue_row
  enqueue_row-LeftBehind env r (queued rq) req job w s good made lock freed = tt
  enqueue_row-LeftBehind env r raised req job w s good made lock freed = λ left.
      insert_row-Left env req (unwind_error job.lock_key r) job w (unwind B r job s) good made
        (λ k j held other. holder-unwind B r job k j s (lock.kept k j held) other)
        (λ failed k. holder-unwind_failed r job job.lock_key k s refl failed ∙ freed k)

  after_lock-LeftBehind :
      (env : Env) (req : Request) (job : CommandJob) (answer : Option ℕ) (w : World S) (s : S)
      → Consistent B w
      → MadeFrom B env req w job
      → (answer ≡ none → Locked B job w.backend s)
      → (answer ≡ none → (k : Str) → B.holder k (release_if_locked B job s) ≡ B.holder k w.backend)
      → LeftBehind B env req w (after_lock B env job (answer, s) (insert_row B job w))
  unfolding after_lock
  after_lock-LeftBehind env req job none w s good made lock freed =
      enqueue_row-LeftBehind env env.release_reply (env.enqueue job) req job w s good made
        (lock refl) (freed refl)
  after_lock-LeftBehind env req job (some holder) w s good made lock freed = λ left. ground arith

  acquire_row-LeftBehind :
      (r : Reply) (env : Env) (req : Request) (job : CommandJob) (k : Str) (w : World S)
      → Consistent B w
      → MadeFrom B env req w job
      → job.lock_key ≡ some k
      → LeftBehind B env req w (acquire_row B r env job k (insert_row B job w))
  unfolding acquire_row
  acquire_row-LeftBehind not_sent env req job k w good made e = λ left.
      insert_row-Left env req backend_failed job w w.backend good made (λ l j held other. held)
        (λ failed l. refl)
  acquire_row-LeftBehind unanswered env req job k w good made e = λ left.
      insert_row-Left env req backend_failed job w (B.acquire_lock k job.id w.backend).1 good made
        (λ l j held other. ground (arith, B.holder-acquire k l job.id w.backend))
        (λ failed l. ground arith)
  acquire_row-LeftBehind replied env req job k w good made e =
      after_lock-LeftBehind env req job (B.acquire_lock k job.id w.backend).0 w
        (B.acquire_lock k job.id w.backend).1 good made (locked B job k w.backend e)
        (λ free l. holder-release_taken job k l w.backend e free)

  lock_row-LeftBehind :
      (env : Env) (req : Request) (job : CommandJob) (key : Option Str) (w : World S)
      → Consistent B w
      → MadeFrom B env req w job
      → job.lock_key ≡ key
      → LeftBehind B env req w (lock_row B env job key (insert_row B job w))
  unfolding lock_row
  lock_row-LeftBehind env req job none w good made e =
      enqueue_row-LeftBehind env env.release_reply (env.enqueue job) req job w w.backend good made
        (unlocked B job w.backend e) (λ k. holder-release_none job k w.backend e)
  lock_row-LeftBehind env req job (some k) w good made e =
      acquire_row-LeftBehind env.acquire_reply env req job k w good made e

  create_from-LeftBehind :
      (env : Env) (t : CommandTemplate) (req : Request) (w : World S)
      → Consistent B w
      → get_template req.action_name ≡ some t
      → LeftBehind B env req w (create_from B env t req w)
  unfolding create_from new_row
  create_from-LeftBehind env t req w good found = elim (Option-cases (refusing_window env t req)) [
    | inr (mw, e) ↦ rw (e, create_from) (λ left. ground arith)
    | inl e ↦ elim (Result-cases (prepare env t req)) [
      | inl (raised_by, f) ↦
          rw (e, f, create_from) (λ left. ground (arith, leaves_row-prepare env t req raised_by f))
      | inr ((cmd, token), f) ↦
          let job = new_row w.next_id t req cmd token in
          rw (e, f, create_from)
            (lock_row-LeftBehind env req job job.lock_key w good
              (new_row-MadeFrom B env t req w cmd token found f) refl)
    ]
  ]

  create-LeftBehind :
      (env : Env) (req : Request) (w : World S)
      → Consistent B w
      → LeftBehind B env req w (create B env req w)
  unfolding create
  create-LeftBehind env req w good = elim (Option-cases (get_template req.action_name)) [
    | inl e ↦ rw (e, create) (λ left. ground arith)
    | inr (t, e) ↦ rw (e, create) (create_from-LeftBehind env t req w good e)
  ]

  -- If `create` raises on a consistent state because RQ refused the job or a call to the locks' backend
  -- got no answer, then one row was added, and nothing else of the tables changed: a job that was made
  -- as asked for waits there, without an id of RQ and outside the queue. No other job lost a lock, and
  -- if the error is that of RQ, each lock is held as before.
  pub create-Left :
      (env : Env) (req : Request) (e : JobError) (w v : World S)
      → Consistent B w
      → create B env req w ≡ (err e, v)
      → leaves_row e ≡ true
      → Left B env req e w v
  create-Left env req e w v good raised_by =
      subst (LeftBehind B env req w) raised_by (create-LeftBehind env req w good)
