-- ===== src/Jobs/Handover.antt =====
-- The end of `JobRunner.create` of backend/app/core/jobs.py: the lock and the hand-over to RQ.
use frappe_os.Jobs.Requested.{Answered, Asked, MadeFrom, leaves_row}
use frappe_os.Base.{
  String, Bool-cases, Option, ap, arith, inl, inr, none, refl, some, sym, true, ℕ, ◌∙◌, ◌≡◌,
}
use frappe_os.Base.Text.{Str, same, same→eq}
use frappe_os.Jobs.Touches.{locked, unlocked, Locked}
use frappe_os.Jobs.Backend.{JobBackend}
use frappe_os.Jobs.{CommandJob, World}
use frappe_os.Jobs.Create.{
  id_or_none, Reply, replied, not_sent, unanswered, acquire_row, unwind_error, insert_row, Enqueued,
  Env, after_lock, enqueue_row, lock_row, raised, queued, Request,
}

module _ {S : Type 0} (B : JobBackend S) where
  -- RQ's id of the job is stored beside what was asked for.
  Asked-queued :
      (env : Env) (req : Request) (job : CommandJob) (rq : Option String)
      → Asked B env req job
      → Asked B env req (record job { rq_job_id = rq })
  Asked-queued env req job rq a = record {
    same_action = a.same_action;
    same_server = a.same_server;
    same_target_type = a.same_target_type;
    same_target_id = a.same_target_id;
    same_priority = a.same_priority;
    same_user = a.same_user;
    template = a.template;
    command = a.command;
    token = a.token;
    registered = a.registered;
    rendered = a.rendered;
    same_params = a.same_params;
    same_secrets = a.same_secrets;
    locked_class = a.locked_class;
    locked_action = a.locked_action;
    not_locked = a.not_locked;
  }

  -- If the hand-over to RQ raises, then the error is one that leaves the row behind.
  leaves_row-unwind : (key : Option Str) (r : Reply) → leaves_row (unwind_error key r) ≡ true
  leaves_row-unwind none r = refl
  leaves_row-unwind (some k) replied = refl
  leaves_row-unwind (some k) not_sent = refl
  leaves_row-unwind (some k) unanswered = refl

  enqueue_row-Answered :
      (env : Env) (r : Reply) (e : Enqueued) (req : Request) (job : CommandJob) (w : World S)
      (s : S)
      → MadeFrom B env req w job
      → Locked B job w.backend s
      → Answered B env req w (enqueue_row B r e job (record (insert_row B job w) { backend = s }))
  unfolding enqueue_row
  enqueue_row-Answered env r raised req job w s made lock =
      λ left. ground (arith, leaves_row-unwind job.lock_key r)
  enqueue_row-Answered env r (queued rq) req job w s made lock = record {
    new_id = made.id;
    row = ground (arith, made.id);
    waits = made.fresh;
    unstarted = made.unstarted;
    asked = Asked-queued env req job (id_or_none rq) made.asked;
    others = λ i other. ground (arith, made.id);
    enqueued = rw made.id refl;
    audited = rw (made.id, made.asked.same_action, made.asked.same_user) refl;
    locked = λ k key. lock.taken k key ∙ ap some made.id;
  }

  after_lock-Answered :
      (env : Env) (req : Request) (job : CommandJob) (answer : Option ℕ) (w : World S) (s : S)
      → MadeFrom B env req w job
      → w.jobs w.next_id ≡ none
      → ((holder : ℕ) → answer ≡ some holder → (k : Str) → B.holder k s ≡ B.holder k w.backend)
      → (answer ≡ none → Locked B job w.backend s)
      → Answered B env req w (after_lock B env job (answer, s) (insert_row B job w))
  unfolding after_lock
  after_lock-Answered env req job none w s made free same lock =
      enqueue_row-Answered env env.release_reply (env.enqueue job) req job w s made (lock refl)
  after_lock-Answered env req job (some holder) w s made free same lock = λ left. record {
    same_rows = λ i. ground (arith, made.id, free);
    same_queue = refl;
    same_audits = refl;
    same_notified = refl;
    same_holders = same holder refl;
  }

  acquire_row-Answered :
      (r : Reply) (env : Env) (req : Request) (job : CommandJob) (k : Str) (w : World S)
      → MadeFrom B env req w job
      → w.jobs w.next_id ≡ none
      → job.lock_key ≡ some k
      → Answered B env req w (acquire_row B r env job k (insert_row B job w))
  unfolding acquire_row
  acquire_row-Answered not_sent env req job k w made free e = λ left. ground arith
  acquire_row-Answered unanswered env req job k w made free e = λ left. ground arith
  acquire_row-Answered replied env req job k w made free e =
      after_lock-Answered env req job (B.acquire_lock k job.id w.backend).0 w
        (B.acquire_lock k job.id w.backend).1 made free
        (λ holder taken l. elim (Bool-cases (same k l)) [
          | inl q ↦ ground (
            arith,
            same→eq k l q,
            B.holder-acquire k l job.id w.backend,
            sym (B.acquire_answer k job.id w.backend) ∙ taken,
            ap (λ m. B.holder m w.backend) (same→eq k l q),
          )
          | inr q ↦ ground (arith, B.holder-acquire k l job.id w.backend)
        ])
        (locked B job k w.backend e)

  pub lock_row-Answered :
      (env : Env) (req : Request) (job : CommandJob) (key : Option Str) (w : World S)
      → MadeFrom B env req w job
      → w.jobs w.next_id ≡ none
      → job.lock_key ≡ key
      → Answered B env req w (lock_row B env job key (insert_row B job w))
  unfolding lock_row
  lock_row-Answered env req job none w made free e =
      enqueue_row-Answered env env.release_reply (env.enqueue job) req job w w.backend made
        (unlocked B job w.backend e)
  lock_row-Answered env req job (some k) w made free e =
      acquire_row-Answered env.acquire_reply env req job k w made free e
