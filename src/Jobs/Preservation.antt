-- ===== src/Jobs/Preservation.antt =====
-- What `JobRunner.create` and the calls that change one row, in backend/app/core/jobs.py, keep.
use frappe_os.Jobs.Run.{ended_row, to_terminal}
use frappe_os.Base.{
  subst, ◌∙◌, sym, ◌&&◌, ◌||◌, ◌==◌, any, ap, true, ◌≢◌, ==_iff, Option, Option-cases, arith, inl,
  inr, none, refl, some, ℕ, ◌≡◌,
}
use frappe_os.Base.Results.{Result-cases}
use frappe_os.Base.Text.{Str}
use frappe_os.Jobs.{
  is_terminal, Status, pending, running, success, failure, cancelled, was_queued, is_pending,
  is_running, set_row, CommandJob, World, pending,
}
use frappe_os.Jobs.Backend.{JobBackend}
use frappe_os.Jobs.Create.{
  Reply, replied, not_sent, unanswered, acquire_row, after_lock, Env, Request, insert_row, lock_row,
  create_from, create, refusing_window, prepare, new_row,
}
use frappe_os.Jobs.Steps.{is_active, Consistent}
use frappe_os.Jobs.Touches.{
  holder-release_lem, Touches, Touches-Consistent, Touches-refl, unlocked, locked,
  enqueue_row-Touches, insert_row-Touches, Locked,
}
use frappe_os.Registry.{get_template}
use frappe_os.Templates.{CommandTemplate}

module _ {S : Type 0} (B : JobBackend S) where
  after_lock-Touches :
      (env : Env) (job : CommandJob) (answer : Option ℕ) (w : World S) (s : S)
      → Consistent B w
      → job.id ≡ w.next_id
      → job.status ≡ pending
      → ((k : Str) (j : ℕ) → B.holder k w.backend ≡ some j → B.holder k s ≡ some j)
      → (answer ≡ none → Locked B job w.backend s)
      → Touches B w.next_id w (after_lock B env job (answer, s) (insert_row B job w)).1
  unfolding after_lock
  after_lock-Touches env job none w s good new fresh kept lock =
      enqueue_row-Touches B env.release_reply (env.enqueue job) job w s good new fresh (lock refl)
  after_lock-Touches env job (some holder) w s good new fresh kept lock = record {
    locks_of_others = λ k j held other. kept k j held;
    rows_of_others = λ j other. ground (arith, ==_iff j job.id);
    queue_of_others = λ j other. refl;
    ids_grow = omega arith;
    in_queue = λ waits. omega arith;
    row_id = λ row eq. ground arith;
    row_holds = λ row k eq active key. ground (arith, ==_iff w.next_id job.id);
  }

  acquire_row-Touches :
      (r : Reply) (env : Env) (job : CommandJob) (k : Str) (w : World S)
      → Consistent B w
      → job.id ≡ w.next_id
      → job.status ≡ pending
      → job.lock_key ≡ some k
      → Touches B w.next_id w (acquire_row B r env job k (insert_row B job w)).1
  unfolding acquire_row
  acquire_row-Touches replied env job k w good new fresh e =
      after_lock-Touches env job (B.acquire_lock k job.id w.backend).0 w
        (B.acquire_lock k job.id w.backend).1 good new fresh
        (λ l j held. ground (arith, B.holder-acquire k l job.id w.backend))
        (locked B job k w.backend e)
  acquire_row-Touches not_sent env job k w good new fresh e =
      insert_row-Touches B job w w.backend good new fresh (λ l j held other. held)
  acquire_row-Touches unanswered env job k w good new fresh e =
      insert_row-Touches B job w (B.acquire_lock k job.id w.backend).1 good new fresh
        (λ l j held other. ground (arith, B.holder-acquire k l job.id w.backend))

  lock_row-Touches :
      (env : Env) (job : CommandJob) (key : Option Str) (w : World S)
      → Consistent B w
      → job.id ≡ w.next_id
      → job.status ≡ pending
      → job.lock_key ≡ key
      → Touches B w.next_id w (lock_row B env job key (insert_row B job w)).1
  unfolding lock_row
  lock_row-Touches env job none w good new fresh e =
      enqueue_row-Touches B env.release_reply (env.enqueue job) job w w.backend good new fresh
        (unlocked B job w.backend e)
  lock_row-Touches env job (some k) w good new fresh e =
      acquire_row-Touches env.acquire_reply env job k w good new fresh e

  create_from-Touches :
      (env : Env) (t : CommandTemplate) (req : Request) (w : World S)
      → Consistent B w
      → Touches B w.next_id w (create_from B env t req w).1
  unfolding create_from new_row
  create_from-Touches env t req w good = elim (Option-cases (refusing_window env t req)) [
    | inr (mw, e) ↦ rw (e, create_from) (Touches-refl B w.next_id w good)
    | inl e ↦ elim (Result-cases (prepare env t req)) [
      | inl (raised_by, f) ↦ rw (e, f, create_from) (Touches-refl B w.next_id w good)
      | inr ((cmd, token), f) ↦
          rw (e, f, create_from)
            (let job = new_row w.next_id t req cmd token in
              lock_row-Touches env job job.lock_key w good refl refl refl)
    ]
  ]

  pub create-Consistent :
      (env : Env) (req : Request) (w : World S)
      → Consistent B w
      → Consistent B (create B env req w).1
  unfolding create
  create-Consistent env req w good = elim (Option-cases (get_template req.action_name)) [
    | inl e ↦ rw (e, create) good
    | inr (t, e) ↦
        rw (e, create) (Touches-Consistent B w.next_id (create_from-Touches env t req w good) good)
  ]

  -- A call that writes the row of `job` and leaves the queue alone.
  pub changed-Consistent :
      (i : ℕ) (job job' : CommandJob) (w v : World S)
      → Consistent B w
      → w.jobs i ≡ some job
      → job'.id ≡ job.id
      → ((n : ℕ) → v.jobs n ≡ (set_row job.id (some job') w).jobs n)
      → v.queue ≡ w.queue
      → v.next_id ≡ w.next_id
      → ((k : Str) (j : ℕ)
          → B.holder k w.backend ≡ some j
          → j ≢ job.id
          → B.holder k v.backend ≡ some j)
      → ((k : Str)
          → is_active i job' w ≡ true
          → job'.lock_key ≡ some k
          → B.holder k v.backend ≡ some i)
      → Consistent B v
  changed-Consistent i job job' w v good row same_id rows waiting ids frame own =
      let here = good.keyed i job row in
      let found : v.jobs i ≡ some job' = rows i ∙ ground (arith, ==_iff i job.id, here) in
      let waits_too : was_queued i v ≡ was_queued i w = ap (any (λ n. n == i)) waiting in
      Touches-Consistent B i
        (record {
          locks_of_others = λ k j held other. frame k j held (rw here.0 other);
          rows_of_others = λ j other. rows j ∙ ground (arith, ==_iff j job.id, here);
          queue_of_others = λ j other. ap (any (λ n. n == j)) waiting;
          ids_grow = omega (arith, ids);
          in_queue = λ waits. omega (arith, ids, here);
          row_id = λ r eq. let it : job' ≡ r = cc in ground (arith, here, ids);
          row_holds = λ r k eq active key.
              let it : r ≡ job' = cc in
              let still =
                subst (λ b. (is_running r.status || (is_pending r.status && b)) ≡ true) waits_too
                  active in
              own k (subst (λ o. is_active i o w ≡ true) it still)
                (ap (λ o. o.lock_key) (sym it) ∙ key);
        })
        good

  pub ended-Consistent :
      (status : Status) (code : Option ℕ) (now i : ℕ) (job : CommandJob) (w : World S)
      → Consistent B w
      → w.jobs i ≡ some job
      → is_terminal status ≡ true
      → Consistent B (to_terminal B status code now job w)
  unfolding to_terminal
  ended-Consistent status code now i job w good row final =
      changed-Consistent i job (ended_row status code now job) w
        (to_terminal B status code now job w) good row refl (λ n. refl) refl refl
        (λ k j held other. holder-release_lem B job k j w.backend held other)
        (λ k active key. elim status [
          | pending ↦ ground arith
          | running ↦ ground arith
          | success ↦ ground arith
          | failure ↦ ground arith
          | cancelled ↦ ground arith
        ])
