-- ===== src/Jobs/Touches.antt =====
-- What one call of the job engine of backend/app/core/jobs.py touches: one row, and the locks of its job.
use frappe_os.Base.{
  ==_iff, Bool-cases, Option-cases, [], any-append, arith, inl, inr, none, refl, some, sym, true, ℕ,
  ◌<◌, ◌==◌, ◌∙◌, ◌∷◌, ◌≡◌, ◌≢◌, ◌≤◌,
}
use frappe_os.Base.Text.{Str, same_refl}
use frappe_os.Jobs.{CommandJob, World, was_queued, pending}
use frappe_os.Jobs.Backend.{JobBackend}
use frappe_os.Jobs.Cancel.{release}
use frappe_os.Jobs.Create.{
  Reply, replied, not_sent, unanswered, unwind, Enqueued, raised, queued, enqueue_row, insert_row,
  release_if_locked,
}
use frappe_os.Jobs.Steps.{Consistent, is_active}

module _ {S : Type 0} (B : JobBackend S) where
  -- A step that touches job `i` only, and leaves its row fit.
  pub record Touches (i : ℕ) (w v : World S) : Type 0 where
    pub locks_of_others :
        (k : Str) (j : ℕ) → B.holder k w.backend ≡ some j → j ≢ i → B.holder k v.backend ≡ some j
    pub rows_of_others : (j : ℕ) → j ≢ i → v.jobs j ≡ w.jobs j
    pub queue_of_others : (j : ℕ) → j ≢ i → was_queued j v ≡ was_queued j w
    pub ids_grow : w.next_id ≤ v.next_id
    pub in_queue : was_queued i v ≡ true → i < v.next_id
    pub row_id : (job : CommandJob) → v.jobs i ≡ some job → (job.id ≡ i) × (i < v.next_id)
    pub row_holds :
        (job : CommandJob) (k : Str)
        → v.jobs i ≡ some job
        → is_active i job v ≡ true
        → job.lock_key ≡ some k
        → B.holder k v.backend ≡ some i

  pub Touches-Consistent : (i : ℕ) {w v : World S} → Touches i w v → Consistent B w → Consistent B v
  Touches-Consistent i {w} {v} c good = record {
    holds = λ j job k row active key. elim (Bool-cases (j == i)) [
      | inl e ↦
          rw ((==_iff j i).0 e)
            (c.row_holds job k (rw (← (==_iff j i).0 e) row) (rw (← (==_iff j i).0 e) active) key)
      | inr e ↦
          let other : j ≢ i = ground (arith, ==_iff j i) in
          let before = good.holds j job k (sym (c.rows_of_others j other) ∙ row) in
          c.locks_of_others k j (before (ground (arith, active, c.queue_of_others j other)) key)
            other
    ];
    keyed = λ j job row. elim (Bool-cases (j == i)) [
      | inl e ↦ ground (arith, ==_iff j i, c.row_id job)
      | inr e ↦
          let other : j ≢ i = ground (arith, ==_iff j i) in
          ground (arith, good.keyed j job (sym (c.rows_of_others j other) ∙ row), c.ids_grow)
    ];
    queue_ok = λ j waits. elim (Bool-cases (j == i)) [
      | inl e ↦ ground (arith, ==_iff j i, c.in_queue)
      | inr e ↦
          let other : j ≢ i = ground (arith, ==_iff j i) in
          ground (arith, good.queue_ok j (sym (c.queue_of_others j other) ∙ waits), c.ids_grow)
    ];
  }

  -- The lock of a key after a release of `job`.
  holder-release_if_locked :
      (job : CommandJob) (k : Str) (j : ℕ) (s : S)
      → B.holder k s ≡ some j
      → j ≢ job.id
      → B.holder k (release_if_locked B job s) ≡ some j
  unfolding release_if_locked
  holder-release_if_locked job k j s held other = elim (Option-cases job.lock_key) [
    | inl e ↦ ground arith
    | inr (l, e) ↦ ground (arith, B.holder-release l k job.id s)
  ]

  pub holder-release_lem :
      (job : CommandJob) (k : Str) (j : ℕ) (s : S)
      → B.holder k s ≡ some j
      → j ≢ job.id
      → B.holder k (release B job s) ≡ some j
  unfolding release
  holder-release_lem job k j s held other =
      B.holder-clear job.id k (release_if_locked B job s)
      ∙ holder-release_if_locked job k j s held other

  pub Touches-refl : (i : ℕ) (w : World S) → Consistent B w → Touches i w w
  Touches-refl i w good = record {
    locks_of_others = λ k j held other. held;
    rows_of_others = λ j other. refl;
    queue_of_others = λ j other. refl;
    ids_grow = omega arith;
    in_queue = good.queue_ok i;
    row_id = good.keyed i;
    row_holds = good.holds i;
  }

  -- The lock of a new row is taken, and nobody lost one.
  pub record Locked (job : CommandJob) (s s' : S) : Type 0 where
    pub kept : (k : Str) (j : ℕ) → B.holder k s ≡ some j → B.holder k s' ≡ some j
    pub taken : (k : Str) → job.lock_key ≡ some k → B.holder k s' ≡ some job.id

  pub unlocked : (job : CommandJob) (s : S) → job.lock_key ≡ none → Locked job s s
  unlocked job s e = record { kept = λ k j held. held; taken = λ k key. cc }

  pub locked :
      (job : CommandJob) (k : Str) (s : S)
      → job.lock_key ≡ some k
      → (B.acquire_lock k job.id s).0 ≡ none
      → Locked job s (B.acquire_lock k job.id s).1
  locked job k s e free = record {
    kept = λ l j held. ground (arith, B.holder-acquire k l job.id s);
    taken = λ l key.
        ground (arith, B.holder-acquire k l job.id s, B.acquire_answer k job.id s, same_refl k);
  }

  pub holder-unwind :
      (r : Reply) (job : CommandJob) (k : Str) (j : ℕ) (s : S)
      → B.holder k s ≡ some j
      → j ≢ job.id
      → B.holder k (unwind B r job s) ≡ some j
  unfolding unwind
  holder-unwind replied job k j s held other = holder-release_if_locked job k j s held other
  holder-unwind not_sent job k j s held other = held
  holder-unwind unanswered job k j s held other = holder-release_if_locked job k j s held other

  -- The new row stays, outside the queue.
  pub insert_row-Touches :
      (job : CommandJob) (w : World S) (s : S)
      → Consistent B w
      → job.id ≡ w.next_id
      → job.status ≡ pending
      → ((k : Str) (j : ℕ) → B.holder k w.backend ≡ some j → j ≢ job.id → B.holder k s ≡ some j)
      → Touches w.next_id w (record (insert_row B job w) { backend = s })
  insert_row-Touches job w s good new fresh kept = record {
    locks_of_others = λ k j held other. kept k j held (rw new other);
    rows_of_others = λ j other. ground (arith, ==_iff j job.id);
    queue_of_others = λ j other. refl;
    ids_grow = omega arith;
    in_queue = λ waits. ground (arith, good.queue_ok w.next_id);
    row_id = λ row eq. ground arith;
    row_holds = λ row k eq active key. ground (arith, good.queue_ok w.next_id);
  }

  pub enqueue_row-Touches :
      (r : Reply) (e : Enqueued) (job : CommandJob) (w : World S) (s : S)
      → Consistent B w
      → job.id ≡ w.next_id
      → job.status ≡ pending
      → Locked job w.backend s
      → Touches w.next_id w (enqueue_row B r e job (record (insert_row B job w) { backend = s })).1
  unfolding enqueue_row
  enqueue_row-Touches r raised job w s good new fresh lock =
      insert_row-Touches job w (unwind B r job s) good new fresh
        (λ k j held other. holder-unwind r job k j s (lock.kept k j held) other)
  enqueue_row-Touches r (queued rq) job w s good new fresh lock = record {
    locks_of_others = λ k j held other. lock.kept k j held;
    rows_of_others = λ j other. ground (arith, ==_iff j job.id);
    queue_of_others = λ j other. ground (arith, any-append (λ n. n == j) w.queue (job.id ∷ []));
    ids_grow = omega arith;
    in_queue = λ waits. omega arith;
    row_id = λ row eq. ground arith;
    row_holds = λ row k eq active key. ground (arith, lock.taken k);
  }
