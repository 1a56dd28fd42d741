-- ===== src/Jobs/Redis/Laws.antt =====
-- `RedisJobBackend` of backend/app/core/jobs.py meets the laws of `JobBackend`, as long as no key
-- expires and every lock has the text of a job's id, which is what `acquire_lock` writes.
use frappe_os.Base.{
  Bool-cases, Option, Option-cases, ap, arith, false, if◌then◌else◌, inl, inr, none, not, refl,
  some, sym, true, ℕ, ◌&&◌, ◌==◌, ◌∙◌, ◌≡◌, ◌≢◌,
}
use frappe_os.Base.Text.{Str, codes, same, same→eq}
use frappe_os.Jobs.Create.{show}
use frappe_os.Restic.{is_set}
use frappe_os.Jobs.Redis.Locks.{acquire-held, acquire-state, same-show, acquire-free, Canonical}
use frappe_os.Jobs.Backend.{JobBackend, get_or_self, drop_own}
use frappe_os.Jobs.Redis.{
  cancel_name, holds_value, read-show, LockAnswer, read, lock_name, RedisClient, acquire_lock,
  release_lock, request_cancel, is_cancel_requested, clear_cancel, granted, held_by, minus_one,
}

-- What a release by `j` leaves of a lock that `j` took only if it was free.
own_dropped : (j : ℕ) (h : Option ℕ) → h ≢ some j → drop_own j (some (get_or_self j h)) ≡ h
own_dropped j none other = ground arith
own_dropped j (some i) other = elim (Bool-cases (i == j)) [
  | inl e ↦ elim (other (ground arith)) [ ]
  | inr e ↦ rw e refl
]

module _ {R : Type 0} (r : RedisClient R) where
  -- The state of a server whose locks were written by `acquire_lock`.
  pub record RedisState : Type 0 where
    pub store : R
    pub canonical : Canonical r store

  abbrev read_value : Option Str → Option ℕ
  read_value none = none
  read_value (some v) = some (read v)

  abbrev pub redis_holder : Str → RedisState → Option ℕ
  redis_holder k st = read_value (r.get_key (lock_name k) st.store)

  acquire-get :
      (k l : Str) (j : ℕ) (s : R)
      → r.get_key (lock_name l) (acquire_lock r k j s).1 ≡ (
          if same k l && not (is_set (r.get_key (lock_name l) s))
          then some (show j)
          else r.get_key (lock_name l) s)
  acquire-get k l j s =
      ap (r.get_key (lock_name l)) (acquire-state r k j s)
      ∙ r.get-set_nx (lock_name k) (show j) (lock_name l) s

  pub acquire-Canonical :
      (k : Str) (j : ℕ) (s : R) → Canonical r s → Canonical r (acquire_lock r k j s).1
  acquire-Canonical k j s good l v e =
      elim (Bool-cases (same k l && not (is_set (r.get_key (lock_name l) s)))) [
        | inl f ↦
            (let it : some (show j) ≡ some v = sym (acquire-get k l j s ∙ rw f refl) ∙ e in (j, cc))
        | inr f ↦ good l v (sym (acquire-get k l j s ∙ rw f refl) ∙ e)
      ]

  pub release-Canonical :
      (k : Str) (j : ℕ) (s : R) → Canonical r s → Canonical r (release_lock r k j s)
  unfolding release_lock
  release-Canonical k j s good l v e =
      elim (Bool-cases (same k l && holds_value (show j) (r.get_key (lock_name l) s))) [
        | inl f ↦
            (let it : none ≡ some v =
                sym (r.get-delete_if (lock_name k) (show j) (lock_name l) s ∙ rw f refl) ∙ e in
              ground arith)
        | inr f ↦
            good l v (sym (r.get-delete_if (lock_name k) (show j) (lock_name l) s ∙ rw f refl) ∙ e)
      ]

  pub request-get :
      (i : ℕ) (l : Str) (s : R)
      → r.get_key (lock_name l) (request_cancel r i s) ≡ r.get_key (lock_name l) s
  unfolding request_cancel
  request-get i l s = r.get-set (cancel_name i) (codes "1") (lock_name l) s

  pub clear-get :
      (i : ℕ) (l : Str) (s : R)
      → r.get_key (lock_name l) (clear_cancel r i s) ≡ r.get_key (lock_name l) s
  unfolding clear_cancel
  clear-get i l s = r.get-delete (cancel_name i) (lock_name l) s

  -- The answer as the job engine reads it; -1 is never given, since `acquire_lock` is one step here.
  abbrev pub blocking : LockAnswer → Option ℕ
  blocking granted = none
  blocking (held_by i) = some i
  blocking minus_one = some 0

  pub redis-answer :
      (k : Str) (j : ℕ) (st : RedisState)
      → blocking (acquire_lock r k j st.store).0 ≡ redis_holder k st
  redis-answer k j st = elim (Option-cases (r.get_key (lock_name k) st.store)) [
    | inl e ↦ rw e (ap (λ p. blocking p.0) (acquire-free r k j st.store e))
    | inr (v, e) ↦ rw e (ap (λ p. blocking p.0) (acquire-held r k v j st.store e))
  ]

  pub redis-acquire :
      (k l : Str) (j : ℕ) (st : RedisState)
      → read_value (r.get_key (lock_name l) (acquire_lock r k j st.store).1)
        ≡ (if same k l then some (get_or_self j (redis_holder l st)) else redis_holder l st)
  redis-acquire k l j st =
      ap read_value (acquire-get k l j st.store)
      ∙ elim (Option-cases (r.get_key (lock_name l) st.store)) [
        | inl e ↦ rw e (ground (arith, read-show j))
        | inr (v, e) ↦ rw e (ground arith)
      ]

  pub redis-release :
      (k l : Str) (j : ℕ) (st : RedisState)
      → read_value (r.get_key (lock_name l) (release_lock r k j st.store))
        ≡ (if same k l then drop_own j (redis_holder l st) else redis_holder l st)
  unfolding release_lock
  redis-release k l j st =
      ap read_value (r.get-delete_if (lock_name k) (show j) (lock_name l) st.store)
      ∙ elim (Option-cases (r.get_key (lock_name l) st.store)) [
        | inl e ↦ rw e (ground arith)
        | inr (v, e) ↦
            let (i, text) = st.canonical l v e in
            rw (e, text, same-show j i) (ground (arith, read-show i))
      ]

  pub redis-request :
      (j i : ℕ) (s : R)
      → is_cancel_requested r i (request_cancel r j s)
        ≡ (if j == i then true else is_cancel_requested r i s)
  unfolding is_cancel_requested request_cancel
  redis-request j i s =
      ap is_set (r.get-set (cancel_name j) (codes "1") (cancel_name i) s)
      ∙ rw (same-show j i) (ground arith)

  pub redis-clear :
      (j i : ℕ) (s : R)
      → is_cancel_requested r i (clear_cancel r j s)
        ≡ (if j == i then false else is_cancel_requested r i s)
  unfolding is_cancel_requested clear_cancel
  redis-clear j i s =
      ap is_set (r.get-delete (cancel_name j) (cancel_name i) s) ∙ rw (same-show j i) (ground arith)

  pub redis-cancels :
      (k : Str) (j i : ℕ) (s : R)
      → (is_cancel_requested r i (acquire_lock r k j s).1 ≡ is_cancel_requested r i s)
        × (is_cancel_requested r i (release_lock r k j s) ≡ is_cancel_requested r i s)
  unfolding is_cancel_requested release_lock
  redis-cancels k j i s = (
    ap (λ t. is_set (r.get_key (cancel_name i) t)) (acquire-state r k j s)
        ∙ ap is_set (r.get-set_nx (lock_name k) (show j) (cancel_name i) s),
    ap is_set (r.get-delete_if (lock_name k) (show j) (cancel_name i) s),
  )

  -- The backend on Redis meets the laws.
  unfoldable pub redis_backend : JobBackend RedisState
  unfolding acquire_lock release_lock request_cancel is_cancel_requested clear_cancel
  redis_backend = record {
    acquire_lock = λ k j st. (
      blocking (acquire_lock r k j st.store).0,
      record {
        store = (acquire_lock r k j st.store).1;
        canonical = acquire-Canonical k j st.store st.canonical;
      },
    );
    release_lock = λ k j st. record {
      store = release_lock r k j st.store;
      canonical = release-Canonical k j st.store st.canonical;
    };
    request_cancel = λ i st. record {
      store = request_cancel r i st.store;
      canonical = λ l v e. st.canonical l v (sym (request-get i l st.store) ∙ e);
    };
    is_cancel_requested = λ i st. is_cancel_requested r i st.store;
    clear_cancel = λ i st. record {
      store = clear_cancel r i st.store;
      canonical = λ l v e. st.canonical l v (sym (clear-get i l st.store) ∙ e);
    };
    holder = redis_holder;
    acquire_answer = redis-answer;
    holder-acquire = redis-acquire;
    holder-release = redis-release;
    holder-request = λ i l st. ap read_value (request-get i l st.store);
    holder-clear = λ i l st. ap read_value (clear-get i l st.store);
    cancel-acquire = λ k j i st. (redis-cancels k j i st.store).0;
    cancel-release = λ k j i st. (redis-cancels k j i st.store).1;
    cancel-request = λ j i st. redis-request j i st.store;
    cancel-clear = λ j i st. redis-clear j i st.store;
  }

  -- As long as no key expires, taking a lock and releasing it again for one job leaves the holder of
  -- every lock as it was, unless the job held the lock before.
  pub release_lock-acquire_lock :
      (k l : Str) (j : ℕ) (st : RedisState)
      → redis_holder k st ≢ some j
      → redis_holder l (redis_backend.release_lock k j (redis_backend.acquire_lock k j st).1)
        ≡ redis_holder l st
  unfolding redis_backend
  release_lock-acquire_lock k l j st other =
      let B = redis_backend in
      B.holder-release k l j (B.acquire_lock k j st).1 ∙ elim (Bool-cases (same k l)) [
        | inl e ↦
            let taken : B.holder l (B.acquire_lock k j st).1
                ≡ some (get_or_self j (redis_holder l st)) =
              B.holder-acquire k l j st ∙ rw e refl in
            rw e (
              ap (drop_own j) taken
              ∙ own_dropped j (redis_holder l st)
                  (λ held. other (ap (λ m. redis_holder m st) (same→eq k l e) ∙ held)))
        | inr e ↦ rw e (B.holder-acquire k l j st ∙ rw e refl)
      ]
