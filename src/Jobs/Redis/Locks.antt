-- ===== src/Jobs/Redis/Locks.antt =====
-- `acquire_lock` of `RedisJobBackend` in backend/app/core/jobs.py, on a free lock and on one that is held.
use frappe_os.Jobs.Create.{show}
use frappe_os.Base.{
  Bool, Bool-cases, Option-cases, ap, arith, false, inl, inr, none, refl, some, sym, true, ℕ, ◌==◌,
  ◌∙◌, ◌≡◌,
}
use frappe_os.Base.Text.{Str, same, same_refl, same→eq}
use frappe_os.Jobs.Redis.{
  read, lock_name, read-show, RedisClient, first_try, acquire_lock, granted, held_by,
}

-- The texts of two ids are equal only if the ids are.
pub same-show : (j i : ℕ) → same (show j) (show i) ≡ (i == j)
same-show j i = elim (Bool-cases (same (show j) (show i))) [
  | inl e ↦
      let it : j ≡ i = sym (read-show j) ∙ (ap read (same→eq (show j) (show i) e) ∙ read-show i) in
      e ∙ ground arith
  | inr e ↦ elim (Bool-cases (i == j)) [
    | inl f ↦
        let it : i ≡ j = ground arith in
        let never : same (show j) (show i) ≡ true = rw it (same_refl (show j)) in ground arith
    | inr f ↦ e ∙ sym f
  ]
]

module _ {R : Type 0} (r : RedisClient R) where
  abbrev pub Canonical : R → Type 0
  Canonical s = (k v : Str) → r.get_key (lock_name k) s ≡ some v → (j : ℕ) × (v ≡ show j)

  first_try-true :
      (k : Str) (j : ℕ) (p : Bool × R) → p.0 ≡ true → first_try r k j p ≡ (granted, p.1)
  first_try-true k j (true, s) h = refl
  first_try-true k j (false, s) h = ground arith

  first_try-false :
      (k v : Str) (j : ℕ) (p : Bool × R)
      → p.0 ≡ false
      → r.get_key (lock_name k) p.1 ≡ some v
      → first_try r k j p ≡ (held_by (read v), p.1)
  first_try-false k v j (true, s) h e = ground arith
  first_try-false k v j (false, s) h e = rw (e, first_try) refl

  -- A free lock is taken.
  pub acquire-free :
      (k : Str) (j : ℕ) (s : R)
      → r.get_key (lock_name k) s ≡ none
      → acquire_lock r k j s ≡ (granted, (r.set_nx (lock_name k) (show j) s).1)
  unfolding acquire_lock
  acquire-free k j s e =
      first_try-true k j (r.set_nx (lock_name k) (show j) s)
        (r.set_nx_answer (lock_name k) (show j) s ∙ rw e refl)

  -- A lock that is held stays, and its holder is the answer.
  pub acquire-held :
      (k v : Str) (j : ℕ) (s : R)
      → r.get_key (lock_name k) s ≡ some v
      → acquire_lock r k j s ≡ (held_by (read v), (r.set_nx (lock_name k) (show j) s).1)
  unfolding acquire_lock
  acquire-held k v j s e =
      first_try-false k v j (r.set_nx (lock_name k) (show j) s)
        (r.set_nx_answer (lock_name k) (show j) s ∙ rw e refl)
        (r.get-set_nx (lock_name k) (show j) (lock_name k) s ∙ rw (e, same_refl (lock_name k)) refl)

  pub acquire-state :
      (k : Str) (j : ℕ) (s : R) → (acquire_lock r k j s).1 ≡ (r.set_nx (lock_name k) (show j) s).1
  acquire-state k j s = elim (Option-cases (r.get_key (lock_name k) s)) [
    | inl e ↦ ap (λ p. p.1) (acquire-free k j s e)
    | inr (v, e) ↦ ap (λ p. p.1) (acquire-held k v j s e)
  ]
