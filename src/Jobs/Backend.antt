-- ===== src/Jobs/Backend.antt =====
-- `JobBackend` of backend/app/core/jobs.py as an interface with its laws, and the backend
-- `InMemoryJobBackend` that fills it. Redis itself is not code of the repository.
use frappe_os.Base.{
  Bool, Bool-cases, List, Option, [], any, arith, false, if◌then◌else◌, inl, inr, none, refl, some,
  true, ℕ, ◌==◌, ◌∷◌, ◌≡◌,
}
use frappe_os.Base.Text.{Str, same, same_refl, same→eq}

-- Whoever holds the lock keeps it; a free one goes to `j`.
abbrev pub get_or_self : ℕ → Option ℕ → ℕ
get_or_self j none = j
get_or_self j (some i) = i

-- A release drops the lock only if `j` holds it.
abbrev pub drop_own : ℕ → Option ℕ → Option ℕ
drop_own j none = none
drop_own j (some i) = if i == j then none else some i

-- The protocol. `holder` and the laws say what the engine relies on.
pub record JobBackend (S : Type 0) : Type 0 where
  pub acquire_lock : Str → ℕ → S → Option ℕ × S
  pub release_lock : Str → ℕ → S → S
  pub request_cancel : ℕ → S → S
  pub is_cancel_requested : ℕ → S → Bool
  pub clear_cancel : ℕ → S → S
  pub holder : Str → S → Option ℕ
  -- the answer of `acquire_lock` is the holder before the call
  pub acquire_answer : (k : Str) (j : ℕ) (s : S) → (acquire_lock k j s).0 ≡ holder k s
  pub holder-acquire :
      (k l : Str) (j : ℕ) (s : S)
      → holder l (acquire_lock k j s).1
        ≡ (if same k l then some (get_or_self j (holder l s)) else holder l s)
  pub holder-release :
      (k l : Str) (j : ℕ) (s : S)
      → holder l (release_lock k j s) ≡ (if same k l then drop_own j (holder l s) else holder l s)
  pub holder-request : (i : ℕ) (l : Str) (s : S) → holder l (request_cancel i s) ≡ holder l s
  pub holder-clear : (i : ℕ) (l : Str) (s : S) → holder l (clear_cancel i s) ≡ holder l s
  pub cancel-acquire :
      (k : Str) (j i : ℕ) (s : S)
      → is_cancel_requested i (acquire_lock k j s).1 ≡ is_cancel_requested i s
  pub cancel-release :
      (k : Str) (j i : ℕ) (s : S)
      → is_cancel_requested i (release_lock k j s) ≡ is_cancel_requested i s
  pub cancel-request :
      (j i : ℕ) (s : S)
      → is_cancel_requested i (request_cancel j s)
        ≡ (if j == i then true else is_cancel_requested i s)
  pub cancel-clear :
      (j i : ℕ) (s : S)
      → is_cancel_requested i (clear_cancel j s)
        ≡ (if j == i then false else is_cancel_requested i s)

-- InMemoryJobBackend: `_locks` is a dict and `_cancels` a set.
pub record InMemory : Type 0 where
  pub locks : List (Str × ℕ)
  pub cancels : List ℕ

abbrev lock_of : Str → List (Str × ℕ) → Option ℕ
lock_of k [] = none
lock_of k ((l, j) ∷ locks) = if same l k then some j else lock_of k locks

without : Str → List (Str × ℕ) → List (Str × ℕ)
without k [] = []
without k ((l, j) ∷ locks) = let rest = without k locks in if same l k then rest else (l, j) ∷ rest

abbrev pub held : Str → InMemory → Option ℕ
held k s = lock_of k s.locks

abbrev add_lock : Str → ℕ → Option ℕ → InMemory → Option ℕ × InMemory
add_lock k j (some holder) s = (some holder, s)
add_lock k j none s = (none, record s { locks = (k, j) ∷ s.locks })

unfoldable pub acquire_lock : Str → ℕ → InMemory → Option ℕ × InMemory
acquire_lock k j s = add_lock k j (held k s) s

abbrev owns : ℕ → Option ℕ → Bool
owns j none = false
owns j (some i) = i == j

unfoldable pub release_lock : Str → ℕ → InMemory → InMemory
unfolding without
release_lock k j s = if owns j (held k s) then record s { locks = without k s.locks } else s

unfoldable pub request_cancel : ℕ → InMemory → InMemory
request_cancel i s = record s { cancels = i ∷ s.cancels }

unfoldable pub is_cancel_requested : ℕ → InMemory → Bool
is_cancel_requested i s = any (λ c. c == i) s.cancels

discard : ℕ → List ℕ → List ℕ
discard i [] = []
discard i (c ∷ cs) = let rest = discard i cs in if c == i then rest else c ∷ rest

unfoldable pub clear_cancel : ℕ → InMemory → InMemory
unfolding discard
clear_cancel i s = record s { cancels = discard i s.cancels }

same_sym : (a b : Str) → same a b ≡ same b a
same_sym [] [] = refl
same_sym [] (d ∷ b) = refl
same_sym (c ∷ a) [] = refl
same_sym (c ∷ a) (d ∷ b) = ground (arith, same_sym a b)

lock_of-without :
    (k l : Str) (locks : List (Str × ℕ))
    → lock_of l (without k locks) ≡ (if same k l then none else lock_of l locks)
unfolding without
lock_of-without k l [] = ground arith
lock_of-without k l ((m, j) ∷ locks) = elim (Bool-cases (same m k)) [
  | inl e ↦ rw (same→eq m k e, same_refl k) (ground (arith, lock_of-without k l locks))
  | inr e ↦ elim (Bool-cases (same m l)) [
    | inl f ↦ rw (← same→eq m l f, same_sym k m, e, same_refl m) (ground (arith, same_refl m))
    | inr f ↦ ground (arith, lock_of-without k l locks)
  ]
]

any-discard :
    (i j : ℕ) (cs : List ℕ)
    → any (λ c. c == i) (discard j cs) ≡ (if j == i then false else any (λ c. c == i) cs)
unfolding discard
any-discard i j [] = ground arith
any-discard i j (c ∷ cs) = ground (arith, any-discard i j cs)

pub in_memory-acquire :
    (k l : Str) (j : ℕ) (s : InMemory)
    → held l (acquire_lock k j s).1
      ≡ (if same k l then some (get_or_self j (held l s)) else held l s)
unfolding acquire_lock
in_memory-acquire k l j s = elim (Bool-cases (same k l)) [
  | inl e ↦ rw (← same→eq k l e) (ground (arith, same_refl k))
  | inr e ↦ ground arith
]

pub in_memory-release :
    (k l : Str) (j : ℕ) (s : InMemory)
    → held l (release_lock k j s) ≡ (if same k l then drop_own j (held l s) else held l s)
unfolding release_lock
in_memory-release k l j s = elim (Bool-cases (same k l)) [
  | inl e ↦ rw (← same→eq k l e) (ground (arith, same_refl k, lock_of-without k k s.locks))
  | inr e ↦ ground (arith, lock_of-without k l s.locks)
]

pub in_memory-answer : (k : Str) (j : ℕ) (s : InMemory) → (acquire_lock k j s).0 ≡ held k s
unfolding acquire_lock
in_memory-answer k j s = ground arith

pub in_memory-cancels :
    (k : Str) (j i : ℕ) (s : InMemory)
    → (is_cancel_requested i (acquire_lock k j s).1 ≡ is_cancel_requested i s)
      × (is_cancel_requested i (release_lock k j s) ≡ is_cancel_requested i s)
unfolding acquire_lock release_lock is_cancel_requested
in_memory-cancels k j i s = (ground arith, ground arith)

pub in_memory-request :
    (j i : ℕ) (s : InMemory)
    → is_cancel_requested i (request_cancel j s)
      ≡ (if j == i then true else is_cancel_requested i s)
unfolding request_cancel is_cancel_requested
in_memory-request j i s = ground arith

pub in_memory-clear :
    (j i : ℕ) (s : InMemory)
    → is_cancel_requested i (clear_cancel j s) ≡ (if j == i then false else is_cancel_requested i s)
unfolding clear_cancel is_cancel_requested
in_memory-clear j i s = any-discard i j s.cancels

pub same_locks :
    (i : ℕ) (l : Str) (s : InMemory)
    → (held l (request_cancel i s) ≡ held l s) × (held l (clear_cancel i s) ≡ held l s)
unfolding request_cancel clear_cancel
same_locks i l s = (refl, refl)

-- The in-memory backend meets the laws.
unfoldable pub in_memory : JobBackend InMemory
unfolding acquire_lock release_lock request_cancel is_cancel_requested clear_cancel
in_memory = record {
  acquire_lock = acquire_lock;
  release_lock = release_lock;
  request_cancel = request_cancel;
  is_cancel_requested = is_cancel_requested;
  clear_cancel = clear_cancel;
  holder = held;
  acquire_answer = in_memory-answer;
  holder-acquire = in_memory-acquire;
  holder-release = in_memory-release;
  holder-request = λ i l s. (same_locks i l s).0;
  holder-clear = λ i l s. (same_locks i l s).1;
  cancel-acquire = λ k j i s. (in_memory-cancels k j i s).0;
  cancel-release = λ k j i s. (in_memory-cancels k j i s).1;
  cancel-request = in_memory-request;
  cancel-clear = in_memory-clear;
}

abbrev pub no_locks : InMemory
no_locks = record { locks = []; cancels = [] }
