-- ===== src/Jobs/Redis.antt =====
-- `RedisJobBackend` of backend/app/core/jobs.py. The Redis server is a parameter: what its commands do
-- to the keys, as its manual documents them, as long as no key expires. Its values are texts.
pub mod Locks
pub mod Laws
mod Examples
use frappe_os.Jobs.Create.{show_from, show}
use frappe_os.Base.{
  Bool, Bool-cases, Option, [], arith, false, if◌then◌else◌, inl, inr, ltb, none, not, refl, some,
  suc, true, zero, ℕ, ◌%◌, ◌&&◌, ◌*◌, ◌++◌, ◌+◌, ◌-◌, ◌/◌, ◌<◌, ◌∙◌, ◌∷◌, ◌≡◌, ◌≤◌,
}
use frappe_os.Base.Text.{Str, codes, same}
use frappe_os.Restic.{is_set}

abbrev pub holds_value : Str → Option Str → Bool
holds_value v none = false
holds_value v (some w) = same v w

-- A client: `set_nx` answers whether the key was set; `delete_if` is the script of `release_lock`.
pub record RedisClient (R : Type 0) : Type 0 where
  pub get_key : Str → R → Option Str
  pub set_nx : Str → Str → R → Bool × R
  pub set_key : Str → Str → R → R
  pub delete_key : Str → R → R
  pub delete_if : Str → Str → R → R
  -- SET with NX sets a key that is not there, and answers whether it did
  pub set_nx_answer : (k v : Str) (s : R) → (set_nx k v s).0 ≡ not (is_set (get_key k s))
  pub get-set_nx :
      (k v l : Str) (s : R)
      → get_key l (set_nx k v s).1
        ≡ (if same k l && not (is_set (get_key l s)) then some v else get_key l s)
  pub get-set :
      (k v l : Str) (s : R) → get_key l (set_key k v s) ≡ (if same k l then some v else get_key l s)
  pub get-delete :
      (k l : Str) (s : R) → get_key l (delete_key k s) ≡ (if same k l then none else get_key l s)
  -- the script is atomic: GET, a comparison, and DEL if they are equal
  pub get-delete_if :
      (k v l : Str) (s : R)
      → get_key l (delete_if k v s)
        ≡ (if same k l && holds_value v (get_key l s) then none else get_key l s)

-- `int(text)` of decimal digits.
unfoldable pub read_from : ℕ → Str → ℕ
read_from acc [] = acc
read_from acc (c ∷ s) = read_from (acc * 10 + (c - 48)) s

unfoldable pub read : Str → ℕ
unfolding read_from
read s = read_from 0 s

read_from-append :
    (acc : ℕ) (s : Str) (c : ℕ) → read_from acc (s ++ c ∷ []) ≡ read_from acc s * 10 + (c - 48)
unfolding read_from
read_from-append acc [] c = refl
read_from-append acc (d ∷ s) c = read_from-append (acc * 10 + (d - 48)) s c

read_from-show_from : (fuel n : ℕ) → n < fuel → read_from 0 (show_from fuel n) ≡ n
unfolding show_from read_from
read_from-show_from zero n h = ground arith
read_from-show_from (suc fuel) n h = elim (Bool-cases (ltb n 10)) [
  | inl e ↦ rw e (omega arith)
  | inr e ↦
      let big : 10 ≤ n = ground arith in
      rw e (
        read_from-append 0 (show_from fuel (n / 10)) (48 + n % 10)
        ∙ rw (read_from-show_from fuel (n / 10) (omega arith)) (omega arith))
]

-- `int(str(n))` is `n`.
pub read-show : (n : ℕ) → read (show n) ≡ n
unfolding read show
read-show n = read_from-show_from (n + 1) n (omega arith)

-- RedisJobBackend._lock and _cancel
abbrev pub lock_name : Str → Str
lock_name key = codes "fdm:joblock:" ++ key

abbrev pub cancel_name : ℕ → Str
cancel_name job_id = codes "fdm:jobcancel:" ++ show job_id

-- What `acquire_lock` returns: None, the id of the holder, or -1.
pub data LockAnswer : Type 0 where
  granted : LockAnswer
  held_by : ℕ → LockAnswer
  minus_one : LockAnswer

module _ {R : Type 0} (r : RedisClient R) where
  abbrev pub holder_or_minus_one : Option Str → LockAnswer
  holder_or_minus_one none = minus_one
  holder_or_minus_one (some v) = held_by (read v)

  -- After the second SET.
  abbrev pub second_try : Str → Bool × R → LockAnswer × R
  second_try key (true, s) = (granted, s)
  second_try key (false, s) = (holder_or_minus_one (r.get_key (lock_name key) s), s)

  -- After the first SET failed.
  abbrev pub first_holder : Str → ℕ → Option Str → R → LockAnswer × R
  first_holder key job_id none s = second_try key (r.set_nx (lock_name key) (show job_id) s)
  first_holder key job_id (some v) s = (held_by (read v), s)

  abbrev pub first_try : Str → ℕ → Bool × R → LockAnswer × R
  first_try key job_id (true, s) = (granted, s)
  first_try key job_id (false, s) = first_holder key job_id (r.get_key (lock_name key) s) s

  -- RedisJobBackend.acquire_lock
  unfoldable pub acquire_lock : Str → ℕ → R → LockAnswer × R
  acquire_lock key job_id s = first_try key job_id (r.set_nx (lock_name key) (show job_id) s)

  -- RedisJobBackend.release_lock
  unfoldable pub release_lock : Str → ℕ → R → R
  release_lock key job_id s = r.delete_if (lock_name key) (show job_id) s

  -- RedisJobBackend.request_cancel
  unfoldable pub request_cancel : ℕ → R → R
  request_cancel job_id s = r.set_key (cancel_name job_id) (codes "1") s

  -- RedisJobBackend.is_cancel_requested
  unfoldable pub is_cancel_requested : ℕ → R → Bool
  is_cancel_requested job_id s = is_set (r.get_key (cancel_name job_id) s)

  -- RedisJobBackend.clear_cancel
  unfoldable pub clear_cancel : ℕ → R → R
  clear_cancel job_id s = r.delete_key (cancel_name job_id) s
