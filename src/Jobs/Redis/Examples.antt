-- ===== src/Jobs/Redis/Examples.antt =====
-- A Redis server as a function from names to values, and a lock that two jobs ask for.
use frappe_os.Jobs.Redis.Locks.{Canonical}
use frappe_os.Restic.{is_set}
use frappe_os.Jobs.Backend.{JobBackend}
use frappe_os.Jobs.Create.{show_from, show}
use frappe_os.Base.{Option, arith, if◌then◌else◌, none, not, refl, some, sym, ◌&&◌, ◌∙◌, ◌≡◌}
use frappe_os.Base.Text.{Str, codes, same}
use frappe_os.Jobs.Redis.{holds_value, RedisClient, acquire_lock, read_from, read}
use frappe_os.Jobs.Redis.Laws.{redis_backend, redis_holder, RedisState, release_lock-acquire_lock}

abbrev write : Str → Option Str → (Str → Option Str) → Str → Option Str
write k v s l = if same k l then v else s l

-- A client whose keys do not expire.
abbrev client : RedisClient (Str → Option Str)
client = record {
  get_key = λ k s. s k;
  set_nx =
      λ k v s. (not (is_set (s k)), λ l. if same k l && not (is_set (s l)) then some v else s l);
  set_key = λ k v s. write k (some v) s;
  delete_key = λ k s. write k none s;
  delete_if = λ k v s l. if same k l && holds_value v (s l) then none else s l;
  set_nx_answer = λ k v s. refl;
  get-set_nx = λ k v l s. refl;
  get-set = λ k v l s. refl;
  get-delete = λ k l s. refl;
  get-delete_if = λ k v l s. refl;
}

no_keys-Canonical : Canonical client (λ k. none)
no_keys-Canonical k v e = ground arith

abbrev empty_server : RedisState client
empty_server = record { store = λ k. none; canonical = no_keys-Canonical }

abbrev backend : JobBackend (RedisState client)
backend = redis_backend client

-- Job 7 holds the lock, and job 12 is told so.
abbrev taken : RedisState client
taken = (backend.acquire_lock (codes "a") 7 empty_server).1

second_refused : (backend.acquire_lock (codes "a") 12 taken).0 ≡ some 7
unfolding redis_backend acquire_lock show show_from read read_from
second_refused = refl

taken_by_seven : redis_holder client (codes "a") taken ≡ some 7
unfolding redis_backend acquire_lock show show_from read read_from
taken_by_seven = refl

release_lock-acquire_lock_example :
    redis_holder client
      (codes "a")
      (backend.release_lock (codes "a") 12 (backend.acquire_lock (codes "a") 12 taken).1)
    ≡ redis_holder client (codes "a") taken
release_lock-acquire_lock_example =
    release_lock-acquire_lock client (codes "a") (codes "a") 12 taken
      (λ same_holder. let it : some 7 ≡ some 12 = sym taken_by_seven ∙ same_holder in ground arith)
