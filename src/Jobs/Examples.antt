-- ===== src/Jobs/Examples.antt =====
-- A job that builds the assets of a bench, from its creation to its end, on the in-memory backend.
use frappe_os.Jobs.Cancellation.{run_job-cancel, called_off}
use frappe_os.Jobs.Refinement.{run_job-Steps}
use frappe_os.Base.{
  ◌⊎◌, ◌⊎◌, [], arith, false, if◌then◌else◌, none, refl, some, suc, true, ℕ, ◌==◌, ◌∷◌, ◌≡◌, ◌≢◌,
}
use frappe_os.Base.Results.{err, ok}
use frappe_os.Base.Text.{Str, codes}
use frappe_os.Jobs.Deliveries.{run_job-Ended, run_job-redelivered}
use frappe_os.Jobs.Verdict.{run_job-verdict, retries_left, outcomes, verdict}
use frappe_os.Jobs.Ends.{Ended}
use frappe_os.Jobs.Exclusion.{Steps-Consistent, active-exclusive}
use frappe_os.Jobs.Cancel.{retry, cancel}
use frappe_os.Jobs.{failure, lock_conflict, cancelled, success}
use frappe_os.Templates.Quoting.{join}
use frappe_os.Templates.Quoting.{join}
use frappe_os.Templates.{RenderedCommand, validate}
use frappe_os.Templates.Render.{
  unknown_names, select, substitute_cwd, substitute_all, finish, collect, render,
}
use frappe_os.Registry.Benches.{bench_build}
use frappe_os.Jobs.Backend.{acquire_lock, is_cancel_requested, no_locks, InMemory, in_memory}
use frappe_os.Registry.{templates, get_template}
use frappe_os.Regex.{fullmatch, Unicode}
use frappe_os.Jobs.Secrets.{SecretsService}
use frappe_os.Jobs.Creation.{create-Created, create-Unchanged, retry-Created}
use frappe_os.Jobs.Requested.{Created, Unchanged}
use frappe_os.Jobs.{CommandJob, World, pending}
use frappe_os.Jobs.Leftover.{create-Left}
use frappe_os.Jobs.Requested.{Left}
use frappe_os.Jobs.{backend_failed}
use frappe_os.Jobs.Create.{
  unanswered, replied, acquire_row, lock_key, enqueue_row, after_lock, lock_row, new_row, prepare,
  refusing_window, create_from, create, Env, Request, queued,
}
use frappe_os.Jobs.Run.{prepare_run, Outcome, run_job, returned, failed}
use frappe_os.Jobs.Steps.{Steps, is_active, Consistent, creates, cancels, done, then_step}

abbrev ascii : Unicode
ascii = record { is_word = λ c. false; is_space = λ c. false }

abbrev no_secrets : SecretsService
no_secrets = record {
  encrypt_bundle = λ values. [];
  decrypt_bundle = λ token. none;
  decrypt = λ token. none;
}

abbrev env : Env
env = record {
  unicode = ascii;
  now = 1000;
  windows = [];
  servers = λ i. none;
  secrets = no_secrets;
  enqueue = λ job. queued (some "rq-1");
  acquire_reply = replied;
  release_reply = replied;
}

abbrev build_request : Request
build_request = record {
  action_name = "bench.build";
  server_id = some 4;
  target_type = "bench";
  target_id = some (codes "7");
  params = ("bench_path", some (codes "/home/b")) ∷ [];
  priority = "default";
  created_by = some 2;
  user_secrets = [];
  from_sanitized = false;
}

abbrev build_row : CommandJob
build_row = record {
  id = 0;
  server_id = some 4;
  target_type = "bench";
  target_id = some (codes "7");
  action_name = "bench.build";
  priority = "default";
  status = pending;
  rq_job_id = some "rq-1";
  params_sanitized = ("bench_path", codes "/home/b") ∷ [];
  secrets_enc = none;
  lock_key = some (codes "4:bench:7:bench.build");
  retry_count = 0;
  exit_code = none;
  started_at = none;
  ended_at = none;
  created_by = some 2;
}

abbrev nothing : World InMemory
nothing = record {
  backend = no_locks;
  jobs = λ i. none;
  next_id = 0;
  queue = [];
  audits = [];
  notified = [];
  log = [];
}

abbrev waiting : World InMemory
waiting = record nothing {
  backend = record { locks = (codes "4:bench:7:bench.build", 0) ∷ []; cancels = [] };
  jobs = λ i. if i == 0 then some build_row else none;
  next_id = 1;
  queue = 0 ∷ [];
}

build_found : get_template "bench.build" ≡ some bench_build
unfolding get_template templates
build_found = refl

build_created : (create in_memory env build_request nothing).1.jobs 0 ≡ some build_row
unfolding create create_from get_template templates refusing_window prepare render collect finish
    validate fullmatch substitute_all substitute_cwd join select unknown_names bench_build new_row
    lock_row acquire_row after_lock enqueue_row lock_key acquire_lock in_memory
build_created = refl

nothing-Consistent : Consistent in_memory nothing
nothing-Consistent = record {
  holds = λ i job k row. ground arith;
  keyed = λ i job row. ground arith;
  queue_ok = λ i waits. ground arith;
}

abbrev after_create : World InMemory
after_create = (create in_memory env build_request nothing).1

build_answer : create in_memory env build_request nothing ≡ (ok build_row, after_create)
unfolding create create_from get_template templates refusing_window prepare render collect finish
    validate fullmatch substitute_all substitute_cwd join select unknown_names bench_build new_row
    lock_row acquire_row after_lock enqueue_row lock_key acquire_lock in_memory
build_answer = refl

create-Created_example : Created in_memory env build_request build_row nothing after_create
create-Created_example =
    create-Created in_memory env build_request build_row nothing after_create nothing-Consistent
      build_answer

-- The same again: the first build holds the lock.
abbrev after_conflict : World InMemory
after_conflict = (create in_memory env build_request after_create).1

conflict : create in_memory env build_request after_create ≡ (err (lock_conflict 0), after_conflict)
unfolding create create_from get_template templates refusing_window prepare render collect finish
    validate fullmatch substitute_all substitute_cwd join select unknown_names bench_build new_row
    lock_row acquire_row after_lock enqueue_row lock_key acquire_lock in_memory
conflict = refl

create-Unchanged_example : Unchanged in_memory after_create after_conflict
create-Unchanged_example =
    create-Unchanged in_memory env build_request (lock_conflict 0) after_create after_conflict
      (Steps-Consistent in_memory (then_step (creates env build_request) done) nothing-Consistent)
      conflict refl

-- Redis takes the lock of the build, but its answer is lost.
abbrev cut_off : Env
cut_off = record env { acquire_reply = unanswered }

abbrev after_cut : World InMemory
after_cut = (create in_memory cut_off build_request nothing).1

cut_answer : create in_memory cut_off build_request nothing ≡ (err backend_failed, after_cut)
unfolding create create_from get_template templates refusing_window prepare render collect finish
    validate fullmatch substitute_all substitute_cwd join select unknown_names bench_build new_row
    lock_row acquire_row after_lock enqueue_row lock_key acquire_lock in_memory
cut_answer = refl

create-Left_example : Left in_memory cut_off build_request backend_failed nothing after_cut
create-Left_example =
    create-Left in_memory cut_off build_request backend_failed nothing after_cut nothing-Consistent
      cut_answer refl

abbrev cancelled_row : CommandJob
cancelled_row = record build_row { status = cancelled }

abbrev after_retry : World InMemory
after_retry = (retry in_memory env (some 3) cancelled_row nothing).1

abbrev retried_build : CommandJob
retried_build = record build_row { created_by = some 3 }

retry_answer : retry in_memory env (some 3) cancelled_row nothing ≡ (ok retried_build, after_retry)
unfolding retry create create_from get_template templates refusing_window prepare render collect
    finish validate fullmatch substitute_all substitute_cwd join select unknown_names bench_build
    new_row lock_row acquire_row after_lock enqueue_row lock_key acquire_lock in_memory
retry_answer = refl

abbrev retry_of_build : Request
retry_of_build = record build_request { created_by = some 3; from_sanitized = true }

retry-Created_example :
    ((cancelled_row.status ≡ failure) ⊎ (cancelled_row.status ≡ cancelled))
    × Created in_memory env retry_of_build retried_build nothing after_retry
retry-Created_example =
    retry-Created in_memory env (some 3) cancelled_row retried_build nothing after_retry
      nothing-Consistent retry_answer

Steps-Consistent_example : Consistent in_memory (cancel in_memory 2000 build_row after_create).1
Steps-Consistent_example =
    Steps-Consistent in_memory
      (then_step (creates env build_request)
        (then_step (cancels 2000 0 build_row build_created) done))
      nothing-Consistent

created_active : is_active 0 build_row after_create ≡ true
unfolding create create_from get_template templates refusing_window prepare render collect finish
    validate fullmatch substitute_all substitute_cwd join select unknown_names bench_build new_row
    lock_row acquire_row after_lock enqueue_row lock_key acquire_lock in_memory
created_active = refl

active-exclusive_example : build_row.id ≡ build_row.id
active-exclusive_example =
    active-exclusive in_memory {w = nothing} (λ i. refl) refl
      (then_step (creates env build_request) done) 0 0 build_row build_row
      (codes "4:bench:7:bench.build") build_created build_created created_active created_active refl
      refl

run_job-Ended_example :
    (v : World InMemory) × (run_job in_memory env (λ n. failed) 3000 0 waiting ≡ some (ok tt, v))
    × Ended in_memory bench_build 0 build_row waiting v
run_job-Ended_example =
    run_job-Ended in_memory env (λ n. failed) 3000 0 bench_build build_row waiting refl refl refl
      build_found

not_cancelled : in_memory.is_cancel_requested 0 waiting.backend ≡ false
unfolding in_memory is_cancel_requested
not_cancelled = refl

abbrev second_try : ℕ → Outcome
second_try n = if n == 2 then returned else failed

abbrev build_command : RenderedCommand
build_command = record {
  argv = codes "bench" ∷ codes "build" ∷ [];
  cwd = some (codes "/home/b");
  display = codes "cd /home/b && bench build";
  params_sanitized = ("bench_path", codes "/home/b") ∷ [];
  secret_values = [];
  secret_map = [];
}

build_prepared : prepare_run env bench_build build_row ≡ ok build_command
unfolding prepare_run render collect finish validate fullmatch substitute_all substitute_cwd join
    select unknown_names bench_build
build_prepared = refl

run_job-verdict_example :
    (v : World InMemory) × (final : CommandJob) × (run_job in_memory env second_try 3000 0 waiting
      ≡ some (ok tt, v))
    × (v.jobs 0 ≡ some final)
    × (final.status ≡ verdict (outcomes second_try 1 (suc (retries_left bench_build build_row))))
run_job-verdict_example =
    run_job-verdict in_memory env second_try 3000 0 bench_build build_row build_command waiting refl
      refl refl not_cancelled build_found build_prepared

abbrev finished_row : CommandJob
finished_row = record build_row { status = success }

abbrev finished_world : World InMemory
finished_world = record waiting { jobs = λ i. if i == 0 then some finished_row else none }

finished_early : finished_row.status ≢ pending
finished_early = λ e. cc

run_job-redelivered_example :
    (v : World InMemory) × (run_job in_memory env second_try 3000 0 finished_world
      ≡ some (ok tt, v))
    × (v.jobs ≡ finished_world.jobs)
    × (v.notified ≡ [])
    × (v.log ≡ [])
    × ((k : Str) (j : ℕ)
        → in_memory.holder k finished_world.backend ≡ some j
        → j ≢ 0
        → in_memory.holder k v.backend ≡ some j)
run_job-redelivered_example =
    run_job-redelivered in_memory env second_try 3000 0 finished_row finished_world refl
      finished_early

run_job-Steps_example :
    (v : World InMemory) × (run_job in_memory env second_try 3000 0 waiting ≡ some (ok tt, v))
    × Steps in_memory waiting v
run_job-Steps_example =
    run_job-Steps in_memory env second_try 3000 0 bench_build build_row waiting refl refl refl
      build_found

run_job-cancel_example :
    (u : World InMemory) × (run_job in_memory env second_try 3000 0
        (cancel in_memory 2000 build_row waiting).1
      ≡ some (ok tt, u))
    × (u.jobs 0 ≡ some (called_off 2000 build_row))
    × (u.notified ≡ [])
    × (u.log ≡ [])
run_job-cancel_example =
    run_job-cancel in_memory env second_try 3000 2000 0 build_row waiting refl refl
