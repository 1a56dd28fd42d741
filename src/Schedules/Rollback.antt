-- ===== src/Schedules/Rollback.antt =====
-- What `fire_schedule` of backend/app/core/scheduler.py leaves behind when it raises.
use frappe_os.Jobs.{JobError, CommandJob, World}
use frappe_os.Jobs.Creation.{create-Unchanged, unchanged}
use frappe_os.Jobs.Requested.{leaves_row, Unchanged}
use frappe_os.Jobs.Steps.{Consistent}
use frappe_os.Jobs.Backend.{JobBackend}
use frappe_os.Jobs.Create.{create, Env}
use frappe_os.Schedules.Fire.{fire_request, fire_schedule, after_build, after_create, build_fire}
use frappe_os.Base.{Bool, Option, ap, arith, false, none, refl, some, subst, sym, ℕ, ◌≡◌}
use frappe_os.Base.Results.{Result, err, ok}
use frappe_os.Base.Text.{same}
use frappe_os.Schedules.{Schedule, ScheduleError, DispatchError, job_error}
use frappe_os.Schedules.Tables.{remove_side, Side, Fleet, Fire, Store, backup, platform_backup}
use frappe_os.Schedules.Sides.{Inserted-world, Inserted, Built, build_fire-Built}

module _ {S : Type 0} (B : JobBackend S) where
  -- The rows of the scheduler and of the job engine are as they were.
  pub record Undone (st st' : Store S) : Type 0 where
    pub same_schedules : st'.schedules ≡ st.schedules
    pub same_backups : (i : ℕ) → st'.backups i ≡ st.backups i
    pub same_platform_backups : (i : ℕ) → st'.platform_backups i ≡ st.platform_backups i
    pub same_jobs : Unchanged B st.world st'.world

  -- The ids that the database hands out next are free, and the job engine's state is consistent.
  pub record Fresh (st : Store S) : Type 0 where
    pub backup_free : st.backups st.next_backup ≡ none
    pub platform_free : st.platform_backups st.next_platform ≡ none
    pub consistent : Consistent B st.world

  -- The row that a fire inserted is deleted again.
  removed-Undone :
      (side : Option Side) (st built : Store S) (w : World S)
      → Fresh st
      → Inserted side st built
      → Unchanged B st.world w
      → Undone st (remove_side side (record built { world = w }))
  unfolding remove_side
  removed-Undone none st built w fresh inserted same =
      subst (λ b. Undone st (record b { world = w })) (sym inserted)
        (record {
          same_schedules = refl;
          same_backups = λ n. refl;
          same_platform_backups = λ n. refl;
          same_jobs = same;
        })
  removed-Undone (some (backup i)) st built w fresh (new, row, inserted) same =
      subst (λ b. Undone st (remove_side (some (backup i)) (record b { world = w }))) (sym inserted)
        (record {
          same_schedules = refl;
          same_backups = λ n. ground (arith, fresh.backup_free, new);
          same_platform_backups = λ n. refl;
          same_jobs = same;
        })
  removed-Undone (some (platform_backup i)) st built w fresh (new, row, inserted) same =
      subst (λ b. Undone st (remove_side (some (platform_backup i)) (record b { world = w })))
        (sym inserted)
        (record {
          same_schedules = refl;
          same_backups = λ n. refl;
          same_platform_backups = λ n. ground (arith, fresh.platform_free, new);
          same_jobs = same;
        })

  -- The job that RQ refused, or whose lock's backend gave no answer, keeps its row.
  abbrev pub keeps_row : DispatchError → Bool
  keeps_row (job_error e) = leaves_row e
  keeps_row _ = false

  abbrev Raised : Store S → Result DispatchError CommandJob × Store S → Type 0
  Raised st (ok job, st') = Unit
  Raised st (err e, st') = keeps_row e ≡ false → Undone st st'

  after_create-Raised :
      (now : ℕ) (s : Schedule) (side : Option Side) (st built : Store S)
      → Fresh st
      → Inserted side st built
      → (answer : Result JobError CommandJob × World S)
      → ((e : JobError) (w : World S)
          → answer ≡ (err e, w)
          → leaves_row e ≡ false
          → Unchanged B st.world w)
      → Raised st (after_create B now s side answer built)
  unfolding after_create
  after_create-Raised now s side st built fresh inserted (err e, w) undone =
      λ left. removed-Undone side st built w fresh inserted (undone e w refl left)
  after_create-Raised now s side st built fresh inserted (ok job, w) undone = tt

  after_build-Raised :
      (env : Env) (now : ℕ) (by : Option ℕ) (s : Schedule) (st : Store S)
      → Fresh st
      → (r : Result ScheduleError Fire × Store S) → Built st r
      → Raised st (after_build B env now by s r)
  unfolding after_build
  after_build-Raised env now by s st fresh (err e, built) same = λ left. record {
    same_schedules = ap (λ b. b.schedules) same;
    same_backups = λ n. ap (λ b. b.backups n) same;
    same_platform_backups = λ n. ap (λ b. b.platform_backups n) same;
    same_jobs = subst (λ b. Unchanged B st.world b.world) (sym same) (unchanged B st.world);
  }
  after_build-Raised env now by s st fresh (ok fire, built) inserted =
      let here = Inserted-world fire.side st built inserted in
      let req = fire_request s by fire in
      after_create-Raised now s fire.side st built fresh inserted (create B env req built.world)
        (λ e w raised_by left.
          subst (λ v. Unchanged B v w) here
            (create-Unchanged B env req e built.world w
              (subst (Consistent B) (sym here) fresh.consistent) raised_by left))

  -- If firing a schedule raises on a state with free ids and consistent jobs, and neither because RQ
  -- refused the job nor because a call to the lock's backend got no answer, then nothing is left of
  -- it: the schedules, the backup rows of both kinds and the job engine's rows, queue, audit trail,
  -- listeners and locks are as before.
  pub fire_schedule-Undone :
      (env : Env) (fleet : Fleet) (now : ℕ) (by : Option ℕ) (s : Schedule) (e : DispatchError)
      (st st' : Store S)
      → Fresh st
      → fire_schedule B env fleet now by s st ≡ (err e, st')
      → keeps_row e ≡ false
      → Undone st st'
  unfolding fire_schedule
  fire_schedule-Undone env fleet now by s e st st' fresh raised_by = subst (Raised st) raised_by (
      after_build-Raised env now by s st fresh (build_fire env.unicode fleet s st)
        (build_fire-Built env.unicode fleet s st))
