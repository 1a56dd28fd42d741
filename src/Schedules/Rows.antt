-- ===== src/Schedules/Rows.antt =====
-- What `dispatch_schedule` of backend/app/core/scheduler.py does to the rows of the schedules.
use frappe_os.Base.{
  All, All-map, Bool, Bool-cases, List, Option, [], ap, arith, false, if◌then◌else◌, inl, inr, none,
  refl, some, subst, sym, true, ℕ, ◌<◌, ◌==◌, ◌∙◌, ◌∷◌, ◌≡◌, ◌≢◌,
}
use frappe_os.Base.Results.{Result, Result-cases, err, ok}
use frappe_os.Base.Text.{same}
use frappe_os.Jobs.{
  unknown_action, window_blocked, render_error, secret_error, enqueue_failed, backend_failed,
  not_retryable, lock_conflict,
}
use frappe_os.Schedules.Sides.{Inserted-schedules, Built, build_fire-Built}
use frappe_os.Jobs.{lock_conflict, World, JobError, CommandJob}
use frappe_os.Jobs.Create.{create, Env}
use frappe_os.Schedules.Fire.{
  fire_request, build_fire, fired_row, after_create, fire_schedule, after_build,
}
use frappe_os.Schedules.Cadence.{compute_next_run-later, CadenceOk}
use frappe_os.Jobs.Backend.{JobBackend}
use frappe_os.Schedules.Dispatch.{after_fire, advance, with_next, find_schedule}
use frappe_os.Schedules.{
  crashed, schedule_error, job_error, compute_next_run, ScheduleError, DispatchError, is_due,
  Schedule,
}
use frappe_os.Schedules.Tables.{
  platform_backup, backup, Fire, Fleet, Side, link_side, Store, remove_side, set_schedule,
}

is_due-none : (now : ℕ) (s : Schedule) → is_due now (with_next none s) ≡ false
unfolding is_due
is_due-none now s = ground arith

is_due_later : (now at : ℕ) (s : Schedule) → now < at → is_due now (with_next (some at) s) ≡ false
unfolding is_due
is_due_later now at s later = ground arith

set_schedule-All :
    (P Q : Schedule → Type 0) (s : Schedule) (xs : List Schedule)
    → Q s
    → ((x : Schedule) → x.id ≢ s.id → P x → Q x)
    → All P xs
    → All Q (set_schedule s xs)
unfolding set_schedule
set_schedule-All P Q s [] written kept h = tt
set_schedule-All P Q s (x ∷ xs) written kept h =
    let rest = set_schedule-All P Q s xs written kept h.1 in
    elim (Bool-cases (x.id == s.id)) [
      | inl e ↦ (subst (λ b. Q (if b then s else x)) (sym e) written, rest)
      | inr e ↦ (
        subst (λ b. Q (if b then s else x)) (sym e) (kept x (λ same. ground (arith, same)) h.0),
        rest,
      )
    ]

pub find_schedule-All :
    (P : Schedule → Type 0) (i : ℕ) (xs : List Schedule)
    → All P xs
    → (s : Schedule) → find_schedule i xs ≡ some s
    → (s.id ≡ i) × P s
find_schedule-All P i [] h s found = ground arith
find_schedule-All P i (x ∷ xs) h s found = elim (Bool-cases (x.id == i)) [
  | inl e ↦ (let it : x ≡ s = ground arith in subst (λ r. (r.id ≡ i) × P r) it (ground arith, h.0))
  | inr e ↦ find_schedule-All P i xs h.1 s (ground arith)
]

pub find_schedule-none :
    (P Q : Schedule → Type 0) (i : ℕ) (xs : List Schedule)
    → ((x : Schedule) → x.id ≢ i → P x → Q x)
    → All P xs
    → find_schedule i xs ≡ none
    → All Q xs
find_schedule-none P Q i [] kept h missing = tt
find_schedule-none P Q i (x ∷ xs) kept h missing = elim (Bool-cases (x.id == i)) [
  | inl e ↦ ground arith
  | inr e ↦ (
    kept x (λ same. ground (arith, same)) h.0,
    find_schedule-none P Q i xs kept h.1 (ground arith),
  )
]

abbrev pub is_ok : {E A : Type 0} → Result E A → Bool
is_ok (err e) = false
is_ok (ok a) = true

module _ {S : Type 0} where
  -- What a fire did to the rows of the schedules.
  abbrev Fired : ℕ → Schedule → Store S → Result DispatchError CommandJob × Store S → Type 0
  Fired now s st (err e, st') = st'.schedules ≡ st.schedules
  Fired now s st (ok job, st') = st'.schedules ≡ set_schedule (fired_row now job s) st.schedules

  remove_side-schedules :
      (side : Option Side) (st : Store S) → (remove_side side st).schedules ≡ st.schedules
  unfolding remove_side
  remove_side-schedules none st = refl
  remove_side-schedules (some (backup i)) st = refl
  remove_side-schedules (some (platform_backup i)) st = refl

  link_side-schedules :
      (job : ℕ) (side : Option Side) (st : Store S)
      → (link_side job side st).schedules ≡ st.schedules
  unfolding link_side
  link_side-schedules job none st = refl
  link_side-schedules job (some (backup i)) st = refl
  link_side-schedules job (some (platform_backup i)) st = refl

module _ {S : Type 0} (B : JobBackend S) where
  after_create-Fired :
      (now : ℕ) (s : Schedule) (side : Option Side) (st built : Store S)
      → built.schedules ≡ st.schedules
      → (answer : Result JobError CommandJob × World S)
      → Fired now s st (after_create B now s side answer built)
  unfolding after_create
  after_create-Fired now s side st built same (err e, w) =
      remove_side-schedules side (record built { world = w }) ∙ same
  after_create-Fired now s side st built same (ok job, w) =
      ap (set_schedule (fired_row now job s))
        (link_side-schedules job.id side (record built { world = w }) ∙ same)

  after_build-Fired :
      (env : Env) (now : ℕ) (by : Option ℕ) (s : Schedule) (st : Store S)
      (r : Result ScheduleError Fire × Store S)
      → Built st r
      → Fired now s st (after_build B env now by s r)
  unfolding after_build
  after_build-Fired env now by s st (err e, built) same = ap (λ b. b.schedules) same
  after_build-Fired env now by s st (ok fire, built) inserted =
      after_create-Fired now s fire.side st built (Inserted-schedules fire.side st built inserted)
        (create B env (fire_request s by fire) built.world)

  pub fire_schedule-Fired :
      (env : Env) (fleet : Fleet) (now : ℕ) (by : Option ℕ) (s : Schedule) (st : Store S)
      → Fired now s st (fire_schedule B env fleet now by s st)
  unfolding fire_schedule
  fire_schedule-Fired env fleet now by s st =
      after_build-Fired env now by s st (build_fire env.unicode fleet s st)
        (build_fire-Built env.unicode fleet s st)

-- What a dispatch of schedule `i` makes of a property `P` of the rows: `Q true` if it returned,
-- `Q false` if it raised.
pub record Rules (now i : ℕ) (P : Schedule → Type 0) (Q : Bool → Schedule → Type 0) : Type 0 where
  pub fine : (x : Schedule) → P x → CadenceOk x.cron
  pub other : (b : Bool) (x : Schedule) → x.id ≢ i → P x → Q b x
  pub returned : (x : Schedule) → x.id ≡ i → CadenceOk x.cron → is_due now x ≡ false → Q true x
  pub raised : (x : Schedule) → x.id ≡ i → CadenceOk x.cron → Q false x

module _ (now i : ℕ) (P : Schedule → Type 0) (Q : Bool → Schedule → Type 0)
    (rules : Rules now i P Q) where
  pub raised-All : (xs : List Schedule) → All P xs → All (Q false) xs
  raised-All [] h = tt
  raised-All (x ∷ xs) h = (
    elim (Bool-cases (x.id == i)) [
      | inl e ↦ rules.raised x (ground arith) (rules.fine x h.0)
      | inr e ↦ rules.other false x (λ same. ground (arith, same)) h.0
    ],
    raised-All xs h.1,
  )

  written-All :
      (at : Option ℕ) (s : Schedule) (xs : List Schedule)
      → s.id ≡ i
      → CadenceOk s.cron
      → is_due now (with_next at s) ≡ false
      → All (λ x. x.id ≢ i → P x) xs
      → All (Q true) (set_schedule (with_next at s) xs)
  written-All at s xs same cadence not_due h =
      set_schedule-All (λ x. x.id ≢ i → P x) (Q true) (with_next at s) xs
        (rules.returned (with_next at s) same cadence not_due)
        (λ x other p.
          let away : x.id ≢ i = (λ e. other (e ∙ sym same)) in rules.other true x away (p away))
        h

module _ {S : Type 0} (now i : ℕ) (P : Schedule → Type 0) (Q : Bool → Schedule → Type 0)
    (rules : Rules now i P Q) where
  abbrev pub Outcome : Result DispatchError (Option CommandJob) × Store S → Type 0
  Outcome (result, st) = All (Q (is_ok result)) st.schedules

  advance-Outcome :
      (s : Schedule) (job : Option CommandJob) (st : Store S)
      → s.id ≡ i
      → CadenceOk s.cron
      → All (λ x. x.id ≢ i → P x) st.schedules
      → All (Q false) st.schedules
      → Outcome (advance (compute_next_run s now) s job st)
  unfolding advance
  advance-Outcome s job st same cadence h h' = elim (Result-cases (compute_next_run s now)) [
    | inl (e, f) ↦ rw (f, advance) h'
    | inr (at, f) ↦
        rw (f, advance)
          (written-All now i P Q rules (some at) s st.schedules same cadence
            (is_due_later now at s (compute_next_run-later s now at cadence f)) h)
  ]

  pub after_fire-Outcome :
      (s : Schedule) (st : Store S) (r : Result DispatchError CommandJob × Store S)
      → s.id ≡ i
      → CadenceOk s.cron
      → All P st.schedules
      → Fired now s st r
      → Outcome (after_fire now s r)
  unfolding after_fire
  after_fire-Outcome s st (ok job, st') here cadence h e =
      let s' = fired_row now job s in
      let rows = subst (All (λ x. x.id ≢ i → P x)) (sym e) (
        set_schedule-All P (λ x. x.id ≢ i → P x) s' st.schedules (λ apart. elim (apart here) [ ])
          (λ x other p apart. p) h) in
      advance-Outcome s' (some job) st' here cadence rows (
        subst (All (Q false)) (sym e) (
          set_schedule-All P (Q false) s' st.schedules (rules.raised s' here cadence)
            (λ x other p. rules.other false x (λ f. other (f ∙ sym here)) p) h))
  after_fire-Outcome s st (err (job_error (lock_conflict holder)), st') here cadence h e =
      let rows = subst (All P) (sym e) h in
      advance-Outcome s none st' here cadence
        (All-map P (λ x. x.id ≢ i → P x) (λ x p apart. p) st'.schedules rows)
        (raised-All now i P Q rules st'.schedules rows)
  after_fire-Outcome s st (err (schedule_error d), st') here cadence h e =
      let rows = subst (All P) (sym e) h in
      written-All now i P Q rules none s st'.schedules here cadence (is_due-none now s)
        (All-map P (λ x. x.id ≢ i → P x) (λ x p apart. p) st'.schedules rows)
  after_fire-Outcome s st (err crashed, st') here cadence h e =
      raised-All now i P Q rules st'.schedules (subst (All P) (sym e) h)
  after_fire-Outcome s st (err (job_error unknown_action), st') here cadence h e =
      raised-All now i P Q rules st'.schedules (subst (All P) (sym e) h)
  after_fire-Outcome s st (err (job_error (window_blocked w why)), st') here cadence h e =
      raised-All now i P Q rules st'.schedules (subst (All P) (sym e) h)
  after_fire-Outcome s st (err (job_error (render_error d)), st') here cadence h e =
      raised-All now i P Q rules st'.schedules (subst (All P) (sym e) h)
  after_fire-Outcome s st (err (job_error (secret_error d)), st') here cadence h e =
      raised-All now i P Q rules st'.schedules (subst (All P) (sym e) h)
  after_fire-Outcome s st (err (job_error backend_failed), st') here cadence h e =
      raised-All now i P Q rules st'.schedules (subst (All P) (sym e) h)
  after_fire-Outcome s st (err (job_error enqueue_failed), st') here cadence h e =
      raised-All now i P Q rules st'.schedules (subst (All P) (sym e) h)
  after_fire-Outcome s st (err (job_error not_retryable), st') here cadence h e =
      raised-All now i P Q rules st'.schedules (subst (All P) (sym e) h)
