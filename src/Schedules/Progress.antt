-- ===== src/Schedules/Progress.antt =====
-- Which schedules are still due after `tick` of backend/app/core/scheduler.py.
use frappe_os.Schedules.Fire.{fire_schedule}
use frappe_os.Base.{
  All-map, All, Bool, List, Option, Option-cases, [], any, ap, arith, false, inl, inr, keep_if, map,
  none, refl, some, true, ℕ, ◌==◌, ◌||◌, ◌∙◌, ◌∷◌, ◌≡◌, ◌⊎◌,
}
use frappe_os.Base.Results.{Result, err, ok}
use frappe_os.Schedules.Dispatch.{
  tick, find_schedule, dispatch_found, add_result, tick_ids, dispatch_schedule, TickResult,
}
use frappe_os.Schedules.Tables.{Store, Fleet}
use frappe_os.Schedules.Cadence.{CadenceOk}
use frappe_os.Jobs.Create.{Env}
use frappe_os.Jobs.{CommandJob}
use frappe_os.Jobs.Backend.{JobBackend}
use frappe_os.Schedules.Rows.{
  fire_schedule-Fired, after_fire-Outcome, find_schedule-All, find_schedule-none, Outcome, is_ok,
  Rules,
}
use frappe_os.Schedules.{due_schedules, insert_due, order_by_due, is_due, Schedule, DispatchError}

abbrev pub among : ℕ → List ℕ → Bool
among n is = any (λ i. i == n) is

-- A row is due only if its id is in `is`, or if `R` says so.
abbrev DueIn : ℕ → List ℕ → (ℕ → Type 0) → Schedule → Type 0
DueIn now is R x = CadenceOk x.cron × (is_due now x ≡ true → (among x.id is ≡ true) ⊎ R x.id)

-- Schedule `i` is the one whose dispatch raised, or `R` holds.
abbrev OrRaised : ℕ → (ℕ → Type 0) → Bool → ℕ → Type 0
OrRaised i R returned n = ((n ≡ i) × (returned ≡ false)) ⊎ R n

-- The id of a dispatched schedule is in the list no more.
DueIn-Rules :
    (now i : ℕ) (is : List ℕ) (R : ℕ → Type 0)
    → Rules now i (DueIn now (i ∷ is) R) (λ b. DueIn now is (OrRaised i R b))
DueIn-Rules now i is R = record {
  fine = λ x h. h.0;
  other = λ b x apart h.
      (h.0, λ due. elim (h.1 due) [ inl e ↦ inl (ground arith) | inr r ↦ inr (inr r) ]);
  returned = λ x here cadence not_due. (cadence, λ due. ground arith);
  raised = λ x here cadence. (cadence, λ due. inr (inl (here, refl)));
}

still_due :
    (now i : ℕ) (R : ℕ → Type 0) (result : Result DispatchError (Option CommandJob))
    (r : TickResult) (x : Schedule)
    → (is_due now x ≡ true → (among x.id r.raised_for ≡ true) ⊎ OrRaised i R (is_ok result) x.id)
    → is_due now x ≡ true
    → (among x.id (add_result i result r).raised_for ≡ true) ⊎ R x.id
still_due now i R (err e) r x h due = elim (h due) [
  | inl listed_before ↦ inl (ground arith)
  | inr (inl (here, raised)) ↦ inl (ground arith)
  | inr (inr rest) ↦ inr rest
]
still_due now i R (ok none) r x h due = elim (h due) [
  | inl listed_before ↦ inl listed_before
  | inr (inl (here, raised)) ↦ ground arith
  | inr (inr rest) ↦ inr rest
]
still_due now i R (ok (some job)) r x h due = elim (h due) [
  | inl listed_before ↦ inl listed_before
  | inr (inl (here, raised)) ↦ ground arith
  | inr (inr rest) ↦ inr rest
]

add_raised :
    (now i : ℕ) (R : ℕ → Type 0) (result : Result DispatchError (Option CommandJob))
    (r : TickResult) (xs : List Schedule)
    → All (DueIn now r.raised_for (OrRaised i R (is_ok result))) xs
    → All (DueIn now (add_result i result r).raised_for R) xs
add_raised now i R result r [] h = tt
add_raised now i R result r (x ∷ xs) h =
    ((h.0.0, still_due now i R result r x h.0.1), add_raised now i R result r xs h.1)

module _ {S : Type 0} (B : JobBackend S) (env : Env) (fleet : Fleet) (now : ℕ) where
  dispatch_found-DueIn :
      (i : ℕ) (is : List ℕ) (R : ℕ → Type 0) (st : Store S)
      → All (DueIn now (i ∷ is) R) st.schedules
      → Outcome now i
          (DueIn now (i ∷ is) R)
          (λ b. DueIn now is (OrRaised i R b))
          (DueIn-Rules now i is R)
          (dispatch_found B env fleet now (find_schedule i st.schedules) st)
  unfolding dispatch_schedule
  dispatch_found-DueIn i is R st h = elim (Option-cases (find_schedule i st.schedules)) [
    | inl e ↦ rw e (
        find_schedule-none (DueIn now (i ∷ is) R) (DueIn now is (OrRaised i R true)) i st.schedules
          (λ x apart p. (DueIn-Rules now i is R).other true x apart p) h e)
    | inr (s, e) ↦
        (let (here, known) = find_schedule-All (DueIn now (i ∷ is) R) i st.schedules h s e in
          rw e (
            after_fire-Outcome now i (DueIn now (i ∷ is) R) (λ b. DueIn now is (OrRaised i R b))
              (DueIn-Rules now i is R) s st (fire_schedule B env fleet now none s st) here known.0 h
              (fire_schedule-Fired B env fleet now none s st)))
  ]

  tick_ids-DueIn :
      (is : List ℕ) (R : ℕ → Type 0) (st : Store S)
      → All (DueIn now is R) st.schedules
      → All
          (DueIn now (tick_ids B env fleet now is st).0.raised_for R)
          (tick_ids B env fleet now is st).1.schedules
  unfolding tick_ids
  tick_ids-DueIn [] R st h = h
  tick_ids-DueIn (i ∷ is) R st h =
      let (result, st') = dispatch_found B env fleet now (find_schedule i st.schedules) st in
      let (rest, st'') = tick_ids B env fleet now is st' in
      add_raised now i R result rest st''.schedules
        (tick_ids-DueIn is (OrRaised i R (is_ok result)) st' (dispatch_found-DueIn i is R st h))

  among-order :
      (n : ℕ) (s : Schedule) (xs : List Schedule)
      → among n (map (λ x. x.id) (insert_due s xs)) ≡ ((s.id == n) || among n (map (λ x. x.id) xs))
  unfolding insert_due
  among-order n s [] = refl
  among-order n s (x ∷ xs) = ground (arith, among-order n s xs)

  among-order_by_due :
      (n : ℕ) (xs : List Schedule)
      → among n (map (λ x. x.id) (order_by_due xs)) ≡ among n (map (λ x. x.id) xs)
  unfolding order_by_due
  among-order_by_due n [] = refl
  among-order_by_due n (x ∷ xs) =
      among-order n x (order_by_due xs) ∙ ap (λ b. (x.id == n) || b) (among-order_by_due n xs)

  among-keep_if :
      (R : ℕ → Type 0) (xs : List Schedule)
      → ((n : ℕ) → among n (map (λ x. x.id) (keep_if (is_due now) xs)) ≡ true → R n)
      → All (λ x. CadenceOk x.cron) xs
      → All (λ x. CadenceOk x.cron × (is_due now x ≡ true → R x.id)) xs
  among-keep_if R [] k h = tt
  among-keep_if R (x ∷ xs) k h =
      ((h.0, λ due. k x.id (ground arith)), among-keep_if R xs (λ n e. k n (ground (arith, e))) h.1)

  -- If the matches that the cron library finds lie ahead, then after a tick each schedule that is still
  -- due at its instant is one whose dispatch raised.
  pub tick-progress :
      (st : Store S)
      → All (λ s. CadenceOk s.cron) st.schedules
      → All
          (λ s. is_due now s ≡ true → among s.id (tick B env fleet now st).0.raised_for ≡ true)
          (tick B env fleet now st).1.schedules
  unfolding tick due_schedules
  tick-progress st cadences =
      let ids = map (λ s. s.id) (due_schedules now st.schedules) in
      let (result, st') = tick_ids B env fleet now ids st in
      All-map (DueIn now result.raised_for (λ n. false ≡ true))
        (λ s. is_due now s ≡ true → among s.id result.raised_for ≡ true)
        (λ s h due. elim (h.1 due) [ inl e ↦ e | inr e ↦ ground arith ]) st'.schedules
        (tick_ids-DueIn ids (λ n. false ≡ true) st
          (among-keep_if (λ n. (among n ids ≡ true) ⊎ (false ≡ true)) st.schedules
            (λ n e. inl (among-order_by_due n (keep_if (is_due now) st.schedules) ∙ e)) cadences))
