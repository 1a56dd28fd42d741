-- ===== src/Compliance/Events.antt =====
-- The events of `evaluate_all` in backend/app/core/compliance.py: one for each site that enters breach.
use frappe_os.Base.{
  ==_iff, All, Bool, Bool-cases, List, Option, [], ap, arith, false, if◌then◌else◌, inl, inr,
  keep_if, none, not, refl, some, sym, true, ℕ, ◌&&◌, ◌++◌, ◌∙◌, ◌∷◌, ◌≡◌, ◌≢◌,
}
use frappe_os.Compliance.{PolicyResult, evaluate_policy, PolicedSite, BackupPolicy}
use frappe_os.Compliance.Sweep.{
  upsert_status, breach_event, was_breached, is_breached, ComplianceBreachEvent, evaluate_each,
  evaluate_found, evaluate_all, SweepCounts, ComplianceDb, add_event,
}

-- The event of one policy, judged by the database as it is.
abbrev pub entering :
    ℕ → ComplianceDb → BackupPolicy → Option PolicedSite → List ComplianceBreachEvent
entering now db policy none = []
entering now db policy (some site) =
    let result = evaluate_policy db.backups now site policy in
    if is_breached result.state && not (was_breached (db.statuses policy.site_id))
    then breach_event site policy result ∷ []
    else []

abbrev pub entered_events : ℕ → ComplianceDb → List BackupPolicy → List ComplianceBreachEvent
entered_events now db [] = []
entered_events now db (policy ∷ policies) =
    entering now db policy (db.sites policy.site_id) ++ entered_events now db policies

-- No two policies are of one site.
abbrev pub DistinctSites : List BackupPolicy → Type 0
DistinctSites [] = Unit
DistinctSites (policy ∷ policies) =
    All (λ other. other.site_id ≢ policy.site_id) policies × DistinctSites policies

abbrev pub enabled_policies : ComplianceDb → List BackupPolicy
enabled_policies db = keep_if (λ policy. policy.enabled) db.policies

-- For the policies that are left, the database is as before the sweep.
record SameFor (before db : ComplianceDb) (policies : List BackupPolicy) : Type 0 where
  same_sites : db.sites ≡ before.sites
  same_backups : db.backups ≡ before.backups
  same_statuses : All (λ p. db.statuses p.site_id ≡ before.statuses p.site_id) policies

append_empty : {A : Type 0} (xs : List A) → xs ++ [] ≡ xs
append_empty [] = refl
append_empty (x ∷ xs) = ap (λ ys. x ∷ ys) (append_empty xs)

append_assoc : {A : Type 0} (xs ys zs : List A) → (xs ++ ys) ++ zs ≡ xs ++ (ys ++ zs)
append_assoc [] ys zs = refl
append_assoc (x ∷ xs) ys zs = ap (λ ws. x ∷ ws) (append_assoc xs ys zs)

evaluate_found-events :
    (now : ℕ) (policy : BackupPolicy) (site : Option PolicedSite) (db : ComplianceDb)
    (counts : SweepCounts)
    → (evaluate_found now policy site (db, counts)).0.events
      ≡ db.events ++ entering now db policy site
evaluate_found-events now policy none db counts = sym (append_empty db.events)
evaluate_found-events now policy (some site) db counts =
    elim (Bool-cases (
      is_breached (evaluate_policy db.backups now site policy).state
      && not (was_breached (db.statuses policy.site_id)))) [
        | inl e ↦ rw e refl
        | inr e ↦ rw e (sym (append_empty db.events))
      ]

add_event-SameFor :
    (entered : Bool) (event : ComplianceBreachEvent) (before db : ComplianceDb)
    (policies : List BackupPolicy)
    → SameFor before db policies
    → SameFor before (add_event entered event db) policies
add_event-SameFor true event before db policies h = record {
  same_sites = h.same_sites;
  same_backups = h.same_backups;
  same_statuses = h.same_statuses;
}
add_event-SameFor false event before db policies h = h

other_statuses :
    (now site_id : ℕ) (result : PolicyResult) (before db : ComplianceDb)
    (policies : List BackupPolicy)
    → All (λ other. other.site_id ≢ site_id) policies
    → All (λ p. db.statuses p.site_id ≡ before.statuses p.site_id) policies
    → All
        (λ p. (upsert_status site_id now result db).statuses p.site_id ≡ before.statuses p.site_id)
        policies
other_statuses now site_id result before db [] apart h = tt
other_statuses now site_id result before db (p ∷ ps) apart h = (
  ground (arith, h.0, apart.0, ==_iff p.site_id site_id),
  other_statuses now site_id result before db ps apart.1 h.1,
)

evaluate_found-SameFor :
    (now : ℕ) (policy : BackupPolicy) (site : Option PolicedSite) (before db : ComplianceDb)
    (counts : SweepCounts) (policies : List BackupPolicy)
    → All (λ other. other.site_id ≢ policy.site_id) policies
    → SameFor before db policies
    → SameFor before (evaluate_found now policy site (db, counts)).0 policies
evaluate_found-SameFor now policy none before db counts policies apart h = h
evaluate_found-SameFor now policy (some site) before db counts policies apart h =
    let result = evaluate_policy db.backups now site policy in
    add_event-SameFor _ (breach_event site policy result) before
      (upsert_status policy.site_id now result db) policies
      (record {
        same_sites = h.same_sites;
        same_backups = h.same_backups;
        same_statuses =
            other_statuses now policy.site_id result before db policies apart h.same_statuses;
      })

entering_same :
    (now : ℕ) (before db : ComplianceDb) (policy : BackupPolicy) (site : Option PolicedSite)
    → db.backups ≡ before.backups
    → db.statuses policy.site_id ≡ before.statuses policy.site_id
    → entering now db policy site ≡ entering now before policy site
entering_same now before db policy none e f = refl
entering_same now before db policy (some site) e f = rw (e, f) refl

entering-SameFor :
    (now : ℕ) (before db : ComplianceDb) (policy : BackupPolicy) (policies : List BackupPolicy)
    → SameFor before db (policy ∷ policies)
    → entering now db policy (db.sites policy.site_id)
      ≡ entering now before policy (before.sites policy.site_id)
entering-SameFor now before db policy policies h =
    entering_same now before db policy (db.sites policy.site_id) h.same_backups h.same_statuses.0
    ∙ ap (λ sites. entering now before policy (sites policy.site_id)) h.same_sites

evaluate_each-events :
    (now : ℕ) (policies : List BackupPolicy) (before db : ComplianceDb) (counts : SweepCounts)
    → DistinctSites policies
    → SameFor before db policies
    → (evaluate_each now policies (db, counts)).0.events
      ≡ db.events ++ entered_events now before policies
unfolding evaluate_each
evaluate_each-events now [] before db counts distinct h = sym (append_empty db.events)
evaluate_each-events now (policy ∷ policies) before db counts distinct h =
    let (db', counts') = evaluate_found now policy (db.sites policy.site_id) (db, counts) in
    let rest : SameFor before db policies = record {
      same_sites = h.same_sites;
      same_backups = h.same_backups;
      same_statuses = h.same_statuses.1;
    } in
    evaluate_each-events now policies before db' counts' distinct.1 (
      evaluate_found-SameFor now policy (db.sites policy.site_id) before db counts policies
        distinct.0 rest)
    ∙ (ap (λ es. es ++ entered_events now before policies)
          (evaluate_found-events now policy (db.sites policy.site_id) db counts
            ∙ ap (λ es. db.events ++ es) (entering-SameFor now before db policy policies h))
        ∙ append_assoc db.events _ _)

-- If no two enabled policies are of one site, a sweep adds one event for each enabled policy whose site
-- is in breach now and was not before, in the order of the policies, and no other.
pub evaluate_all-events :
    (now : ℕ) (db : ComplianceDb)
    → DistinctSites (enabled_policies db)
    → (evaluate_all now db).0.events ≡ db.events ++ entered_events now db (enabled_policies db)
unfolding evaluate_all
evaluate_all-events now db distinct =
    evaluate_each-events now (enabled_policies db) db db _ distinct (record {
      same_sites = refl;
      same_backups = refl;
      same_statuses = all_same (enabled_policies db);
    })
  where
    all_same :
        (policies : List BackupPolicy)
        → All (λ p. db.statuses p.site_id ≡ db.statuses p.site_id) policies
    all_same [] = tt
    all_same (p ∷ ps) = (refl, all_same ps)
