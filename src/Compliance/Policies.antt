-- ===== src/Compliance/Policies.antt =====
-- `evaluate_policy` of backend/app/core/compliance.py against the rule of its documentation.
use frappe_os.Base.{
  All, Bool, Bool-cases, List, Option, [], any, ap, arith, if◌then◌else◌, inl, inr, keep_if, leb,
  leb→le, none, refl, some, subst, sym, true, ℕ, ◌&&◌, ◌*◌, ◌++◌, ◌+◌, ◌↔◌, ◌∙◌, ◌∷◌, ◌≡◌, ◌≤◌,
}
use frappe_os.Retention.{day}
use frappe_os.Retention.{day}
use frappe_os.Compliance.Order.{
  newest_of-Older, any-newest_first, newest_first-Descending, All-sorted, oldest_of-any, Older,
}
use frappe_os.Compliance.{
  newest_first, evaluate_policy, newest_of, oldest_of, is_offsite, retention_breaches, compliant,
  history_reaches, hour, is_success_of, successful_backups, offsite_breaches, rpo_breaches,
  site_old_enough, state_of, PolicedSite, BreachCode, BackupPolicy, StoredBackup,
}

-- Some successful backup of the site is old enough, with a day of grace, if days are asked for and the site is
-- old enough.
abbrev pub Retained : List StoredBackup → ℕ → PolicedSite → ℕ → Option ℕ → Type 0
Retained backups now site site_id none = Unit
Retained backups now site site_id (some days) =
    site_old_enough days now site.created_at ≡ true
    → any (λ b. is_success_of site_id b && leb (b.created_at + days * day) (now + day)) backups
      ≡ true

-- The documented rule: `newest` is a successful backup than which no other is newer, it is young
-- enough, it is off site if that is required, and the history reaches back.
pub record Meets (backups : List StoredBackup) (now : ℕ) (site : PolicedSite)
    (policy : BackupPolicy) : Type 0 where
  pub newest : StoredBackup
  pub stored : newest_of (successful_backups policy.site_id backups) ≡ some newest
  pub none_newer :
      All (λ b. is_success_of policy.site_id b ≡ true → b.created_at ≤ newest.created_at) backups
  pub young : now ≤ newest.created_at + policy.rpo_hours * hour
  pub kept_offsite : policy.require_offsite ≡ true → is_offsite newest ≡ true
  pub retained : Retained backups now site policy.site_id policy.retention_days

state_of-compliant :
    (breaches : List BreachCode) → (state_of breaches ≡ compliant) ↔ (breaches ≡ [])
state_of-compliant [] = ((λ h. refl), λ h. refl)
state_of-compliant (code ∷ breaches) = ((λ h. ground arith), λ h. cc)

append-empty : {A : Type 0} (xs ys : List A) → (xs ++ ys ≡ []) ↔ ((xs ≡ []) × (ys ≡ []))
append-empty [] ys = ((λ h. (refl, h)), λ h. h.1)
append-empty (x ∷ xs) ys = ((λ h. ground arith), λ h. ground arith)

All-tested :
    (Q : StoredBackup → Type 0) (p : StoredBackup → Bool) (xs : List StoredBackup)
    → All Q (keep_if p xs)
    → All (λ b. p b ≡ true → Q b) xs
All-tested Q p [] h = tt
All-tested Q p (x ∷ xs) h = elim (Bool-cases (p x)) [
  | inl e ↦
      let k : All Q (x ∷ keep_if p xs) =
        subst (λ t. All Q (if t then x ∷ keep_if p xs else keep_if p xs)) e h in
      ((λ passes. k.0), All-tested Q p xs k.1)
  | inr e ↦
      let k : All Q (keep_if p xs) =
        subst (λ t. All Q (if t then x ∷ keep_if p xs else keep_if p xs)) e h in
      ((λ passes. ground arith), All-tested Q p xs k)
]

any-tested :
    (p q : StoredBackup → Bool) (xs : List StoredBackup)
    → any q (keep_if p xs) ≡ any (λ b. p b && q b) xs
any-tested p q [] = refl
any-tested p q (x ∷ xs) = ground (arith, any-tested p q xs)

history_reaches-Older :
    (days now : ℕ) (b c : StoredBackup)
    → Older b c
    → history_reaches days now b ≡ true
    → history_reaches days now c ≡ true
history_reaches-Older days now b c older h =
    let reached = leb→le (b.created_at + days * day) (now + day) h in ground arith

rpo-empty :
    (policy : BackupPolicy) (now : ℕ) (newest : Option StoredBackup)
    → (rpo_breaches policy now newest ≡ [])
      ↔ ((b : StoredBackup) × (newest ≡ some b) × (now ≤ b.created_at + policy.rpo_hours * hour))
rpo-empty policy now none = ((λ h. ground arith), λ h. ground arith)
rpo-empty policy now (some b) = (
  (λ h. (b, refl, ground arith)),
  λ (c, e, h).
      let it : b ≡ c = cc in
      let young : now ≤ b.created_at + policy.rpo_hours * hour = rw it h in ground arith,
)

offsite-empty :
    (required : Bool) (b : StoredBackup)
    → (offsite_breaches required (some b) ≡ []) ↔ (required ≡ true → is_offsite b ≡ true)
offsite-empty required b = (
  (λ h r. ground arith),
  λ h. elim (Bool-cases required) [ inl e ↦ rw (e, h e) refl | inr e ↦ rw e refl ],
)

-- The oldest successful backup decides whether the history reaches back.
oldest-any :
    (days now site_id : ℕ) (backups : List StoredBackup) (b : StoredBackup)
    → newest_of (successful_backups site_id backups) ≡ some b
    → (o : StoredBackup) × (oldest_of (successful_backups site_id backups) ≡ some o)
      × (any (λ c. is_success_of site_id c && history_reaches days now c) backups
          ≡ history_reaches days now o)
unfolding successful_backups
oldest-any days now site_id backups b e =
    let rows = keep_if (is_success_of site_id) backups in
    let (o, f, g) =
      oldest_of-any (history_reaches days now) (history_reaches-Older days now) (newest_first rows)
        b (newest_first-Descending rows) e in
    (
      o,
      f,
      sym (any-tested (is_success_of site_id) (history_reaches days now) backups)
          ∙ (sym (any-newest_first (history_reaches days now) rows) ∙ g),
    )

retention_test :
    (days now : ℕ) (site : PolicedSite) (o : StoredBackup)
    → (retention_breaches (some days) now site (some o) ≡ [])
      ↔ (site_old_enough days now site.created_at ≡ true → history_reaches days now o ≡ true)
retention_test days now site o = elim (Bool-cases (site_old_enough days now site.created_at)) [
  | inl e ↦ rw e (elim (Bool-cases (history_reaches days now o)) [
    | inl f ↦ rw f ((λ h old. refl), λ h. refl)
    | inr f ↦ rw f ((λ h old. ground arith), λ h. ground (arith, h refl))
  ])
  | inr e ↦ rw e ((λ h old. ground arith), λ h. refl)
]

retention-empty :
    (o : Option ℕ) (now : ℕ) (site : PolicedSite) (site_id : ℕ) (backups : List StoredBackup)
    (b : StoredBackup)
    → newest_of (successful_backups site_id backups) ≡ some b
    → (retention_breaches o now site (oldest_of (successful_backups site_id backups)) ≡ [])
      ↔ Retained backups now site site_id o
retention-empty none now site site_id backups b e = ((λ h. tt), λ h. refl)
retention-empty (some days) now site site_id backups b e =
    let (o, f, g) = oldest-any days now site_id backups b e in
    let parts : (retention_breaches (some days) now site (some o) ≡ [])
        ↔ (site_old_enough days now site.created_at ≡ true → history_reaches days now o ≡ true) =
      retention_test days now site o in
    (
      λ h old. g ∙ parts.0 (ap (retention_breaches (some days) now site) (sym f) ∙ h) old,
      λ h. ap (retention_breaches (some days) now site) f ∙ parts.1 (λ old. sym g ∙ h old),
    )

abbrev found_breaches : List StoredBackup → ℕ → PolicedSite → BackupPolicy → List BreachCode
found_breaches backups now site policy =
    let mine = successful_backups policy.site_id backups in
    rpo_breaches policy now (newest_of mine)
    ++ (retention_breaches policy.retention_days now site (oldest_of mine)
        ++ offsite_breaches policy.require_offsite (newest_of mine))

found_breaches-Meets :
    (backups : List StoredBackup) (now : ℕ) (site : PolicedSite) (policy : BackupPolicy)
    → found_breaches backups now site policy ≡ []
    → Meets backups now site policy
unfolding successful_backups
found_breaches-Meets backups now site policy h =
    let rows = keep_if (is_success_of policy.site_id) backups in
    let (on_time, others) = (append-empty _ _).0 h in
    let (reaching, stored_off) = (append-empty _ _).0 others in
    let (b, e, young) = (rpo-empty policy now (newest_of (newest_first rows))).0 on_time in
    record {
      newest = b;
      stored = e;
      none_newer = All-tested (Older b) (is_success_of policy.site_id) backups (
          All-sorted (Older b) rows
            (newest_of-Older (newest_first rows) b (newest_first-Descending rows) e));
      young = young;
      kept_offsite =
          (offsite-empty policy.require_offsite b).0
            (ap (offsite_breaches policy.require_offsite) (sym e) ∙ stored_off);
      retained =
          (retention-empty policy.retention_days now site policy.site_id backups b e).0 reaching;
    }

Meets-found_breaches :
    (backups : List StoredBackup) (now : ℕ) (site : PolicedSite) (policy : BackupPolicy)
    → Meets backups now site policy
    → found_breaches backups now site policy ≡ []
Meets-found_breaches backups now site policy m = (append-empty _ _).1 (
  (rpo-empty policy now _).1 (m.newest, m.stored, m.young),
  (append-empty _ _).1 (
    (retention-empty policy.retention_days now site policy.site_id backups m.newest m.stored).1
        m.retained,
    ap (offsite_breaches policy.require_offsite) m.stored
        ∙ (offsite-empty policy.require_offsite m.newest).1 m.kept_offsite,
  ),
)

-- A site is compliant exactly if its backups meet the documented rule.
pub evaluate_policy-Meets :
    (backups : List StoredBackup) (now : ℕ) (site : PolicedSite) (policy : BackupPolicy)
    → ((evaluate_policy backups now site policy).state ≡ compliant) ↔ Meets backups now site policy
unfolding evaluate_policy
evaluate_policy-Meets backups now site policy = (
  λ h. found_breaches-Meets backups now site policy ((state_of-compliant _).0 h),
  λ m. (state_of-compliant _).1 (Meets-found_breaches backups now site policy m),
)
