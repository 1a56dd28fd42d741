-- ===== src/Retention/Floor.antt =====
-- What a sweep by `plan_retention` of backend/app/core/backups.py never removes.
use frappe_os.Retention.{
  ids_of_newest, not_after, ids_by_default, insert, sorted, is_young, ids_by_age, ids_by_count,
  successful, ids, day, keep_ids, is_in, Backup, plan_retention,
}
use frappe_os.Base.{
  All, Bool, Bool-cases, List, Option, [], all, any, any-append, ap, arith, if_either, inl, inr,
  keep_if, length, min, not, refl, some, str_eq, subst, suc, take, true, zero, ℕ, ◌*◌, ◌++◌, ◌+◌,
  ◌<◌, ◌==◌, ◌||◌, ◌∙◌, ◌∷◌, ◌≡◌, ◌≢◌, ◌≤◌,
}

All-keep_if :
    (R Q : Backup → Type 0) (p : Backup → Bool) (xs : List Backup)
    → All R xs
    → ((b : Backup) → R b → p b ≡ true → Q b)
    → All Q (keep_if p xs)
All-keep_if R Q p [] all h = tt
All-keep_if R Q p (x ∷ xs) all h = elim (Bool-cases (p x)) [
  | inl e ↦ rw e (h x all.0 e, All-keep_if R Q p xs all.1 h)
  | inr e ↦ rw e (All-keep_if R Q p xs all.1 h)
]

-- What passes a test is in any list of ids that has the ids of all that pass.
All-is_in :
    (p : Backup → Bool) (kept : List ℕ) (xs : List Backup)
    → ((b : Backup) → is_in (ids (keep_if p xs)) b ≡ true → is_in kept b ≡ true)
    → All (λ b. p b ≡ true → is_in kept b ≡ true) xs
All-is_in p kept [] sub = tt
All-is_in p kept (x ∷ xs) sub =
    (λ passes. sub x (ground arith), All-is_in p kept xs (λ b inside. sub b (ground arith)))

is_in-append :
    (front back : List ℕ) (b : Backup) → is_in (front ++ back) b ≡ (is_in front b || is_in back b)
is_in-append front back b = any-append (λ i. i == b.id) front back

or_assoc : (a b c d : Bool) → (((a || b) || c) || d) ≡ (a || (b || (c || d)))
or_assoc a b c d = ground arith

is_in_parts :
    (a b c d : List ℕ) (x : Backup)
    → is_in (a ++ b ++ c ++ d) x ≡ (is_in a x || (is_in b x || (is_in c x || is_in d x)))
is_in_parts a b c d x =
    is_in-append (a ++ b ++ c) d x
    ∙ ap (λ t. t || is_in d x)
        (is_in-append (a ++ b) c x ∙ ap (λ t. t || is_in c x) (is_in-append a b x))
    ∙ or_assoc (is_in a x) (is_in b x) (is_in c x) (is_in d x)

-- With `keep_days`, every backup that a sweep removes is older than that many days.
pub plan_retention-keep_days :
    (backups : List Backup) (keep_last : Option ℕ) (keep_days now : ℕ)
    → All
        (λ b. b.created_at + keep_days * day < now)
        (plan_retention backups keep_last (some keep_days) now).1
unfolding plan_retention keep_ids
plan_retention-keep_days backups keep_last keep_days now =
    let bs = successful backups in
    let front = ids_by_count keep_last bs in
    let young = ids_by_age (some keep_days) now bs in
    let kept = keep_ids keep_last (some keep_days) now bs in
    All-keep_if (λ b. is_young keep_days now b ≡ true → is_in kept b ≡ true)
      (λ b. b.created_at + keep_days * day < now) (λ b. not (is_in kept b)) bs
      (All-is_in (is_young keep_days now) kept bs (λ b inside.
        rw
          (is_in_parts front young (ids_by_default keep_last (some keep_days) bs) (ids_of_newest bs)
            b)
          (ground (arith, inside))))
      (λ b young_kept gone. ground arith)

-- Newest first.
abbrev Descends : List Backup → Type 0
Descends [] = Unit
Descends (x ∷ xs) = All (λ y. not_after y x ≡ true) xs × Descends xs

not_after_trans :
    (a b c : Backup) → not_after a b ≡ true → not_after b c ≡ true → not_after a c ≡ true
not_after_trans a b c p q = ground arith

All-not_after :
    (b x : Backup) (xs : List Backup)
    → not_after x b ≡ true
    → All (λ y. not_after y x ≡ true) xs
    → All (λ y. not_after y b ≡ true) xs
All-not_after b x [] p all = tt
All-not_after b x (y ∷ xs) p all = (not_after_trans y x b all.0 p, All-not_after b x xs p all.1)

All-insert :
    (P : Backup → Type 0) (b : Backup) (xs : List Backup) → P b → All P xs → All P (insert b xs)
unfolding insert
All-insert P b [] p all = (p, tt)
All-insert P b (x ∷ xs) p all =
    if_either (All P) (not_after x b) (p, all) (all.0, All-insert P b xs p all.1)

insert-Descends : (b : Backup) (xs : List Backup) → Descends xs → Descends (insert b xs)
unfolding insert
insert-Descends b [] d = (tt, tt)
insert-Descends b (x ∷ xs) d = elim (Bool-cases (not_after x b)) [
  | inl e ↦ rw (e, insert) ((e, All-not_after b x xs e d.0), d)
  | inr e ↦
      rw (e, insert)
        (All-insert (λ y. not_after y x ≡ true) b xs (ground arith) d.0, insert-Descends b xs d.1)
]

sorted-Descends : (bs : List Backup) → Descends (sorted bs)
unfolding sorted
sorted-Descends [] = tt
sorted-Descends (b ∷ bs) = insert-Descends b (sorted bs) (sorted-Descends bs)

successful-Descends : (bs : List Backup) → Descends (successful bs)
unfolding successful
successful-Descends bs = sorted-Descends (keep_if (λ b. str_eq b.status "success") bs)

-- Whatever the policy, the newest successful backup is kept, first, and each backup that is removed is
-- another one and no newer.
pub plan_retention-newest :
    (backups : List Backup) (keep_last keep_days : Option ℕ) (now : ℕ) (newest : Backup)
    (rest : List Backup)
    → successful backups ≡ newest ∷ rest
    → ((kept : List Backup) × ((plan_retention backups keep_last keep_days now).0 ≡ newest ∷ kept))
      × All
          (λ b. (not_after b newest ≡ true) × (b.id ≢ newest.id))
          (plan_retention backups keep_last keep_days now).1
unfolding plan_retention keep_ids
plan_retention-newest backups keep_last keep_days now newest rest found =
    let bs = newest ∷ rest in
    let kept = keep_ids keep_last keep_days now bs in
    let held : is_in kept newest ≡ true =
      is_in_parts (ids_by_count keep_last bs) (ids_by_age keep_days now bs)
        (ids_by_default keep_last keep_days bs) (newest.id ∷ []) newest
      ∙ ground arith in
    let order : Descends bs = subst Descends found (successful-Descends backups) in
    rw (found, plan_retention)
      (
        (keep_if (is_in kept) rest, rw held refl),
        All-keep_if (λ b. not_after b newest ≡ true)
            (λ b. (not_after b newest ≡ true) × (b.id ≢ newest.id)) (λ b. not (is_in kept b)) bs
            (ground arith, order.0)
            (λ b older gone. (
              older,
              λ same_id.
                  let still : is_in kept b ≡ true =
                    ap (λ n. any (λ i. i == n) kept) same_id ∙ held in
                  ground (arith, still, gone),
            )),
      )

All-ids :
    (kept : List ℕ) (xs : List Backup)
    → ((b : Backup) → is_in (ids xs) b ≡ true → is_in kept b ≡ true)
    → All (λ b. is_in kept b ≡ true) xs
All-ids kept [] sub = tt
All-ids kept (x ∷ xs) sub =
    (sub x (ground arith), All-ids kept xs (λ b inside. sub b (ground arith)))

min-length :
    (p : Backup → Bool) (n : ℕ) (xs : List Backup)
    → All (λ b. p b ≡ true) (take n xs)
    → min n (length xs) ≤ length (keep_if p xs)
min-length p zero xs all = omega arith
min-length p (suc n) [] all = omega arith
min-length p (suc n) (x ∷ xs) all = ground (arith, min-length p n xs all.1, all.0)

-- With `keep_last`, at least that many successful backups are kept, or all of them if there are fewer.
pub plan_retention-keep_last :
    (backups : List Backup) (keep_last now : ℕ) (keep_days : Option ℕ)
    → min keep_last (length (successful backups))
      ≤ length (plan_retention backups (some keep_last) keep_days now).0
unfolding plan_retention keep_ids
plan_retention-keep_last backups keep_last now keep_days =
    let bs = successful backups in
    let kept = keep_ids (some keep_last) keep_days now bs in
    min-length (is_in kept) keep_last bs (
      All-ids kept (take keep_last bs) (λ b inside.
        is_in_parts (ids_by_count (some keep_last) bs) (ids_by_age keep_days now bs)
          (ids_by_default (some keep_last) keep_days bs) (ids_of_newest bs) b
        ∙ ground (arith, inside)))
