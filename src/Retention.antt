-- ===== src/Retention.antt =====
-- `plan_retention` of backend/app/core/backups.py: which backups of a site a sweep keeps. An instant is
-- a number of microseconds; where the source subtracts days from the clock, the model adds them on the
-- other side. A negative `keep_last`, which the source takes for 0, is 0 here.
pub mod Floor
mod Examples
use frappe_os.Base.{
  Bool, List, Option, String, [], any, if◌then◌else◌, keep_if, leb, ltb, map, none, not, some,
  str_eq, take, ℕ, ◌&&◌, ◌*◌, ◌++◌, ◌+◌, ◌==◌, ◌||◌, ◌∷◌,
}

-- The columns of `Backup` that the plan reads.
pub record Backup : Type 0 where
  pub id : ℕ
  pub status : String
  pub created_at : ℕ

abbrev pub day : ℕ
day = 86400000000

-- The key of `a` is at most the key of `b`.
abbrev pub not_after : Backup → Backup → Bool
not_after a b = ltb a.created_at b.created_at || ((a.created_at == b.created_at) && leb a.id b.id)

-- `sorted` with `reverse=True`; backups with one key keep their order.
unfoldable pub insert : Backup → List Backup → List Backup
insert b [] = b ∷ []
insert b (x ∷ xs) = let rest = insert b xs in if not_after x b then b ∷ (x ∷ xs) else x ∷ rest

unfoldable pub sorted : List Backup → List Backup
unfolding insert
sorted [] = []
sorted (b ∷ bs) = insert b (sorted bs)

unfoldable pub successful : List Backup → List Backup
unfolding sorted
successful backups = sorted (keep_if (λ b. str_eq b.status "success") backups)

abbrev pub is_young : ℕ → ℕ → Backup → Bool
is_young keep_days now b = leb now (b.created_at + keep_days * day)

abbrev pub ids : List Backup → List ℕ
ids bs = map (λ b. b.id) bs

abbrev pub ids_by_count : Option ℕ → List Backup → List ℕ
ids_by_count none bs = []
ids_by_count (some keep_last) bs = ids (take keep_last bs)

abbrev pub ids_by_age : Option ℕ → ℕ → List Backup → List ℕ
ids_by_age none now bs = []
ids_by_age (some keep_days) now bs = ids (keep_if (is_young keep_days now) bs)

abbrev pub ids_by_default : Option ℕ → Option ℕ → List Backup → List ℕ
ids_by_default none none bs = ids bs
ids_by_default keep_last keep_days bs = []

abbrev pub ids_of_newest : List Backup → List ℕ
ids_of_newest [] = []
ids_of_newest (b ∷ bs) = b.id ∷ []

-- `keep_ids`
unfoldable pub keep_ids : Option ℕ → Option ℕ → ℕ → List Backup → List ℕ
keep_ids keep_last keep_days now bs =
    ids_by_count keep_last bs
    ++ ids_by_age keep_days now bs
    ++ ids_by_default keep_last keep_days bs
    ++ ids_of_newest bs

abbrev pub is_in : List ℕ → Backup → Bool
is_in kept b = any (λ i. i == b.id) kept

-- plan_retention: what is kept, and what is removed.
unfoldable pub plan_retention : List Backup → Option ℕ → Option ℕ → ℕ → List Backup × List Backup
unfolding successful keep_ids
plan_retention backups keep_last keep_days now =
    let bs = successful backups in
    let kept = keep_ids keep_last keep_days now bs in
    (keep_if (is_in kept) bs, keep_if (λ b. not (is_in kept b)) bs)
