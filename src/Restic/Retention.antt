-- ===== src/Restic/Retention.antt =====
-- `build_forget_keep_args` of backend/app/core/restic.py never asks restic to delete everything.
use frappe_os.Base.{
  All, Bool, List, Option, String, [], arith, if◌then◌else◌, length, length-append, none, refl,
  some, subst, true, ℕ, ◌++◌, ◌+◌, ◌<◌, ◌||◌, ◌↔◌, ◌∷◌, ◌≡◌, ◌≤◌,
}
use frappe_os.Base.Results.{>>=-eq-ok, ok}
use frappe_os.Restic.{
  is_set, keep_arg, refuse_none, retention_configured, ResticRepo, build_forget_keep_args,
}

-- A count of the policy that is given and at least 1.
abbrev pub Counts : Option ℕ → Type 0
Counts none = Unit
Counts (some n) = 1 ≤ n

abbrev pub Positive : ResticRepo → Type 0
Positive repo =
    Counts repo.retention_keep_last
    × Counts repo.retention_keep_daily
    × Counts repo.retention_keep_weekly
    × Counts repo.retention_keep_monthly

-- Every argument keeps at least one snapshot.
abbrev pub KeepsSome : List (String × ℕ) → Type 0
KeepsSome args = (0 < length args) × All (λ arg. 1 ≤ arg.1) args

-- What one dimension of the policy gives.
abbrev args_of : String → Option ℕ → List (String × ℕ)
args_of flag none = []
args_of flag (some n) = (flag, n) ∷ []

keep_arg-ok :
    (flag : String) (o : Option ℕ) (args : List (String × ℕ))
    → keep_arg flag o ≡ ok args
    → Counts o × (args ≡ args_of flag o)
unfolding keep_arg
keep_arg-ok flag none args made = ground arith
keep_arg-ok flag (some n) args made = ground arith

keep_arg-Counts : (flag : String) (o : Option ℕ) → Counts o → keep_arg flag o ≡ ok (args_of flag o)
unfolding keep_arg
keep_arg-Counts flag none c = refl
keep_arg-Counts flag (some n) c = ground arith

abbrev all_args : ResticRepo → List (String × ℕ)
all_args repo =
    args_of "--keep-last" repo.retention_keep_last
    ++ (args_of "--keep-daily" repo.retention_keep_daily
        ++ (args_of "--keep-weekly" repo.retention_keep_weekly
            ++ args_of "--keep-monthly" repo.retention_keep_monthly))

refuse_none-ok :
    (xs args : List (String × ℕ)) → refuse_none xs ≡ ok args → (xs ≡ args) × (0 < length xs)
refuse_none-ok [] args made = cc
refuse_none-ok (x ∷ xs) args made = (cc, omega arith)

made-all_args :
    (repo : ResticRepo) (args : List (String × ℕ))
    → build_forget_keep_args repo ≡ ok args
    → Positive repo × (all_args repo ≡ args) × (0 < length (all_args repo))
unfolding build_forget_keep_args
made-all_args repo args made =
    let (a, ea, ra) = >>=-eq-ok (keep_arg "--keep-last" repo.retention_keep_last) _ made in
    let (b, eb, rb) = >>=-eq-ok (keep_arg "--keep-daily" repo.retention_keep_daily) _ ra in
    let (c, ec, rc) = >>=-eq-ok (keep_arg "--keep-weekly" repo.retention_keep_weekly) _ rb in
    let (d, ed, rd) = >>=-eq-ok (keep_arg "--keep-monthly" repo.retention_keep_monthly) _ rc in
    let fa = keep_arg-ok "--keep-last" repo.retention_keep_last a ea in
    let fb = keep_arg-ok "--keep-daily" repo.retention_keep_daily b eb in
    let fc = keep_arg-ok "--keep-weekly" repo.retention_keep_weekly c ec in
    let fd = keep_arg-ok "--keep-monthly" repo.retention_keep_monthly d ed in
    let last = refuse_none-ok (a ++ (b ++ (c ++ d))) args rd in
    (
      (fa.0, fb.0, fc.0, fd.0),
      rw (← fa.1, ← fb.1, ← fc.1, ← fd.1) last.0,
      rw (← fa.1, ← fb.1, ← fc.1, ← fd.1) last.1,
    )

length-args_of :
    (flag : String) (o : Option ℕ) → length (args_of flag o) ≡ (if is_set o then 1 else 0)
length-args_of flag none = refl
length-args_of flag (some n) = refl

length-all_args :
    (repo : ResticRepo)
    → length (all_args repo)
      ≡ (if is_set repo.retention_keep_last then 1 else 0)
        + ((if is_set repo.retention_keep_daily then 1 else 0)
            + ((if is_set repo.retention_keep_weekly then 1 else 0)
                + (if is_set repo.retention_keep_monthly then 1 else 0)))
length-all_args repo = simp (length-append, length-args_of)

configured-length :
    (repo : ResticRepo) → (retention_configured repo ≡ true) ↔ (0 < length (all_args repo))
unfolding retention_configured
configured-length repo = rw (length-all_args repo) (
    sets (is_set repo.retention_keep_last) (is_set repo.retention_keep_daily)
      (is_set repo.retention_keep_weekly) (is_set repo.retention_keep_monthly))
  where
    sets :
        (a b c d : Bool)
        → ((a || b || c || d) ≡ true) ↔ (
            0
            < (if a then 1 else 0)
              + ((if b then 1 else 0) + ((if c then 1 else 0) + (if d then 1 else 0))))
    sets a b c d = ground arith

refuse_none-some : (xs : List (String × ℕ)) → 0 < length xs → refuse_none xs ≡ ok xs
refuse_none-some [] h = elim h [ ]
refuse_none-some (x ∷ xs) h = refl

All-append :
    (P : String × ℕ → Type 0) (xs ys : List (String × ℕ)) → All P xs → All P ys → All P (xs ++ ys)
All-append P [] ys h k = k
All-append P (x ∷ xs) ys h k = (h.0, All-append P xs ys h.1 k)

Counts-args_of : (flag : String) (o : Option ℕ) → Counts o → All (λ arg. 1 ≤ arg.1) (args_of flag o)
Counts-args_of flag none c = tt
Counts-args_of flag (some n) c = (c, tt)

-- The arguments for a sweep are made exactly if some dimension of the policy is set and each that is
-- set is at least 1.
pub build_forget_keep_args-Positive :
    (repo : ResticRepo)
    → ((args : List (String × ℕ)) × (build_forget_keep_args repo ≡ ok args))
      ↔ ((retention_configured repo ≡ true) × Positive repo)
unfolding build_forget_keep_args retention_configured
build_forget_keep_args-Positive repo = (
  λ (args, made). (
    (configured-length repo).1 (made-all_args repo args made).2,
    (made-all_args repo args made).0,
  ),
  λ (configured, positive). (
    all_args repo,
    rw
        (
          keep_arg-Counts "--keep-last" repo.retention_keep_last positive.0,
          keep_arg-Counts "--keep-daily" repo.retention_keep_daily positive.1,
          keep_arg-Counts "--keep-weekly" repo.retention_keep_weekly positive.2,
          keep_arg-Counts "--keep-monthly" repo.retention_keep_monthly positive.3,
          build_forget_keep_args,
        )
        (refuse_none-some (all_args repo) ((configured-length repo).0 configured)),
  ),
)

-- When they are made there is at least one, and each keeps at least one snapshot.
pub build_forget_keep_args-KeepsSome :
    (repo : ResticRepo) (args : List (String × ℕ))
    → build_forget_keep_args repo ≡ ok args
    → KeepsSome args
unfolding build_forget_keep_args
build_forget_keep_args-KeepsSome repo args made =
    let (p, e, n) = made-all_args repo args made in
    let P : String × ℕ → Type 0 = λ arg. 1 ≤ arg.1 in
    subst KeepsSome e (
      n,
      All-append P _ _ (Counts-args_of "--keep-last" repo.retention_keep_last p.0) (
          All-append P _ _ (Counts-args_of "--keep-daily" repo.retention_keep_daily p.1) (
            All-append P _ _ (Counts-args_of "--keep-weekly" repo.retention_keep_weekly p.2)
              (Counts-args_of "--keep-monthly" repo.retention_keep_monthly p.3))),
    )
