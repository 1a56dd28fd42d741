-- ===== src/Compliance/Order.antt =====
-- The order of the backups in `_successful_backups` of backend/app/core/compliance.py.
use frappe_os.Base.{
  All, All-map, Bool, Bool-cases, List, Option-cases, [], any, ap, arith, if_either, if◌then◌else◌,
  inl, inr, leb, leb→le, none, refl, some, subst, sym, true, ◌||◌, ◌∙◌, ◌∷◌, ◌≡◌, ◌≢◌, ◌≤◌,
}
use frappe_os.Compliance.{newest_of, oldest_of, StoredBackup, newest_first, insert_newest}

module _ (p : StoredBackup → Bool) where
  any-insert_newest :
      (b : StoredBackup) (xs : List StoredBackup) → any p (insert_newest b xs) ≡ (p b || any p xs)
  unfolding insert_newest
  any-insert_newest b [] = refl
  any-insert_newest b (x ∷ xs) = ground (arith, any-insert_newest b xs)

  pub any-newest_first : (xs : List StoredBackup) → any p (newest_first xs) ≡ any p xs
  unfolding newest_first
  any-newest_first [] = refl
  any-newest_first (b ∷ bs) =
      any-insert_newest b (newest_first bs) ∙ ap (λ t. p b || t) (any-newest_first bs)

module _ (Q : StoredBackup → Type 0) where
  All-insert_newest :
      (b : StoredBackup) (xs : List StoredBackup) → Q b → All Q xs → All Q (insert_newest b xs)
  unfolding insert_newest
  All-insert_newest b [] q h = (q, tt)
  All-insert_newest b (x ∷ xs) q h =
      if_either (All Q) (leb x.created_at b.created_at) (q, h) (h.0, All-insert_newest b xs q h.1)

  All-inserted :
      (b : StoredBackup) (xs : List StoredBackup) → All Q (insert_newest b xs) → Q b × All Q xs
  unfolding insert_newest
  All-inserted b [] h = h
  All-inserted b (x ∷ xs) h = elim (Bool-cases (leb x.created_at b.created_at)) [
    | inl e ↦
        (let k : All Q (b ∷ (x ∷ xs)) =
            subst (λ t. All Q (if t then b ∷ (x ∷ xs) else x ∷ insert_newest b xs)) e h in
          k)
    | inr e ↦
        let k : All Q (x ∷ insert_newest b xs) =
          subst (λ t. All Q (if t then b ∷ (x ∷ xs) else x ∷ insert_newest b xs)) e h in
        let (qb, qs) = All-inserted b xs k.1 in (qb, (k.0, qs))
  ]

  pub All-sorted : (xs : List StoredBackup) → All Q (newest_first xs) → All Q xs
  unfolding newest_first
  All-sorted [] h = tt
  All-sorted (b ∷ bs) h =
      let (q, rest) = All-inserted b (newest_first bs) h in (q, All-sorted bs rest)

  oldest_of-All :
      (b : StoredBackup) (bs : List StoredBackup) (o : StoredBackup)
      → All Q (b ∷ bs)
      → oldest_of (b ∷ bs) ≡ some o
      → Q o
  oldest_of-All b [] o h e = (let it : b ≡ o = cc in subst Q it h.0)
  oldest_of-All b (c ∷ bs) o h e = oldest_of-All c bs o h.1 e

abbrev pub Older : StoredBackup → StoredBackup → Type 0
Older b c = c.created_at ≤ b.created_at

-- From the newest to the oldest.
abbrev pub Descending : List StoredBackup → Type 0
Descending [] = Unit
Descending (b ∷ bs) = All (Older b) bs × Descending bs

insert_newest-Descending :
    (b : StoredBackup) (xs : List StoredBackup) → Descending xs → Descending (insert_newest b xs)
unfolding insert_newest
insert_newest-Descending b [] h = (tt, tt)
insert_newest-Descending b (x ∷ xs) h = elim (Bool-cases (leb x.created_at b.created_at)) [
  | inl e ↦
      let order = leb→le x.created_at b.created_at e in
      rw e ((order, All-map (Older x) (Older b) (λ c older. omega (arith, order, older)) xs h.0), h)
  | inr e ↦
      let order : b.created_at ≤ x.created_at = ground arith in
      rw e (All-insert_newest (Older x) b xs order h.0, insert_newest-Descending b xs h.1)
]

pub newest_first-Descending : (xs : List StoredBackup) → Descending (newest_first xs)
unfolding newest_first
newest_first-Descending [] = tt
newest_first-Descending (b ∷ bs) =
    insert_newest-Descending b (newest_first bs) (newest_first-Descending bs)

oldest_of-some : (x : StoredBackup) (xs : List StoredBackup) → oldest_of (x ∷ xs) ≢ none
oldest_of-some x [] e = ground arith
oldest_of-some x (y ∷ xs) e = oldest_of-some y xs e

-- What holds of the older one if it holds of the newer one holds of some row if and only if it holds
-- of the oldest.
pub any-oldest_of :
    (p : StoredBackup → Bool)
    → ((b c : StoredBackup) → Older b c → p b ≡ true → p c ≡ true)
    → (b : StoredBackup) (bs : List StoredBackup) (o : StoredBackup) → Descending (b ∷ bs)
    → oldest_of (b ∷ bs) ≡ some o
    → any p (b ∷ bs) ≡ p o
any-oldest_of p down b [] o h e = (let it : b ≡ o = cc in rw it (ground arith))
any-oldest_of p down b (c ∷ bs) o h e =
    let rest = any-oldest_of p down c bs o h.1 e in
    let step = down b o (oldest_of-All (Older b) c bs o h.0 e) in
    (ap (λ t. p b || t) rest
      ∙ elim (Bool-cases (p b)) [ inl f ↦ rw f (sym (step f)) | inr f ↦ rw f refl ])

pub newest_of-Older :
    (xs : List StoredBackup) (b : StoredBackup)
    → Descending xs
    → newest_of xs ≡ some b
    → All (Older b) xs
newest_of-Older [] b h e = tt
newest_of-Older (x ∷ xs) b h e =
    (let it : x ≡ b = cc in subst (λ y. All (Older y) (x ∷ xs)) it ((omega arith), h.0))

pub oldest_of-any :
    (p : StoredBackup → Bool)
    → ((b c : StoredBackup) → Older b c → p b ≡ true → p c ≡ true)
    → (xs : List StoredBackup) (b : StoredBackup) → Descending xs
    → newest_of xs ≡ some b
    → (o : StoredBackup) × (oldest_of xs ≡ some o) × (any p xs ≡ p o)
oldest_of-any p down [] b h e = ground arith
oldest_of-any p down (x ∷ xs) b h e = elim (Option-cases (oldest_of (x ∷ xs))) [
  | inl f ↦ elim (oldest_of-some x xs f) [ ]
  | inr (o, f) ↦ (o, f, any-oldest_of p down x xs o h f)
]
