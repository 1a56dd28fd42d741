-- ===== src/Throttle/Eviction.antt =====
-- The eviction of backend/app/core/ratelimit.py drops no lock that is still active.
use frappe_os.Throttle.{
  count_failure, wait, register_failure, register_success, email_key, key, evict,
  email_entry_or_new, keep_fresh_email, entry_or_new, email_lock, failed_email, retry_after,
  failed_entry, keep_fresh, pair_lock, Entry, EmailEntry, LoginThrottle,
}
use frappe_os.Base.{
  if_either, Bool-cases, Option, arith, inl, inr, ltb, max, none, refl, some, ℕ, ◌*◌, ◌+◌, ◌≡◌, ◌≤◌,
  ◌⊎◌,
}
use frappe_os.Base.Text.{Str, same}

-- A lock lasts at most the lockout from the last failure seen, and nothing was seen after `now`.
abbrev pub EntryOk : LoginThrottle → ℕ → Option Entry → Type 0
EntryOk th now none = Unit
EntryOk th now (some e) = (e.last_seen ≤ now) × (e.locked_until ≤ e.last_seen + th.lockout)

abbrev pub EmailOk : LoginThrottle → ℕ → Option EmailEntry → Type 0
EmailOk th now none = Unit
EmailOk th now (some e) = (e.last_seen ≤ now) × (e.locked_until ≤ e.last_seen + th.lockout)

pub record Timely (th : LoginThrottle) (now : ℕ) : Type 0 where
  pub pairs : (k : Str) → EntryOk th now (th.entries k)
  pub emails : (k : Str) → EmailOk th now (th.email_entries k)

-- A lock after an eviction at `now`, seen at `at` or later: as it was, or both are over.
pair_lock-keep_fresh :
    (th : LoginThrottle) (seen now at : ℕ) (o : Option Entry)
    → EntryOk th seen o
    → now ≤ at
    → (pair_lock (keep_fresh (th.lockout * 2) now o) ≡ pair_lock o)
      ⊎ ((pair_lock (keep_fresh (th.lockout * 2) now o) ≡ 0) × (pair_lock o ≤ at))
pair_lock-keep_fresh th seen now at none timely le = inl refl
pair_lock-keep_fresh th seen now at (some e) timely le =
    elim (Bool-cases (ltb (e.last_seen + th.lockout * 2) now)) [
      | inl q ↦ inr (ground arith, ground arith)
      | inr q ↦ inl (ground arith)
    ]

email_lock-keep_fresh :
    (th : LoginThrottle) (seen now at : ℕ) (o : Option EmailEntry)
    → EmailOk th seen o
    → now ≤ at
    → let age = max th.email_window th.lockout * 2 in
      (email_lock (keep_fresh_email age now o) ≡ email_lock o)
      ⊎ ((email_lock (keep_fresh_email age now o) ≡ 0) × (email_lock o ≤ at))
email_lock-keep_fresh th seen now at none timely le = inl refl
email_lock-keep_fresh th seen now at (some e) timely le =
    elim (Bool-cases (ltb (e.last_seen + max th.email_window th.lockout * 2) now)) [
      | inl q ↦ inr (ground arith, ground arith)
      | inr q ↦ inl (ground arith)
    ]

wait-max :
    (p p' q q' at : ℕ)
    → (p' ≡ p) ⊎ ((p' ≡ 0) × (p ≤ at))
    → (q' ≡ q) ⊎ ((q' ≡ 0) × (q ≤ at))
    → wait at (max p' q') ≡ wait at (max p q)
wait-max p p' q q' at (inl a) (inl b) = rw (a, b) refl
wait-max p p' q q' at (inl a) (inr b) = ground arith
wait-max p p' q q' at (inr a) (inl b) = ground arith
wait-max p p' q q' at (inr a) (inr b) = ground arith

-- The eviction that a failure at `now` starts with changes no answer from then on: no pair and no
-- address that is still locked is forgotten, and none becomes locked.
pub retry_after-evict :
    (th : LoginThrottle) (seen now at : ℕ) (email ip : Str)
    → Timely th seen
    → seen ≤ now
    → now ≤ at
    → retry_after at (evict now th) email ip ≡ retry_after at th email ip
unfolding retry_after evict
retry_after-evict th seen now at email ip timely before le =
    wait-max (pair_lock (th.entries (key th email ip)))
      (pair_lock (keep_fresh (th.lockout * 2) now (th.entries (key th email ip))))
      (email_lock (th.email_entries (email_key th email)))
      (email_lock (
        keep_fresh_email (max th.email_window th.lockout * 2) now
          (th.email_entries (email_key th email))))
      at
      (pair_lock-keep_fresh th seen now at (th.entries (key th email ip))
        (timely.pairs (key th email ip)) le)
      (email_lock-keep_fresh th seen now at (th.email_entries (email_key th email))
        (timely.emails (email_key th email)) le)

pub failed_entry-Ok :
    (th : LoginThrottle) (seen now : ℕ) (o : Option Entry)
    → EntryOk th seen o
    → seen ≤ now
    → EntryOk th now (some (failed_entry th now (entry_or_new o)))
      × (pair_lock o ≤ (failed_entry th now (entry_or_new o)).locked_until)
unfolding failed_entry
failed_entry-Ok th seen now none timely le = ground arith
failed_entry-Ok th seen now (some e) timely le = ground arith

pub failed_email-Ok :
    (th : LoginThrottle) (seen now : ℕ) (o : Option EmailEntry)
    → EmailOk th seen o
    → seen ≤ now
    → EmailOk th now (some (failed_email th now (email_entry_or_new o)))
      × (email_lock o ≤ (failed_email th now (email_entry_or_new o)).locked_until)
unfolding failed_email
failed_email-Ok th seen now none timely le = ground arith
failed_email-Ok th seen now (some e) timely le = ground arith

keep_fresh-Ok :
    (th : LoginThrottle) (seen now age : ℕ) (o : Option Entry)
    → EntryOk th seen o
    → seen ≤ now
    → EntryOk th now (keep_fresh age now o)
keep_fresh-Ok th seen now age none timely le = tt
keep_fresh-Ok th seen now age (some e) timely le =
    if_either (EntryOk th now) (ltb (e.last_seen + age) now) tt (ground arith)

keep_fresh_email-Ok :
    (th : LoginThrottle) (seen now age : ℕ) (o : Option EmailEntry)
    → EmailOk th seen o
    → seen ≤ now
    → EmailOk th now (keep_fresh_email age now o)
keep_fresh_email-Ok th seen now age none timely le = tt
keep_fresh_email-Ok th seen now age (some e) timely le =
    if_either (EmailOk th now) (ltb (e.last_seen + age) now) tt (ground arith)

pub evict-Timely :
    (th : LoginThrottle) (seen now : ℕ) → Timely th seen → seen ≤ now → Timely (evict now th) now
unfolding evict
evict-Timely th seen now timely le = record {
  pairs = λ k. keep_fresh-Ok th seen now (th.lockout * 2) (th.entries k) (timely.pairs k) le;
  emails = λ k.
      keep_fresh_email-Ok th seen now (max th.email_window th.lockout * 2) (th.email_entries k)
        (timely.emails k) le;
}

count_failure-Timely :
    (th : LoginThrottle) (now : ℕ) (email ip : Str)
    → Timely th now
    → Timely (count_failure now email ip th) now
unfolding count_failure
count_failure-Timely th now email ip timely = record {
  pairs = λ k.
      if_either (EntryOk th now) (same k (key th email ip))
        ((failed_entry-Ok th now now (th.entries k) (timely.pairs k) (omega arith)).0)
        (timely.pairs k);
  emails = λ k.
      if_either (EmailOk th now) (same k (email_key th email))
        ((failed_email-Ok th now now (th.email_entries k) (timely.emails k) (omega arith)).0)
        (timely.emails k);
}

-- On a clock that does not go back, a failure keeps every lock bounded by the lockout.
pub register_failure-Timely :
    (th : LoginThrottle) (seen now : ℕ) (email ip : Str)
    → Timely th seen
    → seen ≤ now
    → Timely (register_failure now email ip th) now
unfolding register_failure
register_failure-Timely th seen now email ip timely le =
    count_failure-Timely (evict now th) now email ip (evict-Timely th seen now timely le)

-- So does a success.
pub register_success-Timely :
    (th : LoginThrottle) (seen : ℕ) (email ip : Str)
    → Timely th seen
    → Timely (register_success email ip th) seen
unfolding register_success
register_success-Timely th seen email ip timely = record {
  pairs = λ k. if_either (EntryOk th seen) (same k (key th email ip)) tt (timely.pairs k);
  emails = λ k. if_either (EmailOk th seen) (same k (email_key th email)) tt (timely.emails k);
}
