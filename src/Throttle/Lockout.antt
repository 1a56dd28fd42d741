-- ===== src/Throttle/Lockout.antt =====
-- The lockout of backend/app/core/ratelimit.py: when it sets in, and that only a success lifts it early.
use frappe_os.Throttle.Eviction.{
  failed_email-Ok, failed_entry-Ok, evict-Timely, retry_after-evict, Timely,
}
use frappe_os.Throttle.{
  failed_entry, wait, Entry, email_lock, pair_lock, email_key, key, evict, locked_until,
  retry_after, register_failure, count_failure, LoginThrottle,
}
use frappe_os.Base.{
  ◌≢◌, length, List, [], arith, if_either, max, none, some, subst, ℕ, ◌*◌, ◌+◌, ◌<◌, ◌∷◌, ◌≡◌, ◌≤◌,
  ◌⊎◌,
}
use frappe_os.Base.Text.{Str, same, same_refl}

le_self : (n : ℕ) → n ≤ n
le_self n = omega arith

le_max : {a b c d : ℕ} → a ≤ c → b ≤ d → max a b ≤ max c d
le_max p q = omega arith

locked-count_failure :
    (th : LoginThrottle) (now : ℕ) (email ip email' ip' : Str)
    → Timely th now
    → locked_until th email ip ≤ locked_until (count_failure now email' ip' th) email ip
unfolding count_failure
locked-count_failure th now email ip email' ip' timely =
    let k = key th email ip in
    let l = email_key th email in
    let v = count_failure now email' ip' th in
    let a : pair_lock (th.entries k) ≤ pair_lock (v.entries k) =
      if_either (λ o. pair_lock (th.entries k) ≤ pair_lock o) (same k (key th email' ip'))
        (failed_entry-Ok th now now (th.entries k) (timely.pairs k) (omega arith)).1
        (le_self (pair_lock (th.entries k))) in
    let b : email_lock (th.email_entries l) ≤ email_lock (v.email_entries l) =
      if_either (λ o. email_lock (th.email_entries l) ≤ email_lock o) (same l (email_key th email'))
        (failed_email-Ok th now now (th.email_entries l) (timely.emails l) (omega arith)).1
        (le_self (email_lock (th.email_entries l))) in
    le_max a b

wait_mono : (at p q : ℕ) → p ≤ q → wait at p ≤ wait at q
wait_mono at p q le = ground arith

-- A failure, whoever's, lifts no lock: who had to wait at `at` still has to, at the least as long.
pub retry_after-register_failure :
    (th : LoginThrottle) (seen now at : ℕ) (email ip email' ip' : Str)
    → Timely th seen
    → seen ≤ now
    → now ≤ at
    → retry_after at th email ip ≤ retry_after at (register_failure now email' ip' th) email ip
unfolding register_failure retry_after
retry_after-register_failure th seen now at email ip email' ip' timely before le =
    subst (λ n. n ≤ retry_after at (register_failure now email' ip' th) email ip)
      (retry_after-evict th seen now at email ip timely before le)
      (wait_mono at (locked_until (evict now th) email ip)
        (locked_until (register_failure now email' ip' th) email ip)
        (locked-count_failure (evict now th) now email ip email' ip'
          (evict-Timely th seen now timely before)))

-- The failures of one pair at the instants of a list.
abbrev pub failures_at : List ℕ → Str → Str → LoginThrottle → LoginThrottle
failures_at [] email ip th = th
failures_at (t ∷ ts) email ip th = failures_at ts email ip (register_failure t email ip th)

-- The instants follow `seen` in order, none more than two lockouts after the one before.
abbrev pub Steady : ℕ → ℕ → List ℕ → Type 0
Steady gap seen [] = Unit
Steady gap seen (t ∷ ts) = (seen ≤ t) × (t ≤ seen + gap) × Steady gap t ts

abbrev pub last_of : ℕ → List ℕ → ℕ
last_of seen [] = seen
last_of seen (t ∷ ts) = last_of t ts

-- The pair has failed `count` times, the last time at `seen`, since its last success or lock.
abbrev pub Counted : LoginThrottle → Str → Str → ℕ → ℕ → Type 0
Counted th email ip count seen =
    ((count ≡ 0) × (th.entries (key th email ip) ≡ none))
    ⊎ ((e : Entry) × (th.entries (key th email ip) ≡ some e)
        × (e.failures ≡ count)
        × (e.last_seen ≡ seen))

register_failure-Counted :
    (th : LoginThrottle) (now seen count : ℕ) (email ip : Str)
    → Counted th email ip count seen
    → now ≤ seen + th.lockout * 2
    → count + 1 < th.threshold
    → Counted (register_failure now email ip th) email ip (count + 1) now
unfolding register_failure evict count_failure failed_entry
register_failure-Counted th now seen count email ip counted soon few =
    ground (arith, same_refl (key th email ip))

register_failure-locks :
    (th : LoginThrottle) (now seen count : ℕ) (email ip : Str)
    → Counted th email ip count seen
    → now ≤ seen + th.lockout * 2
    → th.threshold ≤ count + 1
    → pair_lock ((register_failure now email ip th).entries (key th email ip)) ≡ now + th.lockout
unfolding register_failure evict count_failure failed_entry
register_failure-locks th now seen count email ip counted soon enough =
    ground (arith, same_refl (key th email ip))

wait-locked : (at p q : ℕ) → at < p → wait at (max p q) ≢ 0
wait-locked at p q h = ground arith

-- From a pair that failed `count` times, further failures of the pair up to the threshold, none more
-- than two lockouts after the one before, lock it: it has to wait right after the last of them.
pub failures_at-retry_after :
    (ts : List ℕ) (th : LoginThrottle) (seen count : ℕ) (email ip : Str)
    → Counted th email ip count seen
    → Steady (th.lockout * 2) seen ts
    → count + length ts ≡ th.threshold
    → 0 < length ts
    → 0 < th.lockout
    → retry_after (last_of seen ts) (failures_at ts email ip th) email ip ≢ 0
unfolding retry_after register_failure count_failure evict
failures_at-retry_after [] th seen count email ip counted steady total some_left long = ground arith
failures_at-retry_after (t ∷ []) th seen count email ip counted steady total some_left long =
    wait-locked t (pair_lock ((register_failure t email ip th).entries (key th email ip)))
      (email_lock ((register_failure t email ip th).email_entries (email_key th email)))
      (omega (
        arith,
        long,
        register_failure-locks th t seen count email ip counted steady.1 (omega (arith, total)),
      ))
failures_at-retry_after (t ∷ (u ∷ ts)) th seen count email ip counted steady total some_left long =
    failures_at-retry_after (u ∷ ts) (register_failure t email ip th) t (count + 1) email ip
      (register_failure-Counted th t seen count email ip counted steady.1 (omega (arith, total)))
      steady.2 (omega (arith, total)) (omega arith) long
