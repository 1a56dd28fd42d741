-- ===== src/Throttle.antt =====
-- `LoginThrottle` of backend/app/core/ratelimit.py. An instant is a number of microseconds; the
-- dictionaries are functions of the key. Where the source subtracts from the clock, the model adds on
-- the other side of the comparison, since instants do not go below 0.
pub mod Eviction
pub mod Lockout
mod Examples
use frappe_os.Base.{
  List, Option, [], if◌then◌else◌, leb, length, ltb, max, none, not, some, ℕ, ◌*◌, ◌++◌, ◌+◌, ◌-◌,
  ◌/◌, ◌∷◌,
}
use frappe_os.Base.Text.{Str, has, same}

abbrev pub second : ℕ
second = 1000000

-- _Entry
pub record Entry : Type 0 where
  pub failures : ℕ
  pub locked_until : ℕ
  pub last_seen : ℕ

-- _EmailEntry
pub record EmailEntry : Type 0 where
  pub failure_times : List ℕ
  pub locked_until : ℕ
  pub last_seen : ℕ

-- The arguments of the constructor, times in microseconds, and the two dictionaries. `normalize` is
-- `email.strip().lower()`, the library's.
pub record LoginThrottle : Type 0 where
  pub threshold : ℕ
  pub lockout : ℕ
  pub email_failure_limit : ℕ
  pub email_window : ℕ
  pub normalize : Str → Str
  pub entries : Str → Option Entry
  pub email_entries : Str → Option EmailEntry

-- _key: the character between is `|`
abbrev pub key : LoginThrottle → Str → Str → Str
key th email ip = th.normalize email ++ 124 ∷ ip

abbrev pub email_key : LoginThrottle → Str → Str
email_key th email = th.normalize email

abbrev pub pair_lock : Option Entry → ℕ
pair_lock none = 0
pair_lock (some e) = e.locked_until

abbrev pub email_lock : Option EmailEntry → ℕ
email_lock none = 0
email_lock (some e) = e.locked_until

abbrev pub locked_until : LoginThrottle → Str → Str → ℕ
locked_until th email ip =
    max (pair_lock (th.entries (key th email ip)))
      (email_lock (th.email_entries (email_key th email)))

-- Whole seconds from `now` until a lock ends, at least 1; 0 if it has ended.
abbrev pub wait : ℕ → ℕ → ℕ
wait now until = if leb until now then 0 else max 1 ((until - now) / second)

-- LoginThrottle.retry_after
unfoldable pub retry_after : ℕ → LoginThrottle → Str → Str → ℕ
retry_after now th email ip = wait now (locked_until th email ip)

abbrev pub entry_or_new : Option Entry → Entry
entry_or_new none = record { failures = 0; locked_until = 0; last_seen = 0 }
entry_or_new (some e) = e

abbrev pub email_entry_or_new : Option EmailEntry → EmailEntry
email_entry_or_new none = record { failure_times = []; locked_until = 0; last_seen = 0 }
email_entry_or_new (some e) = e

abbrev pub keep_fresh : ℕ → ℕ → Option Entry → Option Entry
keep_fresh age now none = none
keep_fresh age now (some e) = if ltb (e.last_seen + age) now then none else some e

abbrev pub keep_fresh_email : ℕ → ℕ → Option EmailEntry → Option EmailEntry
keep_fresh_email age now none = none
keep_fresh_email age now (some e) = if ltb (e.last_seen + age) now then none else some e

-- LoginThrottle._evict
unfoldable pub evict : ℕ → LoginThrottle → LoginThrottle
evict now th = record th {
  entries = λ k. keep_fresh (th.lockout * 2) now (th.entries k);
  email_entries =
      λ k. keep_fresh_email (max th.email_window th.lockout * 2) now (th.email_entries k);
}

-- One more failure of a pair.
unfoldable pub failed_entry : LoginThrottle → ℕ → Entry → Entry
failed_entry th now e =
    if leb th.threshold (e.failures + 1)
    then record { failures = 0; locked_until = now + th.lockout; last_seen = now }
    else record { failures = e.failures + 1; locked_until = e.locked_until; last_seen = now }

-- The times before the horizon are dropped from the front.
unfoldable pub drop_old : ℕ → ℕ → List ℕ → List ℕ
drop_old window now [] = []
drop_old window now (t ∷ ts) =
    let rest = drop_old window now ts in if ltb (t + window) now then rest else t ∷ ts

-- One more failure of an email address.
unfoldable pub failed_email : LoginThrottle → ℕ → EmailEntry → EmailEntry
unfolding drop_old
failed_email th now e =
    let times = drop_old th.email_window now (e.failure_times ++ now ∷ []) in
    record {
      failure_times = times;
      locked_until =
          if leb th.email_failure_limit (length times) then now + th.lockout else e.locked_until;
      last_seen = now;
    }

-- The part of `register_failure` after the eviction.
unfoldable pub count_failure : ℕ → Str → Str → LoginThrottle → LoginThrottle
unfolding failed_entry failed_email
count_failure now email ip th = record th {
  entries = λ k.
      if same k (key th email ip)
      then some (failed_entry th now (entry_or_new (th.entries k)))
      else th.entries k;
  email_entries = λ k.
      if same k (email_key th email)
      then some (failed_email th now (email_entry_or_new (th.email_entries k)))
      else th.email_entries k;
}

-- LoginThrottle.register_failure
unfoldable pub register_failure : ℕ → Str → Str → LoginThrottle → LoginThrottle
unfolding evict count_failure
register_failure now email ip th = count_failure now email ip (evict now th)

-- LoginThrottle.register_success
unfoldable pub register_success : Str → Str → LoginThrottle → LoginThrottle
register_success email ip th = record th {
  entries = λ k. if same k (key th email ip) then none else th.entries k;
  email_entries = λ k. if same k (email_key th email) then none else th.email_entries k;
}
