-- ===== src/Throttle/Examples.antt =====
-- A throttle that locks at the third failure for ten minutes.
use frappe_os.Throttle.Lockout.{retry_after-register_failure, failures_at, failures_at-retry_after}
use frappe_os.Throttle.{evict, register_failure, second, retry_after, LoginThrottle}
use frappe_os.Throttle.Eviction.{retry_after-evict, register_failure-Timely, Timely}
use frappe_os.Base.{[], arith, inl, none, refl, ◌*◌, ◌∷◌, ◌≡◌, ◌≢◌, ◌≤◌}
use frappe_os.Base.Text.{Str, codes}

abbrev throttle : LoginThrottle
throttle = record {
  threshold = 3;
  lockout = 600 * second;
  email_failure_limit = 20;
  email_window = 3600 * second;
  normalize = λ email. email;
  entries = λ k. none;
  email_entries = λ k. none;
}

abbrev email : Str
email = codes "ann@example.org"

abbrev ip : Str
ip = codes "10.0.0.7"

throttle-Timely : Timely throttle 0
throttle-Timely = record { pairs = λ k. tt; emails = λ k. tt }

-- Three wrong passwords within two seconds.
abbrev locked_throttle : LoginThrottle
locked_throttle = failures_at (5000000 ∷ 6000000 ∷ 7000000 ∷ []) email ip throttle

failures_at-retry_after_example : retry_after 7000000 locked_throttle email ip ≢ 0
failures_at-retry_after_example =
    failures_at-retry_after (5000000 ∷ 6000000 ∷ 7000000 ∷ []) throttle 0 0 email ip
      (inl (refl, refl))
      (omega arith, omega arith, (omega arith, omega arith, (omega arith, omega arith, tt))) refl
      (omega arith) (omega arith)

locked_throttle-Timely : Timely locked_throttle 7000000
locked_throttle-Timely =
    register_failure-Timely (failures_at (5000000 ∷ 6000000 ∷ []) email ip throttle) 6000000 7000000
      email ip
      (register_failure-Timely (failures_at (5000000 ∷ []) email ip throttle) 5000000 6000000 email
        ip (register_failure-Timely throttle 0 5000000 email ip throttle-Timely (omega arith))
        (omega arith))
      (omega arith)

retry_after-evict_example :
    retry_after 9000000 (evict 8000000 locked_throttle) email ip
    ≡ retry_after 9000000 locked_throttle email ip
retry_after-evict_example =
    retry_after-evict locked_throttle 7000000 8000000 9000000 email ip locked_throttle-Timely
      (omega arith) (omega arith)

register_failure-Timely_example : Timely (register_failure 5000000 email ip throttle) 5000000
register_failure-Timely_example =
    register_failure-Timely throttle 0 5000000 email ip throttle-Timely (omega arith)

retry_after-register_failure_example :
    retry_after 9000000 locked_throttle email ip
    ≤ retry_after 9000000
        (register_failure 8000000 email (codes "10.0.0.8") locked_throttle)
        email
        ip
retry_after-register_failure_example =
    retry_after-register_failure locked_throttle 7000000 8000000 9000000 email ip email
      (codes "10.0.0.8") locked_throttle-Timely (omega arith) (omega arith)
