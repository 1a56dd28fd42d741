-- ===== src/Login/Examples.antt =====
-- A user without a second factor, an allow-list, and a throttle that locks after two failures.
use frappe_os.Login.Checks.{login-Judged, Judged}
use frappe_os.Login.{
  ip_denied, signed_in, too_many_attempts, ip_allowed, LoginLibraries, LoginState, LoginRequest,
  login,
}
use frappe_os.Base.{[], false, none, refl, some, true, ◌==◌, ◌∷◌, ◌≡◌}
use frappe_os.Base.Results.{err, ok}
use frappe_os.Base.Text.{Str, codes, same}
use frappe_os.Throttle.{
  LoginThrottle, retry_after, register_failure, evict, count_failure, failed_entry, failed_email,
}

abbrev lib : LoginLibraries Str
lib = record {
  is_space = λ c. c == 32;
  lower = λ s. s;
  ip_address = λ s. some s;
  equal_address = same;
  in_network = λ addr net. none;
  verify_password = λ hash password. same hash password;
}

abbrev throttle : LoginThrottle
throttle = record {
  threshold = 2;
  lockout = 900000000;
  email_failure_limit = 20;
  email_window = 3600000000;
  normalize = λ s. s;
  entries = λ k. none;
  email_entries = λ k. none;
}

abbrev start : LoginState
start = record {
  ip_allowlist = codes " 10.0.0.1" ∷ [];
  users =
      record {
        id = 3;
        email = codes "a@b";
        password_hash = codes "pw";
        is_active = true;
        has_confirmed_totp = false;
        last_login = none;
      }
      ∷ [];
  throttle = throttle;
  attempts = [];
  audits = [];
  sessions = [];
}

abbrev request : Str → Str → LoginRequest
request ip password = record { now = 5000000; email = codes "a@b"; password = password; ip = ip }

login-Judged_example :
    Judged lib
      (request (codes "10.0.0.1") (codes "pw"))
      start
      (login lib (request (codes "10.0.0.1") (codes "pw")) start)
login-Judged_example = login-Judged lib (request (codes "10.0.0.1") (codes "pw")) start

-- The right password from an address that is listed, and from one that is not.
answers :
    ((login lib (request (codes "10.0.0.1") (codes "pw")) start).0 ≡ ok (signed_in 3))
    × ((login lib (request (codes "10.0.0.2") (codes "pw")) start).0 ≡ err ip_denied)
unfolding login ip_allowed retry_after
answers = (refl, refl)

abbrev after_two : LoginState
after_two =
    let wrong = request (codes "10.0.0.1") (codes "no") in
    (login lib wrong (login lib wrong start).1).1

-- After two wrong passwords the right one is not looked at.
locked :
    (login lib (request (codes "10.0.0.1") (codes "pw")) after_two).0 ≡ err (too_many_attempts 900)
unfolding login ip_allowed retry_after register_failure evict count_failure failed_entry
    failed_email
locked = refl
