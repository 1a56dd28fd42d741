-- ===== src/Mfa/Examples.antt =====
-- A user who signs in with a code, repeats it, and then spends a recovery code twice.
use frappe_os.Jobs.Create.{show}
use frappe_os.Base.{
  List, [], false, leb, none, refl, some, true, ◌%◌, ◌&&◌, ◌+◌, ◌/◌, ◌==◌, ◌||◌, ◌∷◌, ◌≡◌,
}
use frappe_os.Base.Results.{err}
use frappe_os.Base.Text.{Str, codes}
use frappe_os.Mfa.Verify.{server_error, use_code, check_code, totp_verify, totp_step, recovery_code}
use frappe_os.Mfa.OneTime.{verify_all}
use frappe_os.Mfa.OneTime.{
  verify_all-OneTime, codes_of, unused, steps_of, next_step, verify_all, Rising,
}
use frappe_os.Throttle.{
  count_failure, evict, register_success, register_failure, retry_after, LoginThrottle,
}
use frappe_os.Mfa.{type_error, try_steps, verify_totp_code, MfaLibraries}
use frappe_os.Mfa.Verify.{MfaState, MfaRequest}

-- Every code is the digit of the step, six times; a hash is the text itself.
abbrev lib : MfaLibraries
lib = record {
  unicode = record { is_word = λ c. false; is_space = λ c. c == 32 };
  is_digit = λ c. (leb 48 c && leb c 57) || leb 1632 c;
  upper = λ s. s;
  sha256 = λ s. s;
  generate_otp = λ secret step. let d = 48 + step % 10 in d ∷ (d ∷ (d ∷ (d ∷ (d ∷ (d ∷ [])))));
  timecode = λ now. now / 30;
  decrypt = λ token. some token;
}

abbrev throttle : LoginThrottle
throttle = record {
  threshold = 5;
  lockout = 900000000;
  email_failure_limit = 20;
  email_window = 3600000000;
  normalize = λ s. s;
  entries = λ k. none;
  email_entries = λ k. none;
}

abbrev start : MfaState
start = record {
  user = some (record { id = 3; is_active = true; token_version = 1 });
  totp =
      some (record { secret_encrypted = codes "s"; confirmed_at = some 0; last_used_step = none });
  recovery_codes = record { code_hash = codes "AAAA-BBBB"; used_at = none } ∷ [];
  mfa_throttle = throttle;
  attempts = [];
  audits = [];
  sessions = 0;
}

abbrev request : Str → MfaRequest
request code = record {
  now = 150;
  ip = codes "10.0.0.1";
  claims = some (record { token_version = 1 });
  code = code;
}

abbrev requests : List MfaRequest
requests =
    request (codes "555555")
    ∷ (request (codes "555555")
        ∷ (request (codes "AAAA-BBBB") ∷ (request (codes "AAAA-BBBB") ∷ [])))

verify_all-OneTime_example :
    Rising (next_step start.totp) (steps_of (verify_all lib requests start).0)
    × (unused start.recovery_codes
        ≡ unused (verify_all lib requests start).1.recovery_codes
          + codes_of (verify_all lib requests start).0)
verify_all-OneTime_example = verify_all-OneTime lib requests start

-- The repeated code and the spent recovery code are refused.
granted_once : (verify_all lib requests start).0 ≡ totp_step 5 ∷ (recovery_code ∷ [])
unfolding verify_all totp_verify check_code use_code verify_totp_code try_steps retry_after
    register_failure register_success evict count_failure show
granted_once = refl

-- Digits that are not ASCII pass the test for digits, and the comparison raises.
other_digits :
    (totp_verify lib (request (1637 ∷ (1637 ∷ (1637 ∷ (1637 ∷ (1637 ∷ (1637 ∷ []))))))) start).0
    ≡ err (server_error type_error)
unfolding totp_verify check_code verify_totp_code try_steps retry_after
other_digits = refl
