-- ===== src/Mfa/Verify.antt =====
-- `totp_verify` of backend/app/api/routes/auth.py.
use frappe_os.Base.{
  Bool, List, Option, String, [], false, if◌then◌else◌, ltb, none, not, some, true, ℕ, ◌&&◌, ◌++◌,
  ◌+◌, ◌==◌, ◌∷◌,
}
use frappe_os.Base.Results.{Result, err, ok}
use frappe_os.Base.Text.{Str, same}
use frappe_os.Mfa.{
  hash_recovery_code, looks_like_recovery_code, verify_totp_code, invalid_token, MfaLibraries,
  MfaCrash,
}
use frappe_os.Restic.{is_set}
use frappe_os.Jobs.Create.{show}
use frappe_os.Throttle.{LoginThrottle, retry_after, register_failure, register_success}

pub record MfaUser : Type 0 where
  pub id : ℕ
  pub is_active : Bool
  pub token_version : ℕ

-- The rows `UserTOTP` and `RecoveryCode` of the user.
pub record UserTotp : Type 0 where
  pub secret_encrypted : Str
  pub confirmed_at : Option ℕ
  pub last_used_step : Option ℕ

pub record RecoveryCode : Type 0 where
  pub code_hash : Str
  pub used_at : Option ℕ

pub record LoginAttempt : Type 0 where
  pub user_id : ℕ
  pub succeeded : Bool
  pub reason : String

-- The state of one user's second factor; `sessions` counts the sessions that were started.
pub record MfaState : Type 0 where
  pub user : Option MfaUser
  pub totp : Option UserTotp
  pub recovery_codes : List RecoveryCode
  pub mfa_throttle : LoginThrottle
  pub attempts : List LoginAttempt
  pub audits : List String
  pub sessions : ℕ

-- The claims of a valid `mfa_pending` cookie of the user.
pub record MfaClaims : Type 0 where
  pub token_version : ℕ

pub record MfaRequest : Type 0 where
  pub now : ℕ
  pub ip : Str
  pub claims : Option MfaClaims
  pub code : Str

-- The answers that are not a session.
pub data VerifyError : Type 0 where
  session_expired : VerifyError
  account_disabled : VerifyError
  too_many_codes : ℕ → VerifyError
  bad_recovery_code : VerifyError
  not_enrolled : VerifyError
  bad_code : VerifyError
  server_error : MfaCrash → VerifyError

-- The factor that a new session was granted for.
pub data Factor : Type 0 where
  totp_step : ℕ → Factor
  recovery_code : Factor

abbrev pub is_unused : RecoveryCode → Bool
is_unused row = not (is_set row.used_at)

abbrev pub add_row : RecoveryCode → Option (List RecoveryCode) → Option (List RecoveryCode)
add_row row none = none
add_row row (some rows) = some (row ∷ rows)

-- `matched.used_at = now` for the first unused row of this hash; `none` if there is no such row.
unfoldable pub use_code : ℕ → Str → List RecoveryCode → Option (List RecoveryCode)
use_code now target_hash [] = none
use_code now target_hash (row ∷ rows) =
    let rest = use_code now target_hash rows in
    if is_unused row && same row.code_hash target_hash
    then some (record row { used_at = some now } ∷ rows)
    else add_row row rest

-- _log_attempt
abbrev pub log_attempt : ℕ → Bool → String → MfaState → MfaState
log_attempt user_id succeeded reason st = record st {
  attempts =
      st.attempts ++ record { user_id = user_id; succeeded = succeeded; reason = reason } ∷ [];
}

abbrev pub refuse :
    MfaRequest → MfaUser → VerifyError → MfaState → Result VerifyError Factor × MfaState
refuse req user e st = (
  err e,
  log_attempt user.id false "mfa_bad_code"
      (record st { mfa_throttle = register_failure req.now (show user.id) req.ip st.mfa_throttle }),
)

-- The end of `totp_verify`, with `_start_session`.
abbrev pub accept :
    MfaRequest
    → MfaUser
    → Factor
    → String
    → String
    → MfaState
    → Result VerifyError Factor × MfaState
accept req user factor reason audit st = (
  ok factor,
  log_attempt user.id true reason (record st {
    mfa_throttle = register_success (show user.id) req.ip st.mfa_throttle;
    audits = st.audits ++ audit ∷ [];
    sessions = st.sessions + 1;
  }),
)

abbrev pub recovery_result :
    MfaRequest
    → MfaUser
    → Option (List RecoveryCode)
    → MfaState
    → Result VerifyError Factor × MfaState
recovery_result req user none st = refuse req user bad_recovery_code st
recovery_result req user (some rows) st =
    accept req user recovery_code "recovery_code_used" "auth.mfa_recovery_used"
      (record st { recovery_codes = rows })

abbrev pub totp_result :
    MfaRequest
    → MfaUser
    → UserTotp
    → Result MfaCrash (Option ℕ)
    → MfaState
    → Result VerifyError Factor × MfaState
totp_result req user row (err crash) st = (err (server_error crash), st)
totp_result req user row (ok none) st = refuse req user bad_code st
totp_result req user row (ok (some step)) st =
    accept req user (totp_step step) "mfa_ok" "auth.mfa_verify"
      (record st { totp = some (record row { last_used_step = some step }) })

module _ (lib : MfaLibraries) where
  abbrev pub with_secret :
      MfaRequest → MfaUser → UserTotp → Option Str → MfaState → Result VerifyError Factor × MfaState
  with_secret req user row none st = (err (server_error invalid_token), st)
  with_secret req user row (some secret) st =
      totp_result req user row (verify_totp_code lib req.now secret req.code row.last_used_step) st

  abbrev pub with_totp :
      MfaRequest → MfaUser → Option UserTotp → MfaState → Result VerifyError Factor × MfaState
  with_totp req user none st = (err not_enrolled, st)
  with_totp req user (some row) st =
      if is_set row.confirmed_at
      then with_secret req user row (lib.decrypt row.secret_encrypted) st
      else (err not_enrolled, st)

  -- The check of the code, by its shape.
  unfoldable pub check_code : MfaRequest → MfaUser → MfaState → Result VerifyError Factor × MfaState
  unfolding use_code verify_totp_code register_failure register_success
  check_code req user st =
      if looks_like_recovery_code lib req.code
      then recovery_result req user
          (use_code req.now (hash_recovery_code lib req.code) st.recovery_codes) st
      else with_totp req user st.totp st

  -- From the row of the user on.
  abbrev pub with_user :
      MfaRequest → MfaClaims → Option MfaUser → MfaState → Result VerifyError Factor × MfaState
  with_user req claims none st = (err account_disabled, st)
  with_user req claims (some user) st =
      let wait = retry_after req.now st.mfa_throttle (show user.id) req.ip in
      if not user.is_active
      then (err account_disabled, st)
      else if not (claims.token_version == user.token_version)
      then (err session_expired, st)
      else if ltb 0 wait
      then (err (too_many_codes wait), st)
      else check_code req user st

  abbrev pub with_claims :
      MfaRequest → Option MfaClaims → MfaState → Result VerifyError Factor × MfaState
  with_claims req none st = (err session_expired, st)
  with_claims req (some claims) st = with_user req claims st.user st

  -- totp_verify: the factor that the session was granted for, where the source returns the user.
  unfoldable pub totp_verify : MfaRequest → MfaState → Result VerifyError Factor × MfaState
  unfolding check_code retry_after
  totp_verify req st = with_claims req req.claims st
