-- ===== src/Mfa/OneTime.antt =====
-- `totp_verify` of backend/app/api/routes/auth.py, over any calls: the time steps of accepted codes
-- rise, and each accepted recovery code leaves one unused code less.
use frappe_os.Base.{
  Bool-cases, List, Option, Option-cases, [], arith, if_either, inl, inr, keep_if, length, ltb,
  none, not, refl, some, subst, sym, ℕ, ◌&&◌, ◌+◌, ◌==◌, ◌∙◌, ◌∷◌, ◌≡◌, ◌≤◌,
}
use frappe_os.Base.Results.{Result, Result-cases, err, ok}
use frappe_os.Base.Text.{Str, codes, same, strip}
use frappe_os.Jobs.Create.{show}
use frappe_os.Throttle.{retry_after}
use frappe_os.Restic.{is_set}
use frappe_os.Mfa.Verify.{with_claims, with_user, MfaClaims, recovery_code, totp_step, with_totp}
use frappe_os.Mfa.{MfaCrash, is_digits, candidate_steps}
use frappe_os.Mfa.{
  hash_recovery_code, looks_like_recovery_code, verify_totp_code, above_floor, MfaLibraries,
  try_steps,
}
use frappe_os.Mfa.Verify.{
  totp_step, with_secret, check_code, MfaUser, MfaRequest, Factor, is_unused, VerifyError,
  RecoveryCode, totp_verify, UserTotp, use_code, MfaState,
}

-- Calls one after another, and the factors that were accepted.
abbrev pub add_factor : Result VerifyError Factor → List Factor → List Factor
add_factor (err e) factors = factors
add_factor (ok factor) factors = factor ∷ factors

unfoldable pub verify_all : MfaLibraries → List MfaRequest → MfaState → List Factor × MfaState
unfolding totp_verify
verify_all lib [] st = ([], st)
verify_all lib (req ∷ reqs) st =
    let (result, st') = totp_verify lib req st in
    let (factors, st'') = verify_all lib reqs st' in (add_factor result factors, st'')

-- The least step that is not used up, and the number of recovery codes that are left.
abbrev pub next_step : Option UserTotp → ℕ
next_step none = 0
next_step (some row) = above_floor row.last_used_step

abbrev pub unused : List RecoveryCode → ℕ
unused rows = length (keep_if is_unused rows)

-- What a call spends.
abbrev Spent : MfaState → Result VerifyError Factor × MfaState → Type 0
Spent st (err e, st') =
    (next_step st'.totp ≡ next_step st.totp)
    × (unused st'.recovery_codes ≡ unused st.recovery_codes)
Spent st (ok recovery_code, st') =
    (next_step st'.totp ≡ next_step st.totp)
    × (unused st.recovery_codes ≡ unused st'.recovery_codes + 1)
Spent st (ok (totp_step step), st') =
    (next_step st.totp ≤ step)
    × (next_step st'.totp ≡ step + 1)
    × (unused st'.recovery_codes ≡ unused st.recovery_codes)

abbrev accepted : Option ℕ → Result MfaCrash (Option ℕ)
accepted step = ok step

no_step : (bound step : ℕ) → accepted none ≡ accepted (some step) → bound ≤ step
no_step bound step h = ground arith

try_steps-bound :
    (otp : ℕ → Str) (bound : ℕ) (code : Str) (steps : List ℕ) (step : ℕ)
    → try_steps otp bound code steps ≡ ok (some step)
    → bound ≤ step
unfolding try_steps
try_steps-bound otp bound code [] step h = ground arith
try_steps-bound otp bound code (s ∷ steps) step h =
    ground (arith, try_steps-bound otp bound code steps step)

use_code-unused :
    (now : ℕ) (target_hash : Str) (rows rows' : List RecoveryCode)
    → use_code now target_hash rows ≡ some rows'
    → unused rows ≡ unused rows' + 1
unfolding use_code
use_code-unused now target_hash [] rows' h = ground arith
use_code-unused now target_hash (row ∷ rows) rows' h =
    elim (Bool-cases (is_unused row && same row.code_hash target_hash)) [
      | inl e ↦ ground arith
      | inr e ↦ elim (Option-cases (use_code now target_hash rows)) [
        | inl f ↦ ground arith
        | inr (rest, f) ↦ ground (arith, use_code-unused now target_hash rows rest f)
      ]
    ]

module _ (lib : MfaLibraries) (req : MfaRequest) where
  verify_totp_code-bound :
      (secret : Str) (last : Option ℕ) (step : ℕ)
      → verify_totp_code lib req.now secret req.code last ≡ ok (some step)
      → above_floor last ≤ step
  unfolding verify_totp_code
  verify_totp_code-bound secret last step h =
      let typed = strip lib.unicode.is_space req.code in
      elim (Bool-cases (is_digits lib typed && length typed == 6)) [
        | inl e ↦
            try_steps-bound (lib.generate_otp secret) (above_floor last) typed
              (candidate_steps (lib.timecode req.now)) step
              (sym (rw (e, verify_totp_code) refl) ∙ h)
        | inr e ↦ no_step (above_floor last) step (sym (rw (e, verify_totp_code) refl) ∙ h)
      ]

  with_secret-Spent :
      (user : MfaUser) (row : UserTotp) (secret : Option Str) (st : MfaState)
      → st.totp ≡ some row
      → Spent st (with_secret lib req user row secret st)
  with_secret-Spent user row none st e = (refl, refl)
  with_secret-Spent user row (some secret) st e =
      elim (Result-cases (verify_totp_code lib req.now secret req.code row.last_used_step)) [
        | inl (crash, f) ↦ rw f (refl, refl)
        | inr (none, f) ↦ rw f (refl, refl)
        | inr (some step, f) ↦
            rw f (rw e (verify_totp_code-bound secret row.last_used_step step f), refl, refl)
      ]

  with_totp-Spent :
      (user : MfaUser) (totp : Option UserTotp) (st : MfaState)
      → st.totp ≡ totp
      → Spent st (with_totp lib req user totp st)
  with_totp-Spent user none st e = (refl, refl)
  with_totp-Spent user (some row) st e =
      if_either (Spent st) (is_set row.confirmed_at)
        (with_secret-Spent user row (lib.decrypt row.secret_encrypted) st e) (refl, refl)

  check_code-Spent : (user : MfaUser) (st : MfaState) → Spent st (check_code lib req user st)
  unfolding check_code
  check_code-Spent user st = elim (Bool-cases (looks_like_recovery_code lib req.code)) [
    | inl e ↦
        rw e
          (elim (Option-cases
            (use_code req.now (hash_recovery_code lib req.code) st.recovery_codes)) [
              | inl f ↦ rw f (refl, refl)
              | inr (rows, f) ↦ rw f (
                refl,
                use_code-unused req.now (hash_recovery_code lib req.code) st.recovery_codes rows f,
              )
            ])
    | inr e ↦ rw e (with_totp-Spent user st.totp st refl)
  ]

  with_user-Spent :
      (claims : MfaClaims) (user : Option MfaUser) (st : MfaState)
      → Spent st (with_user lib req claims user st)
  with_user-Spent claims none st = (refl, refl)
  with_user-Spent claims (some user) st =
      if_either (Spent st) (not user.is_active) (refl, refl)
        (if_either (Spent st) (not (claims.token_version == user.token_version)) (refl, refl)
          (if_either (Spent st) (ltb 0 (retry_after req.now st.mfa_throttle (show user.id) req.ip))
            (refl, refl) (check_code-Spent user st)))

  with_claims-Spent :
      (claims : Option MfaClaims) (st : MfaState) → Spent st (with_claims lib req claims st)
  with_claims-Spent none st = (refl, refl)
  with_claims-Spent (some claims) st = with_user-Spent claims st.user st

  totp_verify-Spent : (st : MfaState) → Spent st (totp_verify lib req st)
  unfolding totp_verify
  totp_verify-Spent st = with_claims-Spent req.claims st

-- The steps among the factors, and how many recovery codes.
abbrev pub steps_of : List Factor → List ℕ
steps_of [] = []
steps_of (totp_step step ∷ factors) = step ∷ steps_of factors
steps_of (recovery_code ∷ factors) = steps_of factors

abbrev pub codes_of : List Factor → ℕ
codes_of [] = 0
codes_of (totp_step step ∷ factors) = codes_of factors
codes_of (recovery_code ∷ factors) = codes_of factors + 1

-- Each number is above the one before, and the first is at least `bound`.
abbrev pub Rising : ℕ → List ℕ → Type 0
Rising bound [] = Unit
Rising bound (n ∷ ns) = (bound ≤ n) × Rising (n + 1) ns

abbrev OneTime : MfaState → List Factor × MfaState → Type 0
OneTime st (factors, st') =
    Rising (next_step st.totp) (steps_of factors)
    × (unused st.recovery_codes ≡ unused st'.recovery_codes + codes_of factors)

add_factor-OneTime :
    (st st' st'' : MfaState) (result : Result VerifyError Factor) (factors : List Factor)
    → Spent st (result, st')
    → OneTime st' (factors, st'')
    → OneTime st (add_factor result factors, st'')
add_factor-OneTime st st' st'' (err e) factors (steps, codes) (rising, left) =
    (subst (λ n. Rising n (steps_of factors)) steps rising, omega arith)
add_factor-OneTime st st' st'' (ok recovery_code) factors (steps, codes) (rising, left) =
    (subst (λ n. Rising n (steps_of factors)) steps rising, omega arith)
add_factor-OneTime st st' st'' (ok (totp_step step)) factors (above, steps, codes) (rising, left) =
    ((above, subst (λ n. Rising n (steps_of factors)) steps rising), omega arith)

-- Over any calls, at any times, the time steps whose codes are accepted rise strictly, from above the
-- last step used before; and each recovery code that is accepted is one fewer that is unused.
pub verify_all-OneTime :
    (lib : MfaLibraries) (reqs : List MfaRequest) (st : MfaState)
    → Rising (next_step st.totp) (steps_of (verify_all lib reqs st).0)
      × (unused st.recovery_codes
          ≡ unused (verify_all lib reqs st).1.recovery_codes + codes_of (verify_all lib reqs st).0)
unfolding verify_all
verify_all-OneTime lib [] st = (tt, omega arith)
verify_all-OneTime lib (req ∷ reqs) st =
    let (result, st') = totp_verify lib req st in
    add_factor-OneTime st st' (verify_all lib reqs st').1 result (verify_all lib reqs st').0
      (totp_verify-Spent lib req st) (verify_all-OneTime lib reqs st')
