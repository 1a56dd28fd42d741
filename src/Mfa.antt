-- ===== src/Mfa.antt =====
-- backend/app/core/mfa.py and the second factor of backend/app/api/routes/auth.py: `totp_verify`. What
-- pyotp, hashlib, Fernet and the tables of Unicode give is the record `MfaLibraries`. The clock is an
-- argument; the cookie is given by what `decode_session_token` makes of it.
pub mod Verify
pub mod OneTime
mod Examples
use frappe_os.Regex.{Unicode}
use frappe_os.Base.{
  &&-true, ==_iff, All, All-Memᴰ, All-append, All-map, Bool, Bool-cases, List, Option, Option-cases,
  String, [], all, any, any-append, ap, arith, drop, eq_iff, false, if_either, if◌then◌else◌, inl,
  inr, keep_if, leb, leb→le, length, length-append, length-keep_if, ltb, ltb→lt, map, max, min,
  none, not, refl, some, str_eq, subst, suc, sym, take, true, zero, ||-false, ℕ, ◌%◌, ◌&&◌, ◌*◌,
  ◌++◌, ◌+◌, ◌-◌, ◌/◌, ◌<◌, ◌==◌, ◌^◌, ◌||◌, ◌↔◌, ◌∙◌, ◌∷◌, ◌≡◌, ◌≢◌, ◌≤◌, ◌⊎◌,
}
use frappe_os.Base.Dicts.{Dict, get, get-put, listed, put}
use frappe_os.Base.Results.{>>=-eq-ok, Result, Result-cases, err, ok, raise_if, ◌>>=◌, ◌>>◌}
use frappe_os.Base.Text.{
  Str, codes, has, join_on, lstrip, occurs, rstrip, same, same_refl, same→eq, split_on, starts_with,
  strip,
}

pub record MfaLibraries : Type 0 where
  pub unicode : Unicode
  -- `str.isdigit` of one character, and `str.upper`
  pub is_digit : ℕ → Bool
  pub upper : Str → Str
  pub sha256 : Str → Str
  -- pyotp: the code of a secret at a step, and the step of an instant
  pub generate_otp : Str → ℕ → Str
  pub timecode : ℕ → ℕ
  -- `none` where decryption raises
  pub decrypt : Str → Option Str

-- An exception that no handler expects; the caller answers with status 500.
pub data MfaCrash : Type 0 where
  type_error : MfaCrash
  invalid_token : MfaCrash

abbrev pub is_digits : MfaLibraries → Str → Bool
is_digits lib [] = false
is_digits lib (c ∷ s) = all lib.is_digit (c ∷ s)

-- `secrets.compare_digest` raises on a text that is not ASCII.
abbrev pub is_ascii : Str → Bool
is_ascii code = all (λ c. ltb c 128) code

-- The loop of `verify_totp_code`; steps below `bound` are used up.
unfoldable pub try_steps : (ℕ → Str) → ℕ → Str → List ℕ → Result MfaCrash (Option ℕ)
try_steps otp bound code [] = ok none
try_steps otp bound code (step ∷ steps) =
    let rest = try_steps otp bound code steps in
    if ltb step bound
    then rest
    else if not (is_ascii code)
    then err type_error
    else if same (otp step) code
    then ok (some step)
    else rest

-- The steps around the present one; the step -1 is never above the floor.
abbrev pub candidate_steps : ℕ → List ℕ
candidate_steps zero = 0 ∷ (1 ∷ [])
candidate_steps (suc step) = step ∷ (suc step ∷ (suc (suc step) ∷ []))

-- The least step that is above the floor.
abbrev pub above_floor : Option ℕ → ℕ
above_floor none = 0
above_floor (some last_used_step) = last_used_step + 1

-- verify_totp_code
unfoldable pub verify_totp_code :
    MfaLibraries → ℕ → Str → Str → Option ℕ → Result MfaCrash (Option ℕ)
unfolding try_steps
verify_totp_code lib now secret code last_used_step =
    let code = strip lib.unicode.is_space code in
    if is_digits lib code && length code == 6
    then try_steps (lib.generate_otp secret) (above_floor last_used_step) code
        (candidate_steps (lib.timecode now))
    else ok none

-- hash_recovery_code
abbrev pub hash_recovery_code : MfaLibraries → Str → Str
hash_recovery_code lib code =
    lib.sha256 (keep_if (λ c. not (c == 32)) (lib.upper (strip lib.unicode.is_space code)))

-- looks_like_recovery_code
abbrev pub looks_like_recovery_code : MfaLibraries → Str → Bool
looks_like_recovery_code lib code =
    let code = strip lib.unicode.is_space code in has 45 code || not (is_digits lib code)
