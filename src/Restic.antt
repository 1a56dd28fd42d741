-- ===== src/Restic.antt =====
-- backend/app/core/restic.py: the repository of a server, the retention arguments and the reading of
-- a check's output. `str.lower` of Unicode text is a parameter; white space is that of `Unicode`.
pub mod Retention
mod Examples
use frappe_os.Base.{
  Bool, List, Option, String, [], any, false, if◌then◌else◌, ltb, none, not, some, true, ℕ, ◌&&◌,
  ◌++◌, ◌==◌, ◌||◌, ◌∷◌,
}
use frappe_os.Base.Results.{◌>>=◌, ◌>>◌, Result, err, ok, raise_if}
use frappe_os.Base.Text.{Str, codes, join_on, occurs, rstrip, same, split_on, strip}
use frappe_os.Regex.{Unicode}

-- The columns of `StorageTarget` that are read here.
pub record StorageTarget : Type 0 where
  pub id : ℕ
  pub name : Str
  pub endpoint_url : Option Str
  pub region : Option Str
  pub bucket : Str
  pub access_key_enc : Option Str
  pub secret_key_enc : Option Str
  pub enabled : Bool

pub record ResticRepo : Type 0 where
  pub id : ℕ
  pub server_id : ℕ
  pub storage_target_id : Option ℕ
  pub prefix : Str
  pub password_enc : Option Str
  pub initialized : Bool
  pub retention_keep_last : Option ℕ
  pub retention_keep_daily : Option ℕ
  pub retention_keep_weekly : Option ℕ
  pub retention_keep_monthly : Option ℕ

pub data ResticError : Type 0 where
  no_bucket dotdot_prefix no_policy no_target no_password no_credentials : ResticError
  count_below_one : String → ResticError
  unsupported_arch : Str → ResticError

abbrev pub is_set {ℓ} : {A : Type ℓ} → Option A → Bool
is_set none = false
is_set (some x) = true

-- The truth value of a text column.
abbrev pub has_text : Option Str → Bool
has_text none = false
has_text (some []) = false
has_text (some (c ∷ s)) = true

-- ResticRepo.retention_configured
unfoldable pub retention_configured : ResticRepo → Bool
retention_configured repo =
    is_set repo.retention_keep_last
    || is_set repo.retention_keep_daily
    || is_set repo.retention_keep_weekly
    || is_set repo.retention_keep_monthly

-- The code point of `/`.
abbrev pub slash : ℕ
slash = 47

abbrev pub is_slash : ℕ → Bool
is_slash c = c == slash

abbrev pub dotdot : Str
dotdot = codes ".."

abbrev pub cleaned : Unicode → Str → Str
cleaned u prefix = strip is_slash (strip u.is_space prefix)

-- normalize_prefix
unfoldable pub normalize_prefix : Unicode → Str → Result ResticError Str
normalize_prefix u prefix =
    if any (λ part. same part dotdot) (split_on slash (cleaned u prefix))
    then err dotdot_prefix
    else ok (cleaned u prefix)

abbrev pub text_or_empty : Option Str → Str
text_or_empty none = []
text_or_empty (some s) = s

abbrev pub endpoint_of : StorageTarget → Str
endpoint_of target =
    if has_text target.endpoint_url
    then rstrip is_slash (text_or_empty target.endpoint_url)
    else if has_text target.region
    then codes "s3." ++ (text_or_empty target.region ++ codes ".amazonaws.com")
    else codes "s3.amazonaws.com"

abbrev pub prefix_parts : Str → List Str
prefix_parts [] = []
prefix_parts (c ∷ s) = (c ∷ s) ∷ []

abbrev pub is_blank : Str → Bool
is_blank [] = true
is_blank (c ∷ s) = false

-- repository_uri
unfoldable pub repository_uri : Unicode → StorageTarget → Str → Result ResticError Str
unfolding normalize_prefix
repository_uri u target prefix = do
  raise_if (is_blank target.bucket) no_bucket
  clean ← normalize_prefix u prefix
  ok (codes "s3:" ++ join_on slash (endpoint_of target ∷ (target.bucket ∷ prefix_parts clean)))

-- One dimension of the policy: the flag and the count, or nothing.
unfoldable pub keep_arg : String → Option ℕ → Result ResticError (List (String × ℕ))
keep_arg flag none = ok []
keep_arg flag (some value) =
    if ltb value 1 then err (count_below_one flag) else ok ((flag, value) ∷ [])

abbrev pub refuse_none : List (String × ℕ) → Result ResticError (List (String × ℕ))
refuse_none [] = err no_policy
refuse_none (arg ∷ args) = ok (arg ∷ args)

-- build_forget_keep_args: each pair is two elements of the argument vector, the flag and `str(count)`.
unfoldable pub build_forget_keep_args : ResticRepo → Result ResticError (List (String × ℕ))
unfolding keep_arg
build_forget_keep_args repo = do
  last ← keep_arg "--keep-last" repo.retention_keep_last
  daily ← keep_arg "--keep-daily" repo.retention_keep_daily
  weekly ← keep_arg "--keep-weekly" repo.retention_keep_weekly
  monthly ← keep_arg "--keep-monthly" repo.retention_keep_monthly
  refuse_none (last ++ (daily ++ (weekly ++ monthly)))

pub record ResticEnv : Type 0 where
  pub repository : Str
  pub password : Str
  pub access_key : Str
  pub secret_key : Str
  pub region : Option Str

abbrev decrypt_or : (Str → Str) → Option Str → Str
decrypt_or decrypt none = []
decrypt_or decrypt (some token) = decrypt token

-- `target.region or None`
abbrev region_or_none : Option Str → Option Str
region_or_none none = none
region_or_none (some []) = none
region_or_none (some (c ∷ s)) = some (c ∷ s)

-- resolve_env: `decrypt` is the service's.
unfoldable pub resolve_env :
    Unicode → (Str → Str) → ResticRepo → Option StorageTarget → Result ResticError ResticEnv
unfolding repository_uri
resolve_env u decrypt repo none = err no_target
resolve_env u decrypt repo (some target) = do
  raise_if (not (has_text repo.password_enc)) no_password
  raise_if (not (has_text target.access_key_enc && has_text target.secret_key_enc)) no_credentials
  uri ← repository_uri u target repo.prefix
  ok (record {
    repository = uri;
    password = decrypt_or decrypt repo.password_enc;
    access_key = decrypt_or decrypt target.access_key_enc;
    secret_key = decrypt_or decrypt target.secret_key_enc;
    region = region_or_none target.region;
  })

abbrev lock_markers : List String
lock_markers =
    "unable to create lock" ∷ "repository is already locked" ∷ "already locked exclusively" ∷ []

abbrev transient_markers : List String
transient_markers =
    "unable to open repository" ∷ "unable to open config file" ∷ "connection refused"
    ∷ "connection reset" ∷ "network is unreachable" ∷ "no route to host" ∷ "no such host"
    ∷ "i/o timeout" ∷ "timeout awaiting" ∷ "context deadline exceeded" ∷ "dial tcp"
    ∷ "temporary failure in name resolution" ∷ "server misbehaving" ∷ "requesterror"
    ∷ "requesttimeout" ∷ "slowdown" ∷ "service unavailable" ∷ "503" ∷ []

-- `any(marker in low for marker in markers)`
abbrev pub any_occurs : List String → Str → Bool
any_occurs markers low = any (λ marker. occurs (codes marker) low) markers

unfoldable pub is_restic_lock_error : (Str → Str) → Str → Bool
is_restic_lock_error lower output = any_occurs lock_markers (lower output)

unfoldable pub is_restic_transient_error : (Str → Str) → Str → Bool
is_restic_transient_error lower output = any_occurs transient_markers (lower output)
