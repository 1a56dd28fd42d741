-- ===== src/Login.antt =====
-- `login` of backend/app/api/routes/auth.py. The modules `ipaddress` and `argon2` and the lower case of
-- Unicode are the record `LoginLibraries`; the clock is an argument. Cookies are not modelled: a session
-- is the row that `_start_session` adds.
pub mod Checks
mod Examples
use frappe_os.Base.{
  &&-true, ==_iff, All, All-Memᴰ, All-append, All-map, Bool, Bool-cases, List, Option, Option-cases,
  String, [], all, any, any-append, ap, arith, drop, eq_iff, false, if_either, if◌then◌else◌, inl,
  inr, keep_if, leb, leb→le, length, length-append, length-keep_if, ltb, ltb→lt, map, max, min,
  none, not, refl, some, str_eq, subst, suc, sym, take, true, zero, ||-false, ℕ, ◌%◌, ◌&&◌, ◌*◌,
  ◌++◌, ◌+◌, ◌-◌, ◌/◌, ◌<◌, ◌==◌, ◌^◌, ◌||◌, ◌↔◌, ◌∙◌, ◌∷◌, ◌≡◌, ◌≢◌, ◌≤◌, ◌⊎◌,
}
use frappe_os.Base.Dicts.{Dict, get, get-put, listed, put}
use frappe_os.Base.Results.{>>=-eq-ok, Result, Result-cases, err, ok, raise_if, ◌>>=◌, ◌>>◌}
use frappe_os.Base.Text.{
  Str, codes, has, join_on, lstrip, occurs, rstrip, same, same_refl, same→eq, split_on, starts_with,
  strip,
}
use frappe_os.Throttle.{LoginThrottle, retry_after, register_failure, register_success}

pub record LoginLibraries (A : Type 0) : Type 0 where
  pub is_space : ℕ → Bool
  pub lower : Str → Str
  -- `none` where the parser raises ValueError
  pub ip_address : Str → Option A
  pub equal_address : A → A → Bool
  pub in_network : A → Str → Option Bool
  pub verify_password : Str → Str → Bool

pub record LoginUser : Type 0 where
  pub id : ℕ
  pub email : Str
  pub password_hash : Str
  pub is_active : Bool
  pub has_confirmed_totp : Bool
  pub last_login : Option ℕ

pub record LoginRow : Type 0 where
  pub email : Str
  pub user_id : Option ℕ
  pub succeeded : Bool
  pub reason : String

pub record LoginState : Type 0 where
  pub ip_allowlist : List Str
  pub users : List LoginUser
  pub throttle : LoginThrottle
  pub attempts : List LoginRow
  -- the result column of each audit row
  pub audits : List String
  -- the user of each `UserSession`
  pub sessions : List ℕ

pub record LoginRequest : Type 0 where
  pub now : ℕ
  pub email : Str
  pub password : Str
  pub ip : Str

pub data LoginError : Type 0 where
  ip_denied : LoginError
  too_many_attempts : ℕ → LoginError
  invalid_credentials : LoginError
  disabled_account : LoginError

pub data LoginOut : Type 0 where
  mfa_required : LoginOut
  signed_in : ℕ → LoginOut

abbrev or_false : Option Bool → Bool
or_false none = false
or_false (some b) = b

-- `db.scalars(select(User).where(User.email == email)).first()`
abbrev pub find_user : Str → List LoginUser → Option LoginUser
find_user email [] = none
find_user email (user ∷ users) =
    let rest = find_user email users in if same user.email email then some user else rest

abbrev pub set_user : LoginUser → List LoginUser → List LoginUser
set_user user users = map (λ u. if u.id == user.id then user else u) users

abbrev log_attempt : Str → Option ℕ → Bool → String → LoginState → LoginState
log_attempt email user_id succeeded reason st = record st {
  attempts =
      st.attempts
      ++ record { email = email; user_id = user_id; succeeded = succeeded; reason = reason } ∷ [];
}

abbrev record_audit : String → LoginState → LoginState
record_audit result st = record st { audits = st.audits ++ result ∷ [] }

-- The rest of `login` for a password that is right: a session, or the wait for a second factor.
abbrev pub enter : LoginUser → Str → LoginState → Result LoginError LoginOut × LoginState
enter user email st =
    if user.has_confirmed_totp
    then (
      ok mfa_required,
      record_audit "ok" (log_attempt email (some user.id) true "mfa_required" st),
    )
    else (
      ok (signed_in user.id),
      (let st' = record_audit "ok" (log_attempt email (some user.id) true "password_ok" st) in
          record st' { sessions = st'.sessions ++ user.id ∷ [] }),
    )

abbrev id_of : Option LoginUser → Option ℕ
id_of none = none
id_of (some user) = some user.id

abbrev pub wrong_password :
    ℕ → Str → Str → Option LoginUser → LoginState → Result LoginError LoginOut × LoginState
wrong_password now email ip user st = (
  err invalid_credentials,
  record_audit "denied" (
      log_attempt email (id_of user) false "bad_password"
        (record st { throttle = register_failure now email ip st.throttle })),
)

module _ {A : Type 0} (lib : LoginLibraries A) where
  abbrev is_address : A → Option A → Bool
  is_address addr none = false
  is_address addr (some other) = lib.equal_address addr other

  abbrev entry_allows : A → Str → Bool
  entry_allows addr [] = false
  entry_allows addr (c ∷ entry) =
      if has 47 (c ∷ entry)
      then or_false (lib.in_network addr (c ∷ entry))
      else is_address addr (lib.ip_address (c ∷ entry))

  abbrev some_entry_allows : Option A → List Str → Bool
  some_entry_allows none entries = false
  some_entry_allows (some addr) entries =
      any (λ e. entry_allows addr (strip lib.is_space e)) entries

  -- _ip_allowed
  unfoldable pub ip_allowed : Str → List Str → Bool
  ip_allowed ip [] = true
  ip_allowed ip (entry ∷ entries) = some_entry_allows (lib.ip_address ip) (entry ∷ entries)

  abbrev pub with_password :
      LoginRequest → Str → LoginUser → LoginState → Result LoginError LoginOut × LoginState
  with_password req email user st =
      if user.is_active
      then enter user email (record st {
        throttle = register_success email req.ip st.throttle;
        users = set_user (record user { last_login = some req.now }) st.users;
      })
      else (err disabled_account, log_attempt email (some user.id) false "account_disabled" st)

  abbrev pub with_login_user :
      LoginRequest → Str → Option LoginUser → LoginState → Result LoginError LoginOut × LoginState
  with_login_user req email none st = wrong_password req.now email req.ip none st
  with_login_user req email (some user) st =
      if lib.verify_password user.password_hash req.password
      then with_password req email user st
      else wrong_password req.now email req.ip (some user) st

  -- login
  unfoldable pub login : LoginRequest → LoginState → Result LoginError LoginOut × LoginState
  unfolding ip_allowed retry_after register_failure register_success
  login req st =
      let email = lib.lower req.email in
      let wait = retry_after req.now st.throttle email req.ip in
      if not (ip_allowed req.ip st.ip_allowlist)
      then (err ip_denied, record_audit "denied" (log_attempt email none false "ip_denied" st))
      else if ltb 0 wait
      then (err (too_many_attempts wait), st)
      else with_login_user req email (find_user email st.users) st
