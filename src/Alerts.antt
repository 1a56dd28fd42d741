-- ===== src/Alerts.antt =====
-- backend/app/core/alerts.py and backend/app/models/alert.py: the rules, their state for each server,
-- and the firings. An instant is a number of microseconds. The numbers of Python's `float` are a type
-- `F` with its three comparisons.
pub mod Sweep
pub mod Keeps
pub mod Deliver
pub mod Incidents
pub mod Rate
pub mod Cooldown
pub mod Signed
mod Examples
use frappe_os.Windows.{second}
use frappe_os.Base.{
  &&-true, ==_iff, All, All-Memᴰ, All-map, Bool, Bool-cases, List, Option, Option-cases, String, [],
  all, any, any-append, ap, arith, drop, eq_iff, false, if_either, if◌then◌else◌, inl, inr, keep_if,
  leb, leb→le, length, length-append, length-keep_if, ltb, ltb→lt, map, max, min, none, not, refl,
  some, str_eq, subst, suc, sym, take, true, zero, ||-false, ℕ, ◌%◌, ◌&&◌, ◌*◌, ◌++◌, ◌+◌, ◌-◌, ◌/◌,
  ◌<◌, ◌==◌, ◌||◌, ◌↔◌, ◌∙◌, ◌∷◌, ◌≡◌, ◌≢◌, ◌≤◌, ◌⊎◌,
}
use frappe_os.Base.Dicts.{Dict, get, get-put, listed, put}
use frappe_os.Base.Results.{>>=-eq-ok, Result, Result-cases, err, ok, raise_if, ◌>>=◌, ◌>>◌}
use frappe_os.Base.Text.{
  Str, codes, has, join_on, lstrip, occurs, rstrip, same, same_refl, same→eq, split_on, starts_with,
  strip,
}

pub record Floats (F : Type 0) : Type 0 where
  pub less : F → F → Bool
  pub at_most : F → F → Bool
  pub equal : F → F → Bool

-- The row `AlertRule`. A cooldown that is negative counts as 0.
pub record AlertRule (F : Type 0) : Type 0 where
  pub id : ℕ
  pub name : Str
  pub metric : String
  pub comparator : String
  pub threshold : F
  pub scope : String
  pub scope_server_id : Option ℕ
  pub cooldown_minutes : ℕ
  pub channel_email : Bool
  pub channel_webhook : Bool
  pub email_to : Option Str
  pub webhook_url : Option Str
  pub webhook_secret_enc : Option Str
  pub enabled : Bool

pub record AlertRuleState (F : Type 0) : Type 0 where
  pub in_breach : Bool
  pub last_value : Option F
  pub last_fired_at : Option ℕ
  pub last_evaluated_at : Option ℕ

-- What was tried over one channel.
pub record ChannelOutcome : Type 0 where
  pub channel : String
  pub delivered : Bool
  pub recipients : Option ℕ

pub record AlertFiring (F : Type 0) : Type 0 where
  pub id : ℕ
  pub rule_id : Option ℕ
  pub rule_name : Str
  pub server_id : Option ℕ
  pub server_name : Str
  pub metric : String
  pub comparator : String
  pub threshold : F
  pub value : F
  pub channels : List ChannelOutcome
  pub delivered_at : Option ℕ
  pub resolved_at : Option ℕ

-- The columns of `Server` and `MonitoringSample` that a sweep reads; `attribute` is `getattr` with the
-- default None.
pub record MonitoredServer : Type 0 where
  pub id : ℕ
  pub name : Str
  pub status : String

pub record MonitoringSample (F : Type 0) : Type 0 where
  pub server_id : ℕ
  pub ts : ℕ
  pub succeeded : Bool
  pub attribute : String → Option F

abbrev is_live : MonitoredServer → Bool
is_live server = not (str_eq server.status "archived")

abbrev if_live : Option MonitoredServer → List MonitoredServer
if_live none = []
if_live (some server) = if is_live server then server ∷ [] else []

-- `db.get(Server, id)`
abbrev server_of : List MonitoredServer → ℕ → Option MonitoredServer
server_of [] i = none
server_of (server ∷ servers) i =
    let rest = server_of servers i in if server.id == i then some server else rest

abbrev in_scope : List MonitoredServer → Option ℕ → List MonitoredServer
in_scope servers none = []
in_scope servers (some i) = if_live (server_of servers i)

module _ {F : Type 0} where
  -- compare
  unfoldable pub compare : Floats F → F → String → F → Bool
  compare floats value comparator threshold =
      if str_eq comparator ">"
      then floats.less threshold value
      else if str_eq comparator ">="
      then floats.at_most threshold value
      else if str_eq comparator "<"
      then floats.less value threshold
      else if str_eq comparator "<="
      then floats.at_most value threshold
      else if str_eq comparator "=="
      then floats.equal value threshold
      else false

  abbrev later_sample : MonitoringSample F → Option (MonitoringSample F) → MonitoringSample F
  later_sample x none = x
  later_sample x (some y) = if leb y.ts x.ts then x else y

  -- The one with the greatest `ts`.
  abbrev newest_sample : List (MonitoringSample F) → Option (MonitoringSample F)
  newest_sample [] = none
  newest_sample (x ∷ xs) = some (later_sample x (newest_sample xs))

  -- latest_sample
  unfoldable pub latest_sample : ℕ → List (MonitoringSample F) → Option (MonitoringSample F)
  latest_sample server_id samples =
      newest_sample (keep_if (λ s. s.server_id == server_id && s.succeeded) samples)

  -- _scope_servers
  unfoldable pub scope_servers : List MonitoredServer → AlertRule F → List MonitoredServer
  scope_servers servers rule =
      if str_eq rule.scope "server"
      then in_scope servers rule.scope_server_id
      else keep_if is_live servers

  abbrev pub cooldown : AlertRule F → ℕ
  cooldown rule = rule.cooldown_minutes * 60 * second

  -- `last_fired is None or (now - last_fired) >= cooldown`
  abbrev pub is_due_again : ℕ → AlertRule F → Option ℕ → Bool
  is_due_again now rule none = true
  is_due_again now rule (some last_fired) = leb (last_fired + cooldown rule) now
