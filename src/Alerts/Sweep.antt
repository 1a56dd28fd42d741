-- ===== src/Alerts/Sweep.antt =====
-- `evaluate_alerts` of backend/app/core/alerts.py.
use frappe_os.Alerts.{
  is_due_again, MonitoredServer, Floats, compare, AlertFiring, latest_sample, AlertRuleState,
  MonitoringSample, scope_servers, AlertRule,
}
use frappe_os.Base.{
  Bool, List, Option, String, [], false, if◌then◌else◌, keep_if, map, none, some, true, ℕ, ◌&&◌,
  ◌++◌, ◌+◌, ◌==◌, ◌∷◌,
}

pub record AlertDb (F : Type 0) : Type 0 where
  pub rules : List (AlertRule F)
  pub servers : List MonitoredServer
  pub samples : List (MonitoringSample F)
  -- the state of a rule for a server
  pub states : ℕ → ℕ → Option (AlertRuleState F)
  pub firings : List (AlertFiring F)
  pub next_firing : ℕ

-- A sweep under way: the database, what is to be delivered after the commit, and the counts.
pub record Sweep (F : Type 0) : Type 0 where
  pub db : AlertDb F
  pub pending_delivery : List ℕ
  pub evaluated : ℕ
  pub fired : ℕ
  pub resolved : ℕ

abbrev pub is_pair : ℕ → ℕ → ℕ → ℕ → Bool
is_pair r s r' s' = r == r' && s == s'

abbrev same_id : Option ℕ → ℕ → Bool
same_id none i = false
same_id (some j) i = j == i

abbrev is_unresolved : Option ℕ → Bool
is_unresolved none = true
is_unresolved (some at) = false

module _ {F : Type 0} where
  -- A state that `_get_state` makes.
  abbrev new_state : AlertRuleState F
  new_state = record {
    in_breach = false;
    last_value = none;
    last_fired_at = none;
    last_evaluated_at = none;
  }

  -- _get_state
  abbrev pub get_state : AlertDb F → ℕ → ℕ → AlertRuleState F
  get_state db rule_id server_id = elim (db.states rule_id server_id) [
    | none ↦ new_state
    | some state ↦ state
  ]

  abbrev pub set_state : ℕ → ℕ → AlertRuleState F → AlertDb F → AlertDb F
  set_state r s state db = record db {
    states = λ r' s'. if is_pair r s r' s' then some state else db.states r' s';
  }

  -- A firing of a rule for a server that is not resolved.
  abbrev pub is_firing_of : ℕ → ℕ → AlertFiring F → Bool
  is_firing_of r s firing = same_id firing.rule_id r && same_id firing.server_id s

  abbrev pub is_open : AlertFiring F → Bool
  is_open firing = is_unresolved firing.resolved_at

  -- _resolve_open_firings
  unfoldable pub resolve_open_firings : ℕ → ℕ → ℕ → List (AlertFiring F) → List (AlertFiring F)
  resolve_open_firings now r s firings =
      map
        (λ firing.
          if is_firing_of r s firing && is_open firing
          then record firing { resolved_at = some now }
          else firing)
        firings

  abbrev pub new_firing : ℕ → AlertRule F → MonitoredServer → F → AlertFiring F
  new_firing i rule server value = record {
    id = i;
    rule_id = some rule.id;
    rule_name = rule.name;
    server_id = some server.id;
    server_name = server.name;
    metric = rule.metric;
    comparator = rule.comparator;
    threshold = rule.threshold;
    value = value;
    channels = [];
    delivered_at = none;
    resolved_at = none;
  }

  -- The state after a reading.
  abbrev pub read_state : Bool → Option ℕ → F → ℕ → AlertRuleState F
  read_state breaching last_fired value now = record {
    in_breach = breaching;
    last_value = some value;
    last_fired_at = last_fired;
    last_evaluated_at = some now;
  }

  -- A breach whose cooldown has elapsed.
  unfoldable pub fire : ℕ → AlertRule F → MonitoredServer → F → Sweep F → Sweep F
  fire now rule server value sweep =
      let db = sweep.db in
      record sweep {
        db = set_state rule.id server.id (read_state true (some now) value now) (record db {
          firings = db.firings ++ new_firing db.next_firing rule server value ∷ [];
          next_firing = db.next_firing + 1;
        });
        pending_delivery = sweep.pending_delivery ++ db.next_firing ∷ [];
        fired = sweep.fired + 1;
        evaluated = sweep.evaluated + 1;
      }

  -- A breach during the cooldown.
  unfoldable pub stay_breached : ℕ → AlertRule F → MonitoredServer → F → Sweep F → Sweep F
  stay_breached now rule server value sweep =
      let state = get_state sweep.db rule.id server.id in
      record sweep {
        db = set_state rule.id server.id (read_state true state.last_fired_at value now) sweep.db;
        evaluated = sweep.evaluated + 1;
      }

  -- No breach: open firings are closed if there was one.
  unfoldable pub recover : ℕ → AlertRule F → MonitoredServer → F → Sweep F → Sweep F
  unfolding resolve_open_firings
  recover now rule server value sweep =
      let state = get_state sweep.db rule.id server.id in
      let db = sweep.db in
      record sweep {
        db =
            set_state rule.id server.id (read_state false state.last_fired_at value now)
              (record db {
                firings =
                    if state.in_breach
                    then resolve_open_firings now rule.id server.id db.firings
                    else db.firings;
              });
        resolved = if state.in_breach then sweep.resolved + 1 else sweep.resolved;
        evaluated = sweep.evaluated + 1;
      }

  -- The body of the inner loop, from a reading on.
  unfoldable pub evaluate_value :
      Floats F → ℕ → AlertRule F → MonitoredServer → F → Sweep F → Sweep F
  unfolding compare fire stay_breached recover
  evaluate_value floats now rule server value sweep =
      if compare floats value rule.comparator rule.threshold
      then (if is_due_again now rule (get_state sweep.db rule.id server.id).last_fired_at
          then fire now rule server value sweep
          else stay_breached now rule server value sweep)
      else recover now rule server value sweep

  -- `getattr(sample, rule.metric, None)` of the latest sample.
  abbrev pub read_metric : String → Option (MonitoringSample F) → Option F
  read_metric metric none = none
  read_metric metric (some sample) = sample.attribute metric

  abbrev pub evaluate_reading :
      Floats F → ℕ → AlertRule F → MonitoredServer → Option F → Sweep F → Sweep F
  evaluate_reading floats now rule server none sweep = sweep
  evaluate_reading floats now rule server (some value) sweep =
      evaluate_value floats now rule server value sweep

  unfoldable pub evaluate_server : Floats F → ℕ → AlertRule F → MonitoredServer → Sweep F → Sweep F
  unfolding evaluate_value latest_sample
  evaluate_server floats now rule server sweep =
      evaluate_reading floats now rule server
        (read_metric rule.metric (latest_sample server.id sweep.db.samples)) sweep

  unfoldable pub evaluate_servers :
      Floats F → ℕ → AlertRule F → List MonitoredServer → Sweep F → Sweep F
  unfolding evaluate_server
  evaluate_servers floats now rule [] sweep = sweep
  evaluate_servers floats now rule (server ∷ servers) sweep =
      evaluate_servers floats now rule servers (evaluate_server floats now rule server sweep)

  unfoldable pub evaluate_rules : Floats F → ℕ → List (AlertRule F) → Sweep F → Sweep F
  unfolding evaluate_servers scope_servers
  evaluate_rules floats now [] sweep = sweep
  evaluate_rules floats now (rule ∷ rules) sweep =
      evaluate_rules floats now rules
        (evaluate_servers floats now rule (scope_servers sweep.db.servers rule) sweep)

  -- evaluate_alerts: the database after the commit, and the firings that are handed to `deliver`.
  unfoldable pub evaluate_alerts : Floats F → ℕ → AlertDb F → Sweep F
  unfolding evaluate_rules
  evaluate_alerts floats now db =
      evaluate_rules floats now (keep_if (λ rule. rule.enabled) db.rules)
        (record { db = db; pending_delivery = []; evaluated = 0; fired = 0; resolved = 0 })
