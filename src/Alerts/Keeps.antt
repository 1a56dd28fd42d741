-- ===== src/Alerts/Keeps.antt =====
-- What each case of `evaluate_alerts` of backend/app/core/alerts.py keeps, a sweep keeps.
use frappe_os.Alerts.{
  latest_sample, compare, is_due_again, MonitoredServer, scope_servers, AlertRule, Floats,
}
use frappe_os.Alerts.Sweep.{
  recover, stay_breached, fire, get_state, read_metric, evaluate_server, evaluate_servers,
  evaluate_rules, evaluate_value, Sweep,
}
use frappe_os.Base.{All, Bool-cases, List, Option-cases, [], if_either, inl, inr, true, ℕ, ◌∷◌, ◌≡◌}

module _ {F : Type 0} (P : Sweep F → Type 0) (floats : Floats F) (now : ℕ) where
  -- What the three cases for a reading keep, a sweep keeps.
  pub record Kept (rule : AlertRule F) : Type 0 where
    pub fired_keeps :
        (server : MonitoredServer) (value : F) (sweep : Sweep F)
        → is_due_again now rule (get_state sweep.db rule.id server.id).last_fired_at ≡ true
        → P sweep
        → P (fire now rule server value sweep)
    pub breached_keeps :
        (server : MonitoredServer) (value : F) (sweep : Sweep F)
        → P sweep
        → P (stay_breached now rule server value sweep)
    pub recovered_keeps :
        (server : MonitoredServer) (value : F) (sweep : Sweep F)
        → P sweep
        → P (recover now rule server value sweep)

  evaluate_value-Kept :
      (rule : AlertRule F) (server : MonitoredServer) (value : F) (sweep : Sweep F)
      → Kept rule
      → P sweep
      → P (evaluate_value floats now rule server value sweep)
  unfolding evaluate_value
  evaluate_value-Kept rule server value sweep k h =
      if_either P (compare floats value rule.comparator rule.threshold)
        (elim (Bool-cases
          (is_due_again now rule (get_state sweep.db rule.id server.id).last_fired_at)) [
            | inl e ↦ rw e (k.fired_keeps server value sweep e h)
            | inr e ↦ rw e (k.breached_keeps server value sweep h)
          ])
        (k.recovered_keeps server value sweep h)

  evaluate_servers-Kept :
      (rule : AlertRule F) (servers : List MonitoredServer) (sweep : Sweep F)
      → Kept rule
      → P sweep
      → P (evaluate_servers floats now rule servers sweep)
  unfolding evaluate_servers evaluate_server
  evaluate_servers-Kept rule [] sweep k h = h
  evaluate_servers-Kept rule (server ∷ servers) sweep k h =
      evaluate_servers-Kept rule servers (evaluate_server floats now rule server sweep) k
        (elim (Option-cases (read_metric rule.metric (latest_sample server.id sweep.db.samples))) [
          | inl e ↦ rw (e, evaluate_server) h
          | inr (value, e) ↦
              rw (e, evaluate_server) (evaluate_value-Kept rule server value sweep k h)
        ])

  pub evaluate_rules-Kept :
      (rules : List (AlertRule F)) (sweep : Sweep F)
      → All Kept rules
      → P sweep
      → P (evaluate_rules floats now rules sweep)
  unfolding evaluate_rules
  evaluate_rules-Kept [] sweep k h = h
  evaluate_rules-Kept (rule ∷ rules) sweep k h =
      evaluate_rules-Kept rules _ k.1
        (evaluate_servers-Kept rule (scope_servers sweep.db.servers rule) sweep k.0 h)
