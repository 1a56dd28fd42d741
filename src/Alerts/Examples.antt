-- ===== src/Alerts/Examples.antt =====
-- A disk that fills up and is cleaned, with numbers in place of floats.
use frappe_os.Alerts.Rate.{sweeps, firings_of}
use frappe_os.Base.{
  All, List, [], arith, false, if◌then◌else◌, leb, length, ltb, map, none, refl, some, str_eq, true,
  ℕ, ◌*◌, ◌++◌, ◌+◌, ◌==◌, ◌∷◌, ◌≡◌, ◌≤◌,
}
use frappe_os.Base.Text.{codes}
use frappe_os.Alerts.Signed.{deliver_firing-Signed, Signed}
use frappe_os.Alerts.Incidents.{evaluate_alerts-Explained, AllExplained}
use frappe_os.Alerts.Sweep.{
  resolve_open_firings, recover, evaluate_value, evaluate_server, evaluate_servers, is_pair,
  evaluate_rules, evaluate_alerts, AlertDb,
}
use frappe_os.Alerts.Deliver.{
  attempts, post_webhook, deliver_email, deliver_webhook, Channels, deliver_firing, Sent,
}
use frappe_os.Regex.{Unicode}
use frappe_os.Alerts.Cooldown.{sweeps-cooldown}
use frappe_os.Alerts.{
  scope_servers, latest_sample, compare, AlertRule, AlertFiring, Floats, MonitoringSample,
  AlertRuleState,
}

abbrev floats : Floats ℕ
floats = record { less = ltb; at_most = leb; equal = ◌==◌ }

abbrev rule : AlertRule ℕ
rule = record {
  id = 1;
  name = codes "disk";
  metric = "disk_pct";
  comparator = ">";
  threshold = 85;
  scope = "global";
  scope_server_id = none;
  cooldown_minutes = 30;
  channel_email = false;
  channel_webhook = true;
  email_to = none;
  webhook_url = some (codes "https://hooks.test/a");
  webhook_secret_enc = some (codes "token");
  enabled = true;
}

abbrev reading : ℕ → ℕ → MonitoringSample ℕ
reading ts value = record {
  server_id = 4;
  ts = ts;
  succeeded = true;
  attribute = λ name. if str_eq name "disk_pct" then some value else none;
}

abbrev firing : AlertFiring ℕ
firing = record {
  id = 7;
  rule_id = some 1;
  rule_name = codes "disk";
  server_id = some 4;
  server_name = codes "db";
  metric = "disk_pct";
  comparator = ">";
  threshold = 85;
  value = 91;
  channels = [];
  delivered_at = none;
  resolved_at = none;
}

abbrev breached_at : ℕ → AlertRuleState ℕ
breached_at now = record {
  in_breach = true;
  last_value = some 91;
  last_fired_at = some now;
  last_evaluated_at = some now;
}

-- The firing is open, and the next reading is a recovery.
abbrev db : AlertDb ℕ
db = record {
  rules = rule ∷ [];
  servers = record { id = 4; name = codes "db"; status = "active" } ∷ [];
  samples = reading 20 40 ∷ (reading 10 91 ∷ []);
  states = λ r s. if is_pair 1 4 r s then some (breached_at 10) else none;
  firings = firing ∷ [];
  next_firing = 8;
}

db-AllExplained : AllExplained db
db-AllExplained = ((λ r s of_pair unresolved. ground arith), tt)

abbrev swept : AlertDb ℕ
swept = (evaluate_alerts floats 30 db).db

-- The sweep resolves the firing.
swept-resolved : map (λ f. f.resolved_at) swept.firings ≡ some 30 ∷ []
unfolding evaluate_alerts evaluate_rules evaluate_servers evaluate_server evaluate_value recover
    resolve_open_firings compare latest_sample scope_servers
swept-resolved = refl

evaluate_alerts-Explained_example : AllExplained swept
evaluate_alerts-Explained_example = evaluate_alerts-Explained floats 30 db db-AllExplained

-- Three breaches within five minutes.
abbrev rounds : List (ℕ × List (MonitoringSample ℕ))
rounds =
    (1000, reading 1000 99 ∷ [])
    ∷ ((2000, reading 2000 99 ∷ []) ∷ ((3000, reading 3000 99 ∷ []) ∷ []))

sweeps-cooldown_example :
    1000 + 1800000000 * firings_of 1 4 (sweeps floats rounds db)
    ≤ 3000 + 1800000000 * (firings_of 1 4 db + 1)
sweeps-cooldown_example =
    sweeps-cooldown floats 1 4 1800000000 1000 3000 rounds db ((λ same. refl), tt)
      ((omega arith, omega arith), ((omega arith, omega arith), ((omega arith, omega arith), tt)))
      (omega arith)

abbrev channels : Channels ℕ
channels = record {
  hex_digest = λ secret body. secret ++ body;
  encode_payload = λ f. f.server_name;
  decrypt = λ token. some (codes "key");
  active_emails = [];
  accepts_mail = λ address. true;
  answers = λ attempt. attempt == 1;
}

abbrev ascii : Unicode
ascii = record { is_word = λ c. false; is_space = λ c. c == 32 }

abbrev delivered : AlertFiring ℕ × Sent
delivered = deliver_firing channels ascii 40 3 (some rule) firing

-- The first request fails and the second is answered.
delivered-posts : length delivered.1.posts ≡ 2
unfolding deliver_firing deliver_webhook deliver_email post_webhook attempts
delivered-posts = refl

deliver_firing-Signed_example :
    All (Signed channels rule firing) delivered.1.posts × (length delivered.1.posts ≤ 3)
deliver_firing-Signed_example = deliver_firing-Signed channels ascii 40 3 rule firing
