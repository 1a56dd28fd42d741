-- ===== src/Alerts/Incidents.antt =====
-- `evaluate_alerts` of backend/app/core/alerts.py: open firings and the breaches they stand for.
use frappe_os.Alerts.Keeps.{evaluate_rules-Kept, Kept}
use frappe_os.Base.{
  ==_iff, All, All-append, All-map, Bool-cases, List, [], ap, arith, false, if◌then◌else◌, inl, inr,
  keep_if, refl, some, sym, true, ℕ, ◌&&◌, ◌∙◌, ◌∷◌, ◌≡◌,
}
use frappe_os.Base.Text.{same}
use frappe_os.Base.{
  ==_iff, All, All-append, All-map, Bool-cases, List, [], ap, arith, false, if◌then◌else◌, inl, inr,
  keep_if, refl, some, sym, true, ℕ, ◌&&◌, ◌∙◌, ◌∷◌, ◌≡◌,
}
use frappe_os.Base.Text.{same}
use frappe_os.Alerts.Sweep.{
  read_state, evaluate_alerts, Sweep, resolve_open_firings, stay_breached, fire, recover,
  new_firing, is_open, is_firing_of, set_state, get_state, AlertDb, is_pair,
}
use frappe_os.Alerts.{Floats, AlertFiring, MonitoredServer, AlertRule, AlertRuleState}

pub same_pair : (r s r' s' : ℕ) → is_pair r s r' s' ≡ true → (r ≡ r') × (s ≡ s')
same_pair r s r' s' h = ground (arith, ==_iff r r', ==_iff s s')

module _ {F : Type 0} where
  -- An open firing of a rule for a server has a state that is in breach.
  abbrev pub Explained : AlertDb F → AlertFiring F → Type 0
  Explained db firing =
      (r s : ℕ)
      → is_firing_of r s firing ≡ true
      → is_open firing ≡ true
      → (get_state db r s).in_breach ≡ true

  abbrev pub AllExplained : AlertDb F → Type 0
  AllExplained db = All (Explained db) db.firings

  pub get_state-set_state :
      (r s : ℕ) (state : AlertRuleState F) (db : AlertDb F) (r' s' : ℕ)
      → get_state (set_state r s state db) r' s'
        ≡ (if is_pair r s r' s' then state else get_state db r' s')
  get_state-set_state r s state db r' s' = ground arith

  elsewhere :
      (r s : ℕ) (state : AlertRuleState F) (db : AlertDb F) (r' s' : ℕ)
      → is_pair r s r' s' ≡ false
      → (get_state db r' s').in_breach ≡ true
      → (get_state (set_state r s state db) r' s').in_breach ≡ true
  elsewhere r s state db r' s' apart breach =
      ap (λ st. st.in_breach) (get_state-set_state r s state db r' s') ∙ rw apart breach

  -- The state of one pair is written, and in breach: what was explained stays so.
  breached-Explained :
      (r s : ℕ) (state : AlertRuleState F) (db : AlertDb F) (firing : AlertFiring F)
      → state.in_breach ≡ true
      → Explained db firing
      → Explained (set_state r s state db) firing
  breached-Explained r s state db firing breached h r' s' of_pair unresolved =
      ground (arith, get_state-set_state r s state db r' s', h r' s' of_pair unresolved)

  resolved-Explained :
      (now r s : ℕ) (state : AlertRuleState F) (db : AlertDb F) (firing : AlertFiring F)
      → Explained db firing
      → Explained (set_state r s state db) (
          if is_firing_of r s firing && is_open firing
          then record firing { resolved_at = some now }
          else firing)
  resolved-Explained now r s state db firing h =
      elim (Bool-cases (is_firing_of r s firing && is_open firing)) [
        | inl e ↦ rw e (λ r' s' of_pair unresolved. ground arith)
        | inr e ↦ rw e (λ r' s' of_pair unresolved. elim (Bool-cases (is_pair r s r' s')) [
          | inl same ↦
              let (f, g) = same_pair r s r' s' same in
              let again : is_firing_of r s firing ≡ true = rw (f, g) of_pair in ground arith
          | inr apart ↦ elsewhere r s state db r' s' apart (h r' s' of_pair unresolved)
        ])
      ]

  untouched-Explained :
      (r s : ℕ) (state : AlertRuleState F) (db : AlertDb F) (firing : AlertFiring F)
      → (get_state db r s).in_breach ≡ false
      → Explained db firing
      → Explained (set_state r s state db) firing
  untouched-Explained r s state db firing calm h r' s' of_pair unresolved =
      elim (Bool-cases (is_pair r s r' s')) [
        | inl same ↦
            let (f, g) = same_pair r s r' s' same in
            let breach : (get_state db r s).in_breach ≡ true =
              rw (f, g) (h r' s' of_pair unresolved) in
            let never : false ≡ true = sym calm ∙ breach in ground arith
        | inr apart ↦ elsewhere r s state db r' s' apart (h r' s' of_pair unresolved)
      ]

  fired-Explained :
      (i now : ℕ) (rule : AlertRule F) (server : MonitoredServer) (value : F) (db : AlertDb F)
      (state : AlertRuleState F)
      → state.in_breach ≡ true
      → Explained (set_state rule.id server.id state db) (new_firing i rule server value)
  fired-Explained i now rule server value db state breached r s of_pair unresolved =
      ap (λ st. st.in_breach) (get_state-set_state rule.id server.id state db r s)
      ∙ (let same : is_pair rule.id server.id r s ≡ true = of_pair in rw same breached)

  resolve-Explained :
      (now r s : ℕ) (state : AlertRuleState F) (db : AlertDb F) (firings : List (AlertFiring F))
      → All (Explained db) firings
      → All (Explained (set_state r s state db)) (resolve_open_firings now r s firings)
  unfolding resolve_open_firings
  resolve-Explained now r s state db [] h = tt
  resolve-Explained now r s state db (firing ∷ firings) h = (
    resolved-Explained now r s state db firing h.0,
    resolve-Explained now r s state db firings h.1,
  )

  recover-Explained :
      (now : ℕ) (rule : AlertRule F) (server : MonitoredServer) (value : F) (sweep : Sweep F)
      → AllExplained sweep.db
      → AllExplained (recover now rule server value sweep).db
  unfolding recover
  recover-Explained now rule server value sweep h =
      let db = sweep.db in
      let state = get_state db rule.id server.id in
      let after = read_state false state.last_fired_at value now in
      elim (Bool-cases state.in_breach) [
        | inl e ↦ rw e (resolve-Explained now rule.id server.id after db db.firings h)
        | inr e ↦ rw e (
            All-map (Explained db) (Explained (set_state rule.id server.id after db))
              (λ firing. untouched-Explained rule.id server.id after db firing e) db.firings h)
      ]

  fire-Explained :
      (now : ℕ) (rule : AlertRule F) (server : MonitoredServer) (value : F) (sweep : Sweep F)
      → AllExplained sweep.db
      → AllExplained (fire now rule server value sweep).db
  unfolding fire
  fire-Explained now rule server value sweep h =
      let db = sweep.db in
      let after = read_state true (some now) value now in
      All-append (Explained (set_state rule.id server.id after db)) db.firings _
        (All-map (Explained db) (Explained (set_state rule.id server.id after db))
          (λ firing. breached-Explained rule.id server.id after db firing refl) db.firings h)
        (fired-Explained db.next_firing now rule server value db after refl, tt)

  stay_breached-Explained :
      (now : ℕ) (rule : AlertRule F) (server : MonitoredServer) (value : F) (sweep : Sweep F)
      → AllExplained sweep.db
      → AllExplained (stay_breached now rule server value sweep).db
  unfolding stay_breached
  stay_breached-Explained now rule server value sweep h =
      let db = sweep.db in
      let state = get_state db rule.id server.id in
      let after = read_state true state.last_fired_at value now in
      All-map (Explained db) (Explained (set_state rule.id server.id after db))
        (λ firing. breached-Explained rule.id server.id after db firing refl) db.firings h

module _ {F : Type 0} (floats : Floats F) (now : ℕ) where
  All-Kept :
      (rules : List (AlertRule F)) → All (Kept (λ sweep. AllExplained sweep.db) floats now) rules
  All-Kept [] = tt
  All-Kept (rule ∷ rules) = (
    record {
      fired_keeps = λ server value sweep due h. fire-Explained now rule server value sweep h;
      breached_keeps = stay_breached-Explained now rule;
      recovered_keeps = recover-Explained now rule;
    },
    All-Kept rules,
  )

  -- If every open firing belongs to a rule and a server that are in breach, a sweep keeps it so: what
  -- recovers is resolved.
  pub evaluate_alerts-Explained :
      (db : AlertDb F) → AllExplained db → AllExplained (evaluate_alerts floats now db).db
  unfolding evaluate_alerts
  evaluate_alerts-Explained db h =
      evaluate_rules-Kept (λ sweep. AllExplained sweep.db) floats now
        (keep_if (λ rule. rule.enabled) db.rules) _
        (All-Kept (keep_if (λ rule. rule.enabled) db.rules)) h
