-- ===== src/Alerts/Cooldown.antt =====
-- `evaluate_alerts` of backend/app/core/alerts.py: how often a rule fires for a server.
use frappe_os.Alerts.Incidents.{get_state-set_state, same_pair}
use frappe_os.Alerts.Keeps.{evaluate_rules-Kept, Kept}
use frappe_os.Alerts.Sweep.{
  is_pair, read_state, new_firing, is_firing_of, get_state, Sweep, AlertDb, evaluate_alerts,
  recover, stay_breached, fire,
}
use frappe_os.Alerts.Rate.{
  next-Spaced, append-length, resolve-length, last_kept, Spaced, kept-Rate, firings_of, Rate,
  sweeps,
}
use frappe_os.Alerts.{
  AlertFiring, is_due_again, MonitoredServer, MonitoringSample, cooldown, AlertRule, Floats,
}
use frappe_os.Base.{
  All, Bool-cases, List, [], ap, arith, false, if_either, if◌then◌else◌, inl, inr, keep_if, length,
  refl, some, subst, sym, true, ℕ, ◌*◌, ◌+◌, ◌∙◌, ◌∷◌, ◌≡◌, ◌≤◌, ◌⊎◌,
}

module _ {F : Type 0} (rules : List (AlertRule F)) (r s c a b n : ℕ) where
  fire-Rate :
      (now : ℕ) (rule : AlertRule F) (server : MonitoredServer) (value : F) (sweep : Sweep F)
      → (rule.id ≡ r → cooldown rule ≡ c)
      → a ≤ now
      → now ≤ b
      → is_due_again now rule (get_state sweep.db rule.id server.id).last_fired_at ≡ true
      → Rate rules r s c a b n sweep
      → Rate rules r s c a b n (fire now rule server value sweep)
  unfolding fire
  fire-Rate now rule server value sweep cool from to due (same_rules, h) =
      let db = sweep.db in
      let firing = new_firing db.next_firing rule server value in
      let state = read_state true (some now) value now in
      let count = append-length r s firing db.firings in
      elim (Bool-cases (is_pair rule.id server.id r s)) [
        | inl p ↦
            let (f, g) = same_pair rule.id server.id r s p in
            let more : firings_of r s (fire now rule server value sweep).db
                ≡ firings_of r s db + 1 =
              count ∙ ap (λ q. firings_of r s db + (if q then 1 else 0)) p in
            let here : is_due_again now rule (get_state db r s).last_fired_at ≡ true =
              rw (sym f, sym g) due in
            (
              same_rules,
              inr (record {
                last = now;
                fired_at =
                    ap (λ st. st.last_fired_at) (get_state-set_state rule.id server.id state db r s)
                    ∙ rw p refl;
                within = to;
                spaced =
                    subst (λ k. a + c * k ≤ now + c * (n + 1)) (sym more)
                      (next-Spaced rules r s c a b n now (firings_of r s db) rule (get_state db r s)
                        (cool f) from here
                        (elim h [
                          | inl e ↦ inl e
                          | inr sp ↦ inr (sp.last, sp.fired_at, sp.spaced)
                        ]));
              }),
            )
        | inr p ↦
            kept-Rate rules r s c a b n sweep (fire now rule server value sweep) refl
              (count ∙ ap (λ q. firings_of r s db + (if q then 1 else 0)) p ∙ omega arith)
              (ap (λ st. st.last_fired_at) (get_state-set_state rule.id server.id state db r s)
                ∙ rw p refl)
              (same_rules, h)
      ]

  stay_breached-Rate :
      (rule : AlertRule F) (now : ℕ) (server : MonitoredServer) (value : F) (sweep : Sweep F)
      → Rate rules r s c a b n sweep
      → Rate rules r s c a b n (stay_breached now rule server value sweep)
  unfolding stay_breached
  stay_breached-Rate rule now server value sweep h =
      kept-Rate rules r s c a b n sweep (stay_breached now rule server value sweep) refl refl
        (last_kept rules r s c a b n rule.id server.id
          (read_state true (get_state sweep.db rule.id server.id).last_fired_at value now) sweep.db
          refl)
        h

  recover-Rate :
      (rule : AlertRule F) (now : ℕ) (server : MonitoredServer) (value : F) (sweep : Sweep F)
      → Rate rules r s c a b n sweep
      → Rate rules r s c a b n (recover now rule server value sweep)
  unfolding recover
  recover-Rate rule now server value sweep h =
      let db = sweep.db in
      kept-Rate rules r s c a b n sweep (recover now rule server value sweep) refl
        (if_either {A = List (AlertFiring F)}
          (λ fs. length (keep_if (is_firing_of r s) fs) ≡ firings_of r s db)
          (get_state db rule.id server.id).in_breach
          (resolve-length now r s rule.id server.id db.firings) refl)
        (last_kept rules r s c a b n rule.id server.id
          (read_state false (get_state db rule.id server.id).last_fired_at value now) db refl)
        h

  abbrev Cooled : AlertRule F → Type 0
  Cooled rule = rule.id ≡ r → cooldown rule ≡ c

  All-Kept :
      (floats : Floats F) (now : ℕ)
      → a ≤ now
      → now ≤ b
      → (xs : List (AlertRule F)) → All Cooled xs
      → All (Kept (Rate rules r s c a b n) floats now) (keep_if (λ rule. rule.enabled) xs)
  All-Kept floats now from to [] h = tt
  All-Kept floats now from to (rule ∷ xs) h =
      let rest = All-Kept floats now from to xs h.1 in
      if_either (All (Kept (Rate rules r s c a b n) floats now)) rule.enabled
        (
          record {
            fired_keeps = λ server value sweep. fire-Rate now rule server value sweep h.0 from to;
            breached_keeps = stay_breached-Rate rule now;
            recovered_keeps = recover-Rate rule now;
          },
          rest,
        )
        rest

  sweeps-Rate :
      (floats : Floats F) (rounds : List (ℕ × List (MonitoringSample F))) (db : AlertDb F)
      → All Cooled rules
      → All (λ round. (a ≤ round.0) × (round.0 ≤ b)) rounds
      → (db.rules ≡ rules) × ((firings_of r s db ≡ n) ⊎ Spaced rules r s c a b n db)
      → (firings_of r s (sweeps floats rounds db) ≡ n)
        ⊎ Spaced rules r s c a b n (sweeps floats rounds db)
  unfolding sweeps evaluate_alerts
  sweeps-Rate floats [] db cooled times h = h.1
  sweeps-Rate floats ((now, samples) ∷ rounds) db cooled ((from, to), times) (same_rules, h) =
      let start : Sweep F = record {
        db = record db { samples = samples };
        pending_delivery = [];
        evaluated = 0;
        fired = 0;
        resolved = 0;
      } in
      let kept =
        evaluate_rules-Kept (Rate rules r s c a b n) floats now
          (keep_if (λ rule. rule.enabled) db.rules) start
          (All-Kept floats now from to db.rules (subst (All Cooled) (sym same_rules) cooled))
          (kept-Rate rules r s c a b n (record start { db = db }) start refl refl refl
            (same_rules, h)) in
      sweeps-Rate floats rounds (evaluate_alerts floats now (record db { samples = samples })).db
        cooled times kept

-- Whatever the samples, in sweeps between the instants `a` and `b` the rule of id `r`, whose cooldown is
-- `c`, fires for a server at most once, and once more for each cooldown that fits between the two.
pub sweeps-cooldown :
    {F : Type 0} (floats : Floats F) (r s c a b : ℕ) (rounds : List (ℕ × List (MonitoringSample F)))
    (db : AlertDb F)
    → All (λ rule. rule.id ≡ r → cooldown rule ≡ c) db.rules
    → All (λ round. (a ≤ round.0) × (round.0 ≤ b)) rounds
    → a ≤ b
    → a + c * firings_of r s (sweeps floats rounds db) ≤ b + c * (firings_of r s db + 1)
sweeps-cooldown floats r s c a b rounds db cooled times order =
    elim (sweeps-Rate db.rules r s c a b (firings_of r s db) floats rounds db cooled times
      (refl, inl refl)) [
        | inl e ↦ rw e (omega arith)
        | inr sp ↦ omega (arith, sp.spaced, sp.within)
      ]
