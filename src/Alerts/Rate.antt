-- ===== src/Alerts/Rate.antt =====
-- How often a rule of backend/app/core/alerts.py has fired for a server, and when it did last.
use frappe_os.Base.{
  Bool-cases, List, [], ap, arith, if◌then◌else◌, inl, inr, keep_if, leb, leb→le, length, refl,
  some, subst, sym, true, ℕ, ◌&&◌, ◌*◌, ◌++◌, ◌+◌, ◌∙◌, ◌∷◌, ◌≡◌, ◌≤◌, ◌⊎◌,
}
use frappe_os.Alerts.Incidents.{same_pair, get_state-set_state}
use frappe_os.Alerts.Sweep.{
  is_pair, set_state, is_open, Sweep, get_state, is_firing_of, AlertDb, evaluate_alerts,
  resolve_open_firings,
}
use frappe_os.Alerts.{
  is_due_again, cooldown, MonitoringSample, Floats, AlertRuleState, AlertFiring, AlertRule,
}

module _ {F : Type 0} where
  -- The number of firings of a rule for a server.
  abbrev pub firings_of : ℕ → ℕ → AlertDb F → ℕ
  firings_of r s db = length (keep_if (is_firing_of r s) db.firings)

  -- Sweeps one after another, each at its instant and on the samples of the time.
  unfoldable pub sweeps : Floats F → List (ℕ × List (MonitoringSample F)) → AlertDb F → AlertDb F
  unfolding evaluate_alerts
  sweeps floats [] db = db
  sweeps floats ((now, samples) ∷ rounds) db =
      sweeps floats rounds (evaluate_alerts floats now (record db { samples = samples })).db

  pub resolve-length :
      (now r s r' s' : ℕ) (firings : List (AlertFiring F))
      → length (keep_if (is_firing_of r s) (resolve_open_firings now r' s' firings))
        ≡ length (keep_if (is_firing_of r s) firings)
  unfolding resolve_open_firings
  resolve-length now r s r' s' [] = refl
  resolve-length now r s r' s' (firing ∷ firings) =
      elim (Bool-cases (is_firing_of r' s' firing && is_open firing)) [
        | inl e ↦ rw e (ground (arith, resolve-length now r s r' s' firings))
        | inr e ↦ rw e (ground (arith, resolve-length now r s r' s' firings))
      ]

  pub append-length :
      (r s : ℕ) (firing : AlertFiring F) (firings : List (AlertFiring F))
      → length (keep_if (is_firing_of r s) (firings ++ firing ∷ []))
        ≡ length (keep_if (is_firing_of r s) firings) + (if is_firing_of r s firing then 1 else 0)
  append-length r s firing [] = ground arith
  append-length r s firing (x ∷ firings) = ground (arith, append-length r s firing firings)

module _ {F : Type 0} (rules : List (AlertRule F)) (r s c a b n : ℕ) where
  -- The pair has fired since the start, with at least a cooldown between two firings.
  pub record Spaced (db : AlertDb F) : Type 0 where
    pub last : ℕ
    pub fired_at : (get_state db r s).last_fired_at ≡ some last
    pub within : last ≤ b
    pub spaced : a + c * firings_of r s db ≤ last + c * (n + 1)

  abbrev pub Rate : Sweep F → Type 0
  Rate sweep = (sweep.db.rules ≡ rules) × ((firings_of r s sweep.db ≡ n) ⊎ Spaced sweep.db)

  -- A step that fires nothing for the pair and keeps when it last fired.
  pub kept-Rate :
      (sweep sweep' : Sweep F)
      → sweep'.db.rules ≡ sweep.db.rules
      → firings_of r s sweep'.db ≡ firings_of r s sweep.db
      → (get_state sweep'.db r s).last_fired_at ≡ (get_state sweep.db r s).last_fired_at
      → Rate sweep
      → Rate sweep'
  kept-Rate sweep sweep' rules_kept count last_kept (same_rules, inl e) =
      (rules_kept ∙ same_rules, inl (count ∙ e))
  kept-Rate sweep sweep' rules_kept count last_kept (same_rules, inr h) = (
    rules_kept ∙ same_rules,
    inr (record {
      last = h.last;
      fired_at = last_kept ∙ h.fired_at;
      within = h.within;
      spaced = subst (λ k. a + c * k ≤ h.last + c * (n + 1)) (sym count) h.spaced;
    }),
  )

  pub last_kept :
      (r' s' : ℕ) (state : AlertRuleState F) (db : AlertDb F)
      → state.last_fired_at ≡ (get_state db r' s').last_fired_at
      → (get_state (set_state r' s' state db) r s).last_fired_at ≡ (get_state db r s).last_fired_at
  last_kept r' s' state db e =
      ap (λ st. st.last_fired_at) (get_state-set_state r' s' state db r s)
      ∙ elim (Bool-cases (is_pair r' s' r s)) [
        | inl p ↦ (let (f, g) = same_pair r' s' r s p in rw (p, sym f, sym g) e)
        | inr p ↦ rw p refl
      ]

  pub next-Spaced :
      (now k : ℕ) (rule : AlertRule F) (state : AlertRuleState F)
      → cooldown rule ≡ c
      → a ≤ now
      → is_due_again now rule state.last_fired_at ≡ true
      → (k ≡ n)
        ⊎ ((last : ℕ) × (state.last_fired_at ≡ some last) × (a + c * k ≤ last + c * (n + 1)))
      → a + c * (k + 1) ≤ now + c * (n + 1)
  next-Spaced now k rule state cool from due (inl e) = rw e (omega arith)
  next-Spaced now k rule state cool from due (inr (last, e, h)) =
      let elapsed : leb (last + cooldown rule) now ≡ true =
        subst (λ o. is_due_again now rule o ≡ true) e due in
      let gap : last + c ≤ now = rw (sym cool) (leb→le (last + cooldown rule) now elapsed) in
      omega arith
