-- ===== src/Windows/Occurrences.antt =====
-- What `occurrences_between` lists, against the triggers of the cron expression.
use mathlib.Core.List.{Memᴰ}
use frappe_os.Base.{
  ==_iff, Bool-cases, List, Option, [], arith, false, inl, inr, ltb, none, refl, some, subst, suc,
  sym, true, zero, ℕ, ◌+◌, ◌-◌, ◌<◌, ◌==◌, ◌↔◌, ◌∷◌, ◌≡◌, ◌≤◌, ◌⊎◌,
}
use frappe_os.Base.Text.{same}
use frappe_os.Windows.{Cron, MaintenanceWindow, occurrences_from, occurrences_between}
use frappe_os.Windows.Triggers.{Finds}
-- What `occurrences_between` lists, against the triggers of the cron expression.
use frappe_os.Base.{
  ==_iff, Bool-cases, List, Option, [], arith, false, inl, inr, ltb, none, refl, some, subst, suc,
  sym, true, zero, ℕ, ◌+◌, ◌-◌, ◌<◌, ◌==◌, ◌↔◌, ◌∷◌, ◌≡◌, ◌≤◌, ◌⊎◌,
}
use frappe_os.Base.Text.{same}
use frappe_os.Windows.{Cron, MaintenanceWindow, occurrences_from, occurrences_between}
use frappe_os.Windows.Triggers.{Finds}

-- A trigger is found after every instant up to `end`.
abbrev pub Endless : Cron → ℕ → Type 0
Endless cron end = (s : ℕ) → s ≤ end → (t : ℕ) × (cron.get_next s ≡ some t)

no_member : {x : ℕ} → Memᴰ x [] → ⊥
no_member m = elim m [ ]

head_or_tail : {x y : ℕ} {ys : List ℕ} → Memᴰ x (y ∷ ys) → (y ≡ x) ⊎ Memᴰ x ys
head_or_tail (Memᴰ.head e) = inl (sym e)
head_or_tail (Memᴰ.tail m) = inr m

module _ (cron : Cron) (Fires : ℕ → Type 0) (f : Finds cron Fires) where
  -- With a turn for each instant left the loop ends by its test.
  occurrences_from-total :
      (fuel start end : ℕ)
      → Endless cron end
      → start ≤ end
      → end - start < fuel
      → (ts : List ℕ) × (occurrences_from fuel cron start end ≡ some ts)
  unfolding occurrences_from
  occurrences_from-total zero start end e le h = absurd (omega arith)
  occurrences_from-total (suc fuel) start end e le h =
      let (t, found) = e start le in
      elim (Bool-cases (ltb end t)) [
        | inl past ↦ ([], ground arith)
        | inr inside ↦
            let (ts, rest) =
              occurrences_from-total fuel t end e (ground arith)
                (ground (arith, f.next_fires start t found)) in
            (t ∷ ts, ground arith)
      ]

  -- One turn of a loop that ended.
  abbrev Turn : ℕ → ℕ → ℕ → List ℕ → Type 0
  Turn fuel start end ts =
      (next : ℕ) × (cron.get_next start ≡ some next)
      × (((ltb end next ≡ true) × (ts ≡ []))
          ⊎ ((ltb end next ≡ false)
              × ((rest : List ℕ) × (occurrences_from fuel cron next end ≡ some rest)
                  × (ts ≡ next ∷ rest))))

  occurrences_from-Turn :
      (fuel start end : ℕ) (ts : List ℕ)
      → occurrences_from (suc fuel) cron start end ≡ some ts
      → Turn fuel start end ts
  unfolding occurrences_from
  occurrences_from-Turn fuel start end ts h = next (cron.get_next start) refl
    where
      rest :
          (t : ℕ) (o : Option (List ℕ))
          → cron.get_next start ≡ some t
          → ltb end t ≡ false
          → occurrences_from fuel cron t end ≡ o
          → Turn fuel start end ts
      rest t none e i q = absurd (ground arith)
      rest t (some r) e i q = (t, e, inr (i, (r, q, ground arith)))

      next : (o : Option ℕ) → cron.get_next start ≡ o → Turn fuel start end ts
      next none e = absurd (ground arith)
      next (some t) e = elim (Bool-cases (ltb end t)) [
        | inl past ↦ (t, e, inl (past, ground arith))
        | inr inside ↦ rest t (occurrences_from fuel cron t end) e inside refl
      ]

  occurrences_from_sound :
      (fuel start end x : ℕ) (ts : List ℕ)
      → occurrences_from fuel cron start end ≡ some ts
      → Memᴰ x ts
      → Fires x × (start < x) × (x ≤ end)
  unfolding occurrences_from
  occurrences_from_sound zero start end x ts h m = cc
  occurrences_from_sound (suc fuel) start end x ts h m =
      let (next, found, ends) = occurrences_from-Turn fuel start end ts h in
      let (fires, later) = f.next_fires start next found in
      elim ends [
        | inl stop ↦ absurd (no_member (subst (λ l. Memᴰ x l) stop.1 m))
        | inr (inside, (rest, more, e)) ↦ elim (head_or_tail (subst (λ l. Memᴰ x l) e m)) [
          | inl same ↦
              subst (λ y. Fires y × (start < y) × (y ≤ end)) same (fires, later, ground arith)
          | inr deeper ↦
              let (fx, after, upto) = occurrences_from_sound fuel next end x rest more deeper in
              (fx, omega arith, upto)
        ]
      ]

  occurrences_from-complete :
      (fuel start end x : ℕ) (ts : List ℕ)
      → occurrences_from fuel cron start end ≡ some ts
      → Fires x
      → start < x
      → x ≤ end
      → Memᴰ x ts
  unfolding occurrences_from
  occurrences_from-complete zero start end x ts h fx after upto = cc
  occurrences_from-complete (suc fuel) start end x ts h fx after upto =
      let (next, found, ends) = occurrences_from-Turn fuel start end ts h in
      let first = f.next_first start next x found fx after in
      elim ends [
        | inl stop ↦ absurd (ground arith)
        | inr (inside, (rest, more, e)) ↦
            subst (λ l. Memᴰ x l) (sym e)
              (elim (Bool-cases (next == x)) [
                | inl same ↦ Memᴰ.head (sym ((==_iff next x).0 same))
                | inr other ↦
                    Memᴰ.tail
                      (occurrences_from-complete fuel next end x rest more fx (ground arith) upto)
              ])
      ]

-- If the cron library finds a next trigger at every instant up to `end`, the occurrences between
-- `start` and `end` are exactly the triggers after `start` and up to `end`, `end` included.
pub occurrences_between-Fires :
    (w : MaintenanceWindow) (Fires : ℕ → Type 0) (start end x : ℕ)
    → Finds w.cron Fires
    → Endless w.cron end
    → start ≤ end
    → Memᴰ x (occurrences_between w start end) ↔ (Fires x × (start < x) × (x ≤ end))
unfolding occurrences_between
occurrences_between-Fires w Fires start end x f e le =
    let fuel = end - start + 2 in
    let (ts, done) = occurrences_from-total w.cron Fires f fuel start end e le (omega arith) in
    let listed : occurrences_between w start end ≡ ts = rw done in
    (
      λ m.
          occurrences_from_sound w.cron Fires f fuel start end x ts done
            (subst (λ l. Memᴰ x l) listed m),
      λ h.
          subst (λ l. Memᴰ x l) (sym listed)
            (occurrences_from-complete w.cron Fires f fuel start end x ts done h.0 h.1 h.2),
    )
