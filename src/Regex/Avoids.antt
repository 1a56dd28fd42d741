-- ===== src/Regex/Avoids.antt =====
-- A character that no class of an expression admits stands in no text that it matches.
use frappe_os.Base.{
  ℕ, ◌≡◌, Bool, true, false, ◌&&◌, not, [], ◌∷◌, arith, ◌==◌, Bool-cases, inl, inr,
}
use frappe_os.Base.Text.{Str, has}
use frappe_os.Regex.{
  Regex, void, eps, class, cat, alt, repeat, Unicode, in_class, nullable, deriv, fullmatch,
}

-- No class of `r` admits `c`.
unfoldable pub avoids : Unicode → ℕ → Regex → Bool
avoids u c void = true
avoids u c eps = true
avoids u c (class items) = not (in_class u c items)
avoids u c (cat r s) = avoids u c r && avoids u c s
avoids u c (alt r s) = avoids u c r && avoids u c s
avoids u c (repeat r lo hi) = avoids u c r

-- The expression plainly matches nothing.
dead : Regex → Bool
dead void = true
dead eps = false
dead (class items) = false
dead (cat r s) = dead r
dead (alt r s) = dead r && dead s
dead (repeat r lo hi) = false

dead-deriv-avoids :
    (u : Unicode) (c : ℕ) (r : Regex) → avoids u c r ≡ true → dead (deriv u c r) ≡ true
unfolding avoids dead deriv
dead-deriv-avoids u c void h = ground arith
dead-deriv-avoids u c eps h = ground arith
dead-deriv-avoids u c (class items) h = ground arith
dead-deriv-avoids u c (cat r s) h = ground (arith, dead-deriv-avoids u c r, dead-deriv-avoids u c s)
dead-deriv-avoids u c (alt r s) h = ground (arith, dead-deriv-avoids u c r, dead-deriv-avoids u c s)
dead-deriv-avoids u c (repeat r lo hi) h = ground (arith, dead-deriv-avoids u c r)

nullable-dead : (r : Regex) → dead r ≡ true → nullable r ≡ false
unfolding dead nullable
nullable-dead void h = ground arith
nullable-dead eps h = ground arith
nullable-dead (class items) h = ground arith
nullable-dead (cat r s) h = ground (arith, nullable-dead r)
nullable-dead (alt r s) h = ground (arith, nullable-dead r, nullable-dead s)
nullable-dead (repeat r lo hi) h = ground arith

dead-deriv : (u : Unicode) (c : ℕ) (r : Regex) → dead r ≡ true → dead (deriv u c r) ≡ true
unfolding dead deriv
dead-deriv u c void h = ground arith
dead-deriv u c eps h = ground arith
dead-deriv u c (class items) h = ground arith
dead-deriv u c (cat r s) h = ground (arith, dead-deriv u c r, nullable-dead r)
dead-deriv u c (alt r s) h = ground (arith, dead-deriv u c r, dead-deriv u c s)
dead-deriv u c (repeat r lo hi) h = ground arith

fullmatch-dead : (u : Unicode) (r : Regex) (s : Str) → dead r ≡ true → fullmatch u r s ≡ false
unfolding fullmatch
fullmatch-dead u r [] h = nullable-dead r h
fullmatch-dead u r (c ∷ s) h = fullmatch-dead u (deriv u c r) s (dead-deriv u c r h)

avoids-deriv :
    (u : Unicode) (c d : ℕ) (r : Regex) → avoids u c r ≡ true → avoids u c (deriv u d r) ≡ true
unfolding avoids deriv
avoids-deriv u c d void h = ground arith
avoids-deriv u c d eps h = ground arith
avoids-deriv u c d (class items) h = ground arith
avoids-deriv u c d (cat r s) h = ground (arith, avoids-deriv u c d r, avoids-deriv u c d s)
avoids-deriv u c d (alt r s) h = ground (arith, avoids-deriv u c d r, avoids-deriv u c d s)
avoids-deriv u c d (repeat r lo hi) h = ground (arith, avoids-deriv u c d r)

-- A text that an expression matches holds no character that all its classes exclude.
pub fullmatch-avoids :
    (u : Unicode) (c : ℕ) (r : Regex) (s : Str)
    → avoids u c r ≡ true
    → fullmatch u r s ≡ true
    → has c s ≡ false
unfolding fullmatch
fullmatch-avoids u c r [] h m = ground arith
fullmatch-avoids u c r (d ∷ s) h m = elim (Bool-cases (c == d)) [
  | inl e ↦ ground (arith, dead-deriv-avoids u c r, fullmatch-dead u (deriv u d r) s)
  | inr e ↦ ground (arith, avoids-deriv u c d r, fullmatch-avoids u c (deriv u d r) s)
]
