-- ===== src/Regex.antt =====
-- The regular expressions of the parameter whitelists (backend/app/core/commands/registry.py), as
-- `re.fullmatch` of `ParamSpec.validate` in templates.py reads them. The patterns use classes,
-- groups, alternatives and counted repetition only, so a match is membership in the language, which
-- the derivative decides.
pub mod Avoids
use frappe_os.Base.{
  ℕ, zero, suc, ◌-◌, Bool, true, false, ◌&&◌, ◌||◌, List, [], ◌∷◌, Option, none, some, leb, ◌==◌,
  if◌then◌else◌, any,
}
use frappe_os.Base.Text.{Str}

-- One item of a class: a range of code points, `\w` or `\s`.
pub data Item : Type 0 where
  range : ℕ → ℕ → Item
  word space : Item

pub data Regex : Type 0 where
  void eps : Regex
  class : List Item → Regex
  cat alt : Regex → Regex → Regex
  -- `r{lo,hi}`; `none` is no upper bound.
  repeat : Regex → ℕ → Option ℕ → Regex

-- `\w` on ASCII; the Unicode tables for the other code points are the parameter `unicode_word`.
abbrev pub ascii_word : ℕ → Bool
ascii_word c = leb 48 c && leb c 57 || leb 65 c && leb c 90 || leb 97 c && leb c 122 || c == 95

abbrev pub ascii_space : ℕ → Bool
ascii_space c = leb 9 c && leb c 13 || leb 28 c && leb c 32

-- What Python's tables say of the code points from 128 on.
pub record Unicode : Type 0 where
  pub is_word : ℕ → Bool
  pub is_space : ℕ → Bool

abbrev pub in_item : Unicode → ℕ → Item → Bool
in_item u c (range lo hi) = leb lo c && leb c hi
in_item u c word = if leb c 127 then ascii_word c else u.is_word c
in_item u c space = if leb c 127 then ascii_space c else u.is_space c

abbrev pub in_class : Unicode → ℕ → List Item → Bool
in_class u c items = any (in_item u c) items

-- Whether the empty text matches.
unfoldable pub nullable : Regex → Bool
nullable void = false
nullable eps = true
nullable (class items) = false
nullable (cat r s) = nullable r && nullable s
nullable (alt r s) = nullable r || nullable s
nullable (repeat r zero hi) = true
nullable (repeat r (suc lo) hi) = nullable r

abbrev pub pred_bound : Option ℕ → Option ℕ
pred_bound none = none
pred_bound (some n) = some (n - 1)

abbrev pub at_zero : Option ℕ → Bool
at_zero none = false
at_zero (some n) = n == 0

-- What is left to match after the character `c`.
unfoldable pub deriv : Unicode → ℕ → Regex → Regex
unfolding nullable
deriv u c void = void
deriv u c eps = void
deriv u c (class items) = if in_class u c items then eps else void
deriv u c (cat r s) =
    let dr = deriv u c r in
    let ds = deriv u c s in if nullable r then alt (cat dr s) ds else cat dr s
deriv u c (alt r s) = alt (deriv u c r) (deriv u c s)
deriv u c (repeat r lo hi) =
    let dr = deriv u c r in if at_zero hi then void else cat dr (repeat r (lo - 1) (pred_bound hi))

unfoldable pub fullmatch : Unicode → Regex → Str → Bool
unfolding nullable deriv
fullmatch u r [] = nullable r
fullmatch u r (c ∷ s) = fullmatch u (deriv u c r) s
