-- ===== src/Base/Text.antt =====
-- Text that the program walks: a list of code points.
use frappe_os.Base.{if◌then◌else◌, ◌++◌}
use Prim.Native.Char.{code}
use Prim.Native.Nat.{ℕ}
use Prim.Native.String.{String}
use mathlib.Core.Path.{◌≡◌, refl}
use mathlib.Core.Bool.{Bool, true, false, ◌&&◌, ◌||◌}
use mathlib.Core.List.{List, [], ◌∷◌}
use native.Mathlib.Omega.{arith}
use frappe_os.Base.Tests.{◌==◌}
use frappe_os.Base.Lists.{any}

abbrev pub Str : Type 0
Str = List ℕ

abbrev pub codes : String → Str
codes String.[] = []
codes (String.◌∷◌ c s) = code c ∷ codes s

-- `s == t` on texts.
abbrev pub same : Str → Str → Bool
same [] [] = true
same [] (d ∷ t) = false
same (c ∷ s) [] = false
same (c ∷ s) (d ∷ t) = c == d && same s t

pub same→eq : (s t : Str) → same s t ≡ true → s ≡ t
same→eq [] [] h = refl
same→eq [] (d ∷ t) h = cc
same→eq (c ∷ s) [] h = cc
same→eq (c ∷ s) (d ∷ t) h = ground (arith, same→eq s t)

pub same_refl : (s : Str) → same s s ≡ true
same_refl [] = refl
same_refl (c ∷ s) = ground (arith, same_refl s)

-- `c in s` for one character.
abbrev pub has : ℕ → Str → Bool
has c s = any (λ d. c == d) s

-- `s.startswith(p)`.
abbrev pub starts_with : Str → Str → Bool
starts_with [] s = true
starts_with (c ∷ p) [] = false
starts_with (c ∷ p) (d ∷ s) = c == d && starts_with p s

-- `p in s`, for texts.
abbrev pub occurs : Str → Str → Bool
occurs p [] = starts_with p []
occurs p (c ∷ s) = starts_with p (c ∷ s) || occurs p s

-- `s.lstrip()`, with the characters that are stripped given by a test.
abbrev pub lstrip : (ℕ → Bool) → Str → Str
lstrip p [] = []
lstrip p (c ∷ s) = let rest = lstrip p s in if p c then rest else c ∷ s

-- `s.rstrip()`: a character stays if something after it stays, or if it is not stripped.
abbrev keep_before : (ℕ → Bool) → ℕ → Str → Str
keep_before p c [] = if p c then [] else c ∷ []
keep_before p c (d ∷ s) = c ∷ (d ∷ s)

abbrev pub rstrip : (ℕ → Bool) → Str → Str
rstrip p [] = []
rstrip p (c ∷ s) = keep_before p c (rstrip p s)

-- `s.strip()`
abbrev pub strip : (ℕ → Bool) → Str → Str
strip p s = rstrip p (lstrip p s)

abbrev add_to_first : ℕ → List Str → List Str
add_to_first c [] = (c ∷ []) ∷ []
add_to_first c (part ∷ parts) = (c ∷ part) ∷ parts

-- `s.split(c)` for one character: never empty.
abbrev pub split_on : ℕ → Str → List Str
split_on c [] = [] ∷ []
split_on c (d ∷ s) = let rest = split_on c s in if d == c then [] ∷ rest else add_to_first d rest

-- `sep.join(parts)` for a separator of one character.
abbrev pub join_on : ℕ → List Str → Str
join_on c [] = []
join_on c (part ∷ []) = part
join_on c (part ∷ (next ∷ parts)) = part ++ (c ∷ join_on c (next ∷ parts))
