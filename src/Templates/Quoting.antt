-- ===== src/Templates/Quoting.antt =====
-- `shlex.quote` and `shlex.join`, which build the display of a command.
use frappe_os.Base.{ℕ, Bool, ◌||◌, ◌&&◌, List, [], ◌∷◌, ◌++◌, leb, ◌==◌, if◌then◌else◌, all}
use frappe_os.Base.Text.{Str, codes, has}
use frappe_os.Regex.{ascii_word}

-- The characters that need no quotes: ASCII `\w` and @%+=:,./-
abbrev is_safe : ℕ → Bool
is_safe c = ascii_word c && leb c 127 || has c (codes "@%+=:,./-")

-- `s.replace("'", "'\"'\"'")`
escape : Str → Str
escape [] = []
escape (c ∷ s) = if c == 39 then 39 ∷ 34 ∷ 39 ∷ 34 ∷ 39 ∷ escape s else c ∷ escape s

unfoldable pub quote : Str → Str
unfolding escape
quote [] = 39 ∷ 39 ∷ []
quote (c ∷ s) = if all is_safe (c ∷ s) then c ∷ s else 39 ∷ (escape (c ∷ s) ++ 39 ∷ [])

unfoldable pub join : List Str → Str
unfolding quote
join [] = []
join (w ∷ []) = quote w
join (w ∷ v ∷ ws) = quote w ++ 32 ∷ join (v ∷ ws)
