-- ===== src/Registry/Safety.antt =====
-- What holds of every registered action, whatever the parameters of a job.
use frappe_os.Base.{
  All-Memᴰ, ℕ, String, ◌≡◌, refl, Bool, true, false, List, [], ◌∷◌, Option, none, some, inl, inr,
  ◌↔◌, arith, all, not, Bool-cases, str_eq, eq_iff,
}
use mathlib.Core.List.{Memᴰ}
use frappe_os.Base.Text.{Str, codes, has}
use frappe_os.Base.Results.{ok}
use frappe_os.Base.Dicts.{Dict, listed}
use frappe_os.Regex.{Unicode}
use frappe_os.Regex.Avoids.{avoids}
use frappe_os.Templates.{
  ParamSpec, Piece, lit, hole, Token, CommandTemplate, secret_names, RenderedCommand,
}
use frappe_os.Templates.Render.{Params, supplied, collect, unknown_names, render}
use frappe_os.Templates.Whitelist.{keeps_out, render-keeps_out}
use frappe_os.Templates.Secrecy.{SameOutside, VisibleCwd, render-secrecy}
use frappe_os.Templates.Totality.{is_closed, render-total}
use frappe_os.Registry.{find, templates, get_template}

-- ; ` $ & | < > newline " ' \
abbrev pub metacharacters : List ℕ
metacharacters = codes ";`$&|<>\n\"'\\"

abbrev visible_cwd : List String → Option Token → Bool
visible_cwd hidden none = true
visible_cwd hidden (some tok) = all visible tok
  where
    visible : Piece → Bool
    visible (lit s) = true
    visible (hole name) = not (listed name hidden)

find-all :
    (p : CommandTemplate → Bool) (name : String) (ts : List CommandTemplate) (t : CommandTemplate)
    → all p ts ≡ true
    → find name ts ≡ some t
    → p t ≡ true
unfolding find
find-all p name [] t h e = cc
find-all p name (s ∷ ts) t h e = elim (Bool-cases (str_eq s.action_name name)) [
  | inl y ↦ ground (arith)
  | inr n ↦ find-all p name ts t (ground arith) (rw n at e)
]

pub registered :
    (p : CommandTemplate → Bool) (name : String) {t : CommandTemplate}
    → all p templates ≡ true
    → get_template name ≡ some t
    → p t ≡ true
unfolding get_template
registered p name {t} h e = find-all p name templates t h e

templates-closed : all is_closed templates ≡ true
unfolding templates
templates-closed = refl

templates-visible : all (λ t. visible_cwd (secret_names t.params) t.cwd) templates ≡ true
unfolding templates
templates-visible = refl

templates-keep_out :
    (u : Unicode)
    → all (λ t. all (λ c. all (keeps_out u c) t.params) metacharacters) templates ≡ true
unfolding templates avoids
templates-keep_out u = refl

all-has : (p : ℕ → Bool) (c : ℕ) (cs : Str) → all p cs ≡ true → has c cs ≡ true → p c ≡ true
all-has p c [] h m = cc
all-has p c (d ∷ cs) h m = ground (arith, all-has p c cs)

VisibleCwd-visible_cwd :
    (hidden : List String) (cwd : Option Token)
    → visible_cwd hidden cwd ≡ true
    → VisibleCwd hidden cwd
VisibleCwd-visible_cwd hidden none h = tt
VisibleCwd-visible_cwd hidden (some []) h = tt
VisibleCwd-visible_cwd hidden (some (lit s ∷ tok)) h =
    (tt, VisibleCwd-visible_cwd hidden (some tok) h)
VisibleCwd-visible_cwd hidden (some (hole name ∷ tok)) h =
    (ground arith, VisibleCwd-visible_cwd hidden (some tok) (ground arith))

pub action_name-find :
    (name : String) (ts : List CommandTemplate) {t : CommandTemplate}
    → find name ts ≡ some t
    → t.action_name ≡ name
unfolding find
action_name-find name [] e = cc
action_name-find name (s ∷ ts) {t} e = elim (Bool-cases (str_eq s.action_name name)) [
  | inl y ↦ ground (arith, eq_iff s.action_name name)
  | inr n ↦ action_name-find name ts (rw n at e)
]

-- No parameter of any registered action that is not a secret can carry a shell metacharacter
-- (; ` $ & | < > newline " ' or \) into a command that was rendered.
pub registered-keeps_out :
    (u : Unicode) (c : ℕ) (name : String) (params : Params) (b : Bool) (v : Str)
    {t : CommandTemplate} {cmd : RenderedCommand} {spec : ParamSpec}
    → has c metacharacters ≡ true
    → get_template name ≡ some t
    → render u t params b ≡ ok cmd
    → Memᴰ spec t.params
    → spec.secret ≡ false
    → supplied spec.name params ≡ some v
    → has c v ≡ false
registered-keeps_out u c name params b v {t} m e h i s g =
    All-Memᴰ (λ p. p.secret ≡ false → (w : Str) → supplied p.name params ≡ some w → has c w ≡ false)
      (render-keeps_out u c t params b
        (all-has (λ d. all (keeps_out u d) t.params) c metacharacters
          (registered (λ s. all (λ d. all (keeps_out u d) s.params) metacharacters) name
            (templates-keep_out u) e)
          m)
        h)
      i s v g

-- Two jobs of a registered action whose parameters differ in the values of secrets only show the
-- same command and store the same parameters.
pub registered-secrecy :
    (u : Unicode) (name : String) (p q : Params) (b b' : Bool) {t : CommandTemplate}
    {x y : RenderedCommand}
    → get_template name ≡ some t
    → SameOutside t.params p q
    → render u t p b ≡ ok x
    → render u t q b' ≡ ok y
    → (x.display ≡ y.display) × (x.params_sanitized ≡ y.params_sanitized)
registered-secrecy u name p q b b' {t} e same hx hy =
    render-secrecy u t p q b b'
      (VisibleCwd-visible_cwd (secret_names t.params) t.cwd
        (registered (λ s. visible_cwd (secret_names s.params) s.cwd) name templates-visible e))
      same hx hy

-- For a registered action and real values, `render` succeeds exactly when no parameter is unknown
-- and the loop over the whitelists raises nothing: no placeholder of any template is ever unfilled.
pub registered-total :
    (u : Unicode) (name : String) (params : Params) {t : CommandTemplate}
    → get_template name ≡ some t
    → unknown_names t.params params ≡ false
    → ((cmd : RenderedCommand) × (render u t params false ≡ ok cmd))
      ↔ ((dicts : Dict Str × Dict Str) × (collect u t.params params [] [] ≡ ok dicts))
registered-total u name params {t} e known =
    render-total u t params (registered is_closed name templates-closed e) known
