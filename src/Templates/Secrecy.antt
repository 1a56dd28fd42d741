-- ===== src/Templates/Secrecy.antt =====
-- The display and the stored parameters of a rendered command do not depend on its secrets.
use frappe_os.Base.{
  String, ◌≡◌, refl, sym, subst, ap, Bool, true, false, List, [], ◌∷◌, Option, none, some, inl, inr,
  arith, All, Bool-cases, eq_iff, str_eq,
}
use frappe_os.Base.Text.{Str}
use frappe_os.Base.Results.{ok}
use frappe_os.Base.Dicts.{Dict, get, put, get-put, listed}
use frappe_os.Regex.{Unicode}
use frappe_os.Templates.{
  ParamSpec, Piece, lit, hole, Token, CommandTemplate, secret_names, RenderedCommand,
}
use frappe_os.Templates.Quoting.{join}
use frappe_os.Templates.Render.{
  Params, supplied, masked_value, collect, substitute, substitute_all, substitute_cwd, with_cwd,
  finish, render,
}
use frappe_os.Templates.Whitelist.{collect-Turn, render-parts}

abbrev pub is_given : Option Str → Bool
is_given none = false
is_given (some v) = true

-- Two parameter maps that differ in the values of secrets only.
abbrev pub SameOutside : List ParamSpec → Params → Params → Type 0
SameOutside specs p q =
    All
      (λ spec.
        (spec.secret ≡ false → supplied spec.name p ≡ supplied spec.name q)
        × (is_given (supplied spec.name p) ≡ is_given (supplied spec.name q)))
      specs

abbrev Hides : List String → List ParamSpec → Type 0
Hides hidden specs = All (λ spec. spec.secret ≡ true → listed spec.name hidden ≡ true) specs

-- Two dictionaries that agree on every name that is not hidden.
abbrev pub SameVisible : List String → Dict Str → Dict Str → Type 0
SameVisible hidden d e = (n : String) → listed n hidden ≡ false → get n d ≡ get n e

SameVisible-put :
    (hidden : List String) (k : String) (v w : Str) (d e : Dict Str)
    → (listed k hidden ≡ false → v ≡ w)
    → SameVisible hidden d e
    → SameVisible hidden (put k v d) (put k w e)
SameVisible-put hidden k v w d e s h n visible = elim (Bool-cases (str_eq k n)) [
  | inl p ↦ ground (arith, get-put k n v d, get-put k n w e, s (rw ((eq_iff k n).0 p) visible))
  | inr p ↦ ground (arith, get-put k n v d, get-put k n w e, h n)
]

same_mask :
    (spec : ParamSpec) (v w : Str)
    → (spec.secret ≡ false → v ≡ w)
    → masked_value spec v ≡ masked_value spec w
same_mask spec v w h = ground (arith)

module _ (u : Unicode) (hidden : List String) (p q : Params) where
  not_secret :
      (spec : ParamSpec)
      → (spec.secret ≡ true → listed spec.name hidden ≡ true)
      → listed spec.name hidden ≡ false
      → spec.secret ≡ false
  not_secret spec h v = ground arith

  collect-secrecy :
      (specs : List ParamSpec) (real real' masked : Dict Str) (a b : Dict Str × Dict Str)
      → SameOutside specs p q
      → Hides hidden specs
      → SameVisible hidden real real'
      → collect u specs p real masked ≡ ok a
      → collect u specs q real' masked ≡ ok b
      → (a.1 ≡ b.1) × SameVisible hidden a.0 b.0
  unfolding collect
  collect-secrecy [] real real' masked a b s hs h ha hb = (cc (ha, hb), λ n v. cc (ha, hb, h n v))
  collect-secrecy (spec ∷ specs) real real' masked a b s hs h ha hb =
      elim (collect-Turn u spec specs p real masked a ha) [
        | inl t ↦ elim (collect-Turn u spec specs q real' masked b hb) [
          | inl t' ↦ collect-secrecy specs real real' masked a b s.1 hs.1 h t.2 t'.2
          | inr t' ↦ absurd (cc (s.0.1, ap is_given t.0, ap is_given t'.1))
        ]
        | inr t ↦ elim (collect-Turn u spec specs q real' masked b hb) [
          | inl t' ↦ absurd (cc (s.0.1, ap is_given t.1, ap is_given t'.0))
          | inr t' ↦
              let agree : spec.secret ≡ false → t.0 ≡ t'.0 = λ e. cc (s.0.0 e, t.1, t'.1) in
              let masks = same_mask spec t.0 t'.0 agree in
              collect-secrecy specs (put spec.name t.0 real) (put spec.name t'.0 real')
                (put spec.name (masked_value spec t.0) masked) a b s.1 hs.1
                (SameVisible-put hidden spec.name t.0 t'.0 real real'
                  (λ visible. agree (not_secret spec hs.0 visible)) h)
                t.3
                (subst
                  (λ m.
                    collect u specs q (put spec.name t'.0 real') (put spec.name m masked) ≡ ok b)
                  (sym masks) t'.3)
        ]
      ]

-- The placeholders of a token are not hidden.
abbrev pub VisiblePiece : List String → Piece → Type 0
VisiblePiece hidden (lit s) = Unit
VisiblePiece hidden (hole name) = listed name hidden ≡ false

abbrev pub VisibleCwd : List String → Option Token → Type 0
VisibleCwd hidden none = Unit
VisibleCwd hidden (some tok) = All (VisiblePiece hidden) tok

substitute-visible :
    (hidden : List String) (tok : Token) (d e : Dict Str)
    → All (VisiblePiece hidden) tok
    → SameVisible hidden d e
    → substitute tok d ≡ substitute tok e
unfolding substitute
substitute-visible hidden [] d e v h = refl
substitute-visible hidden (lit s ∷ tok) d e v h = rw (substitute-visible hidden tok d e v.1 h)
substitute-visible hidden (hole name ∷ tok) d e v h =
    ground (arith, h name v.0, substitute-visible hidden tok d e v.1 h)

substitute_cwd-visible :
    (hidden : List String) (cwd : Option Token) (d e : Dict Str)
    → VisibleCwd hidden cwd
    → SameVisible hidden d e
    → substitute_cwd cwd d ≡ substitute_cwd cwd e
unfolding substitute_cwd
substitute_cwd-visible hidden none d e v h = refl
substitute_cwd-visible hidden (some []) d e v h = refl
substitute_cwd-visible hidden (some (p ∷ ps)) d e v h =
    rw (substitute-visible hidden (p ∷ ps) d e v h)

-- What `finish` shows: the display comes from the masked dictionary and the directory.
finish-shows :
    (t : CommandTemplate) (real masked : Dict Str) (cmd : RenderedCommand)
    → finish t real masked ≡ ok cmd
    → (words : List Str) × (substitute_all t.argv masked ≡ ok words)
      × (substitute_cwd t.cwd real ≡ ok cmd.cwd)
      × (cmd.display ≡ with_cwd cmd.cwd (join words))
      × (cmd.params_sanitized ≡ masked)
unfolding finish
finish-shows t real masked cmd h = ground arith

Hides-weaken :
    (name : String) (hidden : List String) (specs : List ParamSpec)
    → Hides hidden specs
    → Hides (name ∷ hidden) specs
Hides-weaken name hidden [] h = tt
Hides-weaken name hidden (spec ∷ specs) h =
    (λ s. ground (arith, h.0), Hides-weaken name hidden specs h.1)

listed-head : (name : String) (names : List String) → listed name (name ∷ names) ≡ true
listed-head name names = ground (arith, eq_iff name name)

secret_names-Hides : (specs : List ParamSpec) → Hides (secret_names specs) specs
secret_names-Hides [] = tt
secret_names-Hides (spec ∷ specs) = elim (Bool-cases spec.secret) [
  | inl s ↦
      let e : secret_names (spec ∷ specs) ≡ spec.name ∷ secret_names specs = rw s in
      subst (λ hidden. Hides hidden (spec ∷ specs)) (sym e)
        (
          λ _. listed-head spec.name (secret_names specs),
          Hides-weaken spec.name (secret_names specs) specs (secret_names-Hides specs),
        )
  | inr s ↦
      let e : secret_names (spec ∷ specs) ≡ secret_names specs = rw s in
      subst (λ hidden. Hides hidden (spec ∷ specs)) (sym e)
        (λ y. cc (s, y), secret_names-Hides specs)
]

-- Two calls of `render` whose parameters differ in the values of secrets only, and that both
-- succeed, give the same display and the same stored parameters, provided that the working
-- directory of the template names no secret.
pub render-secrecy :
    (u : Unicode) (t : CommandTemplate) (p q : Params) (b b' : Bool) {x y : RenderedCommand}
    → VisibleCwd (secret_names t.params) t.cwd
    → SameOutside t.params p q
    → render u t p b ≡ ok x
    → render u t q b' ≡ ok y
    → (x.display ≡ y.display) × (x.params_sanitized ≡ y.params_sanitized)
render-secrecy u t p q b b' {x} {y} cwd same hx hy =
    let hidden = secret_names t.params in
    let (d, loop, fin) = render-parts u t p b x hx in
    let (e, loop', fin') = render-parts u t q b' y hy in
    let (masked, real) =
      collect-secrecy u hidden p q t.params [] [] [] d e same (secret_names-Hides t.params)
        (λ n _. refl) loop loop' in
    let (words, w, dir, shown, stored) = finish-shows t d.0 d.1 x fin in
    let (words', w', dir', shown', stored') = finish-shows t e.0 e.1 y fin' in
    let dirs = substitute_cwd-visible hidden t.cwd d.0 e.0 cwd real in ground (arith)
