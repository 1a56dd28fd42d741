-- ===== src/Templates/Whitelist.antt =====
-- What a successful `render` says of the parameters: each one passed its whitelist.
use frappe_os.Base.{
  ℕ, ◌≡◌, refl, sym, ap, ◌∙◌, Bool, true, false, ◌&&◌, ◌||◌, not, List, [], ◌∷◌, Option, none, some,
  inl, inr, ◌⊎◌, arith, any, all, All, Bool-cases,
}
use frappe_os.Base.Text.{Str, has, same, same→eq}
use frappe_os.Base.Results.{Result, ok, err, ◌>>=◌, raise_if, >>=-eq-ok}
use frappe_os.Base.Dicts.{Dict, put}
use frappe_os.Regex.{Regex, Unicode}
use frappe_os.Regex.Avoids.{avoids, fullmatch-avoids}
use frappe_os.Templates.{
  secret_names, secret_param_unresolved, unknown_parameter, RenderError, ParamSpec, validate,
  CommandTemplate, RenderedCommand, enum_refuses, regex_refuses,
}
use frappe_os.Templates.Render.{
  Params, supplied, masked_value, unknown_names, is_nonempty, collect, finish, render,
}

-- `validate` returns the value that it was given.
pub validate-eq : (u : Unicode) (spec : ParamSpec) (v w : Str) → validate u spec v ≡ ok w → v ≡ w
unfolding validate
validate-eq u spec v w h = ground arith

pub validate-regex :
    (u : Unicode) (spec : ParamSpec) (v w : Str)
    → validate u spec v ≡ ok w
    → regex_refuses u spec.regex v ≡ false
unfolding validate
validate-regex u spec v w h = ground arith

pub validate-enum :
    (u : Unicode) (spec : ParamSpec) (v w : Str)
    → validate u spec v ≡ ok w
    → enum_refuses spec.enum v ≡ false
unfolding validate
validate-enum u spec v w h = ground arith

-- One turn of the loop that did not raise.
abbrev pub Turn :
    Unicode
    → ParamSpec
    → List ParamSpec
    → Params
    → Dict Str
    → Dict Str
    → Dict Str × Dict Str
    → Type 0
Turn u spec specs params real masked out =
    ((supplied spec.name params ≡ none)
      × (spec.required ≡ false)
      × (collect u specs params real masked ≡ ok out))
    ⊎ ((raw : Str) × (supplied spec.name params ≡ some raw)
        × (validate u spec raw ≡ ok raw)
        × (collect u specs params (put spec.name raw real)
              (put spec.name (masked_value spec raw) masked)
            ≡ ok out))

pub collect-Turn :
    (u : Unicode) (spec : ParamSpec) (specs : List ParamSpec) (params : Params)
    (real masked : Dict Str) (out : Dict Str × Dict Str)
    → collect u (spec ∷ specs) params real masked ≡ ok out
    → Turn u spec specs params real masked out
unfolding collect
collect-Turn u spec specs params real masked out h = go (supplied spec.name params) refl
  where
    accepted :
        (raw : Str) (r : Result RenderError Str)
        → supplied spec.name params ≡ some raw
        → validate u spec raw ≡ r
        → Turn u spec specs params real masked out
    accepted raw (ok v) e q =
        let same_value = validate-eq u spec raw v q in
        inr (raw, e, q ∙ ap ok (sym same_value), ground arith)
    accepted raw (err x) e q = ground arith

    go : (o : Option Str) → supplied spec.name params ≡ o → Turn u spec specs params real masked out
    go none e = inl (e, ground arith, ground arith)
    go (some raw) e = accepted raw (validate u spec raw) e refl

-- Every value that the loop met passed the whitelist of its spec, and no required one was missing.
abbrev pub Accepted : Unicode → Params → ParamSpec → Type 0
Accepted u params spec =
    ((supplied spec.name params ≡ none) × (spec.required ≡ false))
    ⊎ ((raw : Str) × (supplied spec.name params ≡ some raw) × (validate u spec raw ≡ ok raw))

pub collect-Accepted :
    (u : Unicode) (specs : List ParamSpec) (params : Params) (real masked : Dict Str)
    (out : Dict Str × Dict Str)
    → collect u specs params real masked ≡ ok out
    → All (Accepted u params) specs
collect-Accepted u [] params real masked out h = tt
collect-Accepted u (spec ∷ specs) params real masked out h =
    elim (collect-Turn u spec specs params real masked out h) [
      | inl t ↦ (inl (t.0, t.1), collect-Accepted u specs params real masked out t.2)
      | inr t ↦ (
        inr (t.0, t.1, t.2),
        collect-Accepted u specs params (put spec.name t.0 real)
            (put spec.name (masked_value spec t.0) masked) out t.3,
      )
    ]

-- The parts of a `render` that did not raise.
pub render-parts :
    (u : Unicode) (t : CommandTemplate) (params : Params) (b : Bool) (cmd : RenderedCommand)
    → render u t params b ≡ ok cmd
    → (dicts : Dict Str × Dict Str) × (collect u t.params params [] [] ≡ ok dicts)
      × (finish t dicts.0 dicts.1 ≡ ok cmd)
unfolding render
render-parts u t params b cmd h =
    let check = raise_if (b && is_nonempty (secret_names t.params)) secret_param_unresolved in
    let known = raise_if (unknown_names t.params params) unknown_parameter in
    let loop = collect u t.params params [] [] in
    let (_, _, h1) =
      >>=-eq-ok check (λ _. known >>= λ _. loop >>= λ dicts. finish t dicts.0 dicts.1) h in
    let (_, _, h2) = >>=-eq-ok known (λ _. loop >>= λ dicts. finish t dicts.0 dicts.1) h1 in
    >>=-eq-ok loop (λ dicts. finish t dicts.0 dicts.1) h2

-- The whitelist of a spec keeps the character `c` out.
abbrev pub enum_avoids : ℕ → Option (List Str) → Bool
enum_avoids c none = false
enum_avoids c (some values) = all (λ v. not (has c v)) values

abbrev pub regex_avoids : Unicode → ℕ → Option Regex → Bool
regex_avoids u c none = false
regex_avoids u c (some r) = avoids u c r

abbrev pub keeps_out : Unicode → ℕ → ParamSpec → Bool
keeps_out u c spec = spec.secret || enum_avoids c spec.enum || regex_avoids u c spec.regex

member-avoids :
    (c : ℕ) (v : Str) (values : List Str)
    → all (λ w. not (has c w)) values ≡ true
    → any (λ w. same v w) values ≡ true
    → has c v ≡ false
member-avoids c v [] h m = cc
member-avoids c v (w ∷ values) h m = elim (Bool-cases (same v w)) [
  | inl e ↦ rw (same→eq v w e) (ground arith)
  | inr e ↦ ground (arith, member-avoids c v values)
]

keeps_out-value :
    (u : Unicode) (c : ℕ) (spec : ParamSpec) (v : Str)
    → keeps_out u c spec ≡ true
    → spec.secret ≡ false
    → validate u spec v ≡ ok v
    → has c v ≡ false
keeps_out-value u c spec v k s h = regex_or_enum spec.enum spec.regex refl refl
  where
    regex_or_enum :
        (e : Option (List Str)) (r : Option Regex)
        → spec.enum ≡ e
        → spec.regex ≡ r
        → has c v ≡ false
    regex_or_enum none none p q = ground arith
    regex_or_enum none (some r) p q =
        ground (arith, fullmatch-avoids u c r v, validate-regex u spec v v h)
    regex_or_enum (some values) none p q =
        ground (arith, member-avoids c v values, validate-enum u spec v v h)
    regex_or_enum (some values) (some r) p q = ground (
      arith,
      member-avoids c v values,
      validate-enum u spec v v h,
      fullmatch-avoids u c r v,
      validate-regex u spec v v h,
    )

Accepted-keeps_out :
    (u : Unicode) (c : ℕ) (params : Params) (specs : List ParamSpec)
    → all (keeps_out u c) specs ≡ true
    → All (Accepted u params) specs
    → All
        (λ spec.
          spec.secret ≡ false → (v : Str) → supplied spec.name params ≡ some v → has c v ≡ false)
        specs
Accepted-keeps_out u c params [] k a = tt
Accepted-keeps_out u c params (spec ∷ specs) k a = (
  λ s v e. elim a.0 [
    | inl p ↦ ground arith
    | inr p ↦ keeps_out-value u c spec v (ground arith) s (cc (p.1, p.2, e))
  ],
  Accepted-keeps_out u c params specs (ground arith) a.1,
)

-- If every whitelist of a template keeps a character out, then no plain parameter of a command that
-- was rendered holds it.
pub render-keeps_out :
    (u : Unicode) (c : ℕ) (t : CommandTemplate) (params : Params) (b : Bool) {cmd : RenderedCommand}
    → all (keeps_out u c) t.params ≡ true
    → render u t params b ≡ ok cmd
    → All
        (λ spec.
          spec.secret ≡ false → (v : Str) → supplied spec.name params ≡ some v → has c v ≡ false)
        t.params
render-keeps_out u c t params b {cmd} k h =
    let (dicts, loop, _) = render-parts u t params b cmd h in
    Accepted-keeps_out u c params t.params k (collect-Accepted u t.params params [] [] dicts loop)
