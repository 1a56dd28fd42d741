-- ===== src/Templates/Totality.antt =====
-- A template whose placeholders are required parameters never fails inside `str.format`.
use frappe_os.Base.{
  String, ◌≡◌, refl, subst, Bool, true, false, ◌&&◌, List, [], ◌∷◌, Option, none, some, inl, inr,
  ◌⊎◌, arith, all, map, ◌++◌, ◌↔◌, Bool-cases, if◌then◌else◌, eq_iff, str_eq,
}
use frappe_os.Base.Text.{Str, codes}
use frappe_os.Base.Results.{ok}
use frappe_os.Base.Dicts.{Dict, get, put, get-put, listed}
use frappe_os.Regex.{Unicode}
use frappe_os.Templates.{
  ParamSpec, Piece, lit, hole, Token, CommandTemplate, secret_names, RenderedCommand,
}
use frappe_os.Templates.Quoting.{join}
use frappe_os.Templates.Render.{
  Params, masked_value, unknown_names, collect, substitute, substitute_all, substitute_cwd,
  with_cwd, select, finish, render,
}
use frappe_os.Templates.Whitelist.{collect-Turn, render-parts}

abbrev pub required_names : List ParamSpec → List String
required_names [] = []
required_names (spec ∷ specs) =
    let rest = required_names specs in if spec.required then spec.name ∷ rest else rest

abbrev pub closed_piece : List String → Piece → Bool
closed_piece names (lit s) = true
closed_piece names (hole name) = listed name names

abbrev pub closed_cwd : List String → Option Token → Bool
closed_cwd names none = true
closed_cwd names (some tok) = all (closed_piece names) tok

-- Every placeholder of the template is a required parameter.
abbrev pub is_closed : CommandTemplate → Bool
is_closed t =
    all (λ tok. all (closed_piece (required_names t.params)) tok) t.argv
    && closed_cwd (required_names t.params) t.cwd

abbrev Has : String → Dict Str → Type 0
Has n d = (v : Str) × (get n d ≡ some v)

Has-put : (n k : String) (v : Str) (d : Dict Str) → Has n d → Has n (put k v d)
Has-put n k v d h = elim (Bool-cases (str_eq k n)) [
  | inl e ↦ (v, ground (arith, get-put k n v d))
  | inr e ↦ (h.0, ground (arith, get-put k n v d, h.1))
]

Has-put_self : (n : String) (v : Str) (d : Dict Str) → Has n (put n v d)
Has-put_self n v d = (v, ground (arith, get-put n n v d, eq_iff n n))

-- A name that is in both dictionaries already, or that a spec to come requires.
abbrev Wanted : String → List ParamSpec → Dict Str → Dict Str → Type 0
Wanted n specs real masked = (Has n real × Has n masked) ⊎ (listed n (required_names specs) ≡ true)

Wanted-skip :
    (n : String) (spec : ParamSpec) (specs : List ParamSpec) (real masked : Dict Str)
    → spec.required ≡ false
    → Wanted n (spec ∷ specs) real masked
    → Wanted n specs real masked
Wanted-skip n spec specs real masked r (inl h) = inl h
Wanted-skip n spec specs real masked r (inr h) = inr (rw r at h)

Wanted-put :
    (n : String) (spec : ParamSpec) (specs : List ParamSpec) (real masked : Dict Str) (v w : Str)
    → Wanted n (spec ∷ specs) real masked
    → Wanted n specs (put spec.name v real) (put spec.name w masked)
Wanted-put n spec specs real masked v w (inl h) =
    inl (Has-put n spec.name v real h.0, Has-put n spec.name w masked h.1)
Wanted-put n spec specs real masked v w (inr h) = elim (Bool-cases (str_eq spec.name n)) [
  | inl e ↦ rw ((eq_iff spec.name n).0 e) (inl (Has-put_self n v real, Has-put_self n w masked))
  | inr e ↦ inr (ground arith)
]

collect-Has :
    (u : Unicode) (n : String) (specs : List ParamSpec) (params : Params) (real masked : Dict Str)
    (out : Dict Str × Dict Str)
    → collect u specs params real masked ≡ ok out
    → Wanted n specs real masked
    → Has n out.0 × Has n out.1
unfolding collect
collect-Has u n [] params real masked out h (inl w) =
    let e : ◌≡◌ {A = Dict Str × Dict Str} (real, masked) out = cc h in
    subst (λ o. Has n o.0 × Has n o.1) e w
collect-Has u n [] params real masked out h (inr w) = cc
collect-Has u n (spec ∷ specs) params real masked out h w =
    elim (collect-Turn u spec specs params real masked out h) [
      | inl t ↦
          collect-Has u n specs params real masked out t.2
            (Wanted-skip n spec specs real masked t.1 w)
      | inr t ↦
          collect-Has u n specs params (put spec.name t.0 real)
            (put spec.name (masked_value spec t.0) masked) out t.3
            (Wanted-put n spec specs real masked t.0 (masked_value spec t.0) w)
    ]

substitute-hole :
    (name : String) (tok : Token) (d : Dict Str) (v r : Str)
    → get name d ≡ some v
    → substitute tok d ≡ ok r
    → substitute (hole name ∷ tok) d ≡ ok (v ++ r)
unfolding substitute
substitute-hole name tok d v r e e' = ground arith

module _ (names : List String) (d : Dict Str)
    (has : (n : String) → listed n names ≡ true → Has n d) where
  substitute-closed :
      (tok : Token) → all (closed_piece names) tok ≡ true → (s : Str) × (substitute tok d ≡ ok s)
  unfolding substitute
  substitute-closed [] h = ([], refl)
  substitute-closed (lit s ∷ tok) h = let (r, e) = substitute-closed tok h in (codes s ++ r, rw e)
  substitute-closed (hole name ∷ tok) h =
      let (v, e) = has name (ground arith) in
      let (r, e') = substitute-closed tok (ground arith) in
      (v ++ r, substitute-hole name tok d v r e e')

  substitute_all-closed :
      (toks : List Token)
      → all (λ tok. all (closed_piece names) tok) toks ≡ true
      → (words : List Str) × (substitute_all toks d ≡ ok words)
  unfolding substitute_all
  substitute_all-closed [] h = ([], refl)
  substitute_all-closed (tok ∷ toks) h =
      let (w, e) = substitute-closed tok (ground arith) in
      let (ws, e') = substitute_all-closed toks (ground arith) in (w ∷ ws, rw (e, e'))

  substitute_cwd-closed :
      (cwd : Option Token)
      → closed_cwd names cwd ≡ true
      → (dir : Option Str) × (substitute_cwd cwd d ≡ ok dir)
  unfolding substitute_cwd
  substitute_cwd-closed none h = (none, refl)
  substitute_cwd-closed (some []) h = (none, refl)
  substitute_cwd-closed (some (p ∷ ps)) h =
      let (w, e) = substitute-closed (p ∷ ps) h in (some w, rw e)

finish-closed :
    (t : CommandTemplate) (real masked : Dict Str)
    → is_closed t ≡ true
    → ((n : String) → listed n (required_names t.params) ≡ true → Has n real × Has n masked)
    → (cmd : RenderedCommand) × (finish t real masked ≡ ok cmd)
unfolding finish
finish-closed t real masked c has =
    let names = required_names t.params in
    let (argv, e0) = substitute_all-closed names real (λ n l. (has n l).0) t.argv (ground arith) in
    let (shown, e1) =
      substitute_all-closed names masked (λ n l. (has n l).1) t.argv (ground arith) in
    let (dir, e2) = substitute_cwd-closed names real (λ n l. (has n l).0) t.cwd (ground arith) in
    (
      record {
        argv = argv;
        cwd = dir;
        display = with_cwd dir (join shown);
        params_sanitized = masked;
        secret_values = map (λ kv. kv.1) (select (secret_names t.params) real);
        secret_map = select (secret_names t.params) real;
      },
      rw (e0, e1, e2),
    )

-- For a template whose placeholders are all required parameters, `render` from real values succeeds
-- exactly when there is no unknown parameter and the loop over the whitelists raises nothing.
pub render-total :
    (u : Unicode) (t : CommandTemplate) (params : Params)
    → is_closed t ≡ true
    → unknown_names t.params params ≡ false
    → ((cmd : RenderedCommand) × (render u t params false ≡ ok cmd))
      ↔ ((dicts : Dict Str × Dict Str) × (collect u t.params params [] [] ≡ ok dicts))
unfolding render
render-total u t params c known = (
  λ r. let (dicts, loop, _) = render-parts u t params false r.0 r.1 in (dicts, loop),
  λ l.
      let (cmd, e) =
        finish-closed t l.0.0 l.0.1 c
          (λ n listed. collect-Has u n t.params params [] [] l.0 l.1 (inr listed)) in
      (cmd, rw (known, l.1) e),
)
