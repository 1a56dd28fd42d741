-- ===== src/Templates/Render.antt =====
-- `render` of templates.py.
use frappe_os.Base.{
  String, Bool, true, false, ◌&&◌, List, [], ◌∷◌, ◌++◌, Option, none, some, map, if◌then◌else◌,
}
use frappe_os.Base.Text.{Str, codes}
use frappe_os.Base.Results.{Result, ok, err, ◌>>=◌, ◌>>◌, raise_if}
use frappe_os.Base.Dicts.{Dict, get, put, listed}
use frappe_os.Regex.{Unicode}
use frappe_os.Templates.{
  mask, RenderError, secret_param_unresolved, unknown_parameter, missing_required, key_error,
  ParamSpec, validate, lit, hole, Token, CommandTemplate, secret_names, RenderedCommand,
}
use frappe_os.Templates.Quoting.{quote, join}

abbrev pub Params : Type 0
Params = Dict (Option Str)

-- `params.get(name)`, where None and "" count as not given.
abbrev pub given : Option (Option Str) → Option Str
given none = none
given (some none) = none
given (some (some [])) = none
given (some (some (c ∷ s))) = some (c ∷ s)

abbrev pub supplied : String → Params → Option Str
supplied name params = given (get name params)

-- `set(params) - known` is not empty.
unfoldable pub unknown_names : List ParamSpec → Params → Bool
unknown_names specs [] = false
unknown_names specs ((k, v) ∷ params) =
    if listed k (map (λ spec. spec.name) specs) then unknown_names specs params else true

abbrev pub masked_value : ParamSpec → Str → Str
masked_value spec value = if spec.secret then mask else value

-- The loop over the specs, with the dictionaries `real` and `masked`.
unfoldable pub collect :
    Unicode
    → List ParamSpec
    → Params
    → Dict Str
    → Dict Str
    → Result RenderError (Dict Str × Dict Str)
collect u [] params real masked = ok (real, masked)
collect u (spec ∷ specs) params real masked = elim (supplied spec.name params) [
  | none ↦ elim spec.required [
    | true ↦ err (missing_required spec.name)
    | false ↦ collect u specs params real masked
  ]
  | some raw ↦ elim (validate u spec raw) [
    | ok value ↦
        collect u specs params (put spec.name value real)
          (put spec.name (masked_value spec value) masked)
    | err e ↦ err e
  ]
]

-- `token.format(**values)`
unfoldable pub substitute : Token → Dict Str → Result RenderError Str
substitute [] values = ok []
substitute (lit s ∷ pieces) values = substitute pieces values >>= λ rest. ok (codes s ++ rest)
substitute (hole name ∷ pieces) values = elim (get name values) [
  | none ↦ err (key_error name)
  | some v ↦ substitute pieces values >>= λ rest. ok (v ++ rest)
]

unfoldable pub substitute_all : List Token → Dict Str → Result RenderError (List Str)
unfolding substitute
substitute_all [] values = ok []
substitute_all (tok ∷ toks) values = do
  word ← substitute tok values
  rest ← substitute_all toks values
  ok (word ∷ rest)

unfoldable pub substitute_cwd : Option Token → Dict Str → Result RenderError (Option Str)
unfolding substitute
substitute_cwd none values = ok none
substitute_cwd (some []) values = ok none
substitute_cwd (some (piece ∷ pieces)) values = do
  dir ← substitute (piece ∷ pieces) values
  ok (some dir)

abbrev pub with_cwd : Option Str → Str → Str
with_cwd none display = display
with_cwd (some dir) display = codes "cd " ++ quote dir ++ codes " && " ++ display

-- `{name: real[name] for name in template.secret_params if name in real}`
unfoldable pub select : List String → Dict Str → Dict Str
select [] real = []
select (name ∷ names) real = elim (get name real) [
  | none ↦ select names real
  | some v ↦ (name, v) ∷ select names real
]

abbrev pub is_nonempty {ℓ} : {A : Type ℓ} → List A → Bool
is_nonempty [] = false
is_nonempty (x ∷ xs) = true

-- What follows the loop.
unfoldable pub finish : CommandTemplate → Dict Str → Dict Str → Result RenderError RenderedCommand
finish template real masked = do
  argv ← substitute_all template.argv real
  display_argv ← substitute_all template.argv masked
  cwd ← substitute_cwd template.cwd real
  let secret_map = select (secret_names template.params) real
  ok (record {
    argv = argv;
    cwd = cwd;
    display = with_cwd cwd (join display_argv);
    params_sanitized = masked;
    secret_values = map (λ kv. kv.1) secret_map;
    secret_map = secret_map;
  })

unfoldable pub render :
    Unicode → CommandTemplate → Params → Bool → Result RenderError RenderedCommand
render u template params from_sanitized = do
  raise_if (from_sanitized && is_nonempty (secret_names template.params)) secret_param_unresolved
  raise_if (unknown_names template.params params) unknown_parameter
  dicts ← collect u template.params params [] []
  finish template dicts.0 dicts.1
