-- ===== src/Templates.antt =====
-- backend/app/core/commands/templates.py: parameter whitelists, command templates and `render`.
-- A `str.format` constant is the list of its pieces, a regular expression its syntax tree, and a
-- value is the text that `str(raw)` gives. `None` and a missing key are both `none`.
pub mod Quoting
pub mod Render
pub mod Secrecy
pub mod Whitelist
pub mod Totality
use frappe_os.Base.{
  ℕ, String, Bool, true, false, ◌&&◌, List, [], ◌∷◌, Option, none, some, not, ◌==◌, if◌then◌else◌,
  any, all,
}
use frappe_os.Base.Text.{Str, codes, same}
use frappe_os.Base.Results.{Result, ok, err, ◌>>=◌, ◌>>◌, raise_if}
use frappe_os.Base.Dicts.{Dict}
use frappe_os.Regex.{Regex, Unicode, fullmatch}

-- MASK = "••••"
abbrev pub mask : Str
mask = 8226 ∷ 8226 ∷ 8226 ∷ 8226 ∷ []

-- `path.split("/")`
split_slash : Str → List Str
split_slash [] = [] ∷ []
split_slash (c ∷ s) = extend (split_slash s)
  where
    extend : List Str → List Str
    extend [] = (c ∷ []) ∷ []
    extend (seg ∷ segs) = if c == 47 then [] ∷ seg ∷ segs else (c ∷ seg) ∷ segs

unfoldable pub has_dotdot_segment : Str → Bool
unfolding split_slash
has_dotdot_segment path = any (λ seg. same seg (46 ∷ 46 ∷ [])) (split_slash path)

-- `RenderError` and its subclass; `key_error` is the `KeyError` of `str.format` at an unfilled hole.
pub data RenderError : Type 0 where
  secret_param_unresolved : RenderError
  unknown_parameter : RenderError
  missing_required : String → RenderError
  not_in_enum : String → RenderError
  disallowed_characters : String → RenderError
  dotdot_segments : String → RenderError
  key_error : String → RenderError

pub record ParamSpec : Type 0 where
  pub name : String
  pub regex : Option Regex
  pub enum : Option (List Str)
  pub secret : Bool
  pub required : Bool
  pub is_path : Bool

abbrev enum_refuses : Option (List Str) → Str → Bool
enum_refuses none value = false
enum_refuses (some values) value = not (any (λ v. same value v) values)

abbrev regex_refuses : Unicode → Option Regex → Str → Bool
regex_refuses u none value = false
regex_refuses u (some r) value = not (fullmatch u r value)

-- ParamSpec.validate
unfoldable pub validate : Unicode → ParamSpec → Str → Result RenderError Str
unfolding has_dotdot_segment
validate u spec value = do
  raise_if (enum_refuses spec.enum value) (not_in_enum spec.name)
  raise_if (regex_refuses u spec.regex value) (disallowed_characters spec.name)
  raise_if (spec.is_path && has_dotdot_segment value) (dotdot_segments spec.name)
  ok value

-- One piece of a format string: constant text, or a `{name}` placeholder.
pub data Piece : Type 0 where
  lit : String → Piece
  hole : String → Piece

abbrev pub Token : Type 0
Token = List Piece

-- `action_class` is the name of the class, and the permission constants are their texts.
pub record CommandTemplate : Type 0 where
  pub action_name : String
  pub argv : List Token
  pub cwd : Option Token
  pub params : List ParamSpec
  pub action_class : String
  pub idempotent : Bool
  pub requires_lock : Bool
  pub required_permission : String
  pub lock_class : Option String
  pub danger_class : Option String
  pub run_as : Option String
  pub local : Bool
  pub secret_sources : Dict String
  pub writes_config : List String

-- CommandTemplate.secret_params, in the order of the specs.
abbrev pub secret_names : List ParamSpec → List String
secret_names [] = []
secret_names (spec ∷ specs) =
    let rest = secret_names specs in if spec.secret then spec.name ∷ rest else rest

pub record RenderedCommand : Type 0 where
  pub argv : List Str
  pub cwd : Option Str
  pub display : Str
  pub params_sanitized : Dict Str
  pub secret_values : List Str
  pub secret_map : Dict Str
