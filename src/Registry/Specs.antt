-- ===== src/Registry/Specs.antt =====
-- How a registered template is written: the defaults of `ParamSpec` and `CommandTemplate`
-- (backend/app/core/commands/templates.py) and the shared enumerations of registry.py.
use frappe_os.Base.{String, Bool, true, false, List, [], ◌∷◌, Option, none, some, map}
use frappe_os.Base.Text.{codes}
use frappe_os.Regex.{Regex}
use frappe_os.Templates.{ParamSpec, lit, hole, Token, CommandTemplate}

-- ParamSpec(name, regex=r)
abbrev pub matched : String → Regex → ParamSpec
matched name r = record {
  name = name;
  regex = some r;
  enum = none;
  secret = false;
  required = true;
  is_path = false;
}

-- ParamSpec(name, enum=values)
abbrev pub one_of : String → List String → ParamSpec
one_of name values = record {
  name = name;
  regex = none;
  enum = some (map codes values);
  secret = false;
  required = true;
  is_path = false;
}

abbrev pub path_like : ParamSpec → ParamSpec
path_like spec = record spec { is_path = true }

abbrev pub secret : ParamSpec → ParamSpec
secret spec = record spec { secret = true }

abbrev pub optional : ParamSpec → ParamSpec
optional spec = record spec { required = false }

abbrev pub word_of : String → Token
word_of s = lit s ∷ []

abbrev pub arg : String → Token
arg name = hole name ∷ []

abbrev pub template :
    String
    → List Token
    → Option Token
    → List ParamSpec
    → String
    → Bool
    → Bool
    → String
    → CommandTemplate
template action_name argv cwd params action_class idempotent requires_lock required_permission =
    record {
      action_name = action_name;
      argv = argv;
      cwd = cwd;
      params = params;
      action_class = action_class;
      idempotent = idempotent;
      requires_lock = requires_lock;
      required_permission = required_permission;
      lock_class = none;
      danger_class = none;
      run_as = none;
      local = false;
      secret_sources = [];
      writes_config = [];
    }

abbrev pub node_majors : List String
node_majors = "16" ∷ "18" ∷ "20" ∷ "24" ∷ []

abbrev pub restore_modes : List String
restore_modes = "same_site" ∷ "new_site" ∷ "different_bench" ∷ []

abbrev pub scheduler_states : List String
scheduler_states = "enable" ∷ "disable" ∷ []

abbrev pub service_names : List String
service_names = "nginx" ∷ "mariadb" ∷ "redis-server" ∷ "supervisor" ∷ []

abbrev pub ssl_states : List String
ssl_states = "on" ∷ "off" ∷ []

abbrev pub supported_branches : List String
supported_branches = "version-16" ∷ "version-15" ∷ "version-14" ∷ []

abbrev pub supported_majors : List String
supported_majors = "16" ∷ "15" ∷ "14" ∷ []

abbrev pub with_files : List String
with_files = "0" ∷ "1" ∷ []
