-- ===== src/Registry.antt =====
-- backend/app/core/commands/registry.py: the table of every action that the platform can run.
pub mod Patterns
pub mod Specs
pub mod Benches
pub mod Backups
pub mod Sites
pub mod Apps
pub mod Domains
pub mod Restic
pub mod Tools
pub mod Agents
pub mod Safety
pub mod Roles
mod Examples
use frappe_os.Base.{String, List, [], ◌∷◌, ◌++◌, Option, none, some, if◌then◌else◌, str_eq}
use frappe_os.Templates.{CommandTemplate}
use frappe_os.Registry.Benches.{benches_templates}
use frappe_os.Registry.Backups.{backups_templates}
use frappe_os.Registry.Sites.{sites_templates}
use frappe_os.Registry.Apps.{apps_templates}
use frappe_os.Registry.Domains.{domains_templates}
use frappe_os.Registry.Restic.{restic_templates}
use frappe_os.Registry.Tools.{tools_templates}
use frappe_os.Registry.Agents.{agents_templates}

pub find : String → List CommandTemplate → Option CommandTemplate
find name [] = none
find name (t ∷ ts) = if str_eq t.action_name name then some t else find name ts

-- `_TEMPLATES`; the order of registration plays no role, since names are distinct.
unfoldable pub templates : List CommandTemplate
unfolding benches_templates backups_templates sites_templates apps_templates domains_templates
    restic_templates tools_templates agents_templates
templates =
    benches_templates ++ backups_templates ++ sites_templates ++ apps_templates ++ domains_templates
    ++ restic_templates ++ tools_templates ++ agents_templates

-- get_template; `none` is UnknownAction.
unfoldable pub get_template : String → Option CommandTemplate
unfolding find
get_template name = find name templates
