-- ===== src/Registry/Roles.antt =====
-- Which registered actions the default roles may launch through `POST /api/jobs`
-- (backend/app/api/routes/jobs.py), which checks the permission of the template, and which flags of
-- the registered templates go together.
use frappe_os.Base.{
  String, ◌≡◌, refl, Bool, true, false, List, [], Option, none, some, arith, all, ◌&&◌, ◌||◌,
}
use frappe_os.Base.Dicts.{get}
use frappe_os.Permissions.{default_roles, role_allows}
use frappe_os.Templates.{CommandTemplate}
use frappe_os.Registry.{templates, get_template}
use frappe_os.Registry.Safety.{registered}

-- The permission check of `create_job`.
abbrev pub permissions_of : Option (List String) → List String
permissions_of none = []
permissions_of (some ps) = ps

unfoldable pub may_launch : String → CommandTemplate → Bool
unfolding role_allows
may_launch role t = role_allows (permissions_of (get role default_roles)) t.required_permission

-- Exclusive or repeatable, and a blockable danger class only where there is a lock.
abbrev disciplined : CommandTemplate → Bool
disciplined t = (t.requires_lock || t.idempotent) && (t.requires_lock || is_none t.danger_class)
  where
    is_none : Option String → Bool
    is_none none = true
    is_none (some c) = false

discipline-table : all disciplined templates ≡ true
unfolding templates
discipline-table = refl

-- A registered action that takes no lock may be repeated (it is idempotent) and belongs to no
-- danger class.
pub unlocked-idempotent :
    (name : String) {t : CommandTemplate}
    → get_template name ≡ some t
    → t.requires_lock ≡ false
    → (t.idempotent ≡ true) × (t.danger_class ≡ none)
unlocked-idempotent name {t} e h =
    let d = registered disciplined name discipline-table e in (ground arith, ground arith)
