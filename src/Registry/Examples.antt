-- ===== src/Registry/Examples.antt =====
-- The theorems on registered actions at concrete jobs.
use mathlib.Core.List.{Memᴰ}
use frappe_os.Base.{map, keep_if, ◌≡◌, refl, ◌↔◌, true, false, [], ◌∷◌, none, some}
use frappe_os.Base.Text.{Str, codes, has}
use frappe_os.Base.Results.{ok, err}
use frappe_os.Base.Dicts.{Dict}
use frappe_os.Regex.{Unicode, fullmatch}
use frappe_os.Templates.{
  ParamSpec, RenderedCommand, validate, secret_param_unresolved, mask, disallowed_characters,
}
use frappe_os.Templates.Quoting.{join}
use frappe_os.Templates.Render.{
  Params, collect, finish, substitute_all, substitute_cwd, select, unknown_names, render,
}
use frappe_os.Registry.Specs.{one_of, supported_branches}
use frappe_os.Registry.{get_template, templates}
use frappe_os.Registry.Benches.{bench_init, bench_nginx_test}
use frappe_os.Registry.Sites.{site_drop}
use frappe_os.Registry.Safety.{registered-keeps_out, registered-secrecy, registered-total}
use frappe_os.Registry.Roles.{may_launch, unlocked-idempotent}

-- A table without letters or spaces above ASCII.
abbrev ascii : Unicode
ascii = record { is_word = λ c. false; is_space = λ c. false }

abbrev init_params : Params
init_params =
    ("branch", some (codes "version-16"))
    ∷ ("name", some (codes "frappe-bench"))
    ∷ ("path", some (codes "/home/frappe"))
    ∷ []

abbrev init_shown : Dict Str
init_shown =
    ("branch", codes "version-16")
    ∷ ("name", codes "frappe-bench")
    ∷ ("path", codes "/home/frappe")
    ∷ []

abbrev init_command : RenderedCommand
init_command = record {
  argv =
      codes "bench"
      ∷ codes "init"
      ∷ codes "--frappe-branch"
      ∷ codes "version-16"
      ∷ codes "frappe-bench"
      ∷ [];
  cwd = some (codes "/home/frappe");
  display = codes "cd /home/frappe && bench init --frappe-branch version-16 frappe-bench";
  params_sanitized = init_shown;
  secret_values = [];
  secret_map = [];
}

init_found : get_template "bench.init" ≡ some bench_init
unfolding get_template templates
init_found = refl

init_rendered : render ascii bench_init init_params false ≡ ok init_command
unfolding render collect finish validate fullmatch substitute_all substitute_cwd join select
    unknown_names bench_init
init_rendered = refl

abbrev branch_param : ParamSpec
branch_param = one_of "branch" supported_branches

branch_declared : Memᴰ branch_param bench_init.params
unfolding bench_init
branch_declared = Memᴰ.head refl

registered-keeps_out_example : has b';' (codes "version-16") ≡ false
registered-keeps_out_example =
    registered-keeps_out ascii b';' "bench.init" init_params false (codes "version-16") refl
      init_found init_rendered branch_declared refl refl

abbrev drop_params : Str → Params
drop_params pw =
    ("site", some (codes "shop.example"))
    ∷ ("bench_path", some (codes "/home/frappe/bench"))
    ∷ ("db_root_pw", some pw)
    ∷ []

-- Two root passwords.
abbrev first_pw : Str
first_pw = codes "s3cret"

abbrev second_pw : Str
second_pw = codes "hunter2"

abbrev drop_shown : Dict Str
drop_shown =
    ("site", codes "shop.example")
    ∷ ("bench_path", codes "/home/frappe/bench")
    ∷ ("db_root_pw", mask)
    ∷ []

abbrev drop_command : Str → RenderedCommand
drop_command pw = record {
  argv =
      codes "bench"
      ∷ codes "drop-site"
      ∷ codes "shop.example"
      ∷ codes "--force"
      ∷ codes "--no-backup"
      ∷ codes "--root-login"
      ∷ codes "root"
      ∷ codes "--root-password"
      ∷ pw
      ∷ [];
  cwd = some (codes "/home/frappe/bench");
  display =
      codes
        "cd /home/frappe/bench && bench drop-site shop.example --force --no-backup --root-login root --root-password '••••'";
  params_sanitized = drop_shown;
  secret_values = pw ∷ [];
  secret_map = ("db_root_pw", pw) ∷ [];
}

drop_found : get_template "site.drop" ≡ some site_drop
unfolding get_template templates
drop_found = refl

drop_rendered :
    (render ascii site_drop (drop_params first_pw) false ≡ ok (drop_command first_pw))
    × (render ascii site_drop (drop_params second_pw) false ≡ ok (drop_command second_pw))
unfolding render collect finish validate fullmatch substitute_all substitute_cwd join select
    unknown_names site_drop
drop_rendered = (refl, refl)

registered-secrecy_example :
    ((drop_command first_pw).display ≡ (drop_command second_pw).display)
    × ((drop_command first_pw).params_sanitized ≡ (drop_command second_pw).params_sanitized)
unfolding site_drop
registered-secrecy_example =
    registered-secrecy ascii "site.drop" (drop_params first_pw) (drop_params second_pw) false false
      drop_found ((λ _. refl, refl), ((λ _. refl, refl), ((λ s. absurd (cc s), refl), tt)))
      drop_rendered.0 drop_rendered.1

init_known : unknown_names bench_init.params init_params ≡ false
unfolding unknown_names bench_init
init_known = refl

registered-total_example :
    ((cmd : RenderedCommand) × (render ascii bench_init init_params false ≡ ok cmd)) ↔ (
      (dicts : Dict Str × Dict Str) × (collect ascii bench_init.params init_params [] []
        ≡ ok dicts))
registered-total_example = registered-total ascii "bench.init" init_params init_found init_known

-- What the default Read-only role may launch: four probes and a tool scan.
read_only_may :
    map (λ t. t.action_name) (keep_if (may_launch "Read-only") templates)
    ≡ "server.disk_free" ∷ "server.scan_tools" ∷ "site.ping" ∷ "site.scheduler_status"
      ∷ "site.count_doctype" ∷ []
unfolding may_launch templates
read_only_may = refl

nginx_found : get_template "bench.nginx_test" ≡ some bench_nginx_test
unfolding get_template templates
nginx_found = refl

nginx_unlocked : bench_nginx_test.requires_lock ≡ false
unfolding bench_nginx_test
nginx_unlocked = refl

unlocked-idempotent_example :
    (bench_nginx_test.idempotent ≡ true) × (bench_nginx_test.danger_class ≡ none)
unlocked-idempotent_example = unlocked-idempotent "bench.nginx_test" nginx_found nginx_unlocked

-- A masked command is never run, and an injection does not pass the whitelist.
refused :
    (render ascii site_drop (drop_params mask) true ≡ err secret_param_unresolved)
    × (render ascii bench_init
          (("branch", some (codes "version-16")) ∷ ("name", some (codes "x; rm")) ∷ [])
          false
        ≡ err (disallowed_characters "name"))
unfolding render collect finish validate fullmatch unknown_names site_drop bench_init
refused = (refl, refl)
