-- ===== src/Schedules/Targets.antt =====
-- The parameters of the job that a schedule fires: the resolution of targets in
-- backend/app/core/scheduler.py.
use frappe_os.Regex.{Unicode}
use frappe_os.Jobs.Create.{show}
use frappe_os.Templates.Render.{Params}
use frappe_os.Schedules.Tables.{Side, BenchRow, SiteRow, Fire, Fleet, ServerRow}
use frappe_os.Restic.{
  has_text, is_blank, repository_uri, StorageTarget, retention_configured, ResticError,
}
use frappe_os.Base.{
  Bool, List, Option, String, [], false, if◌then◌else◌, none, not, some, str_eq, suc, true, zero, ℕ,
  ◌&&◌, ◌++◌, ◌||◌, ◌∷◌,
}
use frappe_os.Base.Dicts.{Dict, get}
use frappe_os.Base.Results.{Result, err, ok, raise_if, ◌>>=◌, ◌>>◌}
use frappe_os.Base.Text.{Str, codes, join_on}
use frappe_os.Schedules.{
  Json, Schedule, ScheduleError, null, text, texts, other, unsupported_target, site_gone, no_bench,
  server_gone, no_report_id, no_repo, no_password, not_initialised, no_retention, no_storage_target,
  no_credentials, bad_repository,
}

abbrev pub lookup_target : {A : Type 0} → (ℕ → Option A) → Option ℕ → Option A
lookup_target table none = none
lookup_target table (some i) = table i

abbrev pub or_raise : {A : Type 0} → ScheduleError → Option A → Result ScheduleError A
or_raise e none = err e
or_raise e (some a) = ok a

abbrev pub require : Bool → ScheduleError → Result ScheduleError (Unit {0})
require test e = raise_if (not test) e

abbrev pub is_action : Schedule → String → Bool
is_action s name = str_eq s.action_name name

abbrev pub number_param : String → Option ℕ → Params
number_param name none = []
number_param name (some n) = (name, some (show n)) ∷ []

abbrev pub falsy : Json → Bool
falsy null = true
falsy (text []) = true
falsy (text (c ∷ s)) = false
falsy (texts [] shown) = true
falsy (texts (x ∷ xs) shown) = false
falsy (other counts_false s) = counts_false

-- `str(value)`
abbrev pub str_of : Json → Str
str_of null = codes "None"
str_of (text s) = s
str_of (texts xs shown) = shown
str_of (other counts_false s) = s

abbrev pub config : String → Dict Json → Json
config name params = elim (get name params) [ none ↦ null | some v ↦ v ]

-- `str(config.get("format") or "csv")`
abbrev pub format_of : Json → Str
format_of v = if falsy v then codes "csv" else str_of v

-- A list is joined, another value is taken as its text.
abbrev pub joined : Json → Str
joined null = str_of null
joined (text s) = s
joined (texts xs shown) = join_on 44 xs
joined (other counts_false s) = s

-- An empty text is left out.
abbrev pub recipients_of : Json → Params
recipients_of v =
    if falsy v || is_blank (joined v) then [] else ("recipients", some (joined v)) ∷ []

-- `config.get(key) not in (None, "")`
abbrev pub forwarded : String → Json → Params
forwarded name null = []
forwarded name (text []) = []
forwarded name (text (c ∷ s)) = (name, some (c ∷ s)) ∷ []
forwarded name (texts xs shown) = (name, some shown) ∷ []
forwarded name (other counts_false s) = (name, some s) ∷ []

-- _build_report_fire
unfoldable pub build_report_fire : Schedule → Result ScheduleError Fire
build_report_fire s =
    let report_id = config "report_id" s.params in
    if falsy report_id
    then err no_report_id
    else ok (record {
      server_id = none;
      target_id = some (str_of report_id);
      params =
          ("report_id", some (str_of report_id))
          ∷ (("format", some (format_of (config "format" s.params)))
              ∷ (recipients_of (config "recipients" s.params)
                  ++ (forwarded "range_days" (config "range_days" s.params)
                      ++ (forwarded "within_days" (config "within_days" s.params)
                          ++ (forwarded "status" (config "status" s.params)
                              ++ number_param "requested_by" s.created_by)))));
      side = none;
    })

abbrev pub host_of : ServerRow → Str
host_of server = if is_blank server.hostname then server.name else server.hostname

abbrev pub restic_extra : Schedule → ServerRow → Params
restic_extra s server =
    if is_action s "restic.backup"
    then ("host", some (host_of server)) ∷ []
    else if is_action s "restic.check"
    then ("subset", some (codes "5%")) ∷ []
    else []

abbrev pub uri_or : Result ResticError Str → Result ScheduleError Str
uri_or (ok uri) = ok uri
uri_or (err e) = err bad_repository

abbrev pub target_by_id : Fleet → Option ℕ → Option StorageTarget
target_by_id fleet none = none
target_by_id fleet (some zero) = none
target_by_id fleet (some (suc i)) = fleet.storage_target (suc i)

-- _build_restic_fire
unfoldable pub build_restic_fire : Unicode → Fleet → Schedule → Result ScheduleError Fire
unfolding retention_configured repository_uri
build_restic_fire u fleet s = do
  require (str_eq s.target_type "server") unsupported_target
  server ← or_raise server_gone (lookup_target fleet.server_rows s.target_id)
  repo ← or_raise no_repo (fleet.repos server.id)
  require (has_text repo.password_enc) no_password
  require repo.initialized not_initialised
  raise_if (is_action s "restic.forget" && not (retention_configured repo)) no_retention
  target ← or_raise no_storage_target (target_by_id fleet repo.storage_target_id)
  require (has_text target.access_key_enc && has_text target.secret_key_enc) no_credentials
  uri ← uri_or (repository_uri u target repo.prefix)
  ok (record {
    server_id = some server.id;
    target_id = some (show server.id);
    params = ("repo", some uri) ∷ restic_extra s server;
    side = none;
  })

-- _resolve_site_target
unfoldable pub resolve_site_target : Fleet → Schedule → Result ScheduleError (SiteRow × BenchRow)
resolve_site_target fleet s = do
  require (str_eq s.target_type "site") unsupported_target
  site ← or_raise site_gone (lookup_target fleet.sites s.target_id)
  bench ← or_raise no_bench (fleet.benches site.bench_id)
  ok (site, bench)

abbrev pub site_params : SiteRow → BenchRow → Params
site_params site bench = ("site", some site.name) ∷ ("bench_path", some bench.path) ∷ []

abbrev pub keep_params : Schedule → Params
keep_params s =
    number_param "keep_last" s.retention_keep_last ++ number_param "keep_days" s.retention_keep_days

abbrev pub site_fire : SiteRow → BenchRow → Params → Option Side → Fire
site_fire site bench params side = record {
  server_id = some bench.server_id;
  target_id = some (bench.path ++ (codes "::" ++ site.name));
  params = params;
  side = side;
}

abbrev pub platform_fire : Params → Option Side → Fire
platform_fire params side = record {
  server_id = some 0;
  target_id = some (codes "platform");
  params = params;
  side = side;
}

-- The first enabled target.
abbrev pub first_enabled : List StorageTarget → Option StorageTarget
first_enabled [] = none
first_enabled (t ∷ ts) = if t.enabled then some t else first_enabled ts

abbrev pub on_site :
    Result ScheduleError (SiteRow × BenchRow)
    → (SiteRow → BenchRow → Fire)
    → Result ScheduleError Fire
on_site (err e) k = err e
on_site (ok (site, bench)) k = ok (k site bench)

-- The branch of `_build_fire` for a drift check.
abbrev pub drift_fire : Fleet → Schedule → Result ScheduleError Fire
drift_fire fleet s =
    require (str_eq s.target_type "server") unsupported_target
    >> (or_raise server_gone (lookup_target fleet.server_rows s.target_id) >>= λ server.
        ok (record { server_id = some server.id; target_id = none; params = []; side = none }))
