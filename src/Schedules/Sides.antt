-- ===== src/Schedules/Sides.antt =====
-- What `_build_fire` of backend/app/core/scheduler.py inserts for a fire.
use frappe_os.Base.{
  Option, [], ap, if_either, none, not, refl, some, str_eq, subst, sym, ◌&&◌, ◌++◌, ◌||◌, ◌∷◌, ◌≡◌,
}
use frappe_os.Base.Results.{Result, err, ok, raise_if, ◌>>=◌}
use frappe_os.Jobs.Create.{show}
use frappe_os.Templates.Render.{Params}
use frappe_os.Regex.{Unicode}
use frappe_os.Restic.{repository_uri, retention_configured, has_text, StorageTarget}
use frappe_os.Schedules.Fire.{build_site_fire, build_fire, build_platform_fire, backup_fire}
use frappe_os.Schedules.Targets.{
  target_by_id, uri_or, lookup_target, first_enabled, keep_params, site_fire, or_raise,
  platform_fire, site_params, on_site, require, config, is_action, resolve_site_target, falsy,
  drift_fire, build_report_fire, build_restic_fire,
}
use frappe_os.Schedules.{
  no_password, no_retention, no_credentials, not_initialised, no_repo, server_gone,
  unsupported_target, no_storage_target, unschedulable, Schedule, ScheduleError,
}
use frappe_os.Schedules.Tables.{
  add_platform, add_backup, BenchRow, SideRow, Side, Fleet, Fire, SiteRow, Store, backup,
  platform_backup,
}

-- No fire of these carries a side row.
abbrev NoSide : Result ScheduleError Fire → Type 0
NoSide (err e) = Unit
NoSide (ok fire) = fire.side ≡ none

bind-NoSide :
    {A : Type 0} (m : Result ScheduleError A) (k : A → Result ScheduleError Fire)
    → ((a : A) → NoSide (k a))
    → NoSide (m >>= k)
bind-NoSide (err e) k h = tt
bind-NoSide (ok a) k h = h a

drift_fire-NoSide : (fleet : Fleet) (s : Schedule) → NoSide (drift_fire fleet s)
drift_fire-NoSide fleet s =
    bind-NoSide (require (str_eq s.target_type "server") unsupported_target) _ λ _.
      bind-NoSide (or_raise server_gone (lookup_target fleet.server_rows s.target_id)) _
        λ server. refl

build_restic_fire-NoSide :
    (u : Unicode) (fleet : Fleet) (s : Schedule) → NoSide (build_restic_fire u fleet s)
unfolding build_restic_fire
build_restic_fire-NoSide u fleet s =
    bind-NoSide (require (str_eq s.target_type "server") unsupported_target) _ λ _.
      bind-NoSide (or_raise server_gone (lookup_target fleet.server_rows s.target_id)) _ λ server.
        bind-NoSide (or_raise no_repo (fleet.repos server.id)) _ λ repo.
          bind-NoSide (require (has_text repo.password_enc) no_password) _ λ _.
            bind-NoSide (require repo.initialized not_initialised) _ λ _.
              bind-NoSide
                (raise_if (is_action s "restic.forget" && not (retention_configured repo))
                  no_retention)
                _
                λ _.
                  bind-NoSide
                    (or_raise no_storage_target (target_by_id fleet repo.storage_target_id)) _
                    λ target.
                      bind-NoSide
                        (require (has_text target.access_key_enc && has_text target.secret_key_enc)
                          no_credentials)
                        _
                        λ _.
                          bind-NoSide (uri_or (repository_uri u target repo.prefix)) _ λ uri. refl

build_report_fire-NoSide : (s : Schedule) → NoSide (build_report_fire s)
unfolding build_report_fire
build_report_fire-NoSide s = if_either NoSide (falsy (config "report_id" s.params)) tt refl

on_site-NoSide :
    (target : Result ScheduleError (SiteRow × BenchRow)) (params : SiteRow → BenchRow → Params)
    → NoSide (on_site target (λ site bench. site_fire site bench (params site bench) none))
on_site-NoSide (err e) params = tt
on_site-NoSide (ok (site, bench)) params = refl

module _ {S : Type 0} where
  -- What a fire inserted: a row under a new id, or nothing.
  abbrev pub Inserted : Option Side → Store S → Store S → Type 0
  Inserted none st st' = st' ≡ st
  Inserted (some (backup i)) st st' =
      (i ≡ st.next_backup) × (row : SideRow) × (st' ≡ add_backup row st)
  Inserted (some (platform_backup i)) st st' =
      (i ≡ st.next_platform) × (row : SideRow) × (st' ≡ add_platform row st)

  abbrev pub Built : Store S → Result ScheduleError Fire × Store S → Type 0
  Built st (err e, st') = st' ≡ st
  Built st (ok fire, st') = Inserted fire.side st st'

  NoSide-Built : (r : Result ScheduleError Fire) (st : Store S) → NoSide r → Built st (r, st)
  NoSide-Built (err e) st h = refl
  NoSide-Built (ok fire) st h = subst (λ side. Inserted side st st) (sym h) refl

  build_platform_fire-Built :
      (fleet : Fleet) (s : Schedule) (st : Store S) → Built st (build_platform_fire fleet s st)
  unfolding build_platform_fire
  build_platform_fire-Built fleet s st =
      if_either (Built st) (is_action s "platform.self_backup")
        (self_backup (first_enabled fleet.storage_targets))
        (if_either (Built st) (is_action s "platform.self_backup_retention_sweep") refl refl)
    where
      self_backup :
          (o : Option StorageTarget)
          → Built st (elim o [
            | none ↦ (err no_storage_target, st)
            | some target ↦ (
              ok (
                  platform_fire
                    (("backup_id", some (show st.next_platform))
                      ∷ (("storage_target_id", some (show target.id)) ∷ []))
                    (some (platform_backup st.next_platform))),
              add_platform (record { owner = none; kind = "platform"; taken_by_job_id = none }) st,
            )
          ])
      self_backup none = refl
      self_backup (some target) =
          (refl, record { owner = none; kind = "platform"; taken_by_job_id = none }, refl)

  backup_fire-Built :
      (s : Schedule) (target : Result ScheduleError (SiteRow × BenchRow)) (st : Store S)
      → Built st (backup_fire s target st)
  backup_fire-Built s (err e) st = refl
  backup_fire-Built s (ok (site, bench)) st = (refl, _, refl)

  only_error-Built :
      (target : Result ScheduleError (SiteRow × BenchRow)) (st : Store S)
      → Built st (
        elim target as (λ _. Result ScheduleError Fire) [
          | err e ↦ err e
          | ok p ↦ err unschedulable
        ],
        st,
      )
  only_error-Built (err e) st = refl
  only_error-Built (ok p) st = refl

  build_site_fire-Built :
      (fleet : Fleet) (s : Schedule) (st : Store S) → Built st (build_site_fire fleet s st)
  unfolding build_site_fire
  build_site_fire-Built fleet s st =
      let target = resolve_site_target fleet s in
      if_either (Built st) (is_action s "site.backup") (backup_fire-Built s target st) (
        if_either (Built st) (is_action s "backup.retention_sweep")
          (NoSide-Built _ st
            (on_site-NoSide target (λ site bench. site_params site bench ++ keep_params s)))
          (if_either (Built st) (is_action s "ssl.certbot_renew" || is_action s "ssl.expiry_scan")
            (NoSide-Built _ st (on_site-NoSide target site_params)) (only_error-Built target st)))

  pub build_fire-Built :
      (u : Unicode) (fleet : Fleet) (s : Schedule) (st : Store S)
      → Built st (build_fire u fleet s st)
  unfolding build_fire
  build_fire-Built u fleet s st =
      if_either (Built st) (is_action s "server.drift_check")
        (NoSide-Built _ st (drift_fire-NoSide fleet s))
        (if_either (Built st)
          (is_action s "restic.backup" || is_action s "restic.forget" || is_action s "restic.check")
          (NoSide-Built _ st (build_restic_fire-NoSide u fleet s))
          (if_either (Built st) (is_action s "report.generate")
            (NoSide-Built _ st (build_report_fire-NoSide s))
            (if_either (Built st) (str_eq s.target_type "platform")
              (build_platform_fire-Built fleet s st) (build_site_fire-Built fleet s st))))

  pub Inserted-world :
      (side : Option Side) (st built : Store S) → Inserted side st built → built.world ≡ st.world
  Inserted-world none st built inserted = ap (λ b. b.world) inserted
  Inserted-world (some (backup i)) st built (new, row, inserted) = ap (λ b. b.world) inserted
  Inserted-world (some (platform_backup i)) st built (new, row, inserted) =
      ap (λ b. b.world) inserted

  pub Inserted-schedules :
      (side : Option Side) (st built : Store S)
      → Inserted side st built
      → built.schedules ≡ st.schedules
  Inserted-schedules none st built inserted = ap (λ b. b.schedules) inserted
  Inserted-schedules (some (backup i)) st built (new, row, inserted) =
      ap (λ b. b.schedules) inserted
  Inserted-schedules (some (platform_backup i)) st built (new, row, inserted) =
      ap (λ b. b.schedules) inserted
