-- ===== src/Restic/Examples.antt =====
-- A repository that keeps three snapshots and a week of daily ones.
use frappe_os.Base.{List, String, [], false, none, refl, some, true, ℕ, ◌==◌, ◌↔◌, ◌∷◌, ◌≡◌}
use frappe_os.Base.Results.{err, ok}
use frappe_os.Base.Text.{codes}
use frappe_os.Restic.Retention.{build_forget_keep_args-Positive, Positive}
use frappe_os.Regex.{Unicode}
use frappe_os.Restic.{
  retention_configured, dotdot_prefix, StorageTarget, ResticRepo, repository_uri,
  build_forget_keep_args,
}

abbrev repo : ResticRepo
repo = record {
  id = 1;
  server_id = 4;
  storage_target_id = some 2;
  prefix = codes "/srv/";
  password_enc = some (codes "token");
  initialized = true;
  retention_keep_last = some 3;
  retention_keep_daily = some 7;
  retention_keep_weekly = none;
  retention_keep_monthly = none;
}

build_forget_keep_args-Positive_example :
    ((args : List (String × ℕ)) × (build_forget_keep_args repo ≡ ok args))
    ↔ ((retention_configured repo ≡ true) × Positive repo)
build_forget_keep_args-Positive_example = build_forget_keep_args-Positive repo

repo_args : build_forget_keep_args repo ≡ ok (("--keep-last", 3) ∷ ("--keep-daily", 7) ∷ [])
unfolding build_forget_keep_args
repo_args = refl

abbrev target : StorageTarget
target = record {
  id = 2;
  name = codes "offsite";
  endpoint_url = some (codes "http://minio.local:9000/");
  region = none;
  bucket = codes "dr";
  access_key_enc = some (codes "a");
  secret_key_enc = some (codes "b");
  enabled = true;
}

abbrev ascii : Unicode
ascii = record { is_word = λ c. false; is_space = λ c. c == 32 }

target_uri :
    (repository_uri ascii target repo.prefix ≡ ok (codes "s3:http://minio.local:9000/dr/srv"))
    × (repository_uri ascii target (codes "a/../b") ≡ err dotdot_prefix)
unfolding repository_uri
target_uri = (refl, refl)
