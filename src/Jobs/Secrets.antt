-- ===== src/Jobs/Secrets.antt =====
-- backend/app/core/secrets_resolve.py: the plaintext of a job's secret parameters. Fernet and JSON
-- are not code of the repository: the service is the record `SecretsService`, whose functions return
-- `none` where they raise. A row `Server` gives the Fernet token in a column, `none` for NULL.
use frappe_os.Base.{
  drop, Bool, List, Option, String, [], any, false, if◌then◌else◌, none, not, some, str_eq, true,
  ◌&&◌, ◌∷◌,
}
use frappe_os.Base.Dicts.{Dict, get, put}
use frappe_os.Base.Results.{Result, err, ok, ◌>>=◌}
use frappe_os.Base.Text.{Str, codes, same, starts_with}
use frappe_os.Templates.{ParamSpec, CommandTemplate, secret_names}

pub record SecretsService : Type 0 where
  -- encrypt(json.dumps(values)), and back
  pub encrypt_bundle : Dict Str → Str
  pub decrypt_bundle : Str → Option (Dict Str)
  pub decrypt : Str → Option Str

abbrev pub Server : Type 0
Server = Str → Option Str

pub data SecretResolutionError : Type 0 where
  missing_job_secret : String → SecretResolutionError
  missing_server_column : Str → SecretResolutionError
  unknown_source : String → SecretResolutionError
  undecipherable : SecretResolutionError

-- encrypt_job_secrets
unfoldable pub encrypt_job_secrets : SecretsService → Dict Str → Option Str
encrypt_job_secrets svc [] = none
encrypt_job_secrets svc (kv ∷ values) = some (svc.encrypt_bundle (kv ∷ values))

abbrev opened : Option (Dict Str) → Result SecretResolutionError (Dict Str)
opened none = err undecipherable
opened (some d) = ok d

-- decrypt_job_secrets
unfoldable pub decrypt_job_secrets :
    SecretsService → Option Str → Result SecretResolutionError (Dict Str)
decrypt_job_secrets svc none = ok []
decrypt_job_secrets svc (some []) = ok []
decrypt_job_secrets svc (some (c ∷ token)) = opened (svc.decrypt_bundle (c ∷ token))

-- The declared source of a secret, read from its text: "job" or "server:<column>".
pub data Source : Type 0 where
  from_job : Source
  from_server : Str → Source
  other_source : String → Source

abbrev from_bundle : String → Option Str → Result SecretResolutionError Str
from_bundle name none = err (missing_job_secret name)
from_bundle name (some v) = ok v

abbrev decrypted : Option Str → Result SecretResolutionError Str
decrypted none = err undecipherable
decrypted (some v) = ok v

abbrev from_column : SecretsService → Str → Option Str → Result SecretResolutionError Str
from_column svc column none = err (missing_server_column column)
from_column svc column (some []) = err (missing_server_column column)
from_column svc column (some (c ∷ token)) = decrypted (svc.decrypt (c ∷ token))

abbrev column_of : Option Server → Str → Option Str
column_of none column = none
column_of (some server) column = server column

-- _resolve_one
unfoldable pub resolve_one :
    SecretsService → Dict Str → Option Server → String → Source → Result SecretResolutionError Str
resolve_one svc bundle server name from_job = from_bundle name (get name bundle)
resolve_one svc bundle server name (from_server column) =
    from_column svc column (column_of server column)
resolve_one svc bundle server name (other_source text) = err (unknown_source text)

-- `source == "job"`, `source.startswith("server:")` and the text after the colon.
unfoldable pub source_of : String → Source
source_of text =
    let s = codes text in
    if same s (codes "job")
    then from_job
    else if starts_with (codes "server:") s
    then from_server (drop 7 s)
    else other_source text

-- Secrets that may stay unresolved.
abbrev pub is_optional : String → List ParamSpec → Bool
is_optional name specs =
    any (λ spec. str_eq spec.name name && (spec.secret && not spec.required)) specs

abbrev is_lenient : SecretResolutionError → Bool
is_lenient undecipherable = false
is_lenient _ = true

abbrev pub has_key : String → Dict Str → Bool
has_key name d = elim (get name d) [ none ↦ false | some v ↦ true ]

-- What one turn of the loop stores: `none` is `continue`.
unfoldable pub resolve_name :
    SecretsService
    → Option Str
    → Option Server
    → List ParamSpec
    → String
    → Source
    → Result SecretResolutionError (Option Str)
unfolding decrypt_job_secrets resolve_one
resolve_name svc secrets_enc server specs name from_job =
    decrypt_job_secrets svc secrets_enc >>= λ bundle.
    if not (has_key name bundle) && is_optional name specs
    then ok none
    else (resolve_one svc bundle server name from_job >>= λ v. ok (some v))
resolve_name svc secrets_enc server specs name source =
    elim (resolve_one svc [] server name source) [
      | ok v ↦ ok (some v)
      | err e ↦ if is_optional name specs && is_lenient e then ok none else err e
    ]

abbrev store : String → Option Str → Dict Str → Dict Str
store name none d = d
store name (some v) d = put name v d

resolve_loop :
    SecretsService
    → Option Str
    → Option Server
    → List ParamSpec
    → Dict String
    → List String
    → Dict Str
    → Result SecretResolutionError (Dict Str)
resolve_loop svc secrets_enc server specs sources [] resolved = ok resolved
resolve_loop svc secrets_enc server specs sources (name ∷ names) resolved =
    elim (get name sources) [
      | none ↦ resolve_loop svc secrets_enc server specs sources names resolved
      | some text ↦ elim (resolve_name svc secrets_enc server specs name (source_of text)) [
        | err e ↦ err e
        | ok v ↦ resolve_loop svc secrets_enc server specs sources names (store name v resolved)
      ]
    ]

-- resolve_secrets
unfoldable pub resolve_secrets :
    SecretsService
    → CommandTemplate
    → Option Str
    → Option Server
    → Result SecretResolutionError (Dict Str)
unfolding resolve_loop resolve_name source_of
resolve_secrets svc t secrets_enc server =
    resolve_loop svc secrets_enc server t.params t.secret_sources (secret_names t.params) []
