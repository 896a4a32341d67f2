-- ===== src/MassiveMirror/Config.antt =====
-- `MirrorConfig`, `load_config` and `status_dict`. The environment and the secret store are dicts
-- of texts; a secret that the store does not have is `SecretNotFound`.
pub mod Secrets
use cylon_local_infra.Prelude.{
  String, Bool, true, false, ◌&&◌, not, Option, none, some, List, [], ◌∷◌, ◌++◌, ℕ, if◌then◌else◌,
  ◌==◌, string_eq,
}
use cylon_local_infra.Prelude.Dict.{Dict, lookup}
use cylon_local_infra.Prelude.Text.{strip, is_space}

pub record MirrorConfig : Type 0 where
  pub access_key : String
  pub secret_key : String
  pub endpoint : String
  pub source_bucket : String
  pub dest_bucket : String
  pub dest_prefix : String
  pub gcloud_bin : String
  pub state_dir : String
  pub secret_project : String

-- `SecretStore.get`; the project and the gcloud binary choose the store.
abbrev pub Secrets : Type 0
Secrets = (project gcloud_bin name : String) → Option String

-- `a or b` on texts.
abbrev pub or_else : String → String → String
or_else a b = if a == "" then b else a

-- `values.get(name, default)`
abbrev pub get_with : Dict String String → String → String → String
get_with values name default = elim (lookup name values) [ none ↦ default | some v ↦ v ]

-- `values.get(name) or default`
abbrev get_or_else : Dict String String → String → String → String
get_or_else values name default = or_else (get_with values name "") default

abbrev stripped : String → String
stripped s = strip is_space s

unfoldable pub secret_or_default : (String → Option String) → String → String → String
secret_or_default get name default = elim (get name) [
  | none ↦ default
  | some v ↦ or_else (stripped v) default
]

unfoldable pub project_of : Dict String String → String
project_of values = stripped (
    get_or_else values "MASSIVE_MIRROR_GCP_PROJECT"
      (get_or_else values "GOOGLE_CLOUD_PROJECT" "microscaler"))

-- The configuration around two credentials that were found.
unfoldable pub config_with :
    Dict String String
    → (String → Option String)
    → (project gcloud access secret : String) → MirrorConfig
config_with values get project gcloud access secret = record {
  access_key = access;
  secret_key = secret;
  endpoint = secret_or_default get "MASSIVE_S3_ENDPOINT" "https://files.massive.com";
  source_bucket = secret_or_default get "MASSIVE_BUCKET" "flatfiles";
  dest_bucket =
      or_else (stripped (get_with values "MASSIVE_MIRROR_GCS_BUCKET" "microscaler-massive"))
        "microscaler-massive";
  dest_prefix = or_else (stripped (get_with values "MASSIVE_MIRROR_GCS_PREFIX" "raw")) "raw";
  gcloud_bin = gcloud;
  state_dir = get_with values "MASSIVE_MIRROR_STATE_DIR" "/var/lib/massive-flatfile-mirror";
  secret_project = project;
}

abbrev both_set : (access secret : String) → Option (String × String)
both_set access secret =
    if not (access == "") && not (secret == "") then some (access, secret) else none

abbrev both_found : Option String → Option String → Option (String × String)
both_found (some access) (some secret) = both_set (stripped access) (stripped secret)
both_found _ _ = none

-- The two required secrets, stripped; `none` is a `ConfigError`.
unfoldable pub credentials : (String → Option String) → Option (String × String)
credentials get = both_found (get "MASSIVE_S3_ACCESS_KEY") (get "MASSIVE_S3_SECRET_KEY")

-- `none` is a `ConfigError`.
unfoldable pub load_config : Dict String String → Secrets → Option MirrorConfig
load_config values secrets =
    let project = project_of values in
    let gcloud = get_with values "MASSIVE_MIRROR_GCLOUD_BIN" "/snap/bin/gcloud" in
    let get = secrets project gcloud in
    elim (credentials get) [
      | none ↦ none
      | some (access, secret) ↦ some (config_with values get project gcloud access secret)
    ]

pub record SyncResult : Type 0 where
  pub copied : ℕ
  pub skipped : ℕ
  pub denied_prefixes : List String
  pub failed : ℕ

-- The values of a JSON object that is printed.
pub data Value : Type 0 where
  text : String → Value
  flag : Bool → Value
  number : ℕ → Value
  texts : List String → Value

unfoldable pub as_dict : SyncResult → Dict String Value
as_dict r =
    ("copied", number r.copied)
    ∷ ("skipped", number r.skipped)
    ∷ ("denied_prefixes", texts r.denied_prefixes)
    ∷ ("failed", number r.failed)
    ∷ []

abbrev or_nothing : Option SyncResult → Dict String Value
or_nothing none = []
or_nothing (some r) = as_dict r

unfoldable pub status_dict : MirrorConfig → Option SyncResult → Dict String Value
unfolding as_dict
status_dict cfg result =
    (("endpoint", text cfg.endpoint)
      ∷ ("source_bucket", text cfg.source_bucket)
      ∷ ("dest_bucket", text cfg.dest_bucket)
      ∷ ("dest_prefix", text cfg.dest_prefix)
      ∷ ("phase", text "raw")
      ∷ ("secret_source", text "gcp-secret-manager")
      ∷ ("secret_project", text cfg.secret_project)
      ∷ ("has_s3_credentials", flag (not (cfg.access_key == "") && not (cfg.secret_key == "")))
      ∷ [])
    ++ or_nothing result
