-- ===== src/MassiveMirror/Tests.antt =====
-- The theorems at two prefixes, one of them denied, and an empty state file.
use cylon_local_infra.Prelude.{
  ◌≡◌, ◌≢◌, refl, String, true, some, [], ◌∷◌, length, string_eq, IsUnique, All, ◌==◌,
  if◌then◌else◌,
}
use cylon_local_infra.Prelude.Dict.{lookup, insert}
use cylon_local_infra.Prelude.State.{◌>>=◌, pure}
use cylon_local_infra.Prelude.Text.{strip, lstrip, rstrip, is_space}
use cylon_local_infra.MassiveMirror.Config.{
  MirrorConfig, Secrets, load_config, credentials, config_with, secret_or_default, project_of,
}
use cylon_local_infra.MassiveMirror.Config.Secrets.{load_config-secrets}
use cylon_local_infra.MassiveMirror.Sync.{
  ObjectHead, Listing, objects, denied, Stores, continues, gcs_blob_name, exists_matching, uri_of,
  put, save, written, sync_object, sync_objects, sync_listing, sync_prefixes, sync_all,
}
use cylon_local_infra.MassiveMirror.Source.{Pages, contents, client_error, Report}
use cylon_local_infra.MassiveMirror.Sync.Counted.{all_listed, total, uploads, sync_all-counts}
use cylon_local_infra.MassiveMirror.Sync.Complete.{blobs}
use cylon_local_infra.MassiveMirror.Sync.Recorded.{IsCopied, sync_all-AllCopied}
use cylon_local_infra.MassiveMirror.Sync.Again.{sync_all-again}
use cylon_local_infra.MassiveMirror.Sync.Resume.{IsResumable, sync_all-IsResumable}

abbrev config : MirrorConfig
config = record {
  access_key = "AK";
  secret_key = "SK";
  endpoint = "https://files.massive.com";
  source_bucket = "flatfiles";
  dest_bucket = "microscaler-massive";
  dest_prefix = "raw";
  gcloud_bin = "/snap/bin/gcloud";
  state_dir = "/var/lib/massive-flatfile-mirror";
  secret_project = "microscaler";
}

abbrev day : (name : String) → ObjectHead
day name = record { key = name; size = 4; etag = "e" }

abbrev listing : String → Listing
listing p = if p == "us/" then objects (day "us/1" ∷ day "us/2" ∷ []) else denied p

abbrev stores : Stores
stores = record {
  list_prefixes = some ("us/" ∷ "eu/" ∷ []);
  list_objects = listing;
  opens = λ key. true;
  upload = λ history uri. true;
  save = λ history copied. written;
}

all_done : (sync_all config stores "raw" []).0 ≡ continues
unfolding sync_all sync_prefixes sync_listing sync_objects sync_object put save ◌>>=◌ pure
    gcs_blob_name exists_matching uri_of strip lstrip rstrip lookup insert string_eq
all_done = refl

unique : IsUnique (blobs config stores "raw" (all_listed stores))
unfolding gcs_blob_name strip lstrip rstrip string_eq
unique = (refl, (refl, tt))

sync_all-counts_example :
    (total (sync_all config stores "raw" []).1 ≡ length (all_listed stores))
    × ((sync_all config stores "raw" []).1.result.copied
        ≡ uploads (sync_all config stores "raw" []).1.history)
sync_all-counts_example = sync_all-counts config stores "raw" [] all_done

sync_all-AllCopied_example :
    All (IsCopied config stores "raw" [] (sync_all config stores "raw" []).1) (all_listed stores)
sync_all-AllCopied_example = sync_all-AllCopied config stores "raw" [] unique all_done

sync_all-again_example :
    let first = (sync_all config stores "raw" []).1.copied in
    let second = (sync_all config stores "raw" first).1 in
    ((sync_all config stores "raw" []).1.file ≡ some first)
    × (second.history ≡ [])
    × (second.result.copied ≡ 0)
    × (second.file ≡ some first)
sync_all-again_example = sync_all-again config stores "raw" [] unique all_done

sync_all-IsResumable_example :
    IsResumable config stores [] "raw/us/1" (sync_all config stores "raw" []).1
sync_all-IsResumable_example = sync_all-IsResumable config stores [] "raw/us/1" "raw"

abbrev secrets : Secrets
secrets project gcloud name =
    lookup name (("MASSIVE_S3_ACCESS_KEY", "AK\n") ∷ ("MASSIVE_S3_SECRET_KEY", "SK") ∷ [])

loaded : load_config [] secrets ≡ some config
unfolding load_config credentials config_with secret_or_default project_of strip lstrip rstrip
    lookup string_eq
loaded = refl

load_config-secrets_example :
    (config.access_key ≢ "")
    × (config.secret_key ≢ "")
    × ((a : String) × ((secrets config.secret_project config.gcloud_bin "MASSIVE_S3_ACCESS_KEY"
            ≡ some a)
          × (strip is_space a ≡ config.access_key)))
    × ((s : String) × ((secrets config.secret_project config.gcloud_bin "MASSIVE_S3_SECRET_KEY"
            ≡ some s)
          × (strip is_space s ≡ config.secret_key)))
load_config-secrets_example = load_config-secrets [] secrets config loaded

ak_set : ◌≢◌ {A = String} "AK" ""
ak_set h = cc

sk_set : ◌≢◌ {A = String} "SK" ""
sk_set h = cc

abbrev one_folder : String → Pages
one_folder p =
    if p == "us/"
    then contents (
        (record { key = "us/"; size = 0; etag = "" }
          ∷ record { key = "us/1"; size = 4; etag = "e" }
          ∷ [])
        ∷ [])
    else client_error "AccessDenied"

abbrev report : Report
report = record {
  accessible = "us/" ∷ [];
  denied = "eu/" ∷ [];
  dest = "gs://microscaler-massive/raw/";
}
