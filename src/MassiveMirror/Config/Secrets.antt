-- ===== src/MassiveMirror/Config/Secrets.antt =====
-- Where the credentials come from, and that what is printed does not show them.
use cylon_local_infra.Prelude.{String, Option, none, some, ◌≡◌, ◌≢◌, arith, string_eq, refl}
use cylon_local_infra.Prelude.Dict.{Dict}
use cylon_local_infra.Prelude.Text.{strip, is_space}
use cylon_local_infra.MassiveMirror.Config.{
  MirrorConfig, Secrets, SyncResult, load_config, credentials, config_with, status_dict, both_set,
  both_found,
}

-- The credentials `c` are not empty, and are the stripped secrets `a` and `s`.
abbrev AreFrom : Option String → Option String → String × String → Type 0
AreFrom a s c =
    (c.0 ≢ "")
    × (c.1 ≢ "")
    × ((v : String) × ((a ≡ some v) × (strip is_space v ≡ c.0)))
    × ((v : String) × ((s ≡ some v) × (strip is_space v ≡ c.1)))

both_set-nonempty :
    (x y : String) (c : String × String)
    → both_set x y ≡ some c
    → (c.0 ≢ "") × (c.1 ≢ "") × (x ≡ c.0) × (y ≡ c.1)
both_set-nonempty x y c h = ground arith

both_found-AreFrom :
    (a s : Option String) (c : String × String) → both_found a s ≡ some c → AreFrom a s c
both_found-AreFrom none s c h = cc
both_found-AreFrom (some a) none c h = cc
both_found-AreFrom (some a) (some s) c h =
    let (x, y, p, q) = both_set-nonempty _ _ c h in (x, y, (a, (refl, p)), (s, (refl, q)))

module _ (values : Dict String String) (secrets : Secrets) (project gcloud : String) where
  abbrev configured : String × String → MirrorConfig
  configured (a, s) = config_with values (secrets project gcloud) project gcloud a s

  configured-AreFrom :
      (o : Option (String × String)) (cfg : MirrorConfig)
      → ((c : String × String)
          → o ≡ some c
          → AreFrom
              (secrets project gcloud "MASSIVE_S3_ACCESS_KEY")
              (secrets project gcloud "MASSIVE_S3_SECRET_KEY")
              c)
      → elim o [ none ↦ none | some c ↦ some (configured c) ] ≡ some cfg
      → AreFrom
          (secrets cfg.secret_project cfg.gcloud_bin "MASSIVE_S3_ACCESS_KEY")
          (secrets cfg.secret_project cfg.gcloud_bin "MASSIVE_S3_SECRET_KEY")
          (cfg.access_key, cfg.secret_key)
  unfolding config_with
  configured-AreFrom none cfg from h = cc
  configured-AreFrom (some c) cfg from h =
      let same : configured c ≡ cfg = cc in rw (← same) (from c refl)

-- The credentials of a configuration are not empty, and they are the stripped secrets of the store
-- for its project and its gcloud binary: no variable of the environment sets them.
pub load_config-secrets :
    (values : Dict String String) (secrets : Secrets) (cfg : MirrorConfig)
    → load_config values secrets ≡ some cfg
    → (cfg.access_key ≢ "")
      × (cfg.secret_key ≢ "")
      × ((a : String) × ((secrets cfg.secret_project cfg.gcloud_bin "MASSIVE_S3_ACCESS_KEY"
              ≡ some a)
            × (strip is_space a ≡ cfg.access_key)))
      × ((s : String) × ((secrets cfg.secret_project cfg.gcloud_bin "MASSIVE_S3_SECRET_KEY"
              ≡ some s)
            × (strip is_space s ≡ cfg.secret_key)))
unfolding load_config credentials
load_config-secrets values secrets cfg h =
    configured-AreFrom values secrets _ _ _ cfg (both_found-AreFrom _ _) h

-- What is printed of a configuration does not depend on its credentials, as long as they are there.
status_dict-redacted :
    (cfg : MirrorConfig) (result : Option SyncResult) (access secret : String)
    → cfg.access_key ≢ ""
    → cfg.secret_key ≢ ""
    → access ≢ ""
    → secret ≢ ""
    → status_dict (record cfg { access_key = access; secret_key = secret }) result
      ≡ status_dict cfg result
unfolding status_dict
status_dict-redacted cfg result access secret a b c d = ground arith
