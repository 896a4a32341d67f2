-- ===== src/HfPrefetch/Config.antt =====
-- The parsed configuration of the prefetch daemon: `SyncTarget`, `ModelEntry`, `Config`.
use cylon_local_infra.Prelude.{ℕ, String, Option, none, some, List, ◌==◌, string_eq, if◌then◌else◌}
use cylon_local_infra.Prelude.Dict.{Dict}

pub record SyncTarget : Type 0 where
  pub host : String
  pub user : String
  pub cache_dir : String
  pub name : Option String

-- `self.name or self.host`: an empty name is no name.
unfoldable pub label : SyncTarget → String
label t = elim t.name [ none ↦ t.host | some n ↦ if n == "" then t.host else n ]

pub record ModelEntry : Type 0 where
  pub repo : String
  pub revision : Option String
  pub cache_dir : Option String
  pub sync_targets : Option (List SyncTarget)

pub record Config : Type 0 where
  pub cache_dir : String
  pub image : String
  pub models : List ModelEntry
  pub sync_targets : List SyncTarget
  pub poll_interval_sec : ℕ
  pub hf_env : Dict String String

unfoldable pub effective_cache_dir : ModelEntry → String → String
effective_cache_dir e default = elim e.cache_dir [ none ↦ default | some d ↦ d ]

-- An entry with an empty list of its own targets overrides the default too.
unfoldable pub effective_sync_targets : ModelEntry → List SyncTarget → List SyncTarget
effective_sync_targets e default = elim e.sync_targets [ none ↦ default | some ts ↦ ts ]
