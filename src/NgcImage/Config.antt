-- ===== src/NgcImage/Config.antt =====
-- The parsed configuration of the image daemon: `ImageSpec`, `SyncTarget`, `Config`.
use cylon_local_infra.Prelude.{
  ℕ, String, Bool, Option, none, some, List, ◌==◌, string_eq, if◌then◌else◌,
}

pub record ImageSpec : Type 0 where
  pub repo : String
  pub tag_pattern : String
  pub keep_latest : ℕ
  pub always_keep : List String
  pub prune_stale : Bool

pub record SyncTarget : Type 0 where
  pub host : String
  pub user : String
  pub name : Option String

-- `self.name or self.host`: an empty name is no name.
unfoldable pub label : SyncTarget → String
label t = elim t.name [ none ↦ t.host | some n ↦ if n == "" then t.host else n ]

pub record Config : Type 0 where
  pub images : List ImageSpec
  pub sync_targets : List SyncTarget
  pub poll_interval_sec : ℕ
  pub startup_delay_sec : ℕ
