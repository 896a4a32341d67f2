-- ===== src/Autoupgrade/Config.antt =====
-- `PeerSpec` and `Config`.
use cylon_local_infra.Prelude.{
  ℕ, String, Bool, Option, none, some, List, ◌==◌, string_eq, if◌then◌else◌,
}

pub record PeerSpec : Type 0 where
  pub host : String
  pub user : String
  pub container : String
  pub name : Option String

-- `self.name or self.host`: an empty name is no name.
unfoldable pub label : PeerSpec → String
label p = elim p.name [ none ↦ p.host | some n ↦ if n == "" then p.host else n ]

pub record Config : Type 0 where
  pub enabled : Bool
  pub pinned_tag : Option String
  pub repo : String
  pub tag_pattern : String
  pub leader_container : String
  pub peers : List PeerSpec
  pub poll_interval_sec : ℕ
  pub stabilization_sec : ℕ
  pub quiet_window_sec : ℕ
  pub quiet_sample_sec : ℕ
  pub max_wait_for_quiet_sec : ℕ
  pub ray_gcs_wait_sec : ℕ
  pub ray_cluster_wait_sec : ℕ
  pub vllm_api_wait_sec : ℕ
