-- ===== src/SparkStatus/Cutover.antt =====
-- The commands of `main` that run playbooks, as they are called with their parsed options: each
-- returns the exit code of the script.
pub mod Chain
use cylon_local_infra.Prelude.{
  ℕ, String, ◌<>◌, Bool, true, false, ◌&&◌, not, Option, none, some, List, [], ◌∷◌, ◌++◌,
  if◌then◌else◌, ◌==◌, string_eq,
}
use cylon_local_infra.Prelude.Text.{strip, is_space}
use cylon_local_infra.Prelude.State.{pure, ◌>>=◌}
use cylon_local_infra.Prelude.Effect.{ExitCode, exited, success, succeeded, Argv}
use cylon_local_infra.SparkStatus.Command.{
  when_given, cmd_ansible_prefetch, cmd_ansible_vllm, cmd_ansible_sync_hermes_ms02,
  cmd_prefetch_once_ssh,
}
use cylon_local_infra.SparkStatus.Machine.{Host, M, run_process, has_playbook, repo_of}

-- The options that the playbook commands share.
pub record Common : Type 0 where
  pub repo : Option String
  pub inventory : Option String
  pub check : Bool

pub record PrefetchOnce : Type 0 where
  pub ssh_host : Option String
  pub install_py : String
  pub config_yaml : String
  pub state_json : String
  pub runtime_home : String
  pub verbose : ℕ

pub record AnsibleVllm : Type 0 where
  pub common : Common
  pub recreate : Bool
  pub model : Option String
  pub extra_vars : List String

pub record Cutover : Type 0 where
  pub vllm : AnsibleVllm
  pub ssh_host : Option String
  pub skip_prefetch_once : Bool
  pub sync_hermes : Bool

-- `(ssh_host or "").strip()`
abbrev pub stripped_host : Option String → String
stripped_host none = ""
stripped_host (some h) = strip is_space h

abbrev recreate_vars : Bool → List String
recreate_vars false = []
recreate_vars true =
    "vllm_stacked_container_recreate=true" ∷ "vllm_torchrun_stacked_recreate=true" ∷ []

-- The extra variables of the vLLM step.
unfoldable pub vllm_extra_vars : AnsibleVllm → List String
vllm_extra_vars ns =
    ns.extra_vars
    ++ when_given ns.model (λ model. ("vllm_default_model=" <> model) ∷ [])
    ++ recreate_vars ns.recreate

abbrev default_install : String
default_install = "/opt/hf-prefetch/hf_prefetch_service.py"

abbrev default_config : String
default_config = "/etc/hf-prefetch/config.yaml"

abbrev default_state : String
default_state = "/var/lib/hf-prefetch/state.json"

abbrev default_runtime_home : String
default_runtime_home = "/home/nvidia"

module _ (H : Host) where
  -- The guard on the playbook of a command: without it the script ends with 2.
  abbrev pub if_repo_root : Bool → M H ExitCode → M H ExitCode
  if_repo_root found rest = if found then rest else pure (exited 2)

  unfoldable pub ansible_prefetch : Common → M H ExitCode
  ansible_prefetch ns = do
    repo ← repo_of H ns.repo
    found ← has_playbook H repo "provision_sparks.yml"
    if_repo_root found
        (run_process H (cmd_ansible_prefetch H.environ repo ns.inventory ns.check) (some repo))

  unfoldable pub prefetch_once : PrefetchOnce → M H ExitCode
  prefetch_once ns =
      let host = stripped_host ns.ssh_host in
      if host == ""
      then pure (exited 2)
      else run_process H
          (cmd_prefetch_once_ssh H.quote host ns.install_py ns.config_yaml ns.state_json
            ns.runtime_home ns.verbose)
          none

  unfoldable pub ansible_vllm : AnsibleVllm → M H ExitCode
  ansible_vllm ns = do
    repo ← repo_of H ns.common.repo
    found ← has_playbook H repo "provision_sparks.yml"
    if_repo_root found (
        run_process H
          (cmd_ansible_vllm H.environ repo ns.common.inventory (vllm_extra_vars ns) ns.common.check)
          (some repo))

  unfoldable pub sync_hermes : Common → M H ExitCode
  sync_hermes ns = do
    repo ← repo_of H ns.repo
    found ← has_playbook H repo "sync_hermes_ms02.yml"
    if_repo_root found (
        run_process H (cmd_ansible_sync_hermes_ms02 H.environ repo ns.inventory ns.check)
          (some repo))

  -- `if rc != 0: return rc`
  abbrev pub unless_failed : M H ExitCode → ExitCode → M H ExitCode
  unless_failed rest rc = if succeeded rc then rest else pure rc

  unfoldable pub hermes_step : Cutover → (repo : String) → M H ExitCode
  hermes_step ns repo =
      if ns.sync_hermes
      then run_process H
          (cmd_ansible_sync_hermes_ms02 H.environ repo ns.vllm.common.inventory
            ns.vllm.common.check)
          (some repo)
      else pure success

  unfoldable pub vllm_step : Cutover → (repo : String) → M H ExitCode
  vllm_step ns repo =
      run_process H
        (cmd_ansible_vllm H.environ repo ns.vllm.common.inventory (vllm_extra_vars ns.vllm)
          ns.vllm.common.check)
        (some repo)
      >>= unless_failed (hermes_step ns repo)

  unfoldable pub prefetch_once_step : Cutover → (repo : String) → M H ExitCode
  prefetch_once_step ns repo =
      let host = stripped_host ns.ssh_host in
      let vllm = vllm_step ns repo in
      if not ns.skip_prefetch_once && not (host == "")
      then run_process H
          (cmd_prefetch_once_ssh H.quote host default_install default_config default_state
            default_runtime_home 1)
          none
        >>= unless_failed vllm
      else vllm

  unfoldable pub cutover_steps : Cutover → (repo : String) → M H ExitCode
  cutover_steps ns repo =
      run_process H
        (cmd_ansible_prefetch H.environ repo ns.vllm.common.inventory ns.vllm.common.check)
        (some repo)
      >>= unless_failed (prefetch_once_step ns repo)

  unfoldable pub cutover : Cutover → M H ExitCode
  cutover ns = do
    repo ← repo_of H ns.vllm.common.repo
    found ← has_playbook H repo "provision_sparks.yml"
    if_repo_root found (cutover_steps ns repo)
