-- ===== src/Autoupgrade/Command.antt =====
-- `compose_run_cmd`: the `docker run` of a captured container on a new image.
use cylon_local_infra.Prelude.{
  ℕ, String, ◌<>◌, Bool, ◌||◌, List, [], ◌∷◌, ◌++◌, contains, any, if◌then◌else◌, ◌==◌, string_eq,
  ltb,
}
use cylon_local_infra.Prelude.Text.{decimal}
use cylon_local_infra.Prelude.Effect.{Argv}

pub record DeviceRequest : Type 0 where
  pub driver : String
  pub capabilities : List (List String)

-- What `docker inspect` says of a container; a text is empty and a number 0 where it says nothing.
pub record Spec : Type 0 where
  pub network_mode : String
  pub restart_policy : String
  pub shm_size : ℕ
  pub device_requests : List DeviceRequest
  pub env : List String
  pub binds : List String
  pub entrypoint : List String
  pub cmd : List String

abbrev first_capabilities : List (List String) → List String
first_capabilities [] = []
first_capabilities (c ∷ cs) = c

unfoldable pub wants_gpu : DeviceRequest → Bool
unfolding string_eq
wants_gpu req = req.driver == "nvidia" || contains (first_capabilities req.capabilities) "gpu"

unfoldable pub flag_each : (flag : String) → List String → Argv
flag_each flag [] = []
flag_each flag (v ∷ vs) = flag ∷ v ∷ flag_each flag vs

unfoldable pub restart_flags : (policy : String) → Argv
unfolding string_eq
restart_flags policy = if policy == "" || policy == "no" then [] else "--restart" ∷ policy ∷ []

abbrev entrypoint_flags : List String → Argv
entrypoint_flags [] = []
entrypoint_flags (e ∷ es) = "--entrypoint" ∷ e ∷ []

unfoldable pub compose_run_cmd : Spec → (new_image name : String) → (entrypoint_cmd : Argv) → Argv
unfolding string_eq
compose_run_cmd spec new_image name entrypoint_cmd =
    ("docker" ∷ "run" ∷ "-d" ∷ "--name" ∷ name ∷ [])
    ++ (("--network" ∷ (if spec.network_mode == "" then "host" else spec.network_mode) ∷ [])
        ++ (restart_flags spec.restart_policy
            ++ ((if ltb 0 spec.shm_size
                  then "--shm-size" ∷ (decimal spec.shm_size <> "b") ∷ []
                  else [])
                ++ ((if any wants_gpu spec.device_requests then "--gpus" ∷ "all" ∷ [] else [])
                    ++ (flag_each "-e" spec.env
                        ++ (flag_each "-v" spec.binds
                            ++ (entrypoint_flags spec.entrypoint
                                ++ (new_image ∷ entrypoint_cmd))))))))
