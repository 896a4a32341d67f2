-- ===== src/Autoupgrade/Bounce.antt =====
-- `capture_stack` and `bounce`. A flow that does not go on ends the whole function.
use cylon_local_infra.Prelude.{
  ◌+◌, String, ◌<>◌, Bool, false, ◌&&◌, not, Option, none, some, List, [], ◌∷◌, length,
  if◌then◌else◌, ◌==◌, string_eq, map,
}
use cylon_local_infra.Prelude.Text.{join}
use cylon_local_infra.Prelude.State.{pure, ◌>>=◌, ◌>>◌}
use cylon_local_infra.Prelude.Effect.{ExitCode, Argv, succeeded}
use cylon_local_infra.Autoupgrade.Config.{Config, PeerSpec}
use cylon_local_infra.Autoupgrade.Command.{Spec, compose_run_cmd}
use cylon_local_infra.Autoupgrade.Machine.{Host, M, Turn, ask, run, ssh}

-- Code goes on, returns, raises, or turns in a loop when the answers of the host are used up.
pub data Flow : Type 0 where
  goes_on returns raises hangs : Flow

pub record CapturedStack : Type 0 where
  pub leader_spec : Spec
  pub leader_serve_argv : Argv
  pub peer_specs : List (PeerSpec × Spec)

pub data Polled : Type 0 where
  is_up gave_up polling : Polled

-- A loop `while time.monotonic() < deadline and not stop_event.is_set()` that breaks when it is up.
unfoldable pub poll_until : List Turn → Polled
poll_until [] = polling
poll_until (t ∷ ts) =
    let rest = poll_until ts in
    if t.in_time && not t.stop then (if t.up then is_up else rest) else gave_up

-- The port that follows the first `--port`.
unfoldable pub metrics_host : Argv → String
unfolding string_eq
metrics_host [] = "127.0.0.1:8000"
metrics_host (tok ∷ []) = "127.0.0.1:8000"
metrics_host (tok ∷ next ∷ rest) =
    let later = metrics_host (next ∷ rest) in
    if tok == "--port" then "127.0.0.1:" <> next else later

abbrev has_succeeded : Option ExitCode → Bool
has_succeeded none = false
has_succeeded (some rc) = succeeded rc

module _ (H : Host) where
  -- The peers' specifications, unless one of the containers is not there.
  abbrev add_peer :
      PeerSpec → Option Spec → Option (List (PeerSpec × Spec)) → Option (List (PeerSpec × Spec))
  add_peer peer (some spec) (some rest) = some ((peer, spec) ∷ rest)
  add_peer peer _ _ = none

  unfoldable pub capture_peers : List PeerSpec → M H (Option (List (PeerSpec × Spec)))
  capture_peers [] = pure (some [])
  capture_peers (peer ∷ peers) = do
    spec ← ask H (λ w. H.peer_inspect w peer)
    rest ← elim spec [ none ↦ pure none | some _ ↦ capture_peers peers ]
    pure (add_peer peer spec rest)

  abbrev stack_of : Spec → Argv → Option (List (PeerSpec × Spec)) → Option CapturedStack
  stack_of spec argv none = none
  stack_of spec argv (some peers) =
      some (record { leader_spec = spec; leader_serve_argv = argv; peer_specs = peers })

  abbrev capture_around : Config → Option Spec → M H (Option CapturedStack)
  capture_around cfg none = pure none
  capture_around cfg (some spec) = do
    argv ← ask H (λ w. H.serve_argv w cfg.leader_container)
    peers ← capture_peers cfg.peers
    pure (stack_of spec argv peers)

  -- `none` is a container that is not found.
  unfoldable pub capture_stack : Config → M H (Option CapturedStack)
  capture_stack cfg = ask H (λ w. H.inspect w cfg.leader_container) >>= capture_around cfg

  abbrev pub and_then : M H Flow → Flow → M H Flow
  and_then next goes_on = next
  and_then next returns = pure returns
  and_then next raises = pure raises
  and_then next hangs = pure hangs

  -- A call of a peer that meets its time limit raises.
  abbrev unless_late : Option ExitCode → M H Flow → M H Flow
  unless_late none next = pure raises
  unless_late (some rc) next = next

  -- Step 1: the workers are stopped and removed. A stop returns after a peer.
  unfoldable pub stop_peers : List (PeerSpec × Spec) → M H Flow
  stop_peers [] = pure goes_on
  stop_peers ((peer, spec) ∷ rest) =
      let next = stop_peers rest in
      do
        stopped ← ssh H peer ("docker" ∷ "stop" ∷ "-t" ∷ "30" ∷ peer.container ∷ [])
        unless_late stopped (do
          removed ← ssh H peer ("docker" ∷ "rm" ∷ "-f" ∷ peer.container ∷ [])
          unless_late removed (do stop ← ask H H.is_set; if stop then pure returns else next))

  -- Steps 2 and 3: the old head goes, the new one comes.
  unfoldable pub restart_head : Config → Spec → (new_image : String) → M H Flow
  restart_head cfg spec new_image = do
    run H ("docker" ∷ "stop" ∷ "-t" ∷ "30" ∷ cfg.leader_container ∷ [])
    run H ("docker" ∷ "rm" ∷ "-f" ∷ cfg.leader_container ∷ [])
    rc ← run H (compose_run_cmd spec new_image cfg.leader_container spec.cmd)
    pure (if succeeded rc then goes_on else raises)

  -- The `else` of a polling loop: it raises unless a stop ended the loop.
  abbrev after_poll : Polled → M H Flow
  after_poll is_up = pure goes_on
  after_poll polling = pure hangs
  after_poll gave_up = do stop ← ask H H.is_set; pure (if stop then goes_on else raises)

  -- Steps 4, 6 and 8.
  unfoldable pub wait_up : (H.World → List Turn × H.World) → M H Flow
  wait_up turns = do ts ← ask H turns; after_poll (poll_until ts)

  -- Step 5: the workers start on the new image.
  unfoldable pub start_peers : List (PeerSpec × Spec) → (new_image : String) → M H Flow
  start_peers [] new_image = pure goes_on
  start_peers ((peer, spec) ∷ rest) new_image =
      let next = start_peers rest new_image in
      do
        stop ← ask H H.is_set
        if stop then pure returns else do
          rc ← ssh H peer (compose_run_cmd spec new_image peer.container spec.cmd)
          if has_succeeded rc then next else pure raises

  -- Steps 7 and 8; no captured command leaves the serving to the operator.
  unfoldable pub restart_serve : Config → Argv → M H Flow
  restart_serve cfg [] = pure returns
  restart_serve cfg (a ∷ argv) = do
    let quoted = join " " (map H.quote (a ∷ argv))
    rc ← run H (
        "docker"
        ∷ "exec"
        ∷ "-d"
        ∷ cfg.leader_container
        ∷ "bash"
        ∷ "-lc"
        ∷ ("exec > /root/vllm-serve.log 2>&1; " <> quoted)
        ∷ [])
    if succeeded rc then wait_up (λ w. H.api_turns w (metrics_host (a ∷ argv))) else pure raises

  unfoldable pub bounce : Config → CapturedStack → (new_image : String) → M H Flow
  bounce cfg captured new_image =
      stop_peers captured.peer_specs
      >>= and_then (
          restart_head cfg captured.leader_spec new_image
          >>= and_then (
              wait_up H.gcs_turns
              >>= and_then (
                  start_peers captured.peer_specs new_image
                  >>= and_then (
                      wait_up (λ w. H.cluster_turns w (1 + length cfg.peers))
                      >>= and_then (restart_serve cfg captured.leader_serve_argv)))))
