-- ===== src/Autoupgrade/Machine.antt =====
-- What the daemon holds while it runs, and the host that answers its calls.
use cylon_local_infra.Prelude.{ℕ, String, Bool, Option, List, ◌∷◌, Eq}
use cylon_local_infra.Prelude.State.{State}
use cylon_local_infra.Prelude.Effect.{ExitCode, Argv}
use cylon_local_infra.NgcImage.Store as NgcStore
use cylon_local_infra.Autoupgrade.Config.{PeerSpec}
use cylon_local_infra.Autoupgrade.Quiet.{Sample}
use cylon_local_infra.Autoupgrade.Command.{Spec}

pub data Status : Type 0 where
  idle candidate waiting_quiet promoting ready error : Status

-- The `reason` messages, by their form and what they print.
pub data Reason : Type 0 where
  waiting_to_be_stable : (seconds : ℕ) → Reason
  observing : (seconds : ℕ) → Reason
  quiet_sample in_flight busy_too_long promoted triage_required : Reason
  bouncing_to : (image : String) → Reason

-- The fields of the state file that the loop sets.
pub record Store : Type 0 where
  pub status : Status
  pub current_image : Option String
  pub candidate_tag : Option String
  pub candidate_since : Option ℕ
  -- `from`, `to` and `at`
  pub last_promotion : Option (String × String × ℕ)
  pub has_error : Bool
  pub reason : Option Reason
  pub quiet_consecutive : Option ℕ
  pub quiet_needed : Option ℕ
  pub updated_at : ℕ

-- One turn of a loop that polls until a deadline: the clock was before it, `stop_event.is_set()`,
-- and the poll succeeded.
pub record Turn : Type 0 where
  pub in_time : Bool
  pub stop : Bool
  pub up : Bool

-- Every call may change the world, so whatever other processes do is done in one of these steps.
pub record Host : Type 1 where
  pub World : Type 0
  -- `time.time()`, in whole seconds.
  pub time : World → ℕ × World
  -- `stop_event.is_set()`
  pub is_set : World → Bool × World
  -- The state file of the image daemon, and `re.match`.
  pub ngc_state : World → Option NgcStore.Store × World
  pub matches : (pattern tag : String) → Bool
  -- `docker_image_of`, `docker_inspect`, `peer_inspect` and `capture_vllm_serve_argv`; `none` from
  -- a peer is a container that is not there, or the time limit of the call.
  pub image_of : World → (container : String) → Option String × World
  pub inspect : World → (container : String) → Option Spec × World
  pub peer_inspect : World → PeerSpec → Option Spec × World
  pub serve_argv : World → (container : String) → Argv × World
  -- `_run`, and `ssh_cmd`, where `none` is the time limit of a minute, which raises.
  pub run : World → Argv → ExitCode × World
  pub ssh : World → PeerSpec → Argv → Option ExitCode × World
  -- The turns that the loops on the Ray port, on the Ray cluster and on the API would take.
  pub gcs_turns : World → List Turn × World
  pub cluster_turns : World → (expected : ℕ) → List Turn × World
  pub api_turns : World → (metrics_host : String) → List Turn × World
  -- The samples that `wait_for_quiet` would take; the floats and their equality.
  pub Value : Type 0
  pub value_eq : Eq Value
  pub zero_value : Value
  pub samples : World → List (Sample Value) × World
  -- `shlex.quote`
  pub quote : String → String
  -- The write of the state file beside the old one, and the rename over it.
  pub save : World → Store → World

-- A command of a bounce, which may stop, remove or start something on the leader or on a peer, with its
-- outcome. The commands that only look, as `docker container inspect`, those of
-- capture_vllm_serve_argv and the polls, are calls of the host that leave no event.
pub data Event : Type 0 where
  ran : Argv → ExitCode → Event
  ran_on : PeerSpec → Argv → Option ExitCode → Event

-- The newest event stands first in `history`.
pub record Machine (H : Host) : Type 0 where
  pub world : H.World
  pub store : Store
  pub history : List Event

abbrev pub M : Host → Type 0 → Type 0
M H A = State (Machine H) A

module _ (H : Host) where
  -- A call that changes the world alone.
  unfoldable pub ask : {A : Type 0} → (H.World → A × H.World) → M H A
  ask f m = let (a, w) = f m.world in (a, record m { world = w })

  unfoldable pub run : Argv → M H ExitCode
  run argv m =
      let (rc, w) = H.run m.world argv in
      (rc, record m { world = w; history = ran argv rc ∷ m.history })

  unfoldable pub ssh : PeerSpec → Argv → M H (Option ExitCode)
  ssh peer argv m =
      let (rc, w) = H.ssh m.world peer argv in
      (rc, record m { world = w; history = ran_on peer argv rc ∷ m.history })

  -- `state.set(**fields)`
  unfoldable pub set_fields : (Store → Store) → M H Unit
  set_fields fields m =
      let (now, w) = H.time m.world in
      let s = record (fields m.store) { updated_at = now } in
      (tt, record m { world = H.save w s; store = s })
