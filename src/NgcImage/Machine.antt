-- ===== src/NgcImage/Machine.antt =====
-- What the daemon holds while it runs, and the host that answers its calls.
use cylon_local_infra.Prelude.{ℕ, String, ◌<>◌, Bool, Option, List, ◌∷◌}
use cylon_local_infra.Prelude.State.{State, gets}
use cylon_local_infra.Prelude.Effect.{ExitCode}
use cylon_local_infra.NgcImage.Config.{ImageSpec, SyncTarget}
use cylon_local_infra.NgcImage.Store.{Status, Entry, Store, set, status_of}
use cylon_local_infra.NgcImage.Backoff
use cylon_local_infra.NgcImage.Backoff.{BackoffTracker, failure_count}

-- The clock, the signal flag, the registry, the docker daemon and the shell. Every call may change
-- the world, so whatever other processes do is done in one of these steps.
pub record Host : Type 1 where
  pub World : Type 0
  -- `time.time()`, in whole seconds.
  pub time : World → ℕ × World
  -- `stop_event.is_set()`
  pub is_set : World → Bool × World
  -- `fetch_tags(spec)`; `none` is an exception.
  pub fetch_tags : World → ImageSpec → Option (List String) × World
  -- `re.search(pattern, tag)`
  pub search : (pattern tag : String) → Bool
  -- `local_tags(repo)`
  pub local_tags : World → (repo : String) → List String × World
  -- `image_used_by_container(key)`
  pub used_by_container : World → (key : String) → Bool × World
  -- `docker pull key` and `docker image rm key`
  pub pull : World → (key : String) → ExitCode × World
  pub remove : World → (key : String) → ExitCode × World
  -- The image ids here and on a peer; `none` is an image that is not there.
  pub local_id : World → (key : String) → Option String × World
  pub peer_id : World → SyncTarget → (key : String) → Option String × World
  -- `docker save key | ssh peer docker load`
  pub save_load : World → (key : String) → SyncTarget → ExitCode × World
  -- The write of the state file beside the old one, and the rename over it.
  pub save : World → Store → World

-- A step of bringing a peer up to date: the ids of the image here and there were read, or
-- `docker save | ssh docker load` ran.
pub data Copying : Type 0 where
  compared : (here there : Option String) → Copying
  sent : ExitCode → Copying

-- What the docker daemons were asked about an image of a pass, with the outcome.
pub data Event : Type 0 where
  pulled : (key : String) → ExitCode → Event
  copied : (key : String) → SyncTarget → Copying → Event
  -- `image_used_by_container` answered, and `docker image rm` was run.
  inspected : (repo tag : String) → (used : Bool) → Event
  removed : (repo tag : String) → ExitCode → Event

-- The newest event stands first in `history`.
pub record Machine (H : Host) : Type 0 where
  pub world : H.World
  pub store : Store
  pub backoff : BackoffTracker
  pub history : List Event

abbrev pub M : Host → Type 0 → Type 0
M H A = State (Machine H) A

module _ (H : Host) where
  -- A call that changes the world alone.
  unfoldable pub ask : {A : Type 0} → (H.World → A × H.World) → M H A
  ask f m = let (a, w) = f m.world in (a, record m { world = w })

  unfoldable pub note : Event → M H Unit
  note e m = (tt, record m { history = e ∷ m.history })

  -- `state.set(key, **fields)`
  unfoldable pub set_fields : String → (Entry → Entry) → M H Unit
  set_fields key fields m =
      let (now, w) = H.time m.world in
      let (saved, w') = H.time w in
      let s = set m.store key fields now saved in (tt, record m { world = H.save w' s; store = s })

  unfoldable pub update_backoff : (BackoffTracker → BackoffTracker) → M H Unit
  update_backoff f m = (tt, record m { backoff = f m.backoff })

  abbrev pub get_status : String → M H (Option Status)
  get_status key = gets (λ m. status_of m.store key)

  abbrev pub due : String → ℕ → M H Bool
  due key now = gets (λ m. Backoff.due m.backoff key now)

  abbrev pub failures : String → M H ℕ
  failures key = gets (λ m. failure_count m.backoff key)

-- `f"{spec.repo}:{tag}"`
abbrev pub image_key : (repo tag : String) → String
image_key repo tag = repo <> ":" <> tag
