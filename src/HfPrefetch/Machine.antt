-- ===== src/HfPrefetch/Machine.antt =====
-- What the daemon holds while it runs, and the host that answers its calls.
use cylon_local_infra.Prelude.{ℕ, String, Bool, Option, none, some, List, ◌∷◌}
use cylon_local_infra.Prelude.State.{State, gets}
use cylon_local_infra.Prelude.Effect.{ExitCode, Argv}
use cylon_local_infra.HfPrefetch.Cache.{RepoDir, CacheReason, cache_status}
use cylon_local_infra.HfPrefetch.Store.{Status, Entry, Store, set, drop, status_of}
use cylon_local_infra.HfPrefetch.Backoff
use cylon_local_infra.HfPrefetch.Backoff.{BackoffTracker, failure_count}
use cylon_local_infra.Prelude.Dict.{lookup}
use cylon_local_infra.Prelude.{string_eq}

-- The clock, the signal handler's flag, the file system and the child processes. Every call may
-- change the world, so whatever other processes do is done in one of these steps.
pub record Host : Type 1 where
  pub World : Type 0
  -- `time.time()`, in whole seconds.
  pub time : World → ℕ × World
  -- `stop_event.is_set()`
  pub is_set : World → Bool × World
  -- The directory of a repository below a hub directory, as `cache_status` reads it.
  pub scan : World → (hub_dir repo : String) → Option RepoDir
  -- `cache_size_bytes(hub_dir, repo)`
  pub size : World → (hub_dir repo : String) → ℕ
  -- A child process run to its end, with the sizes that the heartbeat thread reads meanwhile;
  -- `none` is a reading that raised.
  pub run : World → Argv → ExitCode × List (Option ℕ) × World
  -- The write of the state file beside the old one, and the rename over it.
  pub save : World → Store → World

-- A call of a child process, or a look at the local cache, with its outcome.
pub data Event : Type 0 where
  ran : Argv → ExitCode → Event
  checked : (repo : String) → Bool → Event

-- The newest event stands first in `history`.
pub record Machine (H : Host) : Type 0 where
  pub world : H.World
  pub store : Store
  pub backoff : BackoffTracker
  pub history : List Event

abbrev pub M : Host → Type 0 → Type 0
M H A = State (Machine H) A

module _ (H : Host) where
  unfoldable pub time : M H ℕ
  time m = let (t, w) = H.time m.world in (t, record m { world = w })

  unfoldable pub is_set : M H Bool
  is_set m = let (b, w) = H.is_set m.world in (b, record m { world = w })

  unfoldable pub check_cache : String → String → M H (Bool × CacheReason)
  check_cache hub_dir repo m =
      let (good, reason) = cache_status (H.scan m.world hub_dir repo) in
      ((good, reason), record m { history = checked repo good ∷ m.history })

  unfoldable pub run : Argv → M H (ExitCode × List (Option ℕ))
  run argv m =
      let (rc, sizes, w) = H.run m.world argv in
      ((rc, sizes), record m { world = w; history = ran argv rc ∷ m.history })

  -- `state.set(repo, **fields)`
  unfoldable pub set_fields : String → (Entry → Entry) → M H Unit
  set_fields repo fields m =
      let (now, w) = H.time m.world in
      let (saved, w') = H.time w in
      let s = set m.store repo fields now saved in (tt, record m { world = H.save w' s; store = s })

  -- `state.drop(repo)`: the file is written only if the entry was there.
  unfoldable pub drop_entry : String → M H Unit
  drop_entry repo m = elim (lookup repo m.store.models) [
    | none ↦ (tt, m)
    | some _ ↦
        let (saved, w) = H.time m.world in
        let s = drop m.store repo saved in (tt, record m { world = H.save w s; store = s })
  ]

  unfoldable pub update_backoff : (BackoffTracker → BackoffTracker) → M H Unit
  update_backoff f m = (tt, record m { backoff = f m.backoff })

  abbrev pub size : String → String → M H ℕ
  size hub_dir repo = gets (λ m. H.size m.world hub_dir repo)

  abbrev pub get_status : String → M H (Option Status)
  get_status repo = gets (λ m. status_of m.store repo)

  -- `backoff.ready(repo, now)`
  abbrev pub backoff_ready : String → ℕ → M H Bool
  backoff_ready repo now = gets (λ m. Backoff.ready m.backoff repo now)

  -- `backoff.failures.get(repo, 0)`
  abbrev pub failures : String → M H ℕ
  failures repo = gets (λ m. failure_count m.backoff repo)
