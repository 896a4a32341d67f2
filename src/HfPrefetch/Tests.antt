-- ===== src/HfPrefetch/Tests.antt =====
-- The theorems at one model with one peer, on a host where every command succeeds.
use cylon_local_infra.Prelude.{
  inl, ℕ, ◌+◌, ◌≤◌, ◌≡◌, ◌↔◌, ◌⊎◌, inr, refl, ◌≢◌, String, true, false, Option, none, some, List,
  [], ◌∷◌, contains, string_eq, nat_eq,
}
use cylon_local_infra.Prelude.Dict.{lookup, insert, erase}
use cylon_local_infra.Prelude.Text.{ends_with}
use cylon_local_infra.Prelude.State.{◌>>=◌}
use cylon_local_infra.Prelude.Effect.{success}
use cylon_local_infra.HfPrefetch.Config.{
  Config, ModelEntry, SyncTarget, effective_cache_dir, effective_sync_targets,
}
use cylon_local_infra.HfPrefetch.Cache.{
  RepoDir, cache_status, incomplete_blob_of, snapshot_status, dirs_status,
}
use cylon_local_infra.HfPrefetch.Cache.Laws.{is_complete, cache_status-eq-is_complete}
use cylon_local_infra.HfPrefetch.Store.{Entry, ready, empty_entry, is_ready, status_of, get, set}
use cylon_local_infra.HfPrefetch.Backoff
use cylon_local_infra.HfPrefetch.Backoff.{BackoffTracker, failure_count, wait_after, fail, succeed}
use cylon_local_infra.HfPrefetch.Backoff.Laws.{ready-fail}
use cylon_local_infra.HfPrefetch.Machine.{
  Host, Machine, Event, time, is_set, check_cache, run, set_fields, update_backoff, checked,
}
use cylon_local_infra.HfPrefetch.Reconcile.{
  go_on, reconcile_entry, reconcile_checked, reconcile_once, sync_phase, sync_loop, sync_peer,
  record_ready,
}
use cylon_local_infra.HfPrefetch.Daemon.{Daemon, turn}
use cylon_local_infra.HfPrefetch.Daemon.Turns.{Follows, turn-drops}
use cylon_local_infra.HfPrefetch.Reconcile.Transitions.{Trail, traced}
use cylon_local_infra.HfPrefetch.Reconcile.Transitions.Followed.{reconcile_entry-Trail}
use cylon_local_infra.HfPrefetch.Reconcile.Frame.{reconcile_entry-frame}
use cylon_local_infra.HfPrefetch.Reconcile.Synced.{copied_to_all, ready-copied_to_all}
use cylon_local_infra.HfPrefetch.Reconcile.Settled.{IsSettled}
use cylon_local_infra.HfPrefetch.Reconcile.Pass.{reconcile_once-drops, repos}
use cylon_local_infra.HfPrefetch.Reconcile.Outcome.{reconcile_entry-Ends, IsFinished}
use cylon_local_infra.HfPrefetch.Reconcile.Invariant.{reconcile_once-IsSettled}

abbrev complete_dir : RepoDir
complete_dir = record {
  blobs = some ("a1" ∷ []);
  snapshots = some (record { name = "c0ffee0123"; is_dir = true; has_config = true } ∷ []);
}

-- The clock counts its readings, the cache always reads as `dir`, and every command succeeds.
abbrev steady : Option RepoDir → Host
steady dir = record {
  World = ℕ;
  time = λ w. (w, w + 1);
  is_set = λ w. (false, w);
  scan = λ w hub_dir repo. dir;
  size = λ w hub_dir repo. 7;
  run = λ w argv. (success, some 3 ∷ none ∷ some 7 ∷ [], w + 10);
  save = λ w s. w;
}

abbrev peer : SyncTarget
peer = record { host = "10.0.0.2"; user = "u"; cache_dir = "/c"; name = none }

abbrev model : ModelEntry
model = record { repo = "a/b"; revision = none; cache_dir = none; sync_targets = none }

abbrev config : Config
config = record {
  cache_dir = "/h/hub";
  image = "img";
  models = model ∷ [];
  sync_targets = peer ∷ [];
  poll_interval_sec = 60;
  hf_env = [];
}

abbrev no_failures : BackoffTracker
no_failures = record { failures = []; last_attempt = [] }

abbrev machine : (dir : Option RepoDir) → List (String × Entry) → Machine (steady dir)
machine dir entries = record {
  world = 100;
  store = record { models = entries; updated_at = 0 };
  backoff = no_failures;
  history = [];
}

abbrev ready_entry : Entry
ready_entry = record empty_entry { status = some ready }

abbrev fresh : Machine (steady (some complete_dir))
fresh = machine (some complete_dir) (("old/x", ready_entry) ∷ [])

abbrev was_ready : (dir : Option RepoDir) → Machine (steady dir)
was_ready dir = machine dir (("a/b", ready_entry) ∷ [])

not_ready : is_ready (status_of fresh.store "a/b") ≡ false
unfolding status_of get lookup string_eq
not_ready = refl

is_ready_before : (dir : Option RepoDir) → is_ready (status_of (was_ready dir).store "a/b") ≡ true
unfolding status_of get lookup string_eq
is_ready_before dir = refl

found : (cache_status (some complete_dir)).0 ≡ true
unfolding cache_status incomplete_blob_of snapshot_status dirs_status ends_with string_eq
found = refl

not_found : (cache_status none).0 ≡ false
unfolding cache_status
not_found = refl

made_ready :
    is_ready
      (status_of (reconcile_entry (steady (some complete_dir)) config model fresh).1.store "a/b")
    ≡ true
unfolding status_of get set lookup insert erase string_eq nat_eq ◌>>=◌ time is_set check_cache run
    set_fields update_backoff cache_status incomplete_blob_of snapshot_status dirs_status ends_with
    reconcile_entry reconcile_checked sync_phase sync_loop sync_peer record_ready
    effective_sync_targets effective_cache_dir
made_ready = refl

goes_on : (reconcile_entry (steady (some complete_dir)) config model fresh).0 ≡ go_on
unfolding status_of get set lookup insert erase string_eq nat_eq ◌>>=◌ time is_set check_cache run
    set_fields update_backoff cache_status incomplete_blob_of snapshot_status dirs_status ends_with
    reconcile_entry reconcile_checked sync_phase sync_loop sync_peer record_ready
    effective_sync_targets effective_cache_dir
goes_on = refl

old_ne : ◌≢◌ {A = String} "old/x" "a/b"
old_ne h = cc

not_configured : contains (repos config.models) "old/x" ≡ false
unfolding string_eq
not_configured = refl

settled : (dir : Option RepoDir) → IsSettled (steady dir) "a/b" (was_ready dir)
unfolding failure_count lookup
settled dir = inr refl

abbrev calm : Host
calm = steady (some complete_dir)

ready-copied_to_all_example :
    (l : List Event) × ((reconcile_entry calm config model fresh).1.history
      ≡ copied_to_all
          (effective_cache_dir model config.cache_dir)
          "a/b"
          (effective_sync_targets model config.sync_targets)
          (checked "a/b" true ∷ l))
ready-copied_to_all_example = ready-copied_to_all calm config model fresh not_ready made_ready

reconcile_once-IsSettled_example :
    IsSettled calm "a/b" (reconcile_once calm config (was_ready (some complete_dir))).1
reconcile_once-IsSettled_example =
    reconcile_once-IsSettled calm "a/b" config (was_ready (some complete_dir))
      (settled (some complete_dir))

reconcile_entry-Ends_example :
    IsFinished calm "a/b" (reconcile_entry calm config model fresh).1
    ⊎ ((Backoff.ready no_failures "a/b" 100 ≡ false)
        × ((reconcile_entry calm config model fresh).1.store ≡ fresh.store)
        × ((reconcile_entry calm config model fresh).1.backoff ≡ no_failures))
reconcile_entry-Ends_example = reconcile_entry-Ends calm config model fresh goes_on

reconcile_entry-frame_example :
    lookup "old/x" (reconcile_entry calm config model fresh).1.store.models
    ≡ lookup "old/x" fresh.store.models
reconcile_entry-frame_example = reconcile_entry-frame calm "old/x" config model fresh old_ne

reconcile_once-drops_example :
    lookup "old/x" (reconcile_once calm config fresh).1.store.models ≡ none
reconcile_once-drops_example = reconcile_once-drops calm "old/x" config fresh not_configured

cache_status-eq-is_complete_example :
    (cache_status (some complete_dir)).0 ≡ is_complete (some complete_dir)
cache_status-eq-is_complete_example = cache_status-eq-is_complete (some complete_dir)

ready-fail_example :
    let wait = wait_after (failure_count no_failures "a/b" + 1) in
    ((Backoff.ready (fail no_failures "a/b" 100) "a/b" 120 ≡ true) ↔ (100 + wait ≤ 120))
    × (30 ≤ wait)
    × (wait ≤ 900)
ready-fail_example = ready-fail no_failures "a/b" 100 120

abbrev daemon : Daemon calm
daemon = record { last_mtime = 0; cfg = none; machine = was_ready (some complete_dir) }

not_named : contains (repos config.models) "c/d" ≡ false
unfolding string_eq
not_named = refl

turn-drops_example :
    Follows calm config "c/d"
      (turn calm true (record { mtime = some 1; load = some config; naps = 3 }) daemon).1
turn-drops_example =
    turn-drops calm true (record { mtime = some 1; load = some config; naps = 3 }) daemon config
      "c/d" refl (inl (1, refl, refl, refl)) not_named

abbrev traced_start : Machine (traced "a/b" (steady none))
traced_start = record {
  world = (100, []);
  store = record { models = ("a/b", ready_entry) ∷ []; updated_at = 0 };
  backoff = no_failures;
  history = [];
}

reconcile_entry-Trail_example :
    let m' = (reconcile_entry (traced "a/b" (steady none)) config model traced_start).1 in
    Trail (status_of traced_start.store "a/b") [] (status_of m'.store "a/b") m'.world.1
reconcile_entry-Trail_example = reconcile_entry-Trail (steady none) config model traced_start
