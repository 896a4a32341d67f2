-- ===== src/HfPrefetch/Reconcile.antt =====
-- `hf_download`, `rsync_to_peer` and `reconcile_once`. A pass that a stop cuts short has returned
-- `halt`; `go_on` is the `continue` of the loop over the models, or its end.
pub mod Frame
mod Readiness
pub mod Synced
pub mod Settled
pub mod Pass
pub mod Outcome
pub mod Transitions
pub mod Invariant
use cylon_local_infra.Prelude.{
  ℕ, ◌+◌, ◌-◌, ◌/◌, String, Bool, true, false, ◌&&◌, not, Option, none, some, List, [], ◌∷◌,
  contains, if◌then◌else◌, ◌==◌, string_eq, eqb, ltb, map,
}
use cylon_local_infra.Prelude.Dict.{keys, lookup}
use cylon_local_infra.Prelude.Int.{ℤ, sub_ℕ}
use cylon_local_infra.Prelude.State.{pure, ◌>>=◌, ◌>>◌}
use cylon_local_infra.Prelude.Effect.{ExitCode, succeeded}
use cylon_local_infra.HfPrefetch.Config.{
  Config, ModelEntry, SyncTarget, label, effective_cache_dir, effective_sync_targets,
}
use cylon_local_infra.HfPrefetch.Store.{
  Status, downloading, syncing, ready, error, Reason, hf_download, download_failed, cache_invalid,
  cached_no_targets, cached_and_synced, rsync_running, rsync_failed, Entry, Store, drop, is_ready,
}
use cylon_local_infra.HfPrefetch.Backoff
use cylon_local_infra.HfPrefetch.Backoff.{BackoffTracker}
use cylon_local_infra.HfPrefetch.Commands.{rm_argv, download_argv, rsync_argv}
use cylon_local_infra.HfPrefetch.Machine.{
  Host, Machine, M, time, is_set, size, check_cache, run, set_fields, get_status, update_backoff,
  backoff_ready, failures, drop_entry,
}

pub data Next : Type 0 where
  go_on halt : Next

-- What the download phase leaves: a complete cache, nothing to sync, or a stop.
pub data Phase : Type 0 where
  cached skipped stopped : Phase

abbrev same_size : Option ℕ → ℕ → Bool
same_size none cur = false
same_size (some last) cur = eqb cur last

-- `int((cur - max(last_bytes, 0)) / PROGRESS_INTERVAL_SEC) if last_bytes > 0 else None`
unfoldable pub bytes_per_sec_of : Option ℕ → ℕ → Option ℤ
bytes_per_sec_of none cur = none
bytes_per_sec_of (some last) cur =
    if ltb 0 last then some (sub_ℕ ((cur - last) / 5) ((last - cur) / 5)) else none

module _ (H : Host) where
  -- A size that differs from the last one is written to the state.
  unfoldable pub report : String → Option ℕ → ℕ → M H Unit
  report repo last cur =
      if same_size last cur
      then pure tt
      else set_fields H repo (λ e. record e {
        status = some downloading;
        cache_bytes = some cur;
        bytes_per_sec = bytes_per_sec_of last cur;
      })

  -- `_progress_heartbeat`: `last` is the last size reported, `none` for the initial -1.
  unfoldable pub heartbeat : String → Option ℕ → List (Option ℕ) → M H Unit
  heartbeat repo last [] = pure tt
  heartbeat repo last (none ∷ sizes) = heartbeat repo last sizes
  heartbeat repo last (some cur ∷ sizes) = do report repo last cur; heartbeat repo (some cur) sizes

  -- `hf_download`: the heartbeat's writes fall between the start and the end of the child. The thread is
  -- joined with a time limit; a write of it that comes after that limit is not modelled.
  unfoldable pub hf_download_run : Config → ModelEntry → String → M H ExitCode
  hf_download_run cfg entry hub_dir = do
    run H (rm_argv entry.repo)
    (rc, sizes) ← run H (download_argv cfg entry hub_dir)
    heartbeat entry.repo none sizes
    n ← size H hub_dir entry.repo
    set_fields H entry.repo (λ e. record e { cache_bytes = some n })
    pure rc

  -- The failure branches: count the failure, then write it down.
  unfoldable pub record_failure : String → ℕ → Reason → M H Unit
  record_failure repo now why = do
    update_backoff H (λ b. Backoff.fail b repo now)
    n ← failures H repo
    set_fields H repo (λ e. record e { status = some error; reason = some why; failures = some n })

  -- The success branches: clear the backoff, then write the entry.
  unfoldable pub record_ready : String → String → Reason → M H Unit
  record_ready hub_dir repo why = do
    update_backoff H (λ b. Backoff.succeed b repo)
    n ← size H hub_dir repo
    set_fields H repo (λ e. record e {
      status = some ready;
      reason = some why;
      cache_bytes = some n;
      failures = some 0;
    })

  unfoldable pub after_download : String → String → ℕ → ExitCode → M H Phase
  after_download hub_dir repo now rc =
      if not (succeeded rc)
      then record_failure repo now (download_failed rc) >> pure skipped
      else do
        (good, why) ← check_cache H hub_dir repo
        if good then pure cached else record_failure repo now (cache_invalid why) >> pure skipped

  -- A stop that arrived during the download ends the pass.
  unfoldable pub finish_download : String → String → ℕ → ExitCode → M H Phase
  finish_download hub_dir repo now rc = do
    stop ← is_set H
    if stop then pure stopped else after_download hub_dir repo now rc

  unfoldable pub start_download : Config → ModelEntry → String → ℕ → M H Phase
  start_download cfg entry hub_dir now = do
    before ← size H hub_dir entry.repo
    set_fields H entry.repo (λ e. record e {
      status = some downloading;
      reason = some (hf_download (ltb 0 before));
      cache_bytes = some before;
      image = some cfg.image;
    })
    rc ← hf_download_run cfg entry hub_dir
    finish_download hub_dir entry.repo now rc

  -- The cache is missing or incomplete: download, or resume, unless the backoff says to wait.
  unfoldable pub download_phase : Config → ModelEntry → String → ℕ → M H Phase
  download_phase cfg entry hub_dir now = do
    due ← backoff_ready H entry.repo now
    if due then start_download cfg entry hub_dir now else pure skipped

  -- One peer. `some b` goes on with `sync_ok = b`, and `none` is a stop.
  unfoldable pub sync_peer : String → String → ℕ → SyncTarget → M H (Option Bool)
  sync_peer hub_dir repo now target = do
    stop ← is_set H
    if stop then pure none else do
      n ← size H hub_dir repo
      set_fields H repo (λ e. record e {
        status = some syncing;
        reason = some (rsync_running (label target));
        cache_bytes = some n;
      })
      (rc, _) ← run H (rsync_argv hub_dir repo target)
      stop' ← is_set H
      if stop'
          then pure none
          else if succeeded rc
          then pure (some true)
          else record_failure repo now (rsync_failed (label target) rc) >> pure (some false)

  -- The loop over the peers, which a failure breaks.
  abbrev while_synced : M H (Option Bool) → Option Bool → M H (Option Bool)
  while_synced rest none = pure none
  while_synced rest (some false) = pure (some false)
  while_synced rest (some true) = rest

  unfoldable pub sync_loop : String → String → ℕ → List SyncTarget → M H (Option Bool)
  sync_loop hub_dir repo now [] = pure (some true)
  sync_loop hub_dir repo now (target ∷ targets) =
      let rest = sync_loop hub_dir repo now targets in
      sync_peer hub_dir repo now target >>= while_synced rest

  abbrev after_sync : String → String → Option Bool → M H Next
  after_sync hub_dir repo none = pure halt
  after_sync hub_dir repo (some false) = pure go_on
  after_sync hub_dir repo (some true) = record_ready hub_dir repo cached_and_synced >> pure go_on

  unfoldable pub sync_phase : Config → String → String → ℕ → List SyncTarget → M H Next
  sync_phase cfg hub_dir repo now [] =
      record_ready hub_dir repo
        (if hub_dir == cfg.cache_dir then cached_and_synced else cached_no_targets)
      >> pure go_on
  sync_phase cfg hub_dir repo now (t ∷ ts) =
      sync_loop hub_dir repo now (t ∷ ts) >>= after_sync hub_dir repo

  -- What follows the download phase.
  abbrev pub after_phase : Config → String → String → ℕ → List SyncTarget → Phase → M H Next
  after_phase cfg hub_dir repo now targets cached = sync_phase cfg hub_dir repo now targets
  after_phase cfg hub_dir repo now targets skipped = pure go_on
  after_phase cfg hub_dir repo now targets stopped = pure halt

  -- The body of the loop over the models, after the look at the cache.
  unfoldable pub reconcile_checked :
      Config → ModelEntry → String → ℕ → (good : Bool) → Option Status → M H Next
  reconcile_checked cfg entry hub_dir now good status =
      let targets = effective_sync_targets entry cfg.sync_targets in
      if good
      then if is_ready status then pure go_on else sync_phase cfg hub_dir entry.repo now targets
      else download_phase cfg entry hub_dir now >>= after_phase cfg hub_dir entry.repo now targets

  -- The body of the loop over the models, after its stop test.
  unfoldable pub reconcile_entry : Config → ModelEntry → M H Next
  reconcile_entry cfg entry = do
    now ← time H
    let hub_dir = effective_cache_dir entry cfg.cache_dir
    (good, _) ← check_cache H hub_dir entry.repo
    status ← get_status H entry.repo
    reconcile_checked cfg entry hub_dir now good status

  abbrev then_rest : M H Next → Next → M H Next
  then_rest rest go_on = rest
  then_rest rest halt = pure halt

  unfoldable pub reconcile_models : Config → List ModelEntry → M H Next
  reconcile_models cfg [] = pure go_on
  reconcile_models cfg (entry ∷ entries) =
      let rest = reconcile_models cfg entries in
      do
        stop ← is_set H
        if stop then pure halt else do next ← reconcile_entry cfg entry; then_rest rest next

  unfoldable pub drop_if_unconfigured : List String → String → M H Unit
  drop_if_unconfigured configured known =
      if contains configured known then pure tt else drop_entry H known

  -- The state of repositories that left the configuration is dropped.
  unfoldable pub drop_unconfigured : List String → List String → M H Unit
  drop_unconfigured configured [] = pure tt
  drop_unconfigured configured (known ∷ rest) = do
    drop_if_unconfigured configured known
    drop_unconfigured configured rest

  unfoldable pub reconcile_once : Config → M H Next
  reconcile_once cfg m =
      (drop_unconfigured (map (λ (e : ModelEntry). e.repo) cfg.models) (keys m.store.models)
          >> reconcile_models cfg cfg.models)
        m
