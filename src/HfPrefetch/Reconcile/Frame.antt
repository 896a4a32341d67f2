-- ===== src/HfPrefetch/Reconcile/Frame.antt =====
-- A model is reconciled on its own: the entries of the other repositories stay as they are.
use cylon_local_infra.Prelude.{
  ℕ, String, Bool, true, false, Option, none, some, List, [], ◌∷◌, ◌≡◌, ◌≢◌, refl, arith, string_eq,
}
use cylon_local_infra.Prelude.Dict.{lookup, lookup-insert_ne}
use cylon_local_infra.Prelude.State.{Keeps, Keeps-bind, keeps_rules}
use cylon_local_infra.Prelude.Effect.{ExitCode}
use cylon_local_infra.HfPrefetch.Config.{Config, ModelEntry, SyncTarget}
use cylon_local_infra.HfPrefetch.Store.{Entry, Status, Reason, set}
use cylon_local_infra.HfPrefetch.Machine.{
  Host, Machine, M, time, is_set, check_cache, run, set_fields, update_backoff,
}
use cylon_local_infra.HfPrefetch.Backoff.{BackoffTracker}
use cylon_local_infra.HfPrefetch.Reconcile.{
  after_phase, Phase, cached, skipped, stopped, heartbeat, report, record_failure, record_ready,
  hf_download_run, after_download, after_sync, finish_download, start_download, download_phase,
  reconcile_checked, sync_peer, while_synced, sync_loop, sync_phase, reconcile_entry,
}

module _ (H : Host) (r : String) (old : Option Entry) where
  abbrev pub HasEntry : Machine H → Type 0
  HasEntry m = lookup r m.store.models ≡ old

  Keeps-time : Keeps HasEntry (time H)
  unfolding time
  Keeps-time = record { at = λ m h. h }

  pub Keeps-is_set : Keeps HasEntry (is_set H)
  unfolding is_set
  Keeps-is_set = record { at = λ m h. h }

  Keeps-check : (hub_dir repo : String) → Keeps HasEntry (check_cache H hub_dir repo)
  unfolding check_cache
  Keeps-check hub_dir repo = record { at = λ m h. h }

  Keeps-run : (argv : List String) → Keeps HasEntry (run H argv)
  unfolding run
  Keeps-run argv = record { at = λ m h. h }

  Keeps-backoff : (f : BackoffTracker → BackoffTracker) → Keeps HasEntry (update_backoff H f)
  unfolding update_backoff
  Keeps-backoff f = record { at = λ m h. h }

  Keeps-set : (repo : String) (f : Entry → Entry) → r ≢ repo → Keeps HasEntry (set_fields H repo f)
  unfolding set_fields set
  Keeps-set repo f ne = record { at = λ m h. grind (arith, lookup-insert_ne) }

  ruleset frame_rules =
      (keeps_rules, Keeps-time, Keeps-is_set, Keeps-check, Keeps-run, Keeps-backoff, Keeps-set)

  module _ (repo : String) (other : r ≢ repo) where
    Keeps-report : (last : Option ℕ) (cur : ℕ) → Keeps HasEntry (report H repo last cur)
    unfolding report
    Keeps-report last cur = search frame_rules

    Keeps-heartbeat :
        (sizes : List (Option ℕ)) (last : Option ℕ) → Keeps HasEntry (heartbeat H repo last sizes)
    unfolding heartbeat
    Keeps-heartbeat [] last = search frame_rules
    Keeps-heartbeat (none ∷ sizes) last = Keeps-heartbeat sizes last
    Keeps-heartbeat (some cur ∷ sizes) last =
        Keeps-bind _ _ (Keeps-report last cur) (λ _. Keeps-heartbeat sizes (some cur))

    Keeps-failure : (now : ℕ) (why : Reason) → Keeps HasEntry (record_failure H repo now why)
    unfolding record_failure
    Keeps-failure now why = search frame_rules

    Keeps-ready :
        (hub_dir : String) (why : Reason) → Keeps HasEntry (record_ready H hub_dir repo why)
    unfolding record_ready
    Keeps-ready hub_dir why = search frame_rules

    ruleset entry_rules = (frame_rules, Keeps-heartbeat, Keeps-failure, Keeps-ready)

    Keeps-after_download :
        (hub_dir : String) (now : ℕ) (rc : ExitCode)
        → Keeps HasEntry (after_download H hub_dir repo now rc)
    unfolding after_download
    Keeps-after_download hub_dir now rc = search entry_rules depth 8

    Keeps-sync_peer :
        (hub_dir : String) (now : ℕ) (t : SyncTarget)
        → Keeps HasEntry (sync_peer H hub_dir repo now t)
    unfolding sync_peer
    Keeps-sync_peer hub_dir now t = search entry_rules depth 12

    Keeps-while_synced :
        (rest : M H (Option Bool)) (o : Option Bool)
        → Keeps HasEntry rest
        → Keeps HasEntry (while_synced H rest o)
    Keeps-while_synced rest none h = search entry_rules
    Keeps-while_synced rest (some false) h = search entry_rules
    Keeps-while_synced rest (some true) h = h

    Keeps-sync_loop :
        (hub_dir : String) (now : ℕ) (targets : List SyncTarget)
        → Keeps HasEntry (sync_loop H hub_dir repo now targets)
    unfolding sync_loop
    Keeps-sync_loop hub_dir now [] = search entry_rules
    Keeps-sync_loop hub_dir now (t ∷ ts) =
        Keeps-bind _ _ (Keeps-sync_peer hub_dir now t)
          (λ o. Keeps-while_synced _ o (Keeps-sync_loop hub_dir now ts))

    Keeps-after_sync :
        (hub_dir : String) (o : Option Bool) → Keeps HasEntry (after_sync H hub_dir repo o)
    Keeps-after_sync hub_dir none = search entry_rules
    Keeps-after_sync hub_dir (some false) = search entry_rules
    Keeps-after_sync hub_dir (some true) = search entry_rules

    Keeps-sync_phase :
        (cfg : Config) (hub_dir : String) (now : ℕ) (targets : List SyncTarget)
        → Keeps HasEntry (sync_phase H cfg hub_dir repo now targets)
    unfolding sync_phase
    Keeps-sync_phase cfg hub_dir now [] = search entry_rules
    Keeps-sync_phase cfg hub_dir now (t ∷ ts) =
        search (entry_rules, Keeps-sync_loop, Keeps-after_sync)

  Keeps-download_run :
      (cfg : Config) (e : ModelEntry) (hub_dir : String)
      → r ≢ e.repo
      → Keeps HasEntry (hf_download_run H cfg e hub_dir)
  unfolding hf_download_run
  Keeps-download_run cfg e hub_dir other = search entry_rules depth 12

  Keeps-finish_download :
      (hub_dir repo : String) (now : ℕ) (rc : ExitCode)
      → r ≢ repo
      → Keeps HasEntry (finish_download H hub_dir repo now rc)
  unfolding finish_download
  Keeps-finish_download hub_dir repo now rc other = search (entry_rules, Keeps-after_download)

  Keeps-start_download :
      (cfg : Config) (e : ModelEntry) (hub_dir : String) (now : ℕ)
      → r ≢ e.repo
      → Keeps HasEntry (start_download H cfg e hub_dir now)
  unfolding start_download
  Keeps-start_download cfg e hub_dir now other =
      search (entry_rules, Keeps-download_run, Keeps-finish_download) depth 12

  Keeps-download_phase :
      (cfg : Config) (e : ModelEntry) (hub_dir : String) (now : ℕ)
      → r ≢ e.repo
      → Keeps HasEntry (download_phase H cfg e hub_dir now)
  unfolding download_phase
  Keeps-download_phase cfg e hub_dir now other = search (entry_rules, Keeps-start_download)

  Keeps-after_phase :
      (cfg : Config) (hub_dir repo : String) (now : ℕ) (targets : List SyncTarget) (p : Phase)
      → r ≢ repo
      → Keeps HasEntry (after_phase H cfg hub_dir repo now targets p)
  Keeps-after_phase cfg hub_dir repo now targets cached other =
      search (entry_rules, Keeps-sync_phase)
  Keeps-after_phase cfg hub_dir repo now targets skipped other = search entry_rules
  Keeps-after_phase cfg hub_dir repo now targets stopped other = search entry_rules

  Keeps-checked :
      (cfg : Config) (e : ModelEntry) (hub_dir : String) (now : ℕ) (good : Bool) (s : Option Status)
      → r ≢ e.repo
      → Keeps HasEntry (reconcile_checked H cfg e hub_dir now good s)
  unfolding reconcile_checked
  Keeps-checked cfg e hub_dir now good s other =
      search (entry_rules, Keeps-download_phase, Keeps-after_phase, Keeps-sync_phase)

  pub Keeps-entry :
      (cfg : Config) (e : ModelEntry) → r ≢ e.repo → Keeps HasEntry (reconcile_entry H cfg e)
  unfolding reconcile_entry
  Keeps-entry cfg e other = search (entry_rules, Keeps-checked) depth 8

-- Reconciling one model leaves the entry of every other repository as it is.
pub reconcile_entry-frame :
    (H : Host) (r : String) (cfg : Config) (e : ModelEntry) (m : Machine H)
    → r ≢ e.repo
    → lookup r (reconcile_entry H cfg e m).1.store.models ≡ lookup r m.store.models
reconcile_entry-frame H r cfg e m other =
    (Keeps-entry H r (lookup r m.store.models) cfg e other).at m refl
