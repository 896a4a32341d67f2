-- ===== src/HfPrefetch/Reconcile/Settled.antt =====
-- A ready model has no failures on record, so that nothing delays a new download of it.
use cylon_local_infra.Prelude.{
  ℕ, String, Bool, true, false, Option, none, some, List, [], ◌∷◌, ◌≡◌, string_eq,
}
use cylon_local_infra.Prelude.{◌≢◌, ◌⊎◌, inl, inr, refl}
use cylon_local_infra.Prelude.State.{◌>>=◌, Keeps, Keeps-bind, keeps_rules}
use cylon_local_infra.Prelude.Effect.{ExitCode}
use cylon_local_infra.HfPrefetch.Config.{Config, ModelEntry, SyncTarget}
use cylon_local_infra.HfPrefetch.Store.{Entry, Reason, Status, get, status_of, is_ready}
use cylon_local_infra.HfPrefetch.Backoff.{failure_count}
use cylon_local_infra.HfPrefetch.Backoff.Laws.{
  failure_count-fail_ne, failure_count-succeed_ne, failure_count-succeed_self,
}
use cylon_local_infra.HfPrefetch.Machine.{
  Host, Machine, M, time, is_set, check_cache, run, set_fields, update_backoff,
}
use cylon_local_infra.HfPrefetch.Reconcile.{
  after_phase, Phase, cached, skipped, stopped, heartbeat, report, record_failure, record_ready,
  hf_download_run, after_download, after_sync, finish_download, start_download, download_phase,
  reconcile_checked, sync_peer, while_synced, sync_loop, sync_phase, reconcile_entry,
}
use cylon_local_infra.HfPrefetch.Reconcile.Readiness.{status_of-set_self, status_of-set_ne}

module _ (H : Host) (r : String) where
  abbrev pub IsSettled : Machine H → Type 0
  IsSettled m = (is_ready (status_of m.store r) ≡ false) ⊎ (failure_count m.backoff r ≡ 0)

  IsSettled-time : Keeps IsSettled (time H)
  unfolding time
  IsSettled-time = record { at = λ m h. h }

  pub IsSettled-is_set : Keeps IsSettled (is_set H)
  unfolding is_set
  IsSettled-is_set = record { at = λ m h. h }

  IsSettled-check : (hub_dir repo : String) → Keeps IsSettled (check_cache H hub_dir repo)
  unfolding check_cache
  IsSettled-check hub_dir repo = record { at = λ m h. h }

  IsSettled-run : (argv : List String) → Keeps IsSettled (run H argv)
  unfolding run
  IsSettled-run argv = record { at = λ m h. h }

  -- A write of another repository's entry.
  IsSettled-set_ne :
      (repo : String) (f : Entry → Entry) (m : Machine H)
      → r ≢ repo
      → IsSettled m
      → IsSettled (set_fields H repo f m).1
  unfolding set_fields
  IsSettled-set_ne repo f m other h = rw (status_of-set_ne m.store r repo f _ _ other) h

  -- A write that makes the model busy, and one that leaves its status.
  IsSettled-set_busy :
      (repo : String) (f : Entry → Entry)
      → ((e : Entry) → is_ready (f e).status ≡ false)
      → Keeps IsSettled (set_fields H repo f)
  unfolding set_fields
  IsSettled-set_busy repo f busy = record {
    at = λ m h. elim (string_eq.dec r repo) [
      | yes same ↦ inl (rw (same, status_of-set_self m.store repo f _ _) (busy _))
      | no other ↦ IsSettled-set_ne repo f m other h
    ];
  }

  IsSettled-set_same :
      (repo : String) (f : Entry → Entry)
      → ((e : Entry) → (f e).status ≡ e.status)
      → Keeps IsSettled (set_fields H repo f)
  unfolding set_fields status_of
  IsSettled-set_same repo f kept = record {
    at = λ m h. elim (string_eq.dec r repo) [
      | yes same ↦
          rw (same, status_of-set_self m.store repo f _ _, kept (get m.store repo)) (rw same at h)
      | no other ↦ IsSettled-set_ne repo f m other h
    ];
  }

  IsSettled-failure :
      (repo : String) (now : ℕ) (why : Reason) → Keeps IsSettled (record_failure H repo now why)
  unfolding record_failure ◌>>=◌ update_backoff set_fields
  IsSettled-failure repo now why = record {
    at = λ m h. elim (string_eq.dec r repo) [
      | yes same ↦ inl (rw (same, status_of-set_self m.store repo _ _ _) refl)
      | no other ↦
          rw
            (
              status_of-set_ne m.store r repo _ _ _ other,
              failure_count-fail_ne m.backoff r repo _ other,
            )
            h
    ];
  }

  IsSettled-ready :
      (hub_dir repo : String) (why : Reason) → Keeps IsSettled (record_ready H hub_dir repo why)
  unfolding record_ready ◌>>=◌ update_backoff set_fields
  IsSettled-ready hub_dir repo why = record {
    at = λ m h. elim (string_eq.dec r repo) [
      | yes same ↦ inr (rw same (failure_count-succeed_self m.backoff repo))
      | no other ↦
          rw
            (
              status_of-set_ne m.store r repo _ _ _ other,
              failure_count-succeed_ne m.backoff r repo other,
            )
            h
    ];
  }

  ruleset steps = (
    keeps_rules, IsSettled-time, IsSettled-is_set, IsSettled-check, IsSettled-run,
    IsSettled-set_busy, IsSettled-set_same, IsSettled-failure, IsSettled-ready,
  )

  module _ (repo : String) where
    IsSettled-report : (last : Option ℕ) (cur : ℕ) → Keeps IsSettled (report H repo last cur)
    unfolding report
    IsSettled-report last cur = search steps

    IsSettled-heartbeat :
        (sizes : List (Option ℕ)) (last : Option ℕ) → Keeps IsSettled (heartbeat H repo last sizes)
    unfolding heartbeat
    IsSettled-heartbeat [] last = search steps
    IsSettled-heartbeat (none ∷ sizes) last = IsSettled-heartbeat sizes last
    IsSettled-heartbeat (some cur ∷ sizes) last =
        Keeps-bind _ _ (IsSettled-report last cur) (λ _. IsSettled-heartbeat sizes (some cur))

    IsSettled-after_download :
        (hub_dir : String) (now : ℕ) (rc : ExitCode)
        → Keeps IsSettled (after_download H hub_dir repo now rc)
    unfolding after_download
    IsSettled-after_download hub_dir now rc = search steps depth 8

    IsSettled-finish_download :
        (hub_dir : String) (now : ℕ) (rc : ExitCode)
        → Keeps IsSettled (finish_download H hub_dir repo now rc)
    unfolding finish_download
    IsSettled-finish_download hub_dir now rc = search (steps, IsSettled-after_download)

    IsSettled-sync_peer :
        (hub_dir : String) (now : ℕ) (t : SyncTarget)
        → Keeps IsSettled (sync_peer H hub_dir repo now t)
    unfolding sync_peer
    IsSettled-sync_peer hub_dir now t = search steps depth 12

    IsSettled-while_synced :
        (rest : M H (Option Bool)) (o : Option Bool)
        → Keeps IsSettled rest
        → Keeps IsSettled (while_synced H rest o)
    IsSettled-while_synced rest none h = search steps
    IsSettled-while_synced rest (some false) h = search steps
    IsSettled-while_synced rest (some true) h = h

    IsSettled-sync_loop :
        (hub_dir : String) (now : ℕ) (targets : List SyncTarget)
        → Keeps IsSettled (sync_loop H hub_dir repo now targets)
    unfolding sync_loop
    IsSettled-sync_loop hub_dir now [] = search steps
    IsSettled-sync_loop hub_dir now (t ∷ ts) =
        Keeps-bind _ _ (IsSettled-sync_peer hub_dir now t)
          (λ o. IsSettled-while_synced _ o (IsSettled-sync_loop hub_dir now ts))

    IsSettled-after_sync :
        (hub_dir : String) (o : Option Bool) → Keeps IsSettled (after_sync H hub_dir repo o)
    IsSettled-after_sync hub_dir none = search steps
    IsSettled-after_sync hub_dir (some false) = search steps
    IsSettled-after_sync hub_dir (some true) = search steps

    IsSettled-sync_phase :
        (cfg : Config) (hub_dir : String) (now : ℕ) (targets : List SyncTarget)
        → Keeps IsSettled (sync_phase H cfg hub_dir repo now targets)
    unfolding sync_phase
    IsSettled-sync_phase cfg hub_dir now [] = search steps
    IsSettled-sync_phase cfg hub_dir now (t ∷ ts) =
        search (steps, IsSettled-sync_loop, IsSettled-after_sync)

    IsSettled-after_phase :
        (cfg : Config) (hub_dir : String) (now : ℕ) (targets : List SyncTarget) (p : Phase)
        → Keeps IsSettled (after_phase H cfg hub_dir repo now targets p)
    IsSettled-after_phase cfg hub_dir now targets cached =
        IsSettled-sync_phase cfg hub_dir now targets
    IsSettled-after_phase cfg hub_dir now targets skipped = search steps
    IsSettled-after_phase cfg hub_dir now targets stopped = search steps

  module _ (cfg : Config) where
    IsSettled-download_run :
        (e : ModelEntry) (hub_dir : String) → Keeps IsSettled (hf_download_run H cfg e hub_dir)
    unfolding hf_download_run
    IsSettled-download_run e hub_dir = search (steps, IsSettled-heartbeat) depth 12

    IsSettled-start_download :
        (e : ModelEntry) (hub_dir : String) (now : ℕ)
        → Keeps IsSettled (start_download H cfg e hub_dir now)
    unfolding start_download
    IsSettled-start_download e hub_dir now =
        search (steps, IsSettled-download_run, IsSettled-finish_download) depth 12

    IsSettled-download_phase :
        (e : ModelEntry) (hub_dir : String) (now : ℕ)
        → Keeps IsSettled (download_phase H cfg e hub_dir now)
    unfolding download_phase
    IsSettled-download_phase e hub_dir now = search (steps, IsSettled-start_download)

    IsSettled-checked :
        (e : ModelEntry) (hub_dir : String) (now : ℕ) (good : Bool) (s : Option Status)
        → Keeps IsSettled (reconcile_checked H cfg e hub_dir now good s)
    unfolding reconcile_checked
    IsSettled-checked e hub_dir now good s =
        search (steps, IsSettled-download_phase, IsSettled-after_phase, IsSettled-sync_phase)

    pub IsSettled-entry : (e : ModelEntry) → Keeps IsSettled (reconcile_entry H cfg e)
    unfolding reconcile_entry
    IsSettled-entry e = search (steps, IsSettled-checked) depth 8
