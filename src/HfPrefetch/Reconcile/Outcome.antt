-- ===== src/HfPrefetch/Reconcile/Outcome.antt =====
-- How the body of the loop over the models leaves a model when it goes on to the next one.
use cylon_local_infra.Prelude.{
  ℕ, String, Bool, true, false, Option, none, some, List, [], ◌∷◌, ◌≡◌, refl, ◌⊎◌, inl, inr, arith,
  Bool-cases,
}
use cylon_local_infra.Prelude.State.{◌>>=◌, pure}
use cylon_local_infra.Prelude.Effect.{ExitCode}
use cylon_local_infra.HfPrefetch.Config.{Config, ModelEntry, SyncTarget}
use cylon_local_infra.HfPrefetch.Store.{
  Status, ready, error, Reason, cached_and_synced, status_of, is_ready,
}
use cylon_local_infra.HfPrefetch.Backoff
use cylon_local_infra.HfPrefetch.Machine.{
  Host, Machine, time, is_set, check_cache, set_fields, update_backoff,
}
use cylon_local_infra.HfPrefetch.Reconcile.{
  go_on, Phase, cached, skipped, stopped, after_phase, after_download, finish_download,
  record_failure, record_ready, start_download, download_phase, reconcile_checked, sync_peer,
  sync_loop, after_sync, sync_phase, reconcile_entry,
}
use cylon_local_infra.HfPrefetch.Reconcile.Readiness.{status_of-set_self}

is_ready-eq : (o : Option Status) → is_ready o ≡ true → o ≡ some ready
is_ready-eq o h = ground arith

module _ (H : Host) (repo : String) where
  -- The state file says how the work on the model ended.
  abbrev pub IsFinished : Machine H → Type 0
  IsFinished m = (status_of m.store repo ≡ some ready) ⊎ (status_of m.store repo ≡ some error)

  record_failure-error :
      (now : ℕ) (why : Reason) (m : Machine H)
      → status_of (record_failure H repo now why m).1.store repo ≡ some error
  unfolding record_failure ◌>>=◌ update_backoff set_fields
  record_failure-error now why m = status_of-set_self m.store repo _ _ _

  record_ready-ready :
      (hub_dir : String) (why : Reason) (m : Machine H)
      → status_of (record_ready H hub_dir repo why m).1.store repo ≡ some ready
  unfolding record_ready ◌>>=◌ update_backoff set_fields
  record_ready-ready hub_dir why m = status_of-set_self m.store repo _ _ _

  module _ (hub_dir : String) (now : ℕ) where
    sync_peer-error :
        (t : SyncTarget) (m : Machine H)
        → (sync_peer H hub_dir repo now t m).0 ≡ some false
        → status_of (sync_peer H hub_dir repo now t m).1.store repo ≡ some error
    unfolding sync_peer ◌>>=◌ is_set
    sync_peer-error t m failed = grind (arith, record_failure-error)

    sync_loop-error :
        (ts : List SyncTarget) (m : Machine H)
        → (sync_loop H hub_dir repo now ts m).0 ≡ some false
        → status_of (sync_loop H hub_dir repo now ts m).1.store repo ≡ some error
    unfolding sync_loop ◌>>=◌
    sync_loop-error [] m failed = cc
    sync_loop-error (t ∷ ts) m failed =
        ground (arith, sync_peer-error t m, sync_loop-error ts (sync_peer H hub_dir repo now t m).1)

    after_sync-IsFinished :
        (o : Option Bool) (m : Machine H)
        → (o ≡ some false → status_of m.store repo ≡ some error)
        → (after_sync H hub_dir repo o m).0 ≡ go_on
        → IsFinished (after_sync H hub_dir repo o m).1
    unfolding pure ◌>>=◌
    after_sync-IsFinished none m failed done = cc
    after_sync-IsFinished (some false) m failed done = inr (failed refl)
    after_sync-IsFinished (some true) m failed done =
        inl (record_ready-ready hub_dir cached_and_synced m)

    sync_phase-IsFinished :
        (cfg : Config) (ts : List SyncTarget) (m : Machine H)
        → (sync_phase H cfg hub_dir repo now ts m).0 ≡ go_on
        → IsFinished (sync_phase H cfg hub_dir repo now ts m).1
    unfolding sync_phase ◌>>=◌
    sync_phase-IsFinished cfg [] m done = inl (record_ready-ready hub_dir _ m)
    sync_phase-IsFinished cfg (t ∷ ts) m done =
        after_sync-IsFinished _ _ (sync_loop-error (t ∷ ts) m) done

    after_download-error :
        (rc : ExitCode) (m : Machine H)
        → (after_download H hub_dir repo now rc m).0 ≡ skipped
        → status_of (after_download H hub_dir repo now rc m).1.store repo ≡ some error
    unfolding after_download ◌>>=◌
    after_download-error rc m done = grind (arith, record_failure-error)

    finish_download-error :
        (rc : ExitCode) (m : Machine H)
        → (finish_download H hub_dir repo now rc m).0 ≡ skipped
        → status_of (finish_download H hub_dir repo now rc m).1.store repo ≡ some error
    unfolding finish_download ◌>>=◌
    finish_download-error rc m done = grind (arith, after_download-error)

module _ (H : Host) (cfg : Config) (e : ModelEntry) (hub_dir : String) (now : ℕ) where
  -- The download was put off by the backoff, and the state file was not touched.
  abbrev IsPutOff : Machine H → Machine H → Type 0
  IsPutOff m m' =
      (Backoff.ready m.backoff e.repo now ≡ false) × (m'.store ≡ m.store) × (m'.backoff ≡ m.backoff)

  abbrev Ends : Machine H → Machine H → Type 0
  Ends m m' = IsFinished H e.repo m' ⊎ IsPutOff m m'

  start_download-error :
      (m : Machine H)
      → (start_download H cfg e hub_dir now m).0 ≡ skipped
      → status_of (start_download H cfg e hub_dir now m).1.store e.repo ≡ some error
  unfolding start_download ◌>>=◌
  start_download-error m done = finish_download-error H e.repo hub_dir now _ _ done

  download_phase-Ends :
      (m : Machine H)
      → (download_phase H cfg e hub_dir now m).0 ≡ skipped
      → Ends m (download_phase H cfg e hub_dir now m).1
  unfolding download_phase ◌>>=◌
  download_phase-Ends m done = elim (Bool-cases (Backoff.ready m.backoff e.repo now)) [
    | inl due ↦ rw due (inl (inr (start_download-error m (rw due at done))))
    | inr early ↦ rw early (inr (refl, refl, refl))
  ]

  after_phase-Ends :
      (p : Phase) (ts : List SyncTarget) (m m' : Machine H)
      → (p ≡ skipped → Ends m m')
      → (after_phase H cfg hub_dir e.repo now ts p m').0 ≡ go_on
      → Ends m (after_phase H cfg hub_dir e.repo now ts p m').1
  unfolding pure
  after_phase-Ends cached ts m m' h done =
      inl (sync_phase-IsFinished H e.repo hub_dir now cfg ts m' done)
  after_phase-Ends skipped ts m m' h done = h refl
  after_phase-Ends stopped ts m m' h done = cc

  reconcile_checked-Ends :
      (good : Bool) (m : Machine H)
      → let after = reconcile_checked H cfg e hub_dir now good (status_of m.store e.repo) m in
        after.0 ≡ go_on → Ends m after.1
  unfolding reconcile_checked ◌>>=◌
  reconcile_checked-Ends true m done = elim (Bool-cases (is_ready (status_of m.store e.repo))) [
    | inl r ↦ rw r (inl (inl (is_ready-eq _ r)))
    | inr not_ready ↦
        rw not_ready
          (inl (sync_phase-IsFinished H e.repo hub_dir now cfg _ m (rw not_ready at done)))
  ]
  reconcile_checked-Ends false m done = after_phase-Ends _ _ m _ (download_phase-Ends m) done

-- When the body of the loop goes on to the next model, this one is ready or in error, or its
-- download is put off by the backoff and nothing was written. It never ends half done.
pub reconcile_entry-Ends :
    (H : Host) (cfg : Config) (e : ModelEntry) (m : Machine H)
    → (reconcile_entry H cfg e m).0 ≡ go_on
    → (IsFinished H e.repo (reconcile_entry H cfg e m).1)
      ⊎ ((Backoff.ready m.backoff e.repo (H.time m.world).0 ≡ false)
          × ((reconcile_entry H cfg e m).1.store ≡ m.store)
          × ((reconcile_entry H cfg e m).1.backoff ≡ m.backoff))
unfolding reconcile_entry ◌>>=◌ time check_cache
reconcile_entry-Ends H cfg e m done = reconcile_checked-Ends H cfg e _ _ _ _ done
