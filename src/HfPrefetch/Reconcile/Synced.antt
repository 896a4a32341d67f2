-- ===== src/HfPrefetch/Reconcile/Synced.antt =====
-- A model becomes ready only behind a complete cache and a successful copy to every peer.
use cylon_local_infra.Prelude.{
  ℕ, String, Bool, true, false, some, List, [], ◌∷◌, ◌≡◌, refl, ◌∙◌, arith, Bool-cases, inl, inr,
}
use cylon_local_infra.Prelude.State.{pure, ◌>>=◌}
use cylon_local_infra.Prelude.Effect.{ExitCode, success}
use cylon_local_infra.HfPrefetch.Backoff
use cylon_local_infra.HfPrefetch.Config.{
  Config, ModelEntry, SyncTarget, effective_cache_dir, effective_sync_targets,
}
use cylon_local_infra.HfPrefetch.Commands.{rsync_argv}
use cylon_local_infra.HfPrefetch.Store.{Reason, cached_and_synced, status_of, is_ready}
use cylon_local_infra.HfPrefetch.Machine.{
  Host, Machine, Event, ran, checked, time, is_set, check_cache, run, set_fields, update_backoff,
}
use cylon_local_infra.HfPrefetch.Reconcile.{
  Phase, after_phase, cached, skipped, stopped, record_failure, record_ready, after_download,
  finish_download, start_download, download_phase, reconcile_checked, sync_peer, sync_loop,
  sync_phase, reconcile_entry,
}
use cylon_local_infra.HfPrefetch.Reconcile.Readiness.{
  NotReady, NotReady-sync_loop, NotReady-download_phase,
}

abbrev older : List Event → List Event
older [] = []
older (_ ∷ h) = h

-- One successful copy to each peer, in order, on top of a history.
abbrev pub copied_to_all : String → String → List SyncTarget → List Event → List Event
copied_to_all hub_dir repo [] h = h
copied_to_all hub_dir repo (t ∷ ts) h =
    copied_to_all hub_dir repo ts (ran (rsync_argv hub_dir repo t) success ∷ h)

module _ (H : Host) (hub_dir repo : String) (now : ℕ) where
  record_ready-history :
      (why : Reason) (m : Machine H) → (record_ready H hub_dir repo why m).1.history ≡ m.history
  unfolding record_ready ◌>>=◌ set_fields update_backoff
  record_ready-history why m = refl

  record_failure-history :
      (why : Reason) (m : Machine H) → (record_failure H repo now why m).1.history ≡ m.history
  unfolding record_failure ◌>>=◌ set_fields update_backoff
  record_failure-history why m = refl

  sync_peer-history :
      (t : SyncTarget) (m : Machine H)
      → (sync_peer H hub_dir repo now t m).0 ≡ some true
      → (sync_peer H hub_dir repo now t m).1.history
        ≡ ran (rsync_argv hub_dir repo t) success ∷ m.history
  unfolding sync_peer ◌>>=◌ is_set set_fields run
  sync_peer-history t m done = ground arith

  sync_loop-history :
      (ts : List SyncTarget) (m : Machine H)
      → (sync_loop H hub_dir repo now ts m).0 ≡ some true
      → (sync_loop H hub_dir repo now ts m).1.history ≡ copied_to_all hub_dir repo ts m.history
  unfolding sync_loop ◌>>=◌
  sync_loop-history [] m done = refl
  sync_loop-history (t ∷ ts) m done =
      ground
        (arith, sync_peer-history t m, sync_loop-history ts (sync_peer H hub_dir repo now t m).1)

  after_download-history :
      (rc : ExitCode) (m : Machine H)
      → (after_download H hub_dir repo now rc m).0 ≡ cached
      → (after_download H hub_dir repo now rc m).1.history ≡ checked repo true ∷ m.history
  unfolding after_download ◌>>=◌ check_cache
  after_download-history rc m done = ground arith

  sync_phase-history :
      (cfg : Config) (ts : List SyncTarget) (m : Machine H)
      → NotReady H repo m
      → is_ready (status_of (sync_phase H cfg hub_dir repo now ts m).1.store repo) ≡ true
      → (sync_phase H cfg hub_dir repo now ts m).1.history ≡ copied_to_all hub_dir repo ts m.history
  unfolding sync_phase ◌>>=◌
  sync_phase-history cfg [] m old new = record_ready-history _ m
  sync_phase-history cfg (t ∷ ts) m old new = ground (
    arith,
    sync_loop-history (t ∷ ts) m,
    (NotReady-sync_loop H repo hub_dir now (t ∷ ts)).at m,
    record_ready-history cached_and_synced (sync_loop H hub_dir repo now (t ∷ ts) m).1,
  )

  finish_download-history :
      (rc : ExitCode) (m : Machine H)
      → (finish_download H hub_dir repo now rc m).0 ≡ cached
      → (l : List Event) × ((finish_download H hub_dir repo now rc m).1.history
          ≡ checked repo true ∷ l)
  unfolding finish_download ◌>>=◌ is_set
  finish_download-history rc m done =
      (m.history, ground (arith, after_download-history rc (is_set H m).1))

module _ (H : Host) (cfg : Config) (e : ModelEntry) (hub_dir : String) (now : ℕ) where
  start_download-history :
      (m : Machine H)
      → (start_download H cfg e hub_dir now m).0 ≡ cached
      → (l : List Event) × ((start_download H cfg e hub_dir now m).1.history
          ≡ checked e.repo true ∷ l)
  unfolding start_download ◌>>=◌
  start_download-history m done = finish_download-history H hub_dir e.repo now _ _ done

  download_phase-history :
      (m : Machine H)
      → (download_phase H cfg e hub_dir now m).0 ≡ cached
      → (l : List Event) × ((download_phase H cfg e hub_dir now m).1.history
          ≡ checked e.repo true ∷ l)
  unfolding download_phase ◌>>=◌
  download_phase-history m done = elim (Bool-cases (Backoff.ready m.backoff e.repo now)) [
    | inl due ↦ rw due (start_download-history m (rw due at done))
    | inr early ↦ let bad : skipped ≡ cached = rw early at done in cc
  ]

  abbrev IsReady : Machine H → Type 0
  IsReady m = is_ready (status_of m.store e.repo) ≡ true

  -- The history of a pass that copied to all peers behind a complete cache.
  abbrev HasCopied : Machine H → Type 0
  HasCopied m =
      (l : List Event) × (m.history
        ≡ copied_to_all hub_dir e.repo (effective_sync_targets e cfg.sync_targets)
            (checked e.repo true ∷ l))

  after_phase-HasCopied :
      (p : Phase) (m : Machine H)
      → NotReady H e.repo m
      → (p ≡ cached → (l : List Event) × (m.history ≡ checked e.repo true ∷ l))
      → let after =
          after_phase H cfg hub_dir e.repo now (effective_sync_targets e cfg.sync_targets) p m in
        IsReady after.1 → HasCopied after.1
  unfolding pure
  after_phase-HasCopied cached m old behind new =
      let (l, h) = behind refl in
      (l, sync_phase-history H hub_dir e.repo now cfg _ m old new ∙ rw h)
  after_phase-HasCopied skipped m old behind new = cc
  after_phase-HasCopied stopped m old behind new = cc

  reconcile_checked-HasCopied :
      (good : Bool) (m : Machine H) (l : List Event)
      → NotReady H e.repo m
      → m.history ≡ checked e.repo good ∷ l
      → let after = reconcile_checked H cfg e hub_dir now good (status_of m.store e.repo) m in
        IsReady after.1 → HasCopied after.1
  unfolding reconcile_checked ◌>>=◌
  reconcile_checked-HasCopied true m l old h new =
      (l, rw (old) (sync_phase-history H hub_dir e.repo now cfg _ m old (rw old at new) ∙ rw h))
  reconcile_checked-HasCopied false m l old h new =
      after_phase-HasCopied _ _ ((NotReady-download_phase H cfg e hub_dir now).at m old)
        (download_phase-history m) new

module _ (H : Host) (cfg : Config) (e : ModelEntry) where
  -- When a pass makes a model ready that was not, it looked at the cache and found it complete,
  -- and then copied it to every peer of the model in order, each with exit code 0, and ran nothing
  -- else in between or after.
  pub ready-copied_to_all :
      (m : Machine H)
      → is_ready (status_of m.store e.repo) ≡ false
      → is_ready (status_of (reconcile_entry H cfg e m).1.store e.repo) ≡ true
      → (l : List Event) × ((reconcile_entry H cfg e m).1.history
          ≡ copied_to_all
              (effective_cache_dir e cfg.cache_dir)
              e.repo
              (effective_sync_targets e cfg.sync_targets)
              (checked e.repo true ∷ l))
  unfolding reconcile_entry ◌>>=◌ time check_cache
  ready-copied_to_all m old new = reconcile_checked-HasCopied H cfg e _ _ _ _ m.history old refl new
