-- ===== src/HfPrefetch/Reconcile/Transitions/Followed.antt =====
-- The work on a model follows its state machine.
use cylon_local_infra.Prelude.{
  ℕ, String, Bool, true, false, Option, none, some, List, [], ◌∷◌, ◌≡◌, refl, Bool-cases, inl, inr,
}
use cylon_local_infra.Prelude.State.{pure, gets, ◌>>=◌}
use cylon_local_infra.Prelude.Effect.{ExitCode}
use cylon_local_infra.HfPrefetch.Config.{Config, ModelEntry, SyncTarget}
use cylon_local_infra.HfPrefetch.Store.{
  Status, downloading, syncing, ready, error, Reason, status_of, is_ready,
}
use cylon_local_infra.HfPrefetch.Machine.{Host, Machine, M, time, check_cache}
use cylon_local_infra.HfPrefetch.Reconcile.{
  Phase, cached, skipped, stopped, report, heartbeat, hf_download_run, record_failure, record_ready,
  after_download, finish_download, start_download, download_phase, sync_peer, while_synced,
  sync_loop, after_sync, sync_phase, after_phase, reconcile_checked, reconcile_entry,
}
use cylon_local_infra.HfPrefetch.Reconcile.Transitions.{
  ◌⟶◌, download, sync, finish, fail_download, fail_sync, Trail, traced,
}
use cylon_local_infra.HfPrefetch.Reconcile.Transitions.Triples.{
  View, Any, Is, IsOpen, Goes, Goes-bind, Goes-pure, Goes-gets, Goes-if, Goes-from, Goes-is_set,
  Goes-check, Goes-run, Goes-backoff, Goes-set, Goes-set_same,
}

module _ (H : Host) (repo : String) where
  abbrev H' : Host
  H' = traced repo H

  -- The parts of a pass.
  Goes-report :
      (last : Option ℕ) (cur : ℕ)
      → Goes H repo (Is downloading) (report H' repo last cur) (λ _. Is downloading)
  unfolding report
  Goes-report last cur =
      Goes-if _ _ _ _ _ (Goes-pure _ _ _ (λ s p. p))
        (Goes-set _ _ downloading _ (λ e. refl) (λ s p. download))

  Goes-heartbeat :
      (sizes : List (Option ℕ)) (last : Option ℕ)
      → Goes H repo (Is downloading) (heartbeat H' repo last sizes) (λ _. Is downloading)
  unfolding heartbeat
  Goes-heartbeat [] last = Goes-pure _ _ _ (λ s p. p)
  Goes-heartbeat (none ∷ sizes) last = Goes-heartbeat sizes last
  Goes-heartbeat (some cur ∷ sizes) last =
      Goes-bind _ _ _ _ (Goes-report last cur) (λ _. Goes-heartbeat sizes (some cur))

  Goes-failure :
      (u : Status) (now : ℕ) (why : Reason)
      → some u ⟶ some error
      → Goes H repo (Is u) (record_failure H' repo now why) (λ _. Is error)
  unfolding record_failure
  Goes-failure u now why step = Goes-bind _ _ _ _ (Goes-backoff _ _ _) (λ _.
      Goes-bind _ _ _ _ (Goes-gets _ _ _)
        (λ n. Goes-set _ _ error _ (λ e. refl) (λ s p. rw p step)))

  Goes-ready :
      (hub_dir : String) (why : Reason)
      → Goes H repo IsOpen (record_ready H' hub_dir repo why) (λ _. Is ready)
  unfolding record_ready
  Goes-ready hub_dir why = Goes-bind _ _ _ _ (Goes-backoff _ _ _) (λ _.
      Goes-bind _ _ _ _ (Goes-gets _ _ _) (λ n. Goes-set _ _ ready _ (λ e. refl) (λ s p. finish p)))

  -- A phase that goes on to the sync leaves a model that is not ready.
  abbrev AfterPhase : Phase → View
  AfterPhase cached = IsOpen
  AfterPhase skipped = Any
  AfterPhase stopped = Any

  Goes-after_download :
      (hub_dir : String) (now : ℕ) (rc : ExitCode)
      → Goes H repo (Is downloading) (after_download H' hub_dir repo now rc) AfterPhase
  unfolding after_download
  Goes-after_download hub_dir now rc =
      Goes-if _ _ _ _ _
        (Goes-bind _ _ _ _ (Goes-failure downloading now _ fail_download)
          (λ _. Goes-pure _ _ _ (λ s p. tt)))
        (Goes-bind _ _ _ _ (Goes-check _ _ hub_dir repo) (λ checked.
          Goes-if _ _ _ _ _ (Goes-pure _ _ _ (λ s p. rw p refl)) (
            Goes-bind _ _ _ _ (Goes-failure downloading now _ fail_download)
              (λ _. Goes-pure _ _ _ (λ s p. tt)))))

  Goes-finish_download :
      (hub_dir : String) (now : ℕ) (rc : ExitCode)
      → Goes H repo (Is downloading) (finish_download H' hub_dir repo now rc) AfterPhase
  unfolding finish_download
  Goes-finish_download hub_dir now rc =
      Goes-bind _ _ _ _ (Goes-is_set _ _) (λ stop.
        Goes-if _ _ _ _ _ (Goes-pure _ _ _ (λ s p. tt)) (Goes-after_download hub_dir now rc))

  -- What the loop over the peers leaves.
  abbrev AfterSync : Option Bool → View
  AfterSync (some true) = IsOpen
  AfterSync _ = Any

  Goes-synced : Goes H repo (Is syncing) (pure (some true)) AfterSync
  Goes-synced = Goes-pure _ _ _ (λ s p. rw p refl)

  Goes-sync_peer :
      (hub_dir : String) (now : ℕ) (t : SyncTarget)
      → Goes H repo IsOpen (sync_peer H' hub_dir repo now t) AfterSync
  unfolding sync_peer
  Goes-sync_peer hub_dir now t = Goes-bind _ _ _ _ (Goes-is_set _ _) (λ stop.
      Goes-if _ _ _ _ _ (Goes-pure _ _ _ (λ s p. tt)) (
        Goes-bind _ _ _ _ (Goes-gets _ _ _) (λ n.
          Goes-bind _ _ _ _ (Goes-set _ _ syncing _ (λ e. refl) (λ s p. sync p)) (λ _.
            Goes-bind _ _ _ _ (Goes-run _ _ _) (λ rc. Goes-bind _ _ _ _ (Goes-is_set _ _) (λ stop'.
              Goes-if _ _ _ _ _ (Goes-pure _ _ _ (λ s p. tt)) (
                Goes-if _ _ _ _ _ Goes-synced (
                  Goes-bind _ _ _ _ (Goes-failure syncing now _ fail_sync)
                    (λ _. Goes-pure _ _ _ (λ s p. tt))))))))))

  Goes-while_synced :
      (rest : M H' (Option Bool)) (o : Option Bool)
      → Goes H repo IsOpen rest AfterSync
      → Goes H repo (AfterSync o) (while_synced H' rest o) AfterSync
  Goes-while_synced rest none g = Goes-pure _ _ _ (λ s p. tt)
  Goes-while_synced rest (some false) g = Goes-pure _ _ _ (λ s p. tt)
  Goes-while_synced rest (some true) g = g

  Goes-sync_loop :
      (hub_dir : String) (now : ℕ) (targets : List SyncTarget)
      → Goes H repo IsOpen (sync_loop H' hub_dir repo now targets) AfterSync
  unfolding sync_loop
  Goes-sync_loop hub_dir now [] = Goes-pure _ _ _ (λ s p. p)
  Goes-sync_loop hub_dir now (t ∷ ts) =
      Goes-bind _ _ _ _ (Goes-sync_peer hub_dir now t)
        (λ o. Goes-while_synced _ o (Goes-sync_loop hub_dir now ts))

  Goes-after_sync :
      (hub_dir : String) (o : Option Bool)
      → Goes H repo (AfterSync o) (after_sync H' hub_dir repo o) (λ _. Any)
  Goes-after_sync hub_dir none = Goes-pure _ _ _ (λ s p. tt)
  Goes-after_sync hub_dir (some false) = Goes-pure _ _ _ (λ s p. tt)
  Goes-after_sync hub_dir (some true) =
      Goes-bind _ _ _ _ (Goes-ready hub_dir _) (λ _. Goes-pure _ _ _ (λ s p. tt))

  Goes-sync_phase :
      (cfg : Config) (hub_dir : String) (now : ℕ) (targets : List SyncTarget)
      → Goes H repo IsOpen (sync_phase H' cfg hub_dir repo now targets) (λ _. Any)
  unfolding sync_phase
  Goes-sync_phase cfg hub_dir now [] =
      Goes-bind _ _ _ _ (Goes-ready hub_dir _) (λ _. Goes-pure _ _ _ (λ s p. tt))
  Goes-sync_phase cfg hub_dir now (t ∷ ts) =
      Goes-bind _ _ _ _ (Goes-sync_loop hub_dir now (t ∷ ts)) (λ o. Goes-after_sync hub_dir o)

  Goes-after_phase :
      (cfg : Config) (hub_dir : String) (now : ℕ) (targets : List SyncTarget) (p : Phase)
      → Goes H repo (AfterPhase p) (after_phase H' cfg hub_dir repo now targets p) (λ _. Any)
  Goes-after_phase cfg hub_dir now targets cached = Goes-sync_phase cfg hub_dir now targets
  Goes-after_phase cfg hub_dir now targets skipped = Goes-pure _ _ _ (λ s p. tt)
  Goes-after_phase cfg hub_dir now targets stopped = Goes-pure _ _ _ (λ s p. tt)

module _ (H : Host) (cfg : Config) (e : ModelEntry) where
  abbrev TracedGoes : {A : Type 0} → View → M (traced e.repo H) A → (A → View) → Type 0
  TracedGoes P code Q = Goes H e.repo P code Q

  Goes-download_run :
      (hub_dir : String)
      → TracedGoes
          (Is downloading)
          (hf_download_run (traced e.repo H) cfg e hub_dir)
          (λ _. Is downloading)
  unfolding hf_download_run
  Goes-download_run hub_dir = Goes-bind _ _ _ _ (Goes-run _ _ _) (λ _.
      Goes-bind _ _ _ _ (Goes-run _ _ _) (λ r. Goes-bind _ _ _ _ (Goes-heartbeat _ _ r.1 none) (λ _.
        Goes-bind _ _ _ _ (Goes-gets _ _ _) (λ n.
          Goes-bind _ _ _ _ (Goes-set_same _ _ _ (λ x. refl)) (λ _. Goes-pure _ _ _ (λ s p. p))))))

  Goes-start_download :
      (hub_dir : String) (now : ℕ)
      → TracedGoes Any (start_download (traced e.repo H) cfg e hub_dir now) (AfterPhase H e.repo)
  unfolding start_download
  Goes-start_download hub_dir now = Goes-bind _ _ _ _ (Goes-gets _ _ _) (λ before.
      Goes-bind _ _ _ _ (Goes-set _ _ downloading _ (λ x. refl) (λ s p. download)) (λ _.
        Goes-bind _ _ _ _ (Goes-download_run hub_dir)
          (λ rc. Goes-finish_download _ _ hub_dir now rc)))

  Goes-download_phase :
      (hub_dir : String) (now : ℕ)
      → TracedGoes Any (download_phase (traced e.repo H) cfg e hub_dir now) (AfterPhase H e.repo)
  unfolding download_phase
  Goes-download_phase hub_dir now =
      Goes-bind _ _ _ _ (Goes-gets _ _ _)
        (λ due. Goes-if _ _ _ _ _ (Goes-start_download hub_dir now) (Goes-pure _ _ _ (λ s p. tt)))

  Goes-checked :
      (hub_dir : String) (now : ℕ) (good : Bool) (status : Option Status)
      → TracedGoes
          (λ s. s ≡ status)
          (reconcile_checked (traced e.repo H) cfg e hub_dir now good status)
          (λ _. Any)
  unfolding reconcile_checked
  Goes-checked hub_dir now true status = elim (Bool-cases (is_ready status)) [
    | inl done ↦ rw done (Goes-pure _ _ _ (λ s p. tt))
    | inr open_ ↦
        rw open_ (Goes-from _ _ _ (λ s p. rw p open_) (Goes-sync_phase _ _ cfg hub_dir now _))
  ]
  Goes-checked hub_dir now false status =
      Goes-bind _ _ _ _ (Goes-from _ _ _ (λ s p. tt) (Goes-download_phase hub_dir now))
        (λ p. Goes-after_phase _ _ cfg hub_dir now _ p)

  -- Every write of the state file in the work on a model is a step of its state machine: the model
  -- begins to sync, or becomes ready, only when it was not ready; it fails only in a download or a
  -- sync; and from `ready` it goes nowhere but to a download.
  pub reconcile_entry-Trail :
      (m : Machine (traced e.repo H))
      → let m' = (reconcile_entry (traced e.repo H) cfg e m).1 in
        Trail (status_of m.store e.repo) m.world.1 (status_of m'.store e.repo) m'.world.1
  unfolding reconcile_entry ◌>>=◌ time check_cache gets
  reconcile_entry-Trail m = ((Goes-checked _ _ _ (status_of m.store e.repo)).at _ refl).0
