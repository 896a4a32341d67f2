-- ===== src/NgcImage/Reconcile/Ended.antt =====
-- How the work on one tag ends.
use cylon_local_infra.Prelude.{
  ℕ, String, Bool, true, false, Option, none, some, List, ◌≡◌, refl, ◌⊎◌, inl, inr, arith,
  Bool-cases,
}
use cylon_local_infra.Prelude.State.{◌>>=◌, pure}
use cylon_local_infra.Prelude.Effect.{ExitCode}
use cylon_local_infra.NgcImage.Config.{Config, SyncTarget}
use cylon_local_infra.NgcImage.Store.{ready, error, status_of}
use cylon_local_infra.NgcImage.Backoff
use cylon_local_infra.NgcImage.Machine.{Host, Machine, ask}
use cylon_local_infra.NgcImage.Reconcile.{
  Phase, is_local, skipped, stopped, after_pull, pull_image, local_phase, after_sync, replicate,
  after_local, reconcile_tag,
}
use cylon_local_infra.NgcImage.Reconcile.Replicated.{
  record_failure-error, record_ready-ready, sync_loop-error,
}

module _ (H : Host) (key : String) where
  -- The state file says how the work on the tag ended.
  abbrev pub IsFinished : Machine H → Type 0
  IsFinished m = (status_of m.store key ≡ some ready) ⊎ (status_of m.store key ≡ some error)

  module _ (now : ℕ) where
    after_sync-IsFinished :
        (peers : List SyncTarget) (o : Option Bool) (m : Machine H)
        → (o ≡ some false → status_of m.store key ≡ some error)
        → (after_sync H key peers o m).0 ≡ true
        → IsFinished (after_sync H key peers o m).1
    unfolding pure ◌>>=◌
    after_sync-IsFinished peers none m bad go = cc
    after_sync-IsFinished peers (some false) m bad go = inr (bad refl)
    after_sync-IsFinished peers (some true) m bad go = inl (record_ready-ready H key now peers m)

    replicate-IsFinished :
        (peers : List SyncTarget) (m : Machine H)
        → (replicate H key now peers m).0 ≡ true
        → IsFinished (replicate H key now peers m).1
    unfolding replicate ◌>>=◌
    replicate-IsFinished peers m go =
        after_sync-IsFinished peers _ _ (sync_loop-error H key now peers m) go

    after_pull-error :
        (rc : ExitCode) (m : Machine H)
        → (after_pull H key now rc m).0 ≡ skipped
        → status_of (after_pull H key now rc m).1.store key ≡ some error
    unfolding after_pull ◌>>=◌
    after_pull-error rc m h = grind (arith, record_failure-error)

    pull_image-error :
        (m : Machine H)
        → (pull_image H key now m).0 ≡ skipped
        → status_of (pull_image H key now m).1.store key ≡ some error
    unfolding pull_image ◌>>=◌
    pull_image-error m h = after_pull-error _ _ h

    -- The tag is in error, or its pull was put off by the backoff and nothing was written.
    abbrev Skips : Machine H → Machine H → Type 0
    Skips m m' =
        (status_of m'.store key ≡ some error)
        ⊎ ((Backoff.due m.backoff key now ≡ false) × (m'.store ≡ m.store))

    local_phase-Skips :
        (present : Bool) (m : Machine H)
        → (local_phase H present key now m).0 ≡ skipped
        → Skips m (local_phase H present key now m).1
    unfolding local_phase ◌>>=◌
    local_phase-Skips true m h = cc
    local_phase-Skips false m h = elim (Bool-cases (Backoff.due m.backoff key now)) [
      | inl may ↦ rw may (inl (pull_image-error m (rw may at h)))
      | inr early ↦ rw early (inr (refl, refl))
    ]

    after_local-Ends :
        (peers : List SyncTarget) (p : Phase) (m m' : Machine H)
        → (p ≡ skipped → Skips m m')
        → (after_local H key now peers p m').0.0 ≡ true
        → IsFinished (after_local H key now peers p m').1
          ⊎ ((Backoff.due m.backoff key now ≡ false)
              × ((after_local H key now peers p m').1.store ≡ m.store))
    unfolding pure ◌>>=◌
    after_local-Ends peers is_local m m' s go = inl (replicate-IsFinished peers m' go)
    after_local-Ends peers skipped m m' s go = elim (s refl) [
      | inl failed ↦ inl (inr failed)
      | inr put_off ↦ inr put_off
    ]
    after_local-Ends peers stopped m m' s go = cc

-- When the pass goes on from a tag, the tag is ready or in error, or its pull is put off by the
-- backoff and nothing was written.
pub reconcile_tag-Ends :
    (H : Host) (cfg : Config) (present : Bool) (key : String) (m : Machine H)
    → (reconcile_tag H cfg present key m).0.0 ≡ true
    → IsFinished H key (reconcile_tag H cfg present key m).1
      ⊎ ((Backoff.due m.backoff key (H.time m.world).0 ≡ false)
          × ((reconcile_tag H cfg present key m).1.store ≡ m.store))
unfolding reconcile_tag ◌>>=◌ ask
reconcile_tag-Ends H cfg present key m go =
    let m' : Machine H = record m { world = (H.time m.world).1 } in
    after_local-Ends H key _ cfg.sync_targets _ m' _ (local_phase-Skips H key _ present m') go
