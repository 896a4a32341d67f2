-- ===== src/NgcImage/Reconcile/History.antt =====
-- What the loop over the kept tags does to the history: it adds pulls and copies alone.
use cylon_local_infra.Prelude.{
  ℕ, String, Bool, true, false, Option, none, some, List, [], ◌∷◌, string_eq,
}
use cylon_local_infra.Prelude.State.{Keeps, Keeps-bind, Keeps-if, keeps_rules}
use cylon_local_infra.Prelude.Effect.{ExitCode}
use cylon_local_infra.NgcImage.Config.{Config, SyncTarget}
use cylon_local_infra.NgcImage.Store.{Entry, Reason}
use cylon_local_infra.NgcImage.Backoff.{BackoffTracker}
use cylon_local_infra.NgcImage.Machine.{
  Host, Machine, M, Event, pulled, Copying, copied, ask, note, set_fields, update_backoff,
}
use cylon_local_infra.NgcImage.Reconcile.{
  sync_image_to_peer, send_image, record_failure, after_pull, pull_image, local_phase, is_local,
  skipped, stopped, Phase, sync_peer, while_synced, sync_loop, record_ready, after_sync, replicate,
  after_local, reconcile_tag, tags_loop,
}

module _ (H : Host) (P : List Event → Type 0)
    (after_pulled : (key : String) (rc : ExitCode) (h : List Event) → P h → P (pulled key rc ∷ h))
    (after_copied : (key : String) (t : SyncTarget) (step : Copying) (h : List Event)
      → P h
      → P (copied key t step ∷ h)) where
  abbrev pub Kept : Machine H → Type 0
  Kept m = P m.history

  pub Kept-ask : {A : Type 0} (f : H.World → A × H.World) → Keeps Kept (ask H f)
  unfolding ask
  Kept-ask f = record { at = λ m h. h }

  pub Kept-set : (key : String) (f : Entry → Entry) → Keeps Kept (set_fields H key f)
  unfolding set_fields
  Kept-set key f = record { at = λ m h. h }

  Kept-pulled : (key : String) (rc : ExitCode) → Keeps Kept (note H (pulled key rc))
  unfolding note
  Kept-pulled key rc = record { at = λ m h. after_pulled key rc m.history h }

  Kept-copied :
      (key : String) (t : SyncTarget) (step : Copying) → Keeps Kept (note H (copied key t step))
  unfolding note
  Kept-copied key t step = record { at = λ m h. after_copied key t step m.history h }

  Kept-backoff : (f : BackoffTracker → BackoffTracker) → Keeps Kept (update_backoff H f)
  unfolding update_backoff
  Kept-backoff f = record { at = λ m h. h }

  ruleset steps = (keeps_rules, Kept-ask, Kept-set, Kept-pulled, Kept-copied, Kept-backoff)

  Kept-failure : (key : String) (now : ℕ) (why : Reason) → Keeps Kept (record_failure H key now why)
  unfolding record_failure
  Kept-failure key now why = search steps

  Kept-local_phase :
      (present : Bool) (key : String) (now : ℕ) → Keeps Kept (local_phase H present key now)
  unfolding local_phase pull_image after_pull
  Kept-local_phase true key now = search steps depth 8
  Kept-local_phase false key now = search (steps, Kept-failure) depth 12

  Kept-sync_image : (key : String) (t : SyncTarget) → Keeps Kept (sync_image_to_peer H key t)
  unfolding sync_image_to_peer send_image
  Kept-sync_image key t = search steps depth 8

  Kept-sync_peer : (key : String) (now : ℕ) (t : SyncTarget) → Keeps Kept (sync_peer H key now t)
  unfolding sync_peer
  Kept-sync_peer key now t = search (steps, Kept-failure, Kept-sync_image) depth 12

  Kept-while_synced :
      (rest : M H (Option Bool)) (o : Option Bool)
      → Keeps Kept rest
      → Keeps Kept (while_synced H rest o)
  Kept-while_synced rest none h = search steps
  Kept-while_synced rest (some false) h = search steps
  Kept-while_synced rest (some true) h = h

  Kept-sync_loop :
      (key : String) (now : ℕ) (peers : List SyncTarget) → Keeps Kept (sync_loop H key now peers)
  unfolding sync_loop
  Kept-sync_loop key now [] = search steps
  Kept-sync_loop key now (p ∷ ps) =
      Keeps-bind _ _ (Kept-sync_peer key now p)
        (λ o. Kept-while_synced _ o (Kept-sync_loop key now ps))

  Kept-after_sync :
      (key : String) (peers : List SyncTarget) (o : Option Bool)
      → Keeps Kept (after_sync H key peers o)
  unfolding record_ready
  Kept-after_sync key peers none = search steps
  Kept-after_sync key peers (some false) = search steps
  Kept-after_sync key peers (some true) = search steps depth 8

  Kept-replicate :
      (key : String) (now : ℕ) (peers : List SyncTarget) → Keeps Kept (replicate H key now peers)
  unfolding replicate
  Kept-replicate key now peers = search (steps, Kept-sync_loop, Kept-after_sync)

  Kept-after_local :
      (key : String) (now : ℕ) (peers : List SyncTarget) (p : Phase)
      → Keeps Kept (after_local H key now peers p)
  Kept-after_local key now peers is_local = search (steps, Kept-replicate)
  Kept-after_local key now peers skipped = search steps
  Kept-after_local key now peers stopped = search steps

  Kept-tag :
      (cfg : Config) (present : Bool) (key : String) → Keeps Kept (reconcile_tag H cfg present key)
  unfolding reconcile_tag
  Kept-tag cfg present key = search (steps, Kept-local_phase, Kept-after_local)

  pub Kept-tags_loop :
      (cfg : Config) (repo : String) (tags have : List String)
      → Keeps Kept (tags_loop H cfg repo have tags)
  unfolding tags_loop
  Kept-tags_loop cfg repo [] have = search steps
  Kept-tags_loop cfg repo (tag ∷ tags) have = Keeps-bind _ _ (Kept-ask H.is_set) (λ stop.
      Keeps-if stop _ _ (search steps) (
        Keeps-bind _ _ (Kept-tag cfg _ _)
          (λ r. Keeps-if r.0 _ _ (Kept-tags_loop cfg repo tags _) (search steps))))
