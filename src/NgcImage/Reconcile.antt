-- ===== src/NgcImage/Reconcile.antt =====
-- `sync_image_to_peer` and `reconcile_once`. `none` is a `return` out of the pass; `some have` goes
-- on with the tags that the local daemon has.
pub mod Replicated
pub mod Ended
pub mod History
pub mod Prune
use cylon_local_infra.Prelude.{
  ℕ, String, Bool, true, false, ◌&&◌, not, Option, none, some, List, [], ◌∷◌, contains, select,
  if◌then◌else◌, ◌==◌, string_eq, length,
}
use Prim.Native.String.{compare}
use text.Mathlib.Text.{is_lt}
use cylon_local_infra.Prelude.State.{pure, ◌>>=◌, ◌>>◌}
use cylon_local_infra.Prelude.Effect.{ExitCode, succeeded, success}
use cylon_local_infra.NgcImage.Config.{Config, ImageSpec, SyncTarget, label}
use cylon_local_infra.NgcImage.Select.{select_keep}
use cylon_local_infra.NgcImage.Store.{
  Status, pulling, syncing, ready, error, pruned, Reason, discovery_failed, tags_fetched,
  already_local, docker_pull, pull_failed, saving_to, load_failed, on_all_nodes, present_locally,
  in_use, pruned_locally, rm_failed, Entry, is_ready,
}
use cylon_local_infra.NgcImage.Backoff
use cylon_local_infra.NgcImage.Machine.{
  Host, Machine, M, Event, pulled, copied, compared, sent, inspected, removed, ask, note,
  set_fields, update_backoff, get_status, due, failures, image_key,
}

-- `a < b` on texts.
abbrev comes_before : String → String → Bool
comes_before a b = is_lt (compare a b)

-- `local_id and peer_id and local_id == peer_id`
abbrev pub same_image : Option String → Option String → Bool
same_image (some a) (some b) = a == b
same_image _ _ = false

-- What the pull phase leaves: a local image, a tag to skip, or a stop.
pub data Phase : Type 0 where
  is_local skipped stopped : Phase

-- The entry after `docker image rm`.
abbrev pruned_fields : ExitCode → Entry → Entry
pruned_fields rc e =
    if succeeded rc
    then record e { status = some pruned; reason = some pruned_locally }
    else record e { status = some error; reason = some (rm_failed rc) }

unfoldable pub stale : (keep have : List String) → List String
stale keep have = select (λ tag. not (contains keep tag)) have

unfoldable pub insert_sorted : String → List String → List String
insert_sorted x [] = x ∷ []
insert_sorted x (y ∷ ys) = if comes_before y x then y ∷ insert_sorted x ys else x ∷ y ∷ ys

-- `sorted(texts)`
unfoldable pub sorted : List String → List String
sorted [] = []
sorted (x ∷ xs) = insert_sorted x (sorted xs)

module _ (H : Host) where
  unfoldable pub send_image : String → SyncTarget → M H ExitCode
  send_image key target = do
    rc ← ask H (λ w. H.save_load w key target)
    note H (copied key target (sent rc))
    pure rc

  -- The transfer is skipped when the peer has the image already.
  unfoldable pub sync_image_to_peer : String → SyncTarget → M H ExitCode
  sync_image_to_peer key target = do
    here ← ask H (λ w. H.local_id w key)
    there ← ask H (λ w. H.peer_id w target key)
    note H (copied key target (compared here there))
    if same_image here there then pure success else send_image key target

  -- The failure branches: count the failure, then write it down.
  unfoldable pub record_failure : String → ℕ → Reason → M H Unit
  record_failure key now why = do
    update_backoff H (λ b. Backoff.fail b key now)
    n ← failures H key
    set_fields H key (λ e. record e { status = some error; reason = some why; failures = some n })

  unfoldable pub after_pull : String → ℕ → ExitCode → M H Phase
  after_pull key now rc = do
    stop ← ask H H.is_set
    if stop
        then pure stopped
        else if succeeded rc
        then pure is_local
        else record_failure key now (pull_failed rc) >> pure skipped

  unfoldable pub pull_image : String → ℕ → M H Phase
  pull_image key now = do
    set_fields H key (λ e. record e { status = some pulling; reason = some docker_pull })
    rc ← ask H (λ w. H.pull w key)
    note H (pulled key rc)
    after_pull key now rc

  -- A tag that is there already is written down as ready before it is copied to the peers.
  unfoldable pub local_phase : (present : Bool) → String → ℕ → M H Phase
  local_phase true key now = do
    status ← get_status H key
    if is_ready status
        then pure tt
        else set_fields H key (λ e. record e { status = some ready; reason = some already_local })
    pure is_local
  local_phase false key now = do
    may ← due H key now
    if may then pull_image key now else pure skipped

  -- One peer. `some b` goes on with `sync_ok = b`, and `none` is a stop.
  unfoldable pub sync_peer : String → ℕ → SyncTarget → M H (Option Bool)
  sync_peer key now peer = do
    stop ← ask H H.is_set
    if stop then pure none else do
      set_fields H key
          (λ e. record e { status = some syncing; reason = some (saving_to (label peer)) })
      rc ← sync_image_to_peer key peer
      if succeeded rc
          then pure (some true)
          else record_failure key now (load_failed (label peer) rc) >> pure (some false)

  -- The loop over the peers, which a failure breaks.
  abbrev while_synced : M H (Option Bool) → Option Bool → M H (Option Bool)
  while_synced rest none = pure none
  while_synced rest (some false) = pure (some false)
  while_synced rest (some true) = rest

  unfoldable pub sync_loop : String → ℕ → List SyncTarget → M H (Option Bool)
  sync_loop key now [] = pure (some true)
  sync_loop key now (peer ∷ peers) =
      let rest = sync_loop key now peers in sync_peer key now peer >>= while_synced rest

  abbrev ready_reason : List SyncTarget → Reason
  ready_reason [] = present_locally
  ready_reason (_ ∷ _) = on_all_nodes

  unfoldable pub record_ready : String → List SyncTarget → M H Unit
  record_ready key peers = do
    update_backoff H (λ b. Backoff.succeed b key)
    set_fields H key (λ e. record e {
      status = some ready;
      reason = some (ready_reason peers);
      failures = some 0;
    })

  -- `true` goes on with the next tag, `false` is a stop.
  abbrev after_sync : String → List SyncTarget → Option Bool → M H Bool
  after_sync key peers none = pure false
  after_sync key peers (some false) = pure true
  after_sync key peers (some true) = record_ready key peers >> pure true

  -- Replication to the peers.
  unfoldable pub replicate : String → ℕ → List SyncTarget → M H Bool
  replicate key now peers = sync_loop key now peers >>= after_sync key peers

  -- Whether the pass goes on, and whether the tag is now on the local daemon.
  abbrev after_local : String → ℕ → List SyncTarget → Phase → M H (Bool × Bool)
  after_local key now peers is_local = do go ← replicate key now peers; pure (go, true)
  after_local key now peers skipped = pure (true, false)
  after_local key now peers stopped = pure (false, false)

  -- The body of the loop over the kept tags, after its stop test.
  unfoldable pub reconcile_tag : Config → (present : Bool) → String → M H (Bool × Bool)
  reconcile_tag cfg present key = do
    now ← ask H H.time
    phase ← local_phase present key now
    after_local key now cfg.sync_targets phase

  -- The loop over the kept tags, with the local tags so far.
  unfoldable pub tags_loop :
      Config → String → List String → List String → M H (Option (List String))
  tags_loop cfg repo have [] = pure (some have)
  tags_loop cfg repo have (tag ∷ tags) = do
    stop ← ask H H.is_set
    if stop then pure none else do
      (go, here) ← reconcile_tag cfg (contains have tag) (image_key repo tag)
      if go
          then tags_loop cfg repo (if here && not (contains have tag) then tag ∷ have else have)
              tags
          else pure none

  unfoldable pub prune_tag : String → String → M H Unit
  prune_tag repo tag = do
    used ← ask H (λ w. H.used_by_container w (image_key repo tag))
    note H (inspected repo tag used)
    if used
        then set_fields H (image_key repo tag)
            (λ e. record e { status = some ready; reason = some in_use })
        else do
          rc ← ask H (λ w. H.remove w (image_key repo tag))
          note H (removed repo tag rc)
          set_fields H (image_key repo tag) (λ e. pruned_fields rc e)

  -- The loop over the stale tags; `false` is a stop.
  unfoldable pub prune_loop : String → List String → M H Bool
  prune_loop repo [] = pure true
  prune_loop repo (tag ∷ tags) =
      let rest = prune_loop repo tags in
      do stop ← ask H H.is_set; if stop then pure false else (prune_tag repo tag >> rest)

  -- `have - keep_set` in sorted order, if the operator asked for it.
  unfoldable pub prune_phase : ImageSpec → (keep : List String) → Option (List String) → M H Bool
  prune_phase spec keep none = pure false
  prune_phase spec keep (some have) =
      if spec.prune_stale then prune_loop spec.repo (sorted (stale keep have)) else pure true

  unfoldable pub discovery_key : ImageSpec → String
  discovery_key spec = image_key spec.repo "@discovery"

  -- One image specification whose published tags are known.
  unfoldable pub reconcile_tags : Config → ImageSpec → List String → M H Bool
  reconcile_tags cfg spec tags = do
    let keep = select_keep (H.search spec.tag_pattern) tags spec
    discovered ← ask H H.time
    set_fields H (discovery_key spec) (λ e. record e {
      status = some ready;
      reason = some tags_fetched;
      upstream_tag_count = some (length tags);
      keep_tags = some keep;
      last_discovered_at = some discovered;
    })
    have ← ask H (λ w. H.local_tags w spec.repo)
    have' ← tags_loop cfg spec.repo have keep
    prune_phase spec keep have'

  abbrev pub after_fetch : Config → ImageSpec → Option (List String) → M H Bool
  after_fetch cfg spec none = do
    set_fields H (discovery_key spec)
        (λ e. record e { status = some error; reason = some discovery_failed })
    pure true
  after_fetch cfg spec (some tags) = reconcile_tags cfg spec tags

  -- The loop over the image specifications; `false` is a stop.
  unfoldable pub reconcile_once : Config → List ImageSpec → M H Bool
  reconcile_once cfg [] = pure true
  reconcile_once cfg (spec ∷ specs) =
      let rest = reconcile_once cfg specs in
      do
        stop ← ask H H.is_set
        if stop then pure false else do
          tags ← ask H (λ w. H.fetch_tags w spec)
          go ← after_fetch cfg spec tags
          if go then rest else pure false
