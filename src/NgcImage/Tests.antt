-- ===== src/NgcImage/Tests.antt =====
-- The theorems at one image with one peer, on a host where every command succeeds.
use mathlib.Core.List.{Perm}
use cylon_local_infra.Prelude.{
  ℕ, ◌+◌, ◌≡◌, ◌⊎◌, refl, Bool, true, false, ◌||◌, none, some, List, [], ◌∷◌, take, drop, select,
  contains, string_eq, nat_eq, IsUnique,
}
use cylon_local_infra.Prelude.Dict.{lookup, insert, erase}
use cylon_local_infra.Prelude.State.{◌>>=◌}
use cylon_local_infra.Prelude.Effect.{success}
use cylon_local_infra.NgcImage.Config.{Config, ImageSpec, SyncTarget}
use cylon_local_infra.NgcImage.Select.{ranked, select_keep}
use cylon_local_infra.NgcImage.Select.Newest.{AllNewer, take-ranked_newest}
use cylon_local_infra.NgcImage.Select.Kept.{select_keep-mem}
use cylon_local_infra.NgcImage.Store.{status_of, get, set}
use cylon_local_infra.NgcImage.Backoff
use cylon_local_infra.NgcImage.Backoff.{BackoffTracker}
use cylon_local_infra.NgcImage.Machine.{Host, Machine, ask, note, set_fields, update_backoff}
use cylon_local_infra.NgcImage.Reconcile.{
  reconcile_tag, reconcile_tags, local_phase, replicate, sync_loop, sync_peer, sync_image_to_peer,
  send_image, record_ready,
}
use cylon_local_infra.NgcImage.Reconcile.Prune.{IsSafe, reconcile_tags-IsSafe}
use cylon_local_infra.NgcImage.Daemon.{Reading, Daemon, turns}
use cylon_local_infra.NgcImage.Daemon.OptIn.{IsOptedOut, NoRemoval, turns-NoRemoval}
use cylon_local_infra.NgcImage.Reconcile.Ended.{IsFinished, reconcile_tag-Ends}

-- The clock counts its readings, `stopped` is the signal flag, and every command succeeds.
abbrev steady : Bool → Host
steady stopped = record {
  World = ℕ;
  time = λ w. (w, w + 1);
  is_set = λ w. (stopped, w);
  fetch_tags = λ w spec. (some ("24.01" ∷ "24.02" ∷ []), w);
  search = λ pattern tag. true;
  local_tags = λ w repo. ("23.12" ∷ [], w);
  used_by_container = λ w key. (false, w);
  pull = λ w key. (success, w + 9);
  remove = λ w key. (success, w);
  local_id = λ w key. (some "sha", w);
  peer_id = λ w target key. (none, w);
  save_load = λ w key target. (success, w);
  save = λ w s. w;
}

abbrev peer : SyncTarget
peer = record { host = "10.0.0.2"; user = "u"; name = none }

abbrev spec : ImageSpec
spec = record {
  repo = "r";
  tag_pattern = "24";
  keep_latest = 1;
  always_keep = "24.01" ∷ [];
  prune_stale = true;
}

abbrev config : Config
config = record {
  images = spec ∷ [];
  sync_targets = peer ∷ [];
  poll_interval_sec = 60;
  startup_delay_sec = 0;
}

abbrev fresh : (stopped : Bool) → Machine (steady stopped)
fresh stopped = record {
  world = 100;
  store = record { images = []; updated_at = 0 };
  backoff = record { failures = []; last_attempt = [] };
  history = [];
}

abbrev calm : Host
calm = steady false

goes_on' : (reconcile_tag calm config true "r:24.02" (fresh false)).0.0 ≡ true
unfolding reconcile_tag local_phase replicate sync_loop sync_peer sync_image_to_peer send_image
    record_ready ◌>>=◌ ask note set_fields update_backoff get set status_of lookup insert erase
    string_eq Backoff.succeed
goes_on' = refl

reconcile_tags-IsSafe_example :
    IsSafe
      (select_keep (calm.search "24") ("24.01" ∷ "24.02" ∷ []) spec)
      (reconcile_tags calm config spec ("24.01" ∷ "24.02" ∷ []) (fresh false)).1.history
reconcile_tags-IsSafe_example =
    reconcile_tags-IsSafe calm config spec ("24.01" ∷ "24.02" ∷ []) (fresh false) refl

reconcile_tag-Ends_example :
    IsFinished calm "r:24.02" (reconcile_tag calm config true "r:24.02" (fresh false)).1
    ⊎ ((Backoff.due (fresh false).backoff "r:24.02" 100 ≡ false)
        × ((reconcile_tag calm config true "r:24.02" (fresh false)).1.store ≡ (fresh false).store))
reconcile_tag-Ends_example = reconcile_tag-Ends calm config true "r:24.02" (fresh false) goes_on'

select_keep-mem_example :
    (contains (select_keep (λ t. true) ("24.01" ∷ "24.02" ∷ []) spec) "24.02" ≡ (
      contains (take 1 (ranked (select (λ t. true) ("24.01" ∷ "24.02" ∷ [])))) "24.02"
      || contains spec.always_keep "24.02"))
    × IsUnique (select_keep (λ t. true) ("24.01" ∷ "24.02" ∷ []) spec)
select_keep-mem_example = select_keep-mem (λ t. true) ("24.01" ∷ "24.02" ∷ []) spec "24.02"

take-ranked_newest_example :
    Perm (ranked ("9.1" ∷ "24.02" ∷ [])) ("9.1" ∷ "24.02" ∷ [])
    × AllNewer (take 1 (ranked ("9.1" ∷ "24.02" ∷ []))) (drop 1 (ranked ("9.1" ∷ "24.02" ∷ [])))
take-ranked_newest_example = take-ranked_newest 1 ("9.1" ∷ "24.02" ∷ [])

abbrev sparing : Config
sparing = record config { images = record spec { prune_stale = false } ∷ [] }

abbrev readings : List Reading
readings =
    record { mtime = none; load = none }
    ∷ record { mtime = some 7; load = some sparing }
    ∷ record { mtime = some 7; load = none }
    ∷ []

abbrev daemon : Daemon calm
daemon = record {
  last_mtime = 0;
  cfg = none;
  first_pass = true;
  last_poll_at = none;
  next_poll_at = none;
  machine = fresh false;
}

opted_out : IsOptedOut sparing
opted_out = (refl, tt)

turns-NoRemoval_example : NoRemoval (turns calm false readings daemon).1.machine.history
turns-NoRemoval_example =
    turns-NoRemoval calm false readings daemon (tt, (opted_out, (tt, tt))) tt tt
