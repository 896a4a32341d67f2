-- ===== src/HfPrefetch/Reconcile/Transitions.antt =====
-- The state machine of a model, from the docstring of the module, as a step relation, and the trail
-- of the statuses that a host sees in the state files that are written.
mod Triples
pub mod Followed
use cylon_local_infra.Prelude.{String, Bool, true, false, Option, none, some, List, [], ◌∷◌, ◌≡◌}
use cylon_local_infra.Prelude.Effect.{ExitCode}
use cylon_local_infra.HfPrefetch.Store.{
  Status, downloading, syncing, ready, error, Store, status_of, is_ready,
}
use cylon_local_infra.HfPrefetch.Machine.{Host, Machine}

-- One write of the state file; `none` is a model that the file does not know. A download may begin in
-- every status, also in `ready` for a cache that is gone. What is not ready may sync, or is ready at
-- once when there is no peer. Only a download or a sync can fail.
infix 40 ◌⟶◌
pub data ◌⟶◌ : Option Status → Option Status → Type 0 where
  stay : {s : Option Status} → s ⟶ s
  download : {s : Option Status} → s ⟶ some downloading
  sync : {s : Option Status} → is_ready s ≡ false → s ⟶ some syncing
  finish : {s : Option Status} → is_ready s ≡ false → s ⟶ some ready
  fail_download : some downloading ⟶ some error
  fail_sync : some syncing ⟶ some error

-- From one status and the statuses written so far to others, each write being a step. The newest
-- stands first.
pub data Trail (s : Option Status) (h : List (Option Status))
    : Option Status → List (Option Status) → Type 0 where
  here : Trail s h s h
  onward :
      {t u : Option Status} {h' : List (Option Status)}
      → Trail s h t h'
      → t ⟶ u
      → Trail s h u (u ∷ h')

-- A host that also notes the status of a repository in every state file that is written.
abbrev pub traced : (repo : String) → Host → Host
traced repo H = record {
  World = H.World × List (Option Status);
  time = λ w. let (t, w') = H.time w.0 in (t, (w', w.1));
  is_set = λ w. let (b, w') = H.is_set w.0 in (b, (w', w.1));
  scan = λ w. H.scan w.0;
  size = λ w. H.size w.0;
  run = λ w argv. let (rc, sizes, w') = H.run w.0 argv in (rc, sizes, (w', w.1));
  save = λ w s. (H.save w.0 s, status_of s repo ∷ w.1);
}
