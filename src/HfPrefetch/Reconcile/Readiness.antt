-- ===== src/HfPrefetch/Reconcile/Readiness.antt =====
-- Which steps of a pass can make a model ready: only the end of its sync phase.
use cylon_local_infra.Prelude.{
  ℕ, String, Bool, true, false, Option, none, some, List, [], ◌∷◌, ◌≡◌, ◌≢◌, arith, string_eq,
}
use cylon_local_infra.Prelude.Dict.{lookup-insert_self, lookup-insert_ne}
use cylon_local_infra.Prelude.State.{Keeps, Keeps-bind, keeps_rules}
use cylon_local_infra.Prelude.Effect.{ExitCode}
use cylon_local_infra.HfPrefetch.Config.{Config, ModelEntry, SyncTarget}
use cylon_local_infra.HfPrefetch.Store.{Entry, Store, Reason, get, set, status_of, is_ready}
use cylon_local_infra.HfPrefetch.Machine.{
  Host, Machine, M, time, is_set, check_cache, run, set_fields, update_backoff,
}
use cylon_local_infra.HfPrefetch.Backoff.{BackoffTracker}
use cylon_local_infra.HfPrefetch.Reconcile.{
  heartbeat, report, record_failure, hf_download_run, after_download, finish_download,
  start_download, download_phase, sync_peer, while_synced, sync_loop,
}

-- The status after a write, for the written repository and for another.
pub status_of-set_self :
    (s : Store) (repo : String) (f : Entry → Entry) (now saved : ℕ)
    → status_of (set s repo f now saved) repo ≡ (f (get s repo)).status
unfolding status_of set
status_of-set_self s repo f now saved = grind (arith, lookup-insert_self)

pub status_of-set_ne :
    (s : Store) (r repo : String) (f : Entry → Entry) (now saved : ℕ)
    → r ≢ repo
    → status_of (set s repo f now saved) r ≡ status_of s r
unfolding status_of set
status_of-set_ne s r repo f now saved ne = grind (arith, lookup-insert_ne)

module _ (H : Host) (repo : String) where
  abbrev pub NotReady : Machine H → Type 0
  NotReady m = is_ready (status_of m.store repo) ≡ false

  NotReady-time : Keeps NotReady (time H)
  unfolding time
  NotReady-time = record { at = λ m h. h }

  NotReady-is_set : Keeps NotReady (is_set H)
  unfolding is_set
  NotReady-is_set = record { at = λ m h. h }

  NotReady-check : (hub_dir r : String) → Keeps NotReady (check_cache H hub_dir r)
  unfolding check_cache
  NotReady-check hub_dir r = record { at = λ m h. h }

  NotReady-run : (argv : List String) → Keeps NotReady (run H argv)
  unfolding run
  NotReady-run argv = record { at = λ m h. h }

  NotReady-backoff : (f : BackoffTracker → BackoffTracker) → Keeps NotReady (update_backoff H f)
  unfolding update_backoff
  NotReady-backoff f = record { at = λ m h. h }

  NotReady-set :
      (f : Entry → Entry)
      → ((e : Entry) → is_ready e.status ≡ false → is_ready (f e).status ≡ false)
      → Keeps NotReady (set_fields H repo f)
  unfolding set_fields status_of
  NotReady-set f keep = record { at = λ m h. rw (status_of-set_self m.store repo f _ _) (keep _ h) }

  ruleset steps = (
    keeps_rules, NotReady-time, NotReady-is_set, NotReady-check, NotReady-run, NotReady-backoff,
    NotReady-set,
  )

  NotReady-report : (last : Option ℕ) (cur : ℕ) → Keeps NotReady (report H repo last cur)
  unfolding report
  NotReady-report last cur = search steps

  NotReady-heartbeat :
      (sizes : List (Option ℕ)) (last : Option ℕ) → Keeps NotReady (heartbeat H repo last sizes)
  unfolding heartbeat
  NotReady-heartbeat [] last = search steps
  NotReady-heartbeat (none ∷ sizes) last = NotReady-heartbeat sizes last
  NotReady-heartbeat (some cur ∷ sizes) last =
      Keeps-bind _ _ (NotReady-report last cur) (λ _. NotReady-heartbeat sizes (some cur))

  NotReady-failure : (now : ℕ) (why : Reason) → Keeps NotReady (record_failure H repo now why)
  unfolding record_failure
  NotReady-failure now why = search steps

  NotReady-after_download :
      (hub_dir : String) (now : ℕ) (rc : ExitCode)
      → Keeps NotReady (after_download H hub_dir repo now rc)
  unfolding after_download
  NotReady-after_download hub_dir now rc = search (steps, NotReady-failure) depth 8

  NotReady-sync_peer :
      (hub_dir : String) (now : ℕ) (t : SyncTarget)
      → Keeps NotReady (sync_peer H hub_dir repo now t)
  unfolding sync_peer
  NotReady-sync_peer hub_dir now t = search (steps, NotReady-failure) depth 12

  NotReady-while_synced :
      (rest : M H (Option Bool)) (o : Option Bool)
      → Keeps NotReady rest
      → Keeps NotReady (while_synced H rest o)
  NotReady-while_synced rest none h = search steps
  NotReady-while_synced rest (some false) h = search steps
  NotReady-while_synced rest (some true) h = h

  pub NotReady-sync_loop :
      (hub_dir : String) (now : ℕ) (targets : List SyncTarget)
      → Keeps NotReady (sync_loop H hub_dir repo now targets)
  unfolding sync_loop
  NotReady-sync_loop hub_dir now [] = search steps
  NotReady-sync_loop hub_dir now (t ∷ ts) =
      Keeps-bind _ _ (NotReady-sync_peer hub_dir now t)
        (λ o. NotReady-while_synced _ o (NotReady-sync_loop hub_dir now ts))

module _ (H : Host) (cfg : Config) (e : ModelEntry) where
  NotReady-download_run :
      (hub_dir : String) → Keeps (NotReady H e.repo) (hf_download_run H cfg e hub_dir)
  unfolding hf_download_run
  NotReady-download_run hub_dir = search (steps, NotReady-heartbeat) depth 12

  NotReady-finish_download :
      (hub_dir : String) (now : ℕ) (rc : ExitCode)
      → Keeps (NotReady H e.repo) (finish_download H hub_dir e.repo now rc)
  unfolding finish_download
  NotReady-finish_download hub_dir now rc = search (steps, NotReady-after_download)

  NotReady-start_download :
      (hub_dir : String) (now : ℕ) → Keeps (NotReady H e.repo) (start_download H cfg e hub_dir now)
  unfolding start_download
  NotReady-start_download hub_dir now =
      search (steps, NotReady-download_run, NotReady-finish_download) depth 12

  pub NotReady-download_phase :
      (hub_dir : String) (now : ℕ) → Keeps (NotReady H e.repo) (download_phase H cfg e hub_dir now)
  unfolding download_phase
  NotReady-download_phase hub_dir now = search (steps, NotReady-start_download)
