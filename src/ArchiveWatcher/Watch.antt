-- ===== src/ArchiveWatcher/Watch.antt =====
-- `archive_candidate` and `run_watcher`. Every step may raise, which ends the run; the state file is
-- written before the local copy is removed.
pub mod Verified
pub mod Ordered
use cylon_local_infra.Prelude.{
  ℕ, ◌+◌, ◌*◌, ◌^◌, String, ◌<>◌, Bool, true, false, ◌&&◌, ◌||◌, not, Option, none, some, List, [],
  ◌∷◌, if◌then◌else◌, ltb, string_eq,
}
use cylon_local_infra.Prelude.Text.{has_part}
use cylon_local_infra.Prelude.Dict.{Dict, lookup, insert}
use cylon_local_infra.Prelude.State.{State, pure, gets, ◌>>=◌}
use cylon_local_infra.Prelude.Effect.{Argv}
use cylon_local_infra.ArchiveWatcher.Classify.{
  Precision, fp8, fp16, nvfp4, precision_eq, precision_text, Candidate, Model,
  classify_backstop_model, rank_candidates, candidate_for_precision,
}

-- One value of `state["archived"]`.
pub record Archived : Type 0 where
  pub repo_id : String
  pub sha : String
  pub bucket : String

-- A step of an archive that succeeded, for a candidate.
pub data Event : Type 0 where
  downloaded copied verified saved removed : Candidate → Event

-- The command lines of the tools, and what they and the disk answer. `none` is an exception. The
-- answers may depend on all the steps before.
pub record Host : Type 0 where
  -- `hf download --dry-run` and `parse_download_size`; the inner `none` is its `ValueError`.
  pub dry_run : List Event → Candidate → Option (Option ℕ)
  pub free_bytes : List Event → ℕ
  -- `hf download`, `gcloud storage rsync`, and the dry run of it that `_verify_bucket` reads.
  pub download : List Event → Candidate → Bool
  pub copy : List Event → Candidate → Bool
  pub verify : List Event → Candidate → Option String
  -- `_save_state`, which leaves the old file when it raises.
  pub save : List Event → Bool
  -- The resolved path lies below the root of the archive, and `rmtree` succeeds.
  pub is_below_root : Candidate → Bool
  pub rmtree : List Event → Candidate → Bool

-- `archived` is `state["archived"]` in memory, which the file holds since the last `saved`.
pub record Run : Type 0 where
  pub archived : Dict Precision Archived
  pub history : List Event

abbrev pub M : Type 0 → Type 0
M = State Run

pub data Flow : Type 0 where
  goes_on raises : Flow

abbrev min_free_reserve : ℕ
min_free_reserve = 20 * 1024 ^ 3

-- `_bucket_path`, for a bucket.
unfoldable pub bucket_path : (bucket : String) → Candidate → String
bucket_path bucket c = "gs://" <> bucket <> "/models/" <> c.repo_id <> "/" <> c.sha

-- `required_bytes and required_bytes + MIN_FREE_RESERVE > free_bytes`; a size that cannot be read is 0.
unfoldable pub is_too_big : Option ℕ → (free : ℕ) → Bool
is_too_big none free = false
is_too_big (some required) free = ltb 0 required && ltb free (required + min_free_reserve)

-- `_verify_bucket`: the output of the dry run names nothing that is still to do.
unfoldable pub is_clean : Option String → Bool
is_clean none = false
is_clean (some output) = not (has_part "Would copy " output || has_part "Would delete " output)

module _ (H : Host) (bucket : String) where
  abbrev pub and_then : M Flow → Flow → M Flow
  and_then next goes_on = next
  and_then next raises = pure raises

  -- A step that is noted when it succeeds.
  unfoldable pub step : (List Event → Bool) → Event → M Flow
  step answer event run =
      if answer run.history
      then (goes_on, record run { history = event ∷ run.history })
      else (raises, run)

  -- The dry run and the guard on the free space.
  abbrev check_size : Option (Option ℕ) → M Flow
  check_size none run = (raises, run)
  check_size (some size) run =
      (if is_too_big size (H.free_bytes run.history) then raises else goes_on, run)

  unfoldable pub check_space : Candidate → M Flow
  check_space c run = check_size (H.dry_run run.history c) run

  abbrev pub entry_of : Candidate → Archived
  entry_of c = record { repo_id = c.repo_id; sha = c.sha; bucket = bucket_path bucket c }

  -- The entry is made in memory, then the file is written beside the old one and renamed over it.
  unfoldable pub save_entry : Candidate → M Flow
  save_entry c run =
      let entered = record run { archived = insert c.precision (entry_of c) run.archived } in
      if H.save run.history
      then (goes_on, record entered { history = saved c ∷ run.history })
      else (raises, entered)

  -- The local copy goes, unless its path is unsafe.
  unfoldable pub remove_local : Candidate → M Flow
  remove_local c = if H.is_below_root c then step (λ h. H.rmtree h c) (removed c) else pure raises

  unfoldable pub archive_candidate : Candidate → M Flow
  archive_candidate c =
      check_space c
      >>= and_then (
          step (λ h. H.download h c) (downloaded c)
          >>= and_then (
              step (λ h. H.copy h c) (copied c)
              >>= and_then (
                  step (λ h. is_clean (H.verify h c)) (verified c)
                  >>= and_then (save_entry c >>= and_then (remove_local c)))))

  -- The first backstop among the models.
  unfoldable pub first_backstop : List Model → Option Candidate
  first_backstop [] = none
  first_backstop (m ∷ ms) =
      let rest = first_backstop ms in
      elim (classify_backstop_model m) [ none ↦ rest | some c ↦ some c ]

  abbrev archive_some : Option Candidate → M Flow
  archive_some none = pure goes_on
  archive_some (some c) = archive_candidate c

  abbrev pub is_archived : Precision → Run → Bool
  is_archived p run = elim (lookup p run.archived) [ none ↦ false | some _ ↦ true ]

  unfoldable pub archive_backstop : List Model → M Flow
  archive_backstop models = do
    done ← gets (is_archived nvfp4)
    if done then pure goes_on else archive_some (first_backstop models)

  -- The loop over `PRECISION_ORDER`. A precision without a candidate ends the run.
  abbrev archive_next : M Flow → Option Candidate → M Flow
  archive_next rest none = pure goes_on
  archive_next rest (some c) = archive_candidate c >>= and_then rest

  unfoldable pub archive_in_order : List Candidate → List Precision → M Flow
  archive_in_order candidates [] = pure goes_on
  archive_in_order candidates (p ∷ ps) =
      let rest = archive_in_order candidates ps in
      do
        done ← gets (is_archived p)
        if done then rest else archive_next rest (candidate_for_precision candidates p)

  -- What `run_watcher` does behind the lock, with the models that were discovered.
  unfoldable pub run_watcher : List Model → M Flow
  run_watcher models =
      archive_backstop models
      >>= and_then (archive_in_order (rank_candidates models) (fp8 ∷ fp16 ∷ []))

  -- `run_watcher`: while another run holds the lock, it does nothing.
  unfoldable pub run_locked : (is_free : Bool) → List Model → M Flow
  run_locked true models = run_watcher models
  run_locked false models = pure goes_on
