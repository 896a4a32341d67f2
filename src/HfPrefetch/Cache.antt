-- ===== src/HfPrefetch/Cache.antt =====
-- `cache_status`: when the local cache of a repository counts as complete.
pub mod Laws
use cylon_local_infra.Prelude.{
  String, ◌<>◌, Bool, true, false, Option, none, some, List, [], ◌∷◌, select, find, any,
}
use cylon_local_infra.Prelude.Text.{replace_char, take_chars, ends_with}

unfoldable pub repo_to_cache_dirname : String → String
repo_to_cache_dirname repo = "models--" <> replace_char b'/' "--" repo

-- A child of `snapshots`, and whether `config.json` exists below it.
pub record Snapshot : Type 0 where
  pub name : String
  pub is_dir : Bool
  pub has_config : Bool

-- What the checks read below the directory of a repository; `none` is a directory not there.
pub record RepoDir : Type 0 where
  pub blobs : Option (List String)
  pub snapshots : Option (List Snapshot)

-- The second component of the result, by its form.
pub data CacheReason : Type 0 where
  no_repo_dir no_snapshots_dir no_snapshot_directories no_config : CacheReason
  incomplete_blob : String → CacheReason
  complete_snapshot : String → CacheReason

abbrev is_incomplete : String → Bool
is_incomplete name = ends_with name ".incomplete"

-- The first blob that is still being streamed.
unfoldable pub incomplete_blob_of : Option (List String) → Option String
incomplete_blob_of none = none
incomplete_blob_of (some names) = find is_incomplete names

-- The tests on the snapshot directories that are there.
unfoldable pub dirs_status : List Snapshot → Bool × CacheReason
dirs_status [] = (false, no_snapshot_directories)
dirs_status (s ∷ rest) = elim (find (λ (s : Snapshot). s.has_config) (s ∷ rest)) [
  | some snap ↦ (true, complete_snapshot (take_chars 8 snap.name))
  | none ↦ (false, no_config)
]

unfoldable pub snapshot_status : Option (List Snapshot) → Bool × CacheReason
snapshot_status none = (false, no_snapshots_dir)
snapshot_status (some snaps) = dirs_status (select (λ (s : Snapshot). s.is_dir) snaps)

unfoldable pub cache_status : Option RepoDir → Bool × CacheReason
cache_status none = (false, no_repo_dir)
cache_status (some d) = elim (incomplete_blob_of d.blobs) [
  | some name ↦ (false, incomplete_blob (take_chars 16 name))
  | none ↦ snapshot_status d.snapshots
]
