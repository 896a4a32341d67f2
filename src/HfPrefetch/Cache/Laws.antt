-- ===== src/HfPrefetch/Cache/Laws.antt =====
-- `cache_status` against an independent description of a complete cache.
use cylon_local_infra.Prelude.{
  String, Bool, true, false, ◌&&◌, not, Option, none, some, List, [], ◌∷◌, ◌≡◌, refl, arith, select,
  find, any,
}
use cylon_local_infra.Prelude.Text.{ends_with}
use cylon_local_infra.HfPrefetch.Cache.{
  Snapshot, RepoDir, cache_status, incomplete_blob_of, dirs_status, snapshot_status,
}

abbrev any_in {ℓ} : {A : Type ℓ} → (A → Bool) → Option (List A) → Bool
any_in p none = false
any_in p (some xs) = any p xs

-- No blob is being streamed, and some snapshot directory has its `config.json`.
abbrev pub is_complete : Option RepoDir → Bool
is_complete none = false
is_complete (some d) =
    not (any_in (λ name. ends_with name ".incomplete") d.blobs)
    && any_in (λ (s : Snapshot). s.is_dir && s.has_config) d.snapshots

any-eq-find {ℓ} :
    {A : Type ℓ} (p : A → Bool) (xs : List A)
    → any p xs ≡ elim (find p xs) [ none ↦ false | some _ ↦ true ]
any-eq-find p [] = refl
any-eq-find p (x ∷ xs) = ground (arith, any-eq-find p xs)

any-select {ℓ} :
    {A : Type ℓ} (p q : A → Bool) (xs : List A) → any (λ x. p x && q x) xs ≡ any q (select p xs)
any-select p q [] = refl
any-select p q (x ∷ xs) = ground (arith, any-select p q xs)

by_dirs : (dirs : List Snapshot) → (dirs_status dirs).0 ≡ any (λ (s : Snapshot). s.has_config) dirs
unfolding dirs_status
by_dirs [] = refl
by_dirs (s ∷ rest) = ground (arith, any-eq-find (λ (s : Snapshot). s.has_config) (s ∷ rest))

snapshot_status-eq :
    (o : Option (List Snapshot))
    → (snapshot_status o).0 ≡ any_in (λ (s : Snapshot). s.is_dir && s.has_config) o
unfolding snapshot_status
snapshot_status-eq none = refl
snapshot_status-eq (some xs) =
    rw (any-select (λ (s : Snapshot). s.is_dir) (λ (s : Snapshot). s.has_config) xs)
      (by_dirs (select (λ (s : Snapshot). s.is_dir) xs))

incomplete_blob_of-any :
    (o : Option (List String))
    → any_in (λ name. ends_with name ".incomplete") o
      ≡ elim (incomplete_blob_of o) [ none ↦ false | some _ ↦ true ]
unfolding incomplete_blob_of
incomplete_blob_of-any none = refl
incomplete_blob_of-any (some xs) = any-eq-find (λ name. ends_with name ".incomplete") xs

-- The cache of a repository counts as complete exactly when its directory is there, no blob's name
-- ends in `.incomplete`, and some directory below `snapshots` has a `config.json`.
pub cache_status-eq-is_complete : (o : Option RepoDir) → (cache_status o).0 ≡ is_complete o
unfolding cache_status
cache_status-eq-is_complete none = refl
cache_status-eq-is_complete (some d) =
    rw (← snapshot_status-eq d.snapshots) (ground (arith, incomplete_blob_of-any d.blobs))
