-- ===== src/NgcImage/Select.antt =====
-- `select_keep`: which tags of a repository are wanted. `matches` stands for `re.search` with the
-- pattern of the configuration.
pub mod Newest
pub mod Kept
use cylon_local_infra.Prelude.{
  ℕ, String, Bool, true, List, [], ◌∷◌, ◌++◌, select, take, contains, if◌then◌else◌, string_eq,
}
use cylon_local_infra.NgcImage.Config.{ImageSpec}
use cylon_local_infra.NgcImage.Version.{version_key, tuple_lt}

-- One step of a stable sort by falling key: `x` goes before the first tag whose key is not greater.
unfoldable pub insert_ranked : String → List String → List String
insert_ranked x [] = x ∷ []
insert_ranked x (y ∷ ys) =
    if tuple_lt (version_key x) (version_key y) then y ∷ insert_ranked x ys else x ∷ y ∷ ys

-- `sorted(tags, key=_version_key, reverse=True)`
unfoldable pub ranked : List String → List String
ranked [] = []
ranked (x ∷ xs) = insert_ranked x (ranked xs)

-- `list(dict.fromkeys(tags))`: `seen` holds the keys that are there already.
unfoldable pub unique_from : List String → List String → List String
unique_from seen [] = []
unique_from seen (t ∷ ts) =
    let fresh = t ∷ unique_from (t ∷ seen) ts in
    let old = unique_from seen ts in if contains seen t then old else fresh

unfoldable pub select_keep : (matches : String → Bool) → List String → ImageSpec → List String
select_keep matches tags spec =
    unique_from [] (take spec.keep_latest (ranked (select matches tags)) ++ spec.always_keep)
