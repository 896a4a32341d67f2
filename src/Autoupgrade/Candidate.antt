-- ===== src/Autoupgrade/Candidate.antt =====
-- `find_candidate`: the tag to move to, from the state file of the image daemon.
pub mod Newest
use cylon_local_infra.Prelude.{
  ℕ, String, ◌<>◌, Bool, true, false, ◌&&◌, ◌||◌, not, Option, none, some, List, [], ◌∷◌,
  if◌then◌else◌, ◌==◌, string_eq, length,
}
use cylon_local_infra.Prelude.Dict.{Dict}
use cylon_local_infra.Prelude.Text.{starts_with, drop_chars, codes}
use cylon_local_infra.NgcImage.Version.{version_key, tuple_lt}
use cylon_local_infra.NgcImage.Store as NgcStore
use cylon_local_infra.NgcImage.Store.{Store, Entry, is_ready}
use cylon_local_infra.Autoupgrade.Config.{Config}

-- `_tag_key` is the version key of the image daemon.
unfoldable pub tag_key : String → List ℕ
tag_key = version_key

-- A tag, and when the image daemon last touched its entry.
abbrev pub Found : Type 0
Found = String × ℕ

abbrev or_zero : Option ℕ → ℕ
or_zero none = 0
or_zero (some n) = n

module _ (matches : (pattern tag : String) → Bool) (cfg : Config) where
  abbrev prefix : String
  prefix = cfg.repo <> ":"

  -- The guards of the loop, on the key and its entry.
  unfoldable pub is_eligible : String → Entry → Bool
  is_eligible key e =
      let tag = drop_chars (length (codes prefix)) key in
      starts_with key prefix
      && (not (starts_with tag "@") && (matches cfg.tag_pattern tag && is_ready e.status))

  unfoldable pub found_in : String → Entry → Found
  found_in key e = (drop_chars (length (codes prefix)) key, or_zero e.updated_at)

  abbrev pub newer : Option Found → Found → Option Found
  newer none f = some f
  newer (some best) f = if tuple_lt (tag_key best.0) (tag_key f.0) then some f else some best

  unfoldable pub best_of : Option Found → Dict String Entry → Option Found
  best_of best [] = best
  best_of best ((key, e) ∷ rest) =
      let next = best_of (newer best (found_in key e)) rest in
      let same = best_of best rest in if is_eligible key e then next else same

  -- `none` is a file that is not there or does not parse.
  abbrev best_in : Option Store → Option Found
  best_in none = none
  best_in (some s) = best_of none s.images

  abbrev pub pin_or : Option String → Option Found → Option Found
  pin_or none found = found
  pin_or (some tag) found = if tag == "" then found else some (tag, 0)

  unfoldable pub find_candidate : Option Store → Option Found
  find_candidate file = pin_or cfg.pinned_tag (best_in file)
