-- ===== src/NgcImage/Store.antt =====
-- `StateStore`: the entries of the state file by `<repo>:<tag>`. The status strings are constructors.
use cylon_local_infra.Prelude.{ℕ, String, Bool, true, false, Option, none, some, List, string_eq}
use cylon_local_infra.Prelude.Dict.{Dict, lookup, insert, erase}
use cylon_local_infra.Prelude.Effect.{ExitCode}

pub data Status : Type 0 where
  unknown pulling syncing ready error pruned : Status

-- The `reason` messages, by their form and what they print.
pub data Reason : Type 0 where
  discovery_failed tags_fetched already_local docker_pull : Reason
  pull_failed : ExitCode → Reason
  saving_to : (peer : String) → Reason
  load_failed : (peer : String) → ExitCode → Reason
  on_all_nodes present_locally in_use pruned_locally : Reason
  rm_failed : ExitCode → Reason

-- One value of `data["images"]`; a field is `none` while its key is missing.
pub record Entry : Type 0 where
  pub status : Option Status
  pub reason : Option Reason
  pub failures : Option ℕ
  pub upstream_tag_count : Option ℕ
  pub keep_tags : Option (List String)
  pub last_discovered_at : Option ℕ
  pub updated_at : Option ℕ

abbrev pub empty_entry : Entry
empty_entry = record {
  status = none;
  reason = none;
  failures = none;
  upstream_tag_count = none;
  keep_tags = none;
  last_discovered_at = none;
  updated_at = none;
}

-- `data["images"]` and `data["updated_at"]`.
pub record Store : Type 0 where
  pub images : Dict String Entry
  pub updated_at : ℕ

abbrev or_empty : Option Entry → Entry
or_empty none = empty_entry
or_empty (some e) = e

-- `get(key)`: the missing entry is `{}`.
unfoldable pub get : Store → String → Entry
get s key = or_empty (lookup key s.images)

-- `get(key).get("status")`
unfoldable pub status_of : Store → String → Option Status
status_of s key = (get s key).status

-- `set(key, **fields)`: the fields are an update; the two clock readings stamp entry and file.
unfoldable pub set : Store → String → (Entry → Entry) → (now saved : ℕ) → Store
set s key fields now saved = record {
  images = insert key (record (fields (get s key)) { updated_at = some now }) s.images;
  updated_at = saved;
}

abbrev pub is_ready : Option Status → Bool
is_ready (some ready) = true
is_ready _ = false

-- `drop(key)` writes the file only if the entry is there.
unfoldable pub drop : Store → String → (saved : ℕ) → Store
drop s key saved = elim (lookup key s.images) [
  | none ↦ s
  | some _ ↦ record { images = erase key s.images; updated_at = saved }
]
