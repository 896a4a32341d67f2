-- ===== src/HfPrefetch/Store.antt =====
-- `StateStore`: the entries of the state file by repository. The status strings are constructors.
use cylon_local_infra.Prelude.{
  ℕ, ◌+◌, String, Bool, true, false, Option, none, some, List, [], ◌∷◌, all, string_eq, Eq,
}
use cylon_local_infra.Prelude.Dict.{Dict, values, lookup, insert, erase}
use cylon_local_infra.HfPrefetch.Cache.{CacheReason}
use cylon_local_infra.Prelude.Effect.{ExitCode}
use cylon_local_infra.Prelude.Int.{ℤ}

pub data Status : Type 0 where
  unknown downloading syncing ready error : Status

status_discrete : Discrete Status
status_discrete = hlevel

instance unfoldable pub status_eq : Eq Status
unfolding status_discrete
status_eq = record { dec = status_discrete }

-- The `reason` messages, by their form and what they print.
pub data Reason : Type 0 where
  hf_download : (resume : Bool) → Reason
  download_failed : ExitCode → Reason
  cache_invalid : CacheReason → Reason
  cached_no_targets cached_and_synced : Reason
  rsync_running : (peer : String) → Reason
  rsync_failed : (peer : String) → ExitCode → Reason

-- One value of `data["models"]`; a field is `none` while its key is missing or null.
pub record Entry : Type 0 where
  pub status : Option Status
  pub reason : Option Reason
  pub cache_bytes : Option ℕ
  pub image : Option String
  pub bytes_per_sec : Option ℤ
  pub failures : Option ℕ
  pub updated_at : Option ℕ

abbrev pub empty_entry : Entry
empty_entry = record {
  status = none;
  reason = none;
  cache_bytes = none;
  image = none;
  bytes_per_sec = none;
  failures = none;
  updated_at = none;
}

pub record Store : Type 0 where
  pub models : Dict String Entry
  pub updated_at : ℕ

abbrev pub or_empty : Option Entry → Entry
or_empty none = empty_entry
or_empty (some e) = e

-- `get(repo)`: the missing entry is `{}`.
unfoldable pub get : Store → String → Entry
get s repo = or_empty (lookup repo s.models)

-- `get(repo).get("status")`
unfoldable pub status_of : Store → String → Option Status
unfolding get
status_of s repo = (get s repo).status

-- `set(repo, **fields)`: the fields are an update; the two clock readings stamp entry and file.
unfoldable pub set : Store → String → (Entry → Entry) → (now saved : ℕ) → Store
unfolding get
set s repo fields now saved = record {
  models = insert repo (record (fields (get s repo)) { updated_at = some now }) s.models;
  updated_at = saved;
}

-- `drop(repo)` writes the file only if the entry is there.
unfoldable pub drop : Store → String → (saved : ℕ) → Store
drop s repo saved = elim (lookup repo s.models) [
  | none ↦ s
  | some _ ↦ record { models = erase repo s.models; updated_at = saved }
]

abbrev pub is_ready : Option Status → Bool
is_ready (some ready) = true
is_ready _ = false

unfoldable pub all_ready : Store → List String → Bool
unfolding status_of
all_ready s repos = all (λ r. is_ready (status_of s r)) repos

-- `m.get("status", STATE_UNKNOWN)`
abbrev pub status_or_unknown : Entry → Status
status_or_unknown e = elim e.status [ none ↦ unknown | some s ↦ s ]

-- `counts[s] = counts.get(s, 0) + 1`
abbrev bump : Dict Status ℕ → Status → Dict Status ℕ
bump counts s = insert s (elim (lookup s counts) [ none ↦ 0 | some n ↦ n ] + 1) counts

unfoldable pub summary_from : Dict Status ℕ → List Entry → Dict Status ℕ
summary_from counts [] = counts
summary_from counts (m ∷ rest) = summary_from (bump counts (status_or_unknown m)) rest

unfoldable pub summary : Store → Dict Status ℕ
unfolding summary_from
summary s = summary_from [] (values s.models)
