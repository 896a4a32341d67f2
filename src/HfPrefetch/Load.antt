-- ===== src/HfPrefetch/Load.antt =====
-- `Config.load` and `ModelEntry.parse`, on the value that the YAML parser gives. `none` is an
-- exception. `repr` prints a list or a mapping, and `to_int` is `int`. The key of a mapping is what
-- `str` prints of it. A `name` is what the label shows of it, and a revision is a text.
use cylon_local_infra.Prelude.{
  ℕ, max, String, false, Option, none, some, List, [], ◌∷◌, map, select, if◌then◌else◌, string_eq,
}
use cylon_local_infra.Prelude.Dict.{Dict, insert}
use cylon_local_infra.Prelude.Int.{ℤ, pos, negsuc}
use cylon_local_infra.Prelude.Json.{
  Json, null, text, number, object, Fields, end, field, field_of, get_default, truth, only_objects,
  str, members, given_text,
}
use cylon_local_infra.HfPrefetch.Config.{Config, ModelEntry, SyncTarget}

abbrev default_hub : String
default_hub = "/home/nvidia/.cache/huggingface/hub"

-- `max(least, n)`
unfoldable pub at_least : (least : ℕ) → ℤ → ℕ
at_least least (pos n) = max least n
at_least least (negsuc n) = least

-- `Path(value)`: only a text is a path.
unfoldable pub path_of : Json → Option String
path_of (text s) = some s
path_of _ = none

-- The result of a chain of parts, of which each may raise.
unfoldable pub and_then : {A B : Type 0} → Option A → (A → Option B) → Option B
and_then none f = none
and_then (some a) f = f a

module _ (repr : Json → String) (to_int : Json → Option ℤ) where
  abbrev str_default : (name default : String) → Fields → String
  str_default name default fs = str repr (get_default name (text default) fs)

  unfoldable pub target_of : Fields → SyncTarget
  target_of t = record {
    host = str repr (get_default "host" null t);
    user = str_default "user" "nvidia" t;
    cache_dir = str_default "cache_dir" default_hub t;
    name = given_text repr (get_default "name" null t);
  }

  -- The targets that are mappings with a host.
  unfoldable pub targets_of : List Json → List SyncTarget
  targets_of ts = map target_of (select (λ t. truth (get_default "host" null t)) (only_objects ts))

  -- `sync_targets` of an entry: a key that is there overrides the default.
  abbrev own_targets : Option Json → Option (Option (List SyncTarget))
  own_targets none = some none
  own_targets (some v) = and_then (members v) (λ ts. some (some (targets_of ts)))

  -- `Path(raw["cache_dir"]) if raw.get("cache_dir") else None`
  abbrev own_cache_dir : Json → Option (Option String)
  own_cache_dir v = if truth v then and_then (path_of v) (λ d. some (some d)) else some none

  abbrev entry_of : Fields → Json → Option ModelEntry
  entry_of raw repo = and_then (own_cache_dir (get_default "cache_dir" null raw)) (λ dir.
      and_then (own_targets (field_of "sync_targets" raw)) (λ targets. some (record {
        repo = str repr repo;
        revision = given_text repr (get_default "revision" null raw);
        cache_dir = dir;
        sync_targets = targets;
      })))

  unfoldable pub parse_entry : Json → Option ModelEntry
  parse_entry (text repo) =
      some (record { repo = repo; revision = none; cache_dir = none; sync_targets = none })
  parse_entry (object raw) = elim (field_of "repo" raw) [
    | none ↦ none
    | some repo ↦ entry_of raw repo
  ]
  parse_entry _ = none

  unfoldable pub parse_entries : List Json → Option (List ModelEntry)
  parse_entries [] = some []
  parse_entries (m ∷ ms) =
      let rest = parse_entries ms in
      and_then (parse_entry m) (λ e. and_then rest (λ es. some (e ∷ es)))

  unfoldable pub env_of : Dict String String → Fields → Dict String String
  env_of env end = env
  env_of env (field k v fs) = env_of (insert k (str repr v) env) fs

  -- `raw.get("hf_env") or {}`, which has to be a mapping.
  abbrev hf_env_of : Json → Option (Dict String String)
  hf_env_of (object fs) = some (env_of [] fs)
  hf_env_of v = if truth v then none else some []

  unfoldable pub config_of : Fields → Option Config
  config_of raw = and_then (path_of (get_default "cache_dir" (text default_hub) raw)) (λ dir.
      and_then (members (get_default "models" null raw)) (λ models.
        and_then (parse_entries models) (λ entries.
          and_then (members (get_default "sync_targets" null raw)) (λ targets.
            and_then (to_int (get_default "poll_interval_sec" (number false "30") raw)) (λ poll.
              and_then (hf_env_of (get_default "hf_env" null raw)) (λ env. some (record {
                cache_dir = dir;
                image = str_default "image" "nvcr.io/nvidia/vllm:26.01-py3" raw;
                models = entries;
                sync_targets = targets_of targets;
                poll_interval_sec = at_least 5 poll;
                hf_env = env;
              })))))))

  -- `yaml.safe_load(f) or {}`; anything but a mapping has no `get`.
  unfoldable pub load : Json → Option Config
  load (object raw) = config_of raw
  load v = if truth v then none else config_of end
