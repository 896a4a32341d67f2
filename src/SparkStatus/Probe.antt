-- ===== src/SparkStatus/Probe.antt =====
-- What a status report reads: the models that the vLLM server lists, and the state of the prefetch
-- daemon on the leader, over ssh.
use cylon_local_infra.Prelude.{
  ℕ, String, ◌<>◌, Bool, true, false, ◌||◌, Option, none, some, List, [], ◌∷◌, if◌then◌else◌, ◌==◌,
  string_eq, ◌⊎◌, inl, inr,
}
use cylon_local_infra.Prelude.Text.{rstrip, strip, is_slash, is_space, take_chars, decimal}
use cylon_local_infra.Prelude.Effect.{ExitCode, exited, killed, succeeded, Argv}
use cylon_local_infra.Prelude.Json.{
  Json, null, array, object, Fields, items_list, field_names, field_of, only_objects,
}

-- What `urlopen` comes to: an answer, an `HTTPError`, whose body may not be readable, or another
-- exception with its message.
pub data Fetched : Type 0 where
  answered : (code : ℕ) → (raw : String) → Fetched
  http_error : (code : ℕ) → (raw : Option String) → Fetched
  refused : (message : String) → Fetched

-- What `subprocess.run` with captured output comes to.
pub data Captured : Type 0 where
  completed : (returncode : ExitCode) → (out err : String) → Captured
  timed_out : (message : String) → Captured
  not_found : Captured

-- The calls of a report, in the world as it is. `loads` has no result for a text that is not JSON,
-- for which `decode_error` is the message; `repr` and `dumps` print a value.
pub record Source : Type 0 where
  pub fetch : (url : String) → Fetched
  pub capture : Argv → Captured
  pub loads : String → Option Json
  pub decode_error : String → String
  pub repr : Json → String
  pub repr_text : String → String
  pub dumps : Fields → String

pub record HttpResult : Type 0 where
  pub ok : Bool
  pub status_code : Option ℕ
  pub body : Json
  pub error : Option String

pub record ReportArgs : Type 0 where
  pub vllm_base : String
  pub skip_vllm : Bool
  pub ssh_host : Option String
  pub prefetch_path : String
  pub skip_prefetch : Bool
  pub json_out : Bool

-- `out["vllm"]` and `out["hf_prefetch"]`.
pub data VllmPart : Type 0 where
  vllm_skipped : VllmPart
  probed : (url : String) → HttpResult → VllmPart

pub data PrefetchPart : Type 0 where
  prefetch_skipped : (hint : Option String) → PrefetchPart
  unread : (host error : String) → PrefetchPart
  read : (host : String) → List Fields → (state_keys : Option (List String)) → PrefetchPart

unfoldable pub vllm_models_url : String → String
vllm_models_url base = rstrip is_slash base <> "/v1/models"

-- `json.loads(raw or "null")`
abbrev pub or_null : String → String
or_null raw = if raw == "" then "null" else raw

unfoldable pub normalize_prefetch_models : Json → List Fields
normalize_prefetch_models (array xs) = only_objects (items_list xs)
normalize_prefetch_models (object fs) = elim (field_of "models" fs) [
  | some (array xs) ↦ only_objects (items_list xs)
  | _ ↦ []
]
normalize_prefetch_models _ = []

abbrev state_keys_of : Json → Option (List String)
state_keys_of (object fs) = some (field_names fs)
state_keys_of _ = none

abbrev show_code : ExitCode → String
show_code (exited n) = decimal n
show_code (killed n) = "-" <> decimal n

unfoldable pub ssh_cat_argv : (host remote_path : String) → Argv
ssh_cat_argv host path =
    "ssh" ∷ "-o" ∷ "BatchMode=yes" ∷ "-o" ∷ "ConnectTimeout=10" ∷ host ∷ "sudo" ∷ "cat" ∷ path ∷ []

module _ (S : Source) where
  unfoldable pub fetched_result : Fetched → HttpResult
  fetched_result (answered code raw) = elim (S.loads raw) [
    | some body ↦ record { ok = true; status_code = some code; body = body; error = none }
    | none ↦ record {
      ok = false;
      status_code = some code;
      body = null;
      error = some ("non-JSON body (first 200 chars): " <> S.repr_text (take_chars 200 raw));
    }
  ]
  fetched_result (http_error code raw) =
      let shown : String = elim raw [ none ↦ "" | some r ↦ r ] in
      record {
        ok = false;
        status_code = some code;
        body = null;
        error = some ("HTTP " <> decimal code <> ": " <> take_chars 300 shown);
      }
  fetched_result (refused message) = record {
    ok = false;
    status_code = none;
    body = null;
    error = some message;
  }

  unfoldable pub fetch_json : String → HttpResult
  fetch_json url = fetched_result (S.fetch url)

  -- The text of the file, or the error.
  unfoldable pub ssh_cat_result : Captured → String ⊎ String
  ssh_cat_result (completed rc out err) =
      let shown = take_chars 500 (strip is_space (if err == "" then out else err)) in
      if succeeded rc then inl out else inr ("ssh exit " <> show_code rc <> ": " <> shown)
  ssh_cat_result (timed_out message) = inr ("ssh timed out: " <> message)
  ssh_cat_result not_found = inr "ssh not found on PATH"

  abbrev pub ssh_cat_remote_file : (host remote_path : String) → String ⊎ String
  ssh_cat_remote_file host path = ssh_cat_result (S.capture (ssh_cat_argv host path))

  unfoldable pub vllm_part : ReportArgs → VllmPart
  vllm_part args =
      let url = vllm_models_url args.vllm_base in
      if args.skip_vllm then vllm_skipped else probed url (fetch_json url)

  abbrev pub prefetch_loaded : (host raw : String) → Option Json → PrefetchPart
  prefetch_loaded host raw none = unread host ("invalid JSON: " <> S.decode_error (or_null raw))
  prefetch_loaded host raw (some state) =
      read host (normalize_prefetch_models state) (state_keys_of state)

  unfoldable pub prefetch_of_text : (host raw : String) → PrefetchPart
  prefetch_of_text host raw = prefetch_loaded host raw (S.loads (or_null raw))

  abbrev pub read_prefetch : (host : String) → String ⊎ String → PrefetchPart
  read_prefetch host (inr error) = unread host error
  read_prefetch host (inl raw) = prefetch_of_text host raw

  abbrev no_host : Bool → PrefetchPart
  no_host true = prefetch_skipped none
  no_host false = prefetch_skipped (some "pass --ssh-host to read remote prefetch state")

  abbrev prefetch_at : ReportArgs → Option String → PrefetchPart
  prefetch_at args none = no_host args.skip_prefetch
  prefetch_at args (some host) =
      if args.skip_prefetch || host == ""
      then no_host args.skip_prefetch
      else read_prefetch host (ssh_cat_remote_file host args.prefetch_path)

  unfoldable pub prefetch_part : ReportArgs → PrefetchPart
  prefetch_part args = prefetch_at args args.ssh_host
