-- ===== src/SparkStatus/Report.antt =====
-- The status report, in words or as one JSON object, and its exit code.
pub mod Daemon
use cylon_local_infra.Prelude.{
  ℕ, String, ◌<>◌, Bool, true, false, Option, none, some, List, [], ◌∷◌, ◌++◌, map, if◌then◌else◌,
  string_eq, eqb,
}
use cylon_local_infra.Prelude.Text.{decimal, join}
use cylon_local_infra.Prelude.Effect.{ExitCode, exited, success}
use cylon_local_infra.Prelude.Json.{
  Json, null, text, boolean, number, array, object, Items, nil, item, Fields, end, field,
  items_list, field_of, get_default, truth, only_objects, str, text_or_null,
}
use cylon_local_infra.SparkStatus.Probe.{
  Source, HttpResult, ReportArgs, VllmPart, vllm_skipped, probed, PrefetchPart, prefetch_skipped,
  unread, read, vllm_part, prefetch_part,
}

-- The lines on standard output with the exit code, or a `TypeError`.
pub data Outcome : Type 0 where
  reported : List String → ExitCode → Outcome
  raised : Outcome

-- The members that `for item in v` goes over, as far as they can be dicts: the keys of a dict and the
-- characters of a text are none. A number or `True` cannot be iterated.
abbrev or_empty_list : Json → Option (List Json)
or_empty_list (array xs) = some (items_list xs)
or_empty_list (number false printed) = none
or_empty_list (boolean true) = none
or_empty_list _ = some []

abbrev or_default : List String → String → List String
or_default [] line = line ∷ []
or_default (l ∷ ls) line = l ∷ ls

abbrev show_status : Option ℕ → String
show_status none = "None"
show_status (some n) = decimal n

abbrev show_error : Option String → String
show_error none = "None"
show_error (some e) = e

-- `m.get(a) or m.get(b) or … or "?"`
abbrev first_true : List String → Fields → Json
first_true [] m = text "?"
first_true (name ∷ names) m =
    let v = get_default name null m in if truth v then v else first_true names m

module _ (S : Source) where
  unfoldable pub vllm_rows : List Fields → List String
  vllm_rows [] = []
  vllm_rows (m ∷ rest) =
      let root = get_default "root" (text "") m in
      ("  - "
        <> str S.repr (get_default "id" (text "?") m)
        <> (if truth root then "  (root=" <> str S.repr root <> ")" else ""))
      ∷ vllm_rows rest

  -- `none` is the `TypeError` of a `data` that cannot be iterated.
  unfoldable pub summarize_vllm_models : Fields → Option (List String)
  summarize_vllm_models payload = elim (field_of "data" payload) [
    | none ↦ some ("(no model list in response)" ∷ [])
    | some data_ ↦ elim (or_empty_list data_) [
      | none ↦ none
      | some members ↦ some (or_default (vllm_rows (only_objects members)) "  (empty data[])")
    ]
  ]

  -- `f"{name}={value}"` unless the value is `None`.
  abbrev extra : String → Json → List String
  extra name null = []
  extra name v = (name <> "=" <> str S.repr v) ∷ []

  abbrev with_extra : List String → String
  with_extra [] = ""
  with_extra (e ∷ es) = "  " <> join ", " (e ∷ es)

  unfoldable pub prefetch_line : Fields → String
  prefetch_line m =
      let reason = get_default "reason" (text "") m in
      "  - "
      <> str S.repr (first_true ("id" ∷ "model" ∷ "name" ∷ []) m)
      <> ": "
      <> str S.repr (get_default "status" (text "?") m)
      <> (if truth reason then "  (" <> str S.repr reason <> ")" else "")
      <> with_extra (
          extra "cache_bytes" (get_default "cache_bytes" null m)
          ++ extra "bytes_per_sec" (get_default "bytes_per_sec" null m))

  unfoldable pub prefetch_summary_lines : List Fields → List String
  prefetch_summary_lines models =
      or_default (map prefetch_line models) "  (no models in prefetch state)"

  -- The report in words.
  abbrev or_type_error : (List String → Outcome) → Option (List String) → Outcome
  or_type_error f none = raised
  or_type_error f (some ls) = f ls

  abbrev vllm_error : (url : String) → HttpResult → List String
  vllm_error url hr = ("GET " <> url) ∷ ("  error: " <> show_error hr.error) ∷ []

  abbrev vllm_answer : (url : String) → HttpResult → Bool → Json → Option (List String)
  vllm_answer url hr true (object models) = elim (summarize_vllm_models models) [
    | none ↦ none
    | some rows ↦ some (("GET " <> url <> "  HTTP " <> show_status hr.status_code) ∷ rows)
  ]
  vllm_answer url hr ok body = some (vllm_error url hr)

  unfoldable pub vllm_lines : VllmPart → Option (List String)
  vllm_lines vllm_skipped = some ("(skipped)" ∷ [])
  vllm_lines (probed url hr) = vllm_answer url hr hr.ok hr.body

  abbrev show_hint : Option String → String
  show_hint none = "(skipped)"
  show_hint (some hint) = hint

  unfoldable pub prefetch_lines : (prefetch_path : String) → PrefetchPart → List String
  prefetch_lines path (prefetch_skipped hint) = show_hint hint ∷ []
  prefetch_lines path (unread host error) = (host <> ":" <> path) ∷ ("  error: " <> error) ∷ []
  prefetch_lines path (read host models keys) =
      (host <> ":" <> path) ∷ prefetch_summary_lines models

  -- `skip_vllm or out["vllm"]["ok"]`
  abbrev vllm_ok : VllmPart → Bool
  vllm_ok vllm_skipped = true
  vllm_ok (probed url hr) = hr.ok

  abbrev report_code : VllmPart → ExitCode
  report_code v = if vllm_ok v then success else exited 1

  abbrev report_text : ReportArgs → VllmPart → PrefetchPart → Outcome
  report_text args v p =
      or_type_error
        (λ rows.
          reported
            ("=== vLLM /v1/models ===" ∷ rows
              ++ (""
                  ∷ "=== hf-prefetch state (optional) ==="
                  ∷ prefetch_lines args.prefetch_path p))
            (report_code v))
        (vllm_lines v)

  abbrev code_json : Option ℕ → Json
  code_json none = null
  code_json (some n) = number (eqb n 0) (decimal n)

  abbrev vllm_json : VllmPart → Fields
  vllm_json vllm_skipped = field "skipped" (boolean true) end
  vllm_json (probed url hr) = field "url" (text url) (
      field "ok" (boolean hr.ok) (
        field "status_code" (code_json hr.status_code)
          (field "error" (text_or_null hr.error) (field "models" hr.body end))))

  abbrev objects : List Fields → Items
  objects [] = nil
  objects (m ∷ ms) = item (object m) (objects ms)

  abbrev texts : List String → Items
  texts [] = nil
  texts (t ∷ ts) = item (text t) (texts ts)

  abbrev keys_json : Option (List String) → Json
  keys_json none = null
  keys_json (some ks) = array (texts ks)

  abbrev prefetch_json : (prefetch_path : String) → PrefetchPart → Fields
  prefetch_json path (prefetch_skipped none) = field "skipped" (boolean true) end
  prefetch_json path (prefetch_skipped (some hint)) =
      field "skipped" (boolean true) (field "hint" (text hint) end)
  prefetch_json path (unread host error) =
      field "ok" (boolean false)
        (field "host" (text host) (field "path" (text path) (field "error" (text error) end)))
  prefetch_json path (read host models keys) = field "ok" (boolean true) (
      field "host" (text host) (
        field "path" (text path)
          (field "raw_models" (array (objects models)) (field "state_keys" (keys_json keys) end))))

  unfoldable pub report_json : ReportArgs → VllmPart → PrefetchPart → Fields
  report_json args v p = field "vllm_base" (text args.vllm_base) (
      field "vllm" (object (vllm_json v))
        (field "hf_prefetch" (object (prefetch_json args.prefetch_path p)) end))

  unfoldable pub run_report : ReportArgs → Outcome
  run_report args =
      let v = vllm_part S args in
      let p = prefetch_part S args in
      if args.json_out
      then reported (S.dumps (report_json args v p) ∷ []) (report_code v)
      else report_text args v p
