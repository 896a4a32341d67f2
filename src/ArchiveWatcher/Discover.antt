-- ===== src/ArchiveWatcher/Discover.antt =====
-- `discover_models`, and how the functions of Classify read the metadata that it finds. `lower` is
-- `str.lower`, `dumps` is `json.dumps` with sorted keys, `repr` prints an array or an object, `loads`
-- parses a text, `to_count` is `int` of a number of parameters, which is not negative, and `hf_bin` is
-- the path `HF_BIN`.
use Prim.Native.Char.{code}
use cylon_local_infra.Prelude.{
  ℕ, String, Bool, ◌&&◌, ◌||◌, Option, none, some, List, [], ◌∷◌, ◌++◌, map, if◌then◌else◌, ◌==◌,
  string_eq, leb,
}
use cylon_local_infra.Prelude.Dict.{Dict, insert, values}
use cylon_local_infra.Prelude.Effect.{Argv}
use cylon_local_infra.Prelude.Json.{
  Json, null, array, object, Fields, end, field, get_default, truth, str, items_list,
}
use cylon_local_infra.ArchiveWatcher.Classify.{Model}

abbrev is_kept : ℕ → Bool
is_kept c = (leb b'a' c && leb c b'z') || (leb b'0' c && leb c b'9')

-- `re.sub(r"[^a-z0-9]+", "", text)`
unfoldable pub keep_plain : String → String
keep_plain String.[] = ""
keep_plain (String.◌∷◌ c s) =
    let rest = keep_plain s in if is_kept (code c) then String.◌∷◌ c rest else rest

abbrev common_query : (hf_bin : String) → Argv
common_query hf_bin =
    hf_bin ∷ "models" ∷ "list" ∷ "--expand=author,sha,tags,config,siblings,safetensors"
    ∷ "--format=json" ∷ []

-- The two calls of `hf models list`.
unfoldable pub queries : (hf_bin : String) → List Argv
queries hf_bin =
    (common_query hf_bin ++ ("--author" ∷ "moonshotai" ∷ "--limit" ∷ "100" ∷ []))
    ∷ (common_query hf_bin ++ ("--search" ∷ "RedHatAI/Kimi-K3-NVFP4" ∷ "--limit" ∷ "10" ∷ []))
    ∷ []

module _ (lower : String → String) (repr : Json → String) (dumps : Fields → String)
    (loads : String → Option Json) (to_count : Json → Option ℕ) where
  unfoldable pub normalize_text : String → String
  normalize_text s = keep_plain (lower s)

  -- `str(model.get(name) or "")`
  abbrev text_or_empty : String → Fields → String
  text_or_empty name model =
      let v = get_default name null model in if truth v then str repr v else ""

  unfoldable pub metadata_text : Fields → String
  metadata_text model =
      let kept = λ (name : String). get_default name null model in
      normalize_text (
        dumps (
          field "id" (kept "id") (
            field "author" (kept "author")
              (field "tags" (kept "tags") (field "config" (kept "config") end)))))

  -- `model.get(name) or {}`, which has to be a mapping.
  abbrev mapping : Json → Option Fields
  mapping (object fs) = some fs
  mapping v = if truth v then none else some end

  unfoldable pub counts_of : Fields → List (String × ℕ)
  counts_of end = []
  counts_of (field name raw rest) = elim (to_count raw) [
    | none ↦ counts_of rest
    | some n ↦ (normalize_text name, n) ∷ counts_of rest
  ]

  -- The counts of `_parameter_totals`; `none` is an exception.
  unfoldable pub parameters_of : Fields → Option (List (String × ℕ))
  parameters_of model = elim (mapping (get_default "safetensors" null model)) [
    | none ↦ none
    | some tensors ↦ elim (mapping (get_default "parameters" null tensors)) [
      | none ↦ none
      | some parameters ↦ some (counts_of parameters)
    ]
  ]

  -- The names of the files; an entry that is no mapping raises.
  unfoldable pub sibling_names : List Json → Option (List String)
  sibling_names [] = some []
  sibling_names (object item ∷ rest) = elim (sibling_names rest) [
    | none ↦ none
    | some names ↦ some (text_or_empty "rfilename" item ∷ names)
  ]
  sibling_names (_ ∷ rest) = none

  -- `model.get("siblings") or []`
  abbrev siblings_of : Json → Option (List String)
  siblings_of (array items) = sibling_names (items_list items)
  siblings_of v = if truth v then none else some []

  -- What the classification reads of a model; `none` is an exception when it reads the files or the
  -- numbers of parameters.
  unfoldable pub read_model : Fields → Option Model
  read_model model = elim (siblings_of (get_default "siblings" null model)) [
    | none ↦ none
    | some names ↦ elim (parameters_of model) [
      | none ↦ none
      | some counts ↦ some (record {
        id = text_or_empty "id" model;
        lower_id = lower (text_or_empty "id" model);
        lower_author = lower (text_or_empty "author" model);
        sha = text_or_empty "sha" model;
        lower_sha = lower (text_or_empty "sha" model);
        text = metadata_text model;
        normal_id = normalize_text (text_or_empty "id" model);
        siblings = names;
        parameters = counts;
      })
    ]
  ]

  -- `models[repo_id] = model` for each model of a payload with an id.
  unfoldable pub collect : Dict String Fields → List Json → Option (Dict String Fields)
  collect models [] = some models
  collect models (object model ∷ rest) =
      let repo_id = text_or_empty "id" model in
      collect (if repo_id == "" then models else insert repo_id model models) rest
  collect models (_ ∷ rest) = none

  abbrev collect_payload : Dict String Fields → Option Json → Option (Dict String Fields)
  collect_payload models (some (array payload)) = collect models (items_list payload)
  collect_payload models _ = none

  -- The outputs of the queries in order, where `none` is a command that failed. A model of a later
  -- query takes the place of an earlier one with its id; `none` is an exception.
  unfoldable pub collect_all :
      Dict String Fields → List (Option String) → Option (Dict String Fields)
  collect_all models [] = some models
  collect_all models (none ∷ rest) = none
  collect_all models (some out ∷ rest) = elim (collect_payload models (loads out)) [
    | none ↦ none
    | some more ↦ collect_all more rest
  ]

  unfoldable pub discover_models :
      (hf_bin : String) → (run : Argv → Option String) → Option (List Fields)
  discover_models hf_bin run = elim (collect_all [] (map run (queries hf_bin))) [
    | none ↦ none
    | some models ↦ some (values models)
  ]
