-- ===== src/SparkStatus/Report/Daemon.antt =====
-- The report on the state file of the prefetch daemon: the daemon keeps its models in a dict by
-- repository, and the report looks for a list.
use cylon_local_infra.Prelude.{String, ◌<>◌, [], ◌∷◌, ◌≡◌, ap, ◌∙◌, none, some, refl, string_eq, ℕ}
use cylon_local_infra.Prelude.Dict.{Dict}
use cylon_local_infra.Prelude.Effect.{success}
use cylon_local_infra.Prelude.Json.{Json, Fields, end, field, field_of, object}
use cylon_local_infra.HfPrefetch.Store.{Entry, Store}
use cylon_local_infra.SparkStatus.Probe.{
  Source, completed, ssh_cat_argv, ssh_cat_remote_file, ssh_cat_result, read_prefetch, or_null,
  prefetch_of_text, read, prefetch_loaded, normalize_prefetch_models,
}
use cylon_local_infra.SparkStatus.Report.{prefetch_lines, prefetch_summary_lines}

-- How the daemon's other values are written.
pub record Encoding : Type 0 where
  pub entry : Entry → Json
  pub time : ℕ → Json
  pub host : Json
  pub pid : Json
  pub schema : Json
  pub started_at : Json

abbrev models_json : (Entry → Json) → Dict String Entry → Fields
models_json entry [] = end
models_json entry ((repo, e) ∷ rest) = field repo (entry e) (models_json entry rest)

-- What `_save_locked` writes of a state that `_read` started, with its keys sorted.
unfoldable pub state_json : Encoding → Store → Fields
state_json code s = field "host" code.host (
    field "models" (object (models_json code.entry s.models)) (
      field "pid" code.pid (
        field "schema" code.schema
          (field "started_at" code.started_at (field "updated_at" (code.time s.updated_at) end)))))

field_of-state :
    (code : Encoding) (s : Store)
    → field_of "models" (state_json code s) ≡ some (object (models_json code.entry s.models))
unfolding field_of state_json string_eq
field_of-state code s = refl

module _ (S : Source) (code : Encoding) (s : Store) where
  normalize-state : normalize_prefetch_models (object (state_json code s)) ≡ []
  unfolding normalize_prefetch_models field_of state_json string_eq
  normalize-state = refl

  prefetch_of_text-state :
      (host path raw : String)
      → S.loads (or_null raw) ≡ some (object (state_json code s))
      → prefetch_lines S path (prefetch_of_text S host raw)
        ≡ (host <> ":" <> path) ∷ "  (no models in prefetch state)" ∷ []
  unfolding prefetch_lines prefetch_of_text prefetch_summary_lines
  prefetch_of_text-state host path raw loaded =
      ap (λ o. prefetch_lines S path (prefetch_loaded S host raw o)) loaded
      ∙ ap (λ ms. prefetch_lines S path (read host ms none)) normalize-state

  read-completed :
      (host path raw err : String)
      → S.capture (ssh_cat_argv host path) ≡ completed success raw err
      → read_prefetch S host (ssh_cat_remote_file S host path) ≡ prefetch_of_text S host raw
  unfolding ssh_cat_result
  read-completed host path raw err sent = rw sent refl

  -- Whatever models the daemon has in its state file, a report that reads the file says that it
  -- has none.
  pub daemon_state-shows_none :
      (host path raw err : String)
      → S.capture (ssh_cat_argv host path) ≡ completed success raw err
      → S.loads (or_null raw) ≡ some (object (state_json code s))
      → prefetch_lines S path (read_prefetch S host (ssh_cat_remote_file S host path))
        ≡ (host <> ":" <> path) ∷ "  (no models in prefetch state)" ∷ []
  daemon_state-shows_none host path raw err sent loaded =
      rw (read-completed host path raw err sent) (prefetch_of_text-state host path raw loaded)
