-- ===== src/SparkStatus/Tests.antt =====
-- A cutover whose pass on the leader fails, and a report on the state file of the prefetch daemon.
use cylon_local_infra.Prelude.{◌≡◌, refl, true, false, none, some, [], ◌∷◌, string_eq}
use cylon_local_infra.Prelude.Dict.{lookup}
use cylon_local_infra.Prelude.State.{pure}
use cylon_local_infra.Prelude.Effect.{exited, success}
use cylon_local_infra.Prelude.Json.{null, text, object, field, end}
use cylon_local_infra.HfPrefetch.Store.{Store, empty_entry}
use cylon_local_infra.SparkStatus.Command.{ansible_inventory_args, ◌or◌, when_given}
use cylon_local_infra.SparkStatus.Machine.{Host, Machine, parents}
use cylon_local_infra.SparkStatus.Cutover.{Cutover, cutover}
use cylon_local_infra.SparkStatus.Cutover.Chain.{Chain, cutover_plan, cutover-Chain}
use cylon_local_infra.SparkStatus.Probe.{
  Source, completed, refused, ssh_cat_remote_file, read_prefetch,
}
use cylon_local_infra.SparkStatus.Report.{prefetch_lines}
use cylon_local_infra.SparkStatus.Report.Daemon.{Encoding, state_json, daemon_state-shows_none}

-- Playbooks succeed, and ssh cannot connect.
abbrev host : Host
host = record {
  World = Unit;
  environ = ("ANSIBLE_INVENTORY", "hosts.ini") ∷ [];
  script = "/srv/infra/scripts/spark_model_status.py";
  quote = λ s. s;
  is_file = λ w p. true;
  run = λ w argv cwd. (elim cwd [ none ↦ some (exited 255) | some d ↦ some success ], w);
}

abbrev start : Machine host
start = record { world = tt; history = [] }

abbrev options : Cutover
options = record {
  vllm = record {
    common = record { repo = some "/srv/infra"; inventory = none; check = false };
    recreate = true;
    model = some "Qwen/Qwen3.6-35B-A3B-FP8";
    extra_vars = [];
  };
  ssh_host = some "nvidia1";
  skip_prefetch_once = false;
  sync_hermes = true;
}

parents_of_script : parents host.script ≡ "/srv/infra/scripts" ∷ "/srv/infra" ∷ "/srv" ∷ "/" ∷ []
unfolding parents string_eq
parents_of_script = refl

inventory_from_environment : ansible_inventory_args host.environ (some "") ≡ "-i" ∷ "hosts.ini" ∷ []
unfolding ansible_inventory_args ◌or◌ when_given lookup string_eq
inventory_from_environment = refl

cutover-Chain_example :
    Chain
      (cutover_plan host options "/srv/infra")
      []
      (cutover host options start).1.history
      (cutover host options start).0
unfolding pure
cutover-Chain_example = cutover-Chain host options start refl

abbrev entry_code : Encoding
entry_code = record {
  entry = λ e. object (field "status" (text "ready") end);
  time = λ n. null;
  host = text "nvidia1";
  pid = null;
  schema = null;
  started_at = null;
}

abbrev store : Store
store = record { models = ("Qwen/Qwen3", empty_entry) ∷ []; updated_at = 17 }

abbrev source : Source
source = record {
  fetch = λ url. refused "down";
  capture = λ argv. completed success "{}" "";
  loads = λ t. some (object (state_json entry_code store));
  decode_error = λ t. t;
  repr = λ v. "";
  repr_text = λ t. t;
  dumps = λ fs. "";
}

daemon_state-shows_none_example :
    prefetch_lines source "/var/lib/hf-prefetch/state.json" (
      read_prefetch source "nvidia1"
        (ssh_cat_remote_file source "nvidia1" "/var/lib/hf-prefetch/state.json"))
    ≡ "nvidia1:/var/lib/hf-prefetch/state.json" ∷ "  (no models in prefetch state)" ∷ []
daemon_state-shows_none_example =
    daemon_state-shows_none source entry_code store "nvidia1" "/var/lib/hf-prefetch/state.json" "{}"
      "" refl refl
