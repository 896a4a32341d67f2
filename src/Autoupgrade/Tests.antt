-- ===== src/Autoupgrade/Tests.antt =====
-- The theorems at a stack of one leader and one peer, and at an API that falls quiet.
use cylon_local_infra.Prelude.{
  ℕ, ◌+◌, ◌≡◌, ◌⊎◌, refl, String, Bool, true, false, none, some, List, [], ◌∷◌, string_eq, ◌==◌,
  if◌then◌else◌, Option, nat_eq,
}
use cylon_local_infra.Prelude.Dict.{Dict}
use cylon_local_infra.Prelude.State.{pure, ◌>>=◌}
use cylon_local_infra.Prelude.Text.{lstrip}
use cylon_local_infra.Prelude.Effect.{success}
use cylon_local_infra.NgcImage.Store as NgcStore
use cylon_local_infra.Autoupgrade.Config.{Config, PeerSpec}
use cylon_local_infra.Autoupgrade.Quiet.{Sample, returned, wait_for_quiet}
use cylon_local_infra.Autoupgrade.Quiet.Ending.{wait_for_quiet-returns}
use cylon_local_infra.Autoupgrade.Command.{Spec}
use cylon_local_infra.Autoupgrade.Machine.{Host, Machine, ran_on, idle, ready, ask, ssh, set_fields}
use cylon_local_infra.Autoupgrade.Bounce.{CapturedStack, stop_peers, bounce}
use cylon_local_infra.Autoupgrade.Loop.{sleeps, bounce_captured, record_promotion, turn}
use cylon_local_infra.Autoupgrade.Loop.Due.{WasDue, turn-acts}
use cylon_local_infra.Autoupgrade.Metrics.{match_line, take_while, skip_labels, behind_brace}

abbrev peer : PeerSpec
peer = record { host = "10.0.0.2"; user = "u"; container = "worker"; name = none }

abbrev config : Config
config = record {
  enabled = true;
  pinned_tag = none;
  repo = "r";
  tag_pattern = "2";
  leader_container = "head";
  peers = peer ∷ [];
  poll_interval_sec = 300;
  stabilization_sec = 3600;
  quiet_window_sec = 60;
  quiet_sample_sec = 30;
  max_wait_for_quiet_sec = 1000;
  ray_gcs_wait_sec = 120;
  ray_cluster_wait_sec = 180;
  vllm_api_wait_sec = 3600;
}

abbrev ready_entry : (touched : ℕ) → NgcStore.Entry
ready_entry touched = record NgcStore.empty_entry {
  status = some NgcStore.ready;
  updated_at = some touched;
}

abbrev images : NgcStore.Store
images = record {
  images =
      ("r:24.01", ready_entry 5)
      ∷ ("r:24.02", ready_entry 9)
      ∷ ("r:@discovery", ready_entry 9)
      ∷ [];
  updated_at = 9;
}

abbrev total : ℕ → Dict String ℕ
total n = ("vllm:request_success_total", n) ∷ []

abbrev at : (elapsed total : ℕ) → Sample ℕ
at elapsed n = record { stop = false; elapsed = elapsed; metrics = some (total n) }

abbrev busy_then_quiet : List (Sample ℕ)
busy_then_quiet = at 0 1 ∷ at 30 2 ∷ at 60 2 ∷ at 90 2 ∷ []

abbrev matches : (pattern tag : String) → Bool
matches pattern tag = true

wait_for_quiet-returns_example :
    (b : Bool) × ((wait_for_quiet ⦃e = nat_eq⦄ 0 60 30 50 busy_then_quiet).0 ≡ returned b)
wait_for_quiet-returns_example = wait_for_quiet-returns ⦃e = nat_eq⦄ 0 60 30 50 busy_then_quiet refl

-- Every command succeeds, and the stop flag is set.
abbrev stopping : Host
stopping = record {
  World = ℕ;
  time = λ w. (w, w + 1);
  is_set = λ w. (true, w);
  ngc_state = λ w. (some images, w);
  matches = matches;
  image_of = λ w container. (some "r:23.12", w);
  inspect = λ w container. (none, w);
  peer_inspect = λ w p. (none, w);
  serve_argv = λ w container. ([], w);
  run = λ w argv. (success, w);
  ssh = λ w p argv. (some success, w);
  gcs_turns = λ w. ([], w);
  cluster_turns = λ w expected. ([], w);
  api_turns = λ w metrics_host. ([], w);
  Value = ℕ;
  value_eq = nat_eq;
  zero_value = 0;
  samples = λ w. (busy_then_quiet, w);
  quote = λ s. s;
  save = λ w s. w;
}

abbrev start : Machine stopping
start = record {
  world = 100000;
  store = record {
    status = idle;
    current_image = some "r:23.12";
    candidate_tag = none;
    candidate_since = none;
    last_promotion = none;
    has_error = false;
    reason = none;
    quiet_consecutive = none;
    quiet_needed = none;
    updated_at = 0;
  };
  history = [];
}

abbrev spec : Spec
spec = record {
  network_mode = "host";
  restart_policy = "no";
  shm_size = 64;
  device_requests = [];
  env = "A=1" ∷ [];
  binds = [];
  entrypoint = "/bin/bash" ∷ [];
  cmd = "-c" ∷ "ray start" ∷ [];
}

abbrev captured : CapturedStack
captured = record {
  leader_spec = spec;
  leader_serve_argv = "vllm" ∷ "serve" ∷ [];
  peer_specs = (peer, spec) ∷ [];
}

-- A bounce that a stop cuts short behind the first peer: the state file says `ready`.
stopped_bounce :
    let (next, m') =
      bounce_captured stopping config "r:23.12" "r:24.02" "24.02" (some captured) start in
    (next ≡ sleeps)
    × (m'.store.status ≡ ready)
    × (m'.store.current_image ≡ some "r:24.02")
    × (m'.store.has_error ≡ false)
    × (m'.history
        ≡ ran_on peer ("docker" ∷ "rm" ∷ "-f" ∷ "worker" ∷ []) (some success)
          ∷ ran_on peer ("docker" ∷ "stop" ∷ "-t" ∷ "30" ∷ "worker" ∷ []) (some success)
          ∷ [])
unfolding bounce stop_peers record_promotion ◌>>=◌ pure ask ssh set_fields
stopped_bounce = (refl, refl, refl, refl, refl)

turn-acts_example :
    ((turn stopping config start).1.history ≡ [])
    ⊎ ((config.enabled ≡ true) × WasDue stopping config (some "r:23.12"))
turn-acts_example = turn-acts stopping config start

-- A sample with labels, one without, and a comment.
abbrev metric_lines : List String
metric_lines = "# HELP x" ∷ "x{a=\"1\"} 2" ∷ "y 5" ∷ "x{a=\"2\"} 3" ∷ []

labels_skipped : match_line "x{a=\"1\"} 2" ≡ some ("x", "2")
unfolding match_line take_while skip_labels behind_brace lstrip string_eq
labels_skipped = refl

-- The float of a text is its only digit.
abbrev digit : String → Option ℕ
digit s = if s == "2" then some 2 else (if s == "3" then some 3 else none)
