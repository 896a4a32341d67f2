-- ===== src/SparkStatus/Observe.antt =====
-- `run_observe_ssh`: one look at the containers of the leader, over ssh.
use cylon_local_infra.Prelude.{
  ℕ, min, max, String, ◌<>◌, Bool, true, false, Option, none, some, List, [], ◌∷◌, if◌then◌else◌,
  ◌==◌, string_eq,
}
use cylon_local_infra.Prelude.Text.{strip, is_space, join, decimal}
use cylon_local_infra.Prelude.Int.{ℤ, pos, negsuc}
use cylon_local_infra.Prelude.Effect.{ExitCode, exited, success, succeeded, Argv}
use cylon_local_infra.SparkStatus.Cutover.{stripped_host}

pub record ObserveArgs : Type 0 where
  pub ssh_host : Option String
  pub head_container : String
  pub vllm_port : String
  pub ray_dashboard_port : String
  pub ray_gcs_port : String
  pub log_tail_lines : ℤ
  pub json_out : Bool

-- What `subprocess.run` with the script on its standard input comes to.
pub data Answer : Type 0 where
  completed : (returncode : ExitCode) → (out err : String) → Answer
  timed_out not_found : Answer

-- What is printed: the error messages, a JSON object, or the two streams as they are.
pub data Shown : Type 0 where
  message : String → Shown
  payload : (ssh_host : String) → ExitCode → (out : String) → (err : Option String) → Shown
  streams : (out : String) → (err : Option String) → Shown

-- `max(5, min(n, 500))`
unfoldable pub tail_lines : ℤ → ℕ
tail_lines (pos n) = max 5 (min n 500)
tail_lines (negsuc n) = 5

-- The script, by its lines.
abbrev title : String → String
title name = "echo \"== " <> name <> " ==\""

unfoldable pub observe_remote_bash : (quote : String → String) → ObserveArgs → List String
observe_remote_bash quote a =
    let n = decimal (tail_lines a.log_tail_lines) in
    let url = "http://127.0.0.1:" <> a.vllm_port in
    "set -euo pipefail"
    ∷ ("H=" <> quote a.head_container)
    ∷ title "docker ps (vllm)"
    ∷ "docker ps -a --filter name=vllm 2>/dev/null | head -25 || true"
    ∷ "echo"
    ∷ title (
        "listening TCP (vLLM " <> a.vllm_port <> ", Ray dashboard " <> a.ray_dashboard_port
        <> ", Ray GCS " <> a.ray_gcs_port <> ")")
    ∷ ("ss -lntp 2>/dev/null | grep -E ':" <> a.vllm_port <> "\\b|:" <> a.ray_dashboard_port
        <> "\\b|:" <> a.ray_gcs_port <> "\\b' || true")
    ∷ "echo"
    ∷ title "ray status (inside $H)"
    ∷ "if docker container inspect \"$H\" >/dev/null 2>&1; then"
    ∷ "  docker exec \"$H\" bash -lc 'ray status' 2>&1 || true"
    ∷ "else"
    ∷ "  echo \"(container $H not present)\""
    ∷ "fi"
    ∷ "echo"
    ∷ title "vllm serve process (inside $H)"
    ∷ "if docker container inspect \"$H\" >/dev/null 2>&1; then"
    ∷ "  docker exec \"$H\" bash -lc \"pgrep -af '[v]llm serve' || true\" 2>&1 || true"
    ∷ "else"
    ∷ "  echo \"(skip)\""
    ∷ "fi"
    ∷ "echo"
    ∷ title ("tail /root/vllm-serve.log (last " <> n <> " lines)")
    ∷ "if docker container inspect \"$H\" >/dev/null 2>&1; then"
    ∷ ("  docker exec \"$H\" bash -lc 'test -f /root/vllm-serve.log && tail -n " <> n
        <> " /root/vllm-serve.log || echo \"(no /root/vllm-serve.log yet)\"' 2>&1 || true")
    ∷ "else"
    ∷ "  echo \"(skip)\""
    ∷ "fi"
    ∷ "echo"
    ∷ title ("GET " <> url <> "/v1/models (on leader host)")
    ∷ ("curl -sS --max-time 8 \"" <> url
        <> "/v1/models\" 2>&1 | head -c 2000 || echo \"(curl failed)\"")
    ∷ "echo"
    ∷ "echo"
    ∷ title ("GET " <> url <> "/metrics (first 25 lines)")
    ∷ ("curl -sS --max-time 5 \"" <> url
        <> "/metrics\" 2>&1 | head -n 25 || echo \"(metrics unavailable)\"")
    ∷ ""
    ∷ []

abbrev observe_argv : (host : String) → Argv
observe_argv host =
    "ssh" ∷ "-o" ∷ "BatchMode=yes" ∷ "-o" ∷ "ConnectTimeout=20" ∷ host ∷ "bash" ∷ "-s" ∷ []

abbrev unless_empty : String → Option String
unless_empty s = if s == "" then none else some s

-- Both branches of the code return the exit code of ssh, written as `0 if rc == 0 else rc`.
abbrev code_of : ExitCode → ExitCode
code_of rc = if succeeded rc then success else rc

unfoldable pub observed : (host : String) → (json_out : Bool) → Answer → Shown × ExitCode
observed host json_out timed_out = (message "error: ssh observe timed out after 120s", exited 124)
observed host json_out not_found = (message "error: ssh not found on PATH", exited 127)
observed host true (completed rc out err) =
    (payload host rc out (unless_empty (strip is_space err)), code_of rc)
observed host false (completed rc out err) =
    (streams out (unless_empty (strip is_space err)), code_of rc)

-- `ssh` is the call of `subprocess.run` with its input.
unfoldable pub run_observe_ssh :
    (quote : String → String)
    → (ssh : Argv → (input : String) → Answer) → ObserveArgs
    → Shown × ExitCode
run_observe_ssh quote ssh a =
    let host = stripped_host a.ssh_host in
    if host == ""
    then (message "error: observe requires --ssh-host (leader)", exited 2)
    else observed host a.json_out
        (ssh (observe_argv host) (join "\n" (observe_remote_bash quote a)))
