-- ===== src/SparkStatus/Main.antt =====
-- `main`: the command line by its first word. The parsers are `argparse`'s, with the options that the
-- script declares; a parser that ends the script, for `--help` or a bad option, gives its exit code.
use cylon_local_infra.Prelude.{
  String, ◌||◌, Option, none, some, [], ◌∷◌, if◌then◌else◌, ◌==◌, string_eq,
}
use cylon_local_infra.Prelude.State.{pure, gets}
use cylon_local_infra.Prelude.Effect.{ExitCode, exited, success, Argv}
use cylon_local_infra.SparkStatus.Machine.{Host, M}
use cylon_local_infra.SparkStatus.Cutover as Commands
use cylon_local_infra.SparkStatus.Cutover.{
  Common, PrefetchOnce, AnsibleVllm, Cutover, stripped_host,
}
use cylon_local_infra.SparkStatus.Probe.{Source, ReportArgs}
use cylon_local_infra.SparkStatus.Report.{run_report, reported, raised, Outcome}
use cylon_local_infra.SparkStatus.Observe.{ObserveArgs, Answer, run_observe_ssh}

pub data Parsed (A : Type 0) : Type 0 where
  parsed : A → Parsed A
  ends : ExitCode → Parsed A

pub record Parsers : Type 0 where
  pub status : Argv → Parsed ReportArgs
  pub observe : Argv → Parsed ObserveArgs
  pub ansible_prefetch : Argv → Parsed Common
  pub prefetch_once : Argv → Parsed PrefetchOnce
  pub ansible_vllm : Argv → Parsed AnsibleVllm
  pub cutover : Argv → Parsed Cutover
  pub sync_hermes : Argv → Parsed Common

pub data Word : Type 0 where
  help status observe ansible_prefetch prefetch_once ansible_vllm cutover sync_hermes : Word

-- `COMMAND_SET`, with the two options that are asked for before it.
unfoldable pub word_of : String → Option Word
word_of s =
    if s == "-h" || (s == "--help" || s == "help")
    then some help
    else if s == "status"
    then some status
    else if s == "observe"
    then some observe
    else if s == "ansible-prefetch"
    then some ansible_prefetch
    else if s == "prefetch-once"
    then some prefetch_once
    else if s == "ansible-vllm"
    then some ansible_vllm
    else if s == "cutover"
    then some cutover
    else if s == "sync-hermes"
    then some sync_hermes
    else none

-- `(args.ssh_host or "").strip() or None`
unfoldable pub host_or_none : Option String → Option String
host_or_none h = let s = stripped_host h in if s == "" then none else some s

-- An exception that nobody catches ends the interpreter with 1.
abbrev outcome_code : Outcome → ExitCode
outcome_code (reported lines rc) = rc
outcome_code raised = exited 1

module _ (H : Host) (P : Parsers)
    -- How a report and an observation see the world.
    (source : H.World → Source) (observe_ssh : H.World → Argv → (input : String) → Answer) where
  abbrev if_parsed : {A : Type 0} → Parsed A → (A → M H ExitCode) → M H ExitCode
  if_parsed (parsed a) f = f a
  if_parsed (ends rc) f = pure rc

  unfoldable pub report : Argv → M H ExitCode
  report argv = if_parsed (P.status argv) (λ args. gets (λ m.
      outcome_code
        (run_report (source m.world) (record args { ssh_host = host_or_none args.ssh_host }))))

  unfoldable pub observe_leader : Argv → M H ExitCode
  observe_leader argv =
      if_parsed (P.observe argv)
        (λ args. gets (λ m. (run_observe_ssh H.quote (observe_ssh m.world) args).1))

  unfoldable pub command : Word → Argv → M H ExitCode
  command help rest = pure success
  command status rest = report rest
  command observe rest = observe_leader rest
  command ansible_prefetch rest = if_parsed (P.ansible_prefetch rest) (Commands.ansible_prefetch H)
  command prefetch_once rest = if_parsed (P.prefetch_once rest) (Commands.prefetch_once H)
  command ansible_vllm rest = if_parsed (P.ansible_vllm rest) (Commands.ansible_vllm H)
  command cutover rest = if_parsed (P.cutover rest) (Commands.cutover H)
  command sync_hermes rest = if_parsed (P.sync_hermes rest) (Commands.sync_hermes H)

  -- A first word that is no command belongs to the options of the report.
  abbrev dispatch : String → Argv → Option Word → M H ExitCode
  dispatch first rest none = report (first ∷ rest)
  dispatch first rest (some w) = command w rest

  unfoldable pub main : Argv → M H ExitCode
  main [] = report []
  main (first ∷ rest) = dispatch first rest (word_of first)
