-- ===== src/SparkStatus/Cutover/Chain.antt =====
-- What a cutover promises, as a relation between a plan and what was run, and that the code does it.
use cylon_local_infra.Prelude.{
  String, true, false, ◌&&◌, not, some, none, List, [], ◌∷◌, ◌++◌, ◌==◌, string_eq, if◌then◌else◌,
  ◌≡◌, refl, arith, Bool-cases, inl, inr,
}
use mathlib.Core.Path.{subst}
use cylon_local_infra.Prelude.State.{pure, gets, ◌>>=◌}
use cylon_local_infra.Prelude.Effect.{ExitCode, success, succeeded, Argv}
use cylon_local_infra.SparkStatus.Command.{
  playbook, cmd_ansible_prefetch, cmd_ansible_vllm, cmd_ansible_sync_hermes_ms02,
  cmd_prefetch_once_ssh,
}
use cylon_local_infra.SparkStatus.Machine.{
  Host, Call, Event, ran, Machine, M, run_process, repo_of, repo_root_from_script,
}
use cylon_local_infra.SparkStatus.Cutover.{
  Cutover, stripped_host, vllm_extra_vars, default_install, default_config, default_state,
  default_runtime_home, unless_failed, hermes_step, vllm_step, prefetch_once_step, cutover_steps,
  cutover,
}

-- From one history to another, the calls of a plan run in order up to the first that does not exit
-- with 0; its exit code is the result, or 0 when there is none.
pub data Chain : List Call → List Event → List Event → ExitCode → Type 0 where
  all_done : {h : List Event} → Chain [] h h success
  failed :
      {c : Call} {cs : List Call} {h : List Event} {rc : ExitCode}
      → succeeded rc ≡ false
      → Chain (c ∷ cs) h (ran c rc ∷ h) rc
  onward :
      {c : Call} {cs : List Call} {h h' : List Event} {rc : ExitCode}
      → Chain cs (ran c success ∷ h) h' rc
      → Chain (c ∷ cs) h h' rc

succeeded→success : (rc : ExitCode) → succeeded rc ≡ true → rc ≡ success
succeeded→success rc h = ground arith

module _ (H : Host) where
  -- The code runs a plan.
  abbrev Runs : List Call → M H ExitCode → Type 0
  Runs plan code = (m : Machine H) → Chain plan m.history (code m).1.history (code m).0

  abbrev call : Argv → String → Call
  call argv repo = record { argv = argv; cwd = some repo }

  abbrev prefetch_once_plan : Cutover → List Call
  prefetch_once_plan ns =
      let host = stripped_host ns.ssh_host in
      if not ns.skip_prefetch_once && not (host == "")
      then record {
        argv =
            cmd_prefetch_once_ssh H.quote host default_install default_config default_state
              default_runtime_home 1;
        cwd = none;
      }
        ∷ []
      else []

  abbrev hermes_plan : Cutover → String → List Call
  hermes_plan ns repo =
      if ns.sync_hermes
      then call
          (cmd_ansible_sync_hermes_ms02 H.environ repo ns.vllm.common.inventory
            ns.vllm.common.check)
          repo
        ∷ []
      else []

  abbrev vllm_plan : Cutover → String → List Call
  vllm_plan ns repo =
      call
        (cmd_ansible_vllm H.environ repo ns.vllm.common.inventory (vllm_extra_vars ns.vllm)
          ns.vllm.common.check)
        repo
      ∷ hermes_plan ns repo

  -- The configuration of the prefetch daemon, one pass of it on the leader unless it is skipped or
  -- no leader is named, the whole provision with the model's variables, and the sync of Hermes if
  -- it is asked for.
  abbrev pub cutover_plan : Cutover → (repo : String) → List Call
  cutover_plan ns repo =
      call (cmd_ansible_prefetch H.environ repo ns.vllm.common.inventory ns.vllm.common.check) repo
      ∷ (prefetch_once_plan ns ++ vllm_plan ns repo)

  Runs-none : Runs [] (pure success)
  unfolding pure
  Runs-none m = all_done

  -- What follows the first call of a plan, by its exit code.
  Chain-unless_failed :
      (c : Call) (cs : List Call) (rest : M H ExitCode) (rc : ExitCode) (h : List Event)
      (m : Machine H)
      → Runs cs rest
      → m.history ≡ ran c rc ∷ h
      → Chain (c ∷ cs) h (unless_failed H rest rc m).1.history (unless_failed H rest rc m).0
  unfolding pure
  Chain-unless_failed c cs rest rc h m go at = elim (Bool-cases (succeeded rc)) [
    | inl ok ↦ rw ok (
        onward (
          subst (λ l. Chain cs l (rest m).1.history (rest m).0)
            (rw (at, succeeded→success rc ok) refl) (go m)))
    | inr bad ↦ rw (bad, at) (failed bad)
  ]

  Runs-then :
      (c : Call) (cs : List Call) (rest : M H ExitCode)
      → Runs cs rest
      → Runs (c ∷ cs) (run_process H c.argv c.cwd >>= unless_failed H rest)
  unfolding ◌>>=◌ run_process
  Runs-then c cs rest go m = Chain-unless_failed c cs rest _ m.history _ go refl

  Chain-last : (c : Call) (rc : ExitCode) (h : List Event) → Chain (c ∷ []) h (ran c rc ∷ h) rc
  Chain-last c rc h = elim (Bool-cases (succeeded rc)) [
    | inl ok ↦ rw (succeeded→success rc ok) (onward all_done)
    | inr bad ↦ failed bad
  ]

  Runs-last : (c : Call) → Runs (c ∷ []) (run_process H c.argv c.cwd)
  unfolding run_process
  Runs-last c m = Chain-last c _ m.history

  module _ (ns : Cutover) (repo : String) where
    Runs-hermes : Runs (hermes_plan ns repo) (hermes_step H ns repo)
    unfolding hermes_step
    Runs-hermes = elim (Bool-cases ns.sync_hermes) [
      | inl on ↦ rw on (Runs-last _)
      | inr off ↦ rw off Runs-none
    ]

    Runs-vllm : Runs (vllm_plan ns repo) (vllm_step H ns repo)
    unfolding vllm_step
    Runs-vllm = Runs-then _ _ _ Runs-hermes

    Runs-prefetch_once :
        Runs (prefetch_once_plan ns ++ vllm_plan ns repo) (prefetch_once_step H ns repo)
    unfolding prefetch_once_step
    Runs-prefetch_once =
        elim (Bool-cases (not ns.skip_prefetch_once && not (stripped_host ns.ssh_host == ""))) [
          | inl on ↦ rw on (Runs-then _ _ _ Runs-vllm)
          | inr off ↦ rw off Runs-vllm
        ]

    Runs-cutover : Runs (cutover_plan ns repo) (cutover_steps H ns repo)
    unfolding cutover_steps
    Runs-cutover = Runs-then _ _ _ Runs-prefetch_once

  repo_of-keeps_machine : (o : _) (m : Machine H) → (repo_of H o m).1 ≡ m
  unfolding repo_root_from_script gets pure
  repo_of-keeps_machine none m = refl
  repo_of-keeps_machine (some repo) m = refl

  -- A cutover of a repository with the playbook runs its plan in order up to the first command that
  -- does not exit with 0: the vLLM step only after the prefetch steps did, and Hermes only after
  -- vLLM. The exit code is that of the failed command, and 0 exactly when the whole plan ran.
  pub cutover-Chain :
      (ns : Cutover) (m : Machine H)
      → let repo = (repo_of H ns.vllm.common.repo m).0 in
        H.is_file m.world (playbook repo "provision_sparks.yml") ≡ true
        → Chain (cutover_plan ns repo) m.history (cutover H ns m).1.history (cutover H ns m).0
  unfolding cutover ◌>>=◌ gets
  cutover-Chain ns m found =
      rw (repo_of-keeps_machine ns.vllm.common.repo m, found) (Runs-cutover ns _ m)
