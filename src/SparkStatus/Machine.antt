-- ===== src/SparkStatus/Machine.antt =====
-- The host that answers the calls of the script, and the commands that it ran.
use cylon_local_infra.Prelude.{
  String, ◌<>◌, Bool, Option, none, some, List, [], ◌∷◌, reverse, find, if◌then◌else◌, ◌==◌,
  string_eq,
}
use cylon_local_infra.Prelude.State.{State, pure, gets}
use cylon_local_infra.Prelude.Effect.{ExitCode, exited, Argv}
use cylon_local_infra.Prelude.Text.{is_slash, parent}
use cylon_local_infra.SparkStatus.Command.{Environ, playbook}

pub record Host : Type 1 where
  pub World : Type 0
  pub environ : Environ
  -- The resolved path of the script.
  pub script : String
  -- `shlex.quote`
  pub quote : String → String
  -- `Path.is_file()`
  pub is_file : World → String → Bool
  -- `subprocess.run(cmd, cwd=cwd)`; `none` is a command that is not found.
  pub run : World → Argv → (cwd : Option String) → Option ExitCode × World

-- A command that was started, with the directory it ran in and the exit code that was taken from it.
pub record Call : Type 0 where
  pub argv : Argv
  pub cwd : Option String

pub data Event : Type 0 where
  ran : Call → ExitCode → Event

-- The newest event stands first in `history`.
pub record Machine (H : Host) : Type 0 where
  pub world : H.World
  pub history : List Event

abbrev pub M : Host → Type 0 → Type 0
M H A = State (Machine H) A

-- A command that is not found counts as one that ended with 127.
abbrev pub exit_code : Option ExitCode → ExitCode
exit_code none = exited 127
exit_code (some rc) = rc

-- The directories above a file, the root first: the text before each slash.
directories_from : (so_far : String) → String → List String
directories_from so_far String.[] = []
directories_from so_far (String.◌∷◌ c s) =
    let rest = directories_from (so_far <> String.◌∷◌ c String.[]) s in
    if is_slash (Prim.Native.Char.code c)
    then (if so_far == "" then "/" else so_far) ∷ rest
    else rest

-- `Path(p).parents`, the nearest first.
unfoldable pub parents : String → List String
unfolding directories_from
parents p = reverse (directories_from "" p)

module _ (H : Host) where
  unfoldable pub run_process : Argv → (cwd : Option String) → M H ExitCode
  run_process argv cwd m =
      let (answer, w) = H.run m.world argv cwd in
      let rc = exit_code answer in
      (rc, record { world = w; history = ran (record { argv = argv; cwd = cwd }) rc ∷ m.history })

  abbrev pub has_playbook : (repo name : String) → M H Bool
  has_playbook repo name = gets (λ m. H.is_file m.world (playbook repo name))

  -- The nearest directory above the script that has the playbook, or else the one above its own.
  unfoldable pub repo_root_from_script : M H String
  repo_root_from_script = gets (λ m.
      elim (find (λ p. H.is_file m.world (playbook p "provision_sparks.yml")) (parents H.script)) [
        | none ↦ parent (parent H.script)
        | some p ↦ p
      ])

  -- `ns.repo or repo_root_from_script()`: a path is never false.
  abbrev pub repo_of : Option String → M H String
  repo_of none = repo_root_from_script
  repo_of (some repo) = pure repo
