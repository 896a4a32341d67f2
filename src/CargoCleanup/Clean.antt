-- ===== src/CargoCleanup/Clean.antt =====
-- `resolve_cargo`, `run_clean` and `main`. The printed sizes are not modelled, only the lines that
-- tell what became of each root.
pub mod Once
use cylon_local_infra.Prelude.{
  ℕ, zero, suc, ◌+◌, ◌-◌, String, ◌<>◌, Bool, true, false, not, Option, none, some, List, [], ◌∷◌,
  ◌++◌, find, if◌then◌else◌, ◌==◌, string_eq, ltb, eqb,
}
use cylon_local_infra.Prelude.Int.{ℤ, sub_ℕ}
use cylon_local_infra.Prelude.Text.{join}
use cylon_local_infra.Prelude.State.{State, pure, gets, modify, ◌>>=◌, ◌>>◌}
use cylon_local_infra.Prelude.Effect.{ExitCode, exited, success, succeeded, Argv}
use cylon_local_infra.CargoCleanup.Roots.{Parts, find_cargo_roots}

pub record Host : Type 1 where
  pub World : Type 0
  pub home : String
  -- `path.is_file() and os.access(path, os.X_OK)`
  pub is_executable : World → String → Bool
  -- `shutil.which("cargo")`
  pub which_cargo : World → Option String
  pub is_dir : World → Parts → Bool
  -- The directories of the manifests that `rglob` finds below a root.
  pub manifests : World → Parts → List Parts
  -- `target_bytes(root)`
  pub target_bytes : World → Parts → ℕ
  pub run : World → Argv → (cwd : Parts) → ExitCode × World

-- A `cargo clean` that ran, with its outcome.
pub data Event : Type 0 where
  ran : Argv → ExitCode → Event

-- What is printed of one root.
pub data Line : Type 0 where
  would_clean : Parts → (bytes : ℕ) → (command : String) → Line
  cleaned : Parts → (freed : ℤ) → Line
  no_target failed : Parts → Line

-- The newest event stands first in `history`. The lines and the errors are those of `main`.
pub record Machine (H : Host) : Type 0 where
  pub world : H.World
  pub history : List Event
  pub lines : List Line
  pub errors : ℕ

abbrev pub M : Host → Type 0 → Type 0
M H A = State (Machine H) A

-- What `run_clean` returns or raises.
pub data Cleaned : Type 0 where
  planned : (bytes : ℕ) → (command : String) → Cleaned
  freed : ℤ → Cleaned
  raised : Cleaned

abbrev default_cargo : String
default_cargo = "/home/casibbald/.cargo/bin/cargo"

abbrev manifest_path : Parts → String
manifest_path root = "/" <> join "/" (root ++ ("Cargo.toml" ∷ []))

unfoldable pub clean_argv : (cargo : String) → Parts → Argv
clean_argv cargo root = cargo ∷ "clean" ∷ "--manifest-path" ∷ manifest_path root ∷ []

module _ (H : Host) where
  abbrev if_executable : H.World → String → Option String
  if_executable w path = if H.is_executable w path then some path else none

  abbrev installed : H.World → Option String
  installed w = find (H.is_executable w) (default_cargo ∷ (H.home <> "/.cargo/bin/cargo") ∷ [])

  unfoldable pub search_cargo : H.World → Option String
  search_cargo w = elim (installed w) [
    | some path ↦ some path
    | none ↦ elim (H.which_cargo w) [
      | none ↦ none
      | some found ↦ if found == "" then none else some found
    ]
  ]

  -- An empty option is no option. `none` is `sys.exit` with a message.
  unfoldable pub resolve_cargo : H.World → Option String → Option String
  resolve_cargo w none = search_cargo w
  resolve_cargo w (some explicit) =
      if explicit == "" then search_cargo w else if_executable w explicit

  unfoldable pub run : Argv → (cwd : Parts) → M H ExitCode
  run argv cwd m =
      let (rc, w) = H.run m.world argv cwd in
      (rc, record m { world = w; history = ran argv rc ∷ m.history })

  abbrev size : Parts → M H ℕ
  size root = gets (λ m. H.target_bytes m.world root)

  -- A `cargo` that fails raises, so its sizes are not compared.
  abbrev after_run : (root : Parts) (before : ℕ) → ExitCode → M H Cleaned
  after_run root before rc =
      if not (succeeded rc)
      then pure raised
      else do after ← size root; pure (freed (sub_ℕ before after))

  unfoldable pub run_clean : (cargo : String) (root : Parts) (dry_run : Bool) → M H Cleaned
  run_clean cargo root dry_run = do
    before ← size root
    if dry_run
        then pure (planned before (join " " (clean_argv cargo root)))
        else do rc ← run (clean_argv cargo root) root; after_run root before rc

  abbrev print : Line → M H Unit
  print line = modify (λ m. record m { lines = line ∷ m.lines })

  -- The body of the loop behind `run_clean`.
  unfoldable pub tell : (root : Parts) (before : ℕ) → Cleaned → M H Unit
  tell root before (planned bytes command) = print (would_clean root before command)
  tell root before (freed n) = print (if ltb 0 before then cleaned root n else no_target root)
  tell root before raised =
      modify (λ m. record m { lines = failed root ∷ m.lines; errors = m.errors + 1 })

  unfoldable pub clean_root : (cargo : String) (dry_run : Bool) → Parts → M H Unit
  clean_root cargo dry_run root = do
    before ← size root
    outcome ← run_clean cargo root dry_run
    tell root before outcome

  unfoldable pub clean_roots : (cargo : String) (dry_run : Bool) → List Parts → M H Unit
  clean_roots cargo dry_run [] = pure tt
  clean_roots cargo dry_run (root ∷ roots) = do
    clean_root cargo dry_run root
    clean_roots cargo dry_run roots

  abbrev exit_code : M H ExitCode
  exit_code = gets (λ m. if eqb m.errors 0 then success else exited 1)

  abbrev roots_of : Parts → M H (List Parts)
  roots_of root = gets (λ m. find_cargo_roots (H.is_dir m.world root) (H.manifests m.world root))

  -- Without a cargo nothing is searched for, and without roots there is nothing to do.
  abbrev pub clean_all : (dry_run : Bool) (cargo : String) → List Parts → M H ExitCode
  clean_all dry_run cargo roots =
      modify (λ m. record m { lines = []; errors = 0 })
      >> clean_roots cargo dry_run roots
      >> exit_code

  abbrev with_cargo : (root : Parts) (dry_run : Bool) → Option String → M H ExitCode
  with_cargo root dry_run none = pure (exited 1)
  with_cargo root dry_run (some cargo) = do roots ← roots_of root; clean_all dry_run cargo roots

  unfoldable pub main : (root : Parts) (cargo : Option String) (dry_run : Bool) → M H ExitCode
  main root cargo dry_run = do
    found ← gets (λ m. resolve_cargo m.world cargo)
    with_cargo root dry_run found
