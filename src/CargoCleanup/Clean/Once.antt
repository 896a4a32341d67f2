-- ===== src/CargoCleanup/Clean/Once.antt =====
-- Each root is cleaned once, and a failure shows in the exit code.
use cylon_local_infra.Prelude.{
  ℕ, ◌+◌, String, true, false, Option, some, List, [], ◌∷◌, if◌then◌else◌, eqb, ◌≡◌, refl, ◌∙◌,
  arith, Bool-cases, inl, inr,
}
use cylon_local_infra.Prelude.State.{gets, modify, ◌>>=◌}
use cylon_local_infra.Prelude.Effect.{ExitCode, exited, success, succeeded}
use cylon_local_infra.CargoCleanup.Roots.{Parts, find_cargo_roots}
use cylon_local_infra.CargoCleanup.Clean.{
  Host, Machine, Event, ran, clean_argv, resolve_cargo, run, run_clean, tell, clean_root,
  clean_roots, main,
}

-- A run of `cargo clean` in each root, in order, on top of a history; `failures` of them failed.
pub data CleanedOnce (cargo : String) : List Parts → List Event → List Event → ℕ → Type 0 where
  no_more : {h : List Event} → CleanedOnce cargo [] h h 0
  worked :
      {root : Parts} {roots : List Parts} {h h' : List Event} {rc : ExitCode} {failures : ℕ}
      → succeeded rc ≡ true
      → CleanedOnce cargo roots (ran (clean_argv cargo root) rc ∷ h) h' failures
      → CleanedOnce cargo (root ∷ roots) h h' failures
  failed :
      {root : Parts} {roots : List Parts} {h h' : List Event} {rc : ExitCode} {failures : ℕ}
      → succeeded rc ≡ false
      → CleanedOnce cargo roots (ran (clean_argv cargo root) rc ∷ h) h' failures
      → CleanedOnce cargo (root ∷ roots) h h' (failures + 1)

module _ (H : Host) (cargo : String) where
  abbrev IsStep : Parts → Machine H → Machine H → Type 0
  IsStep root m m' =
      (rc : ExitCode) × (m'.history ≡ ran (clean_argv cargo root) rc ∷ m.history)
      × (m'.errors ≡ (if succeeded rc then m.errors else m.errors + 1))

  clean_root-IsStep :
      (root : Parts) (m : Machine H) → IsStep root m (clean_root H cargo false root m).1
  unfolding clean_root run_clean tell run ◌>>=◌
  clean_root-IsStep root m =
      ((H.run m.world (clean_argv cargo root) root).0, ground arith, ground arith)

  clean_roots-CleanedOnce :
      (roots : List Parts) (m : Machine H)
      → let m' = (clean_roots H cargo false roots m).1 in
        (failures : ℕ) × (m'.errors ≡ m.errors + failures)
        × CleanedOnce cargo roots m.history m'.history failures
  unfolding clean_roots ◌>>=◌
  clean_roots-CleanedOnce [] m = (0, omega arith, no_more)
  clean_roots-CleanedOnce (root ∷ roots) m =
      let m1 = (clean_root H cargo false root m).1 in
      let (rc, history, errors) = clean_root-IsStep root m in
      let (failures, sum, rest) = clean_roots-CleanedOnce roots m1 in
      let m' = (clean_roots H cargo false roots m1).1 in
      let rest' : CleanedOnce cargo roots (ran (clean_argv cargo root) rc ∷ m.history) m'.history
          failures =
        rw history at rest in
      elim (Bool-cases (succeeded rc)) [
        | inl ok ↦ (failures, sum ∙ rw (errors, ok) refl, worked ok rest')
        | inr bad ↦
            let one_more : m1.errors ≡ m.errors + 1 = errors ∙ rw bad refl in
            (failures + 1, omega (arith, sum, one_more), failed bad rest')
      ]

module _ (H : Host) (root : Parts) (explicit : Option String) where
  -- With a cargo binary, and without a dry run, `main` runs `cargo clean` in each root once and in
  -- order, goes on behind a failure, and exits with 0 exactly when none of them failed.
  pub main-CleanedOnce :
      (m : Machine H) (cargo : String)
      → resolve_cargo H m.world explicit ≡ some cargo
      → let (rc, m') = main H root explicit false m in
        let roots = find_cargo_roots (H.is_dir m.world root) (H.manifests m.world root) in
        (failures : ℕ) × CleanedOnce cargo roots m.history m'.history failures
        × (rc ≡ (if eqb failures 0 then success else exited 1))
  unfolding main gets modify ◌>>=◌
  main-CleanedOnce m cargo found =
      let started : Machine H = record m { lines = []; errors = 0 } in
      let roots = find_cargo_roots (H.is_dir m.world root) (H.manifests m.world root) in
      let (failures, sum, runs) = clean_roots-CleanedOnce H cargo roots started in
      let errors : (clean_roots H cargo false roots started).1.errors ≡ failures =
        omega (arith, sum) in
      rw found (failures, runs, rw errors refl)
