-- ===== src/CargoCleanup/Tests.antt =====
-- A workspace with a member, and a crate beside it whose clean fails.
use cylon_local_infra.Prelude.{
  ℕ, ◌≡◌, refl, true, false, none, some, List, [], ◌∷◌, string_eq, IsUnique, All, eqb,
  if◌then◌else◌,
}
use cylon_local_infra.Prelude.Effect.{exited, success}
use cylon_local_infra.CargoCleanup.Roots.{
  Parts, parts_eq, parents, parts_lt, insert_path, sorted_paths, unique_paths, find_cargo_roots,
}
use cylon_local_infra.CargoCleanup.Roots.Covered.{IsCovered, IsTop, find_cargo_roots-covers}
use cylon_local_infra.CargoCleanup.Clean.{Host, Machine, resolve_cargo, main}
use cylon_local_infra.CargoCleanup.Clean.Once.{CleanedOnce, main-CleanedOnce}

abbrev found : List Parts
found = ("w" ∷ "cylon" ∷ "core" ∷ []) ∷ ("w" ∷ "cylon" ∷ []) ∷ ("w" ∷ "app" ∷ []) ∷ []

abbrev roots : List Parts
roots = ("w" ∷ "app" ∷ []) ∷ ("w" ∷ "cylon" ∷ []) ∷ []

roots_of_found : find_cargo_roots true found ≡ roots
unfolding find_cargo_roots sorted_paths unique_paths insert_path parts_lt parents parts_eq string_eq
roots_of_found = refl

find_cargo_roots-covers_example :
    All (IsCovered (find_cargo_roots true found)) found
    × All (IsTop found) (find_cargo_roots true found)
    × IsUnique (find_cargo_roots true found)
find_cargo_roots-covers_example = find_cargo_roots-covers found

abbrev host : Host
host = record {
  World = Unit;
  home = "/home/u";
  is_executable = λ w path. true;
  which_cargo = λ w. none;
  is_dir = λ w p. true;
  manifests = λ w p. found;
  target_bytes = λ w p. 4096;
  run = λ w argv cwd. (exited 101, w);
}

abbrev start : Machine host
start = record { world = tt; history = []; lines = []; errors = 0 }

cargo_given : resolve_cargo host tt (some "/usr/bin/cargo") ≡ some "/usr/bin/cargo"
unfolding resolve_cargo string_eq
cargo_given = refl

main-CleanedOnce_example :
    let (rc, m') = main host ("w" ∷ []) (some "/usr/bin/cargo") false start in
    (failures : ℕ) × CleanedOnce "/usr/bin/cargo"
      (find_cargo_roots true found)
      []
      m'.history
      failures
    × (rc ≡ (if eqb failures 0 then success else exited 1))
main-CleanedOnce_example =
    main-CleanedOnce host ("w" ∷ []) (some "/usr/bin/cargo") start "/usr/bin/cargo" cargo_given
