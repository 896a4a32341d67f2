-- ===== src/CargoCleanup/Roots.antt =====
-- `find_cargo_roots`. An absolute path is the list of its parts below `/`, in whose order `pathlib`
-- compares paths.
pub mod Covered
use Prim.Native.String.{compare}
use text.Mathlib.Text.{is_lt}
use cylon_local_infra.Prelude.{
  String, Bool, true, false, ◌&&◌, ◌||◌, not, List, [], ◌∷◌, map, any, select, contains,
  if◌then◌else◌, ◌==◌, Eq, string_eq, ◌≡◌, refl,
}

abbrev pub Parts : Type 0
Parts = List String

both : {x y : String} {xs ys : Parts} → Dec (x ≡ y) → Dec (xs ≡ ys) → Dec (x ∷ xs ≡ y ∷ ys)
both (yes p) (yes q) = yes (cc (p, q))
both (no differ) d = no (λ e. differ cc)
both (yes p) (no differ) = no (λ e. differ cc)

parts_discrete : Discrete Parts
parts_discrete [] [] = yes refl
parts_discrete [] (y ∷ ys) = no (λ e. cc)
parts_discrete (x ∷ xs) [] = no (λ e. cc)
parts_discrete (x ∷ xs) (y ∷ ys) = both (string_eq.dec x y) (parts_discrete xs ys)

instance unfoldable pub parts_eq : Eq Parts
unfolding parts_discrete both
parts_eq = record { dec = parts_discrete }

-- `d.parents`, the root first.
unfoldable pub parents : Parts → List Parts
parents [] = []
parents (x ∷ xs) = [] ∷ map (λ p. x ∷ p) (parents xs)

-- `a < b` on paths.
unfoldable pub parts_lt : Parts → Parts → Bool
parts_lt [] [] = false
parts_lt [] (b ∷ bs) = true
parts_lt (a ∷ as') [] = false
parts_lt (a ∷ as') (b ∷ bs) = is_lt (compare a b) || (a == b && parts_lt as' bs)

unfoldable pub insert_path : Parts → List Parts → List Parts
insert_path x [] = x ∷ []
insert_path x (y ∷ ys) = if parts_lt y x then y ∷ insert_path x ys else x ∷ y ∷ ys

-- `sorted(paths)`
unfoldable pub sorted_paths : List Parts → List Parts
sorted_paths [] = []
sorted_paths (x ∷ xs) = insert_path x (sorted_paths xs)

-- The members of a set comprehension.
unfoldable pub unique_paths : List Parts → List Parts
unique_paths [] = []
unique_paths (p ∷ ps) = let rest = unique_paths ps in if contains ps p then rest else p ∷ rest

abbrev pub is_nested : List Parts → Parts → Bool
is_nested manifest_dirs directory =
    any (λ other. not (directory == other) && contains (parents directory) other) manifest_dirs

-- `found` are the directories of the manifests below the root, as `rglob` finds them.
unfoldable pub find_cargo_roots : (is_dir : Bool) → (found : List Parts) → List Parts
find_cargo_roots is_dir found =
    let manifest_dirs = sorted_paths (unique_paths found) in
    if is_dir
    then sorted_paths (select (λ directory. not (is_nested manifest_dirs directory)) manifest_dirs)
    else []
