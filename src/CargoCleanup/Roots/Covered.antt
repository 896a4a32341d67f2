-- ===== src/CargoCleanup/Roots/Covered.antt =====
-- The roots cover the manifests, and none lies below a manifest.
use cylon_local_infra.Prelude.{
  ℕ, zero, suc, ◌<◌, String, Bool, true, false, ◌&&◌, ◌||◌, not, List, [], ◌∷◌, map, any, select,
  contains, length, ◌==◌, string_eq, ◌≡◌, refl, sym, ◌∙◌, arith, Bool-cases, inl, inr, IsUnique,
  All,
}
use cylon_local_infra.CargoCleanup.Roots.{
  Parts, parts_eq, parents, insert_path, sorted_paths, unique_paths, is_nested, find_cargo_roots,
}

-- A path that has another one as a proper beginning.
is_above : Parts → Parts → Bool
is_above r [] = false
is_above [] (x ∷ xs) = true
is_above (y ∷ ys) (x ∷ xs) = y == x && is_above ys xs

map-cons-contains :
    (x : String) (ps : List Parts) (y : String) (p : Parts)
    → contains (map (λ q. x ∷ q) ps) (y ∷ p) ≡ (y == x && contains ps p)
map-cons-contains x [] y p = ground arith
map-cons-contains x (q ∷ ps) y p = ground (arith, map-cons-contains x ps y p)

map-cons-nil : (x : String) (ps : List Parts) → contains (map (λ q. x ∷ q) ps) [] ≡ false
map-cons-nil x [] = refl
map-cons-nil x (q ∷ ps) = ground (arith, map-cons-nil x ps)

contains-parents : (d r : Parts) → contains (parents d) r ≡ is_above r d
unfolding parents is_above
contains-parents [] [] = refl
contains-parents [] (y ∷ r) = refl
contains-parents (x ∷ d) [] = ground arith
contains-parents (x ∷ d) (y ∷ r) =
    ground (arith, map-cons-contains x (parents d) y r, contains-parents d r)

is_above-length : (r d : Parts) → is_above r d ≡ true → length r < length d
unfolding is_above
is_above-length [] [] h = cc
is_above-length (y ∷ r) [] h = cc
is_above-length [] (x ∷ d) h = omega arith
is_above-length (y ∷ r) (x ∷ d) h = ground (arith, is_above-length r d)

is_above_trans : (r o d : Parts) → is_above r o ≡ true → is_above o d ≡ true → is_above r d ≡ true
unfolding is_above
is_above_trans r o [] h k = cc
is_above_trans [] o (x ∷ d) h k = refl
is_above_trans (y ∷ r) [] (x ∷ d) h k = cc
is_above_trans (y ∷ r) (z ∷ o) (x ∷ d) h k = ground (arith, is_above_trans r o d)

select-contains :
    (p : Parts → Bool) (xs : List Parts) (x : Parts)
    → contains (select p xs) x ≡ (contains xs x && p x)
select-contains p [] x = refl
select-contains p (y ∷ xs) x = ground (arith, select-contains p xs x)

any-witness :
    (p : Parts → Bool) (xs : List Parts)
    → any p xs ≡ true
    → (x : Parts) × (contains xs x ≡ true) × (p x ≡ true)
any-witness p [] h = cc
any-witness p (y ∷ xs) h = elim (Bool-cases (p y)) [
  | inl yes_y ↦ (y, ground arith, yes_y)
  | inr no_y ↦ let (x, inside, holds) = any-witness p xs (ground arith) in (x, ground arith, holds)
]

any-none :
    (p : Parts → Bool) (xs : List Parts) (x : Parts)
    → any p xs ≡ false
    → contains xs x ≡ true
    → p x ≡ false
any-none p [] x h inside = cc
any-none p (y ∷ xs) x h inside = ground (arith, any-none p xs x)

insert_path-contains :
    (x : Parts) (xs : List Parts) (t : Parts)
    → contains (insert_path x xs) t ≡ (t == x || contains xs t)
unfolding insert_path
insert_path-contains x [] t = refl
insert_path-contains x (y ∷ ys) t = ground (arith, insert_path-contains x ys t)

sorted_paths-contains : (xs : List Parts) (t : Parts) → contains (sorted_paths xs) t ≡ contains xs t
unfolding sorted_paths
sorted_paths-contains [] t = refl
sorted_paths-contains (x ∷ xs) t =
    ground (arith, insert_path-contains x (sorted_paths xs) t, sorted_paths-contains xs t)

unique_paths-contains : (xs : List Parts) (t : Parts) → contains (unique_paths xs) t ≡ contains xs t
unfolding unique_paths
unique_paths-contains [] t = refl
unique_paths-contains (x ∷ xs) t = ground (arith, unique_paths-contains xs t)

insert_path-IsUnique :
    (x : Parts) (xs : List Parts)
    → contains xs x ≡ false
    → IsUnique xs
    → IsUnique (insert_path x xs)
unfolding insert_path
insert_path-IsUnique x [] fresh unique = (refl, tt)
insert_path-IsUnique x (y ∷ ys) fresh unique =
    ground (arith, insert_path-IsUnique x ys, insert_path-contains x ys y)

sorted_paths-IsUnique : (xs : List Parts) → IsUnique xs → IsUnique (sorted_paths xs)
unfolding sorted_paths
sorted_paths-IsUnique [] unique = tt
sorted_paths-IsUnique (x ∷ xs) (fresh, unique) =
    insert_path-IsUnique x (sorted_paths xs) (sorted_paths-contains xs x ∙ fresh)
      (sorted_paths-IsUnique xs unique)

unique_paths-IsUnique : (xs : List Parts) → IsUnique (unique_paths xs)
unfolding unique_paths
unique_paths-IsUnique [] = tt
unique_paths-IsUnique (x ∷ xs) =
    ground (arith, unique_paths-IsUnique xs, unique_paths-contains xs x)

select-IsUnique : (p : Parts → Bool) (xs : List Parts) → IsUnique xs → IsUnique (select p xs)
select-IsUnique p [] unique = tt
select-IsUnique p (x ∷ xs) (fresh, unique) =
    ground (arith, select-IsUnique p xs unique, select-contains p xs x)

-- One of the roots is the directory or lies above it.
abbrev pub IsCovered : List Parts → Parts → Type 0
IsCovered roots d =
    (r : Parts) × (contains roots r ≡ true) × ((r == d || contains (parents d) r) ≡ true)

module _ (dirs : List Parts) where
  abbrev tops : List Parts
  tops = select (λ d. not (is_nested dirs d)) dirs

  -- By the length of the path.
  IsCovered-tops :
      (fuel : ℕ) (d : Parts) → length d < fuel → contains dirs d ≡ true → IsCovered tops d
  IsCovered-tops zero d short inside = absurd (omega arith)
  IsCovered-tops (suc fuel) d short inside = elim (Bool-cases (is_nested dirs d)) [
    | inr top ↦
        (d, ground (arith, select-contains (λ e. not (is_nested dirs e)) dirs d), ground arith)
    | inl nested ↦
        let (o, o_inside, o_above) = any-witness _ dirs nested in
        let above : is_above o d ≡ true = ground (arith, contains-parents d o) in
        let (r, is_root, covers) =
          IsCovered-tops fuel o (omega (arith, is_above-length o d above)) o_inside in
        (
          r,
          is_root,
          ground (arith, is_above_trans r o d, contains-parents d r, contains-parents o r),
        )
  ]

  not_nested :
      (r o : Parts) → contains tops r ≡ true → contains dirs o ≡ true → is_above o r ≡ false
  not_nested r o top inside = ground (
    arith,
    select-contains (λ e. not (is_nested dirs e)) dirs r,
    any-none (λ e. not (r == e) && contains (parents r) e) dirs o,
    contains-parents r o,
    is_above-length r r,
  )

All-members :
    (P : Parts → Type 0) (xs : List Parts) → ((x : Parts) → contains xs x ≡ true → P x) → All P xs
All-members P [] h = tt
All-members P (x ∷ xs) h =
    (h x (ground arith), All-members P xs (λ y inside. h y (ground (arith, inside))))

-- A directory of a manifest that lies below none.
abbrev pub IsTop : List Parts → Parts → Type 0
IsTop found r = (contains found r ≡ true) × All (λ d. contains (parents r) d ≡ false) found

tops-IsTop :
    (found : List Parts) (r : Parts)
    → contains (find_cargo_roots true found) r ≡ true
    → IsTop found r
unfolding find_cargo_roots
tops-IsTop found r is_root =
    let dirs = sorted_paths (unique_paths found) in
    let r_top : contains (tops dirs) r ≡ true =
      sym (sorted_paths-contains (tops dirs) r) ∙ is_root in
    let inside =
      λ (d : Parts). sorted_paths-contains (unique_paths found) d ∙ unique_paths-contains found d in
    (
      ground (arith, r_top, select-contains (λ e. not (is_nested dirs e)) dirs r, inside r),
      All-members _ found
          (λ d here. contains-parents r d ∙ not_nested dirs r d r_top (inside d ∙ here)),
    )

-- Every directory of a manifest is a root or lies below one; every root is the directory of a manifest
-- and lies below none; and none is listed twice.
pub find_cargo_roots-covers :
    (found : List Parts)
    → All (IsCovered (find_cargo_roots true found)) found
      × All (IsTop found) (find_cargo_roots true found)
      × IsUnique (find_cargo_roots true found)
unfolding find_cargo_roots
find_cargo_roots-covers found =
    let dirs = sorted_paths (unique_paths found) in
    (
      All-members _ found (λ d d_found.
          let d_in : contains dirs d ≡ true =
            sorted_paths-contains (unique_paths found) d
            ∙ unique_paths-contains found d
            ∙ d_found in
          let (top, is_top, covers) = IsCovered-tops dirs (suc (length d)) d (omega arith) d_in in
          (top, sorted_paths-contains (tops dirs) top ∙ is_top, covers)),
      All-members _ _ (tops-IsTop found),
      sorted_paths-IsUnique (tops dirs)
          (select-IsUnique _ dirs (sorted_paths-IsUnique _ (unique_paths-IsUnique found))),
    )
