-- ===== src/MassiveMirror/Source/Listed.antt =====
-- What is listed: no folders, and each prefix on one side of the report.
use cylon_local_infra.Prelude.{
  ◌+◌, String, Bool, if◌then◌else◌, contains, true, false, ◌||◌, Option, none, some, List, [], ◌∷◌,
  ◌++◌, All, length, ◌≡◌, refl, arith, string_eq, Bool-cases, inl, inr,
}
use cylon_local_infra.MassiveMirror.Config.{MirrorConfig}
use cylon_local_infra.MassiveMirror.Sync.{ObjectHead, Listing, objects, denied, broken}
use cylon_local_infra.MassiveMirror.Sync.Counted.{listed_by}
use cylon_local_infra.MassiveMirror.Source.{
  Item, Pages, contents, client_error, is_file, heads_of, all_heads, list_objects, Report, add,
  list_command,
}

abbrev AllFiles : List ObjectHead → Type 0
AllFiles os = All (λ (o : ObjectHead). is_file o.key ≡ true) os

AllFiles-append : (xs ys : List ObjectHead) → AllFiles xs → AllFiles ys → AllFiles (xs ++ ys)
AllFiles-append [] ys h k = k
AllFiles-append (x ∷ xs) ys h k = (h.0, AllFiles-append xs ys h.1 k)

heads_of-AllFiles : (is : List Item) → AllFiles (heads_of is)
unfolding heads_of
heads_of-AllFiles [] = tt
heads_of-AllFiles (i ∷ is) = elim (Bool-cases (is_file i.key)) [
  | inl file ↦ rw file (file, heads_of-AllFiles is)
  | inr folder ↦ rw folder (heads_of-AllFiles is)
]

all_heads-AllFiles : (pages : List (List Item)) → AllFiles (all_heads pages)
unfolding all_heads
all_heads-AllFiles [] = tt
all_heads-AllFiles (page ∷ pages) =
    AllFiles-append _ _ (heads_of-AllFiles page) (all_heads-AllFiles pages)

denial-AllFiles :
    (b : Bool) (prefix : String) → AllFiles (listed_by (if b then denied prefix else broken))
denial-AllFiles true prefix = tt
denial-AllFiles false prefix = tt

-- Whatever the pages hold, no object that is listed has an empty key or one that ends in a slash.
list_objects-AllFiles :
    (prefix : String) (pages : Pages) → AllFiles (listed_by (list_objects prefix pages))
unfolding list_objects
list_objects-AllFiles prefix (contents pages) = all_heads-AllFiles pages
list_objects-AllFiles prefix (client_error code) = denial-AllFiles _ prefix

-- Each prefix is on one side of a report.
abbrev IsCover : List String → Report → Type 0
IsCover ps r =
    (length r.accessible + length r.denied ≡ length ps)
    × ((p : String) → (contains r.accessible p || contains r.denied p) ≡ contains ps p)

add-IsCover :
    (p : String) (ps : List String) (l : Listing) (o : Option Report) (r : Report)
    → ((r' : Report) → o ≡ some r' → IsCover ps r')
    → add p l o ≡ some r
    → IsCover (p ∷ ps) r
add-IsCover p ps (objects os) none r h done = cc
add-IsCover p ps (denied q) none r h done = cc
add-IsCover p ps broken none r h done = cc
add-IsCover p ps (objects os) (some r') r h done =
    let same : record r' { accessible = p ∷ r'.accessible } ≡ r = cc in
    rw (← same) (let (n, mem) = h r' refl in (omega (arith, n), λ x. ground (arith, mem x)))
add-IsCover p ps (denied q) (some r') r h done =
    let same : record r' { denied = p ∷ r'.denied } ≡ r = cc in
    rw (← same) (let (n, mem) = h r' refl in (omega (arith, n), λ x. ground (arith, mem x)))
add-IsCover p ps broken (some r') r h done = cc

list_command-IsCover :
    (cfg : MirrorConfig) (pages : String → Pages) (ps : List String) (r : Report)
    → list_command cfg pages ps ≡ some r
    → IsCover ps r
unfolding list_command
list_command-IsCover cfg pages [] r done =
    let (a, d) : (r.accessible ≡ []) × (r.denied ≡ []) = (cc, cc) in
    rw (a, d) (omega arith, λ x. refl)
list_command-IsCover cfg pages (p ∷ ps) r done =
    add-IsCover p ps _ _ r (list_command-IsCover cfg pages ps) done

-- A report names each prefix as accessible or denied, and no other, with as many names as there are
-- prefixes.
list_command-covers :
    (cfg : MirrorConfig) (pages : String → Pages) (ps : List String) (r : Report) (p : String)
    → list_command cfg pages ps ≡ some r
    → (length r.accessible + length r.denied ≡ length ps)
      × ((contains r.accessible p || contains r.denied p) ≡ contains ps p)
list_command-covers cfg pages ps r p done =
    let (n, mem) = list_command-IsCover cfg pages ps r done in (n, mem p)
