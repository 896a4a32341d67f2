-- ===== src/NgcImage/Registry/Link.antt =====
-- The `Link` header: the address of the next page.
use Prim.Native.Char.{code}
use cylon_local_infra.Prelude.{
  String, ◌<>◌, Bool, ◌&&◌, not, Option, none, some, List, [], ◌∷◌, if◌then◌else◌, ◌==◌, string_eq,
  eqb,
}
use cylon_local_infra.Prelude.Text.{lstrip, is_space, starts_with, drop_chars}

-- A first character in front of the first part, which is there always.
abbrev onto_first : String → List String → List String
onto_first c [] = c ∷ []
onto_first c (part ∷ parts) = (c <> part) ∷ parts

-- `text.split(",")`
unfoldable pub split_commas : String → List String
split_commas String.[] = "" ∷ []
split_commas (String.◌∷◌ c s) =
    let rest = split_commas s in
    if eqb (code c) b',' then "" ∷ rest else onto_first (String.◌∷◌ c String.[]) rest

-- The text up to the first `>`, and what stands behind it.
unfoldable pub until_closed : (so_far : String) → String → Option (String × String)
until_closed so_far String.[] = none
until_closed so_far (String.◌∷◌ c s) =
    let rest = until_closed (so_far <> String.◌∷◌ c String.[]) s in
    if eqb (code c) b'>' then some (so_far, s) else rest

abbrev is_next : (behind : String) → Bool
is_next behind =
    let after = lstrip is_space behind in
    starts_with after ";" && starts_with (lstrip is_space (drop_chars 1 after)) "rel=\"next\""

abbrev target_if_next : Option (String × String) → Option String
target_if_next none = none
target_if_next (some (target, behind)) =
    if not (target == "") && is_next behind then some target else none

-- `re.match(r'\s*<([^>]+)>\s*;\s*rel="next"', part)`, for the whitespace of ASCII.
unfoldable pub match_next : String → Option String
match_next part =
    let trimmed = lstrip is_space part in
    if starts_with trimmed "<"
    then target_if_next (until_closed "" (drop_chars 1 trimmed))
    else none

-- The first part that matches.
unfoldable pub first_next : List String → Option String
first_next [] = none
first_next (part ∷ parts) =
    let later = first_next parts in
    elim (match_next part) [ none ↦ later | some target ↦ some target ]

unfoldable pub next_link :
    (urljoin : (base url : String) → String) → (url link : String) → Option String
next_link urljoin url link = elim (first_next (split_commas link)) [
  | none ↦ none
  | some target ↦ some (urljoin url target)
]
