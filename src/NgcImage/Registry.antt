-- ===== src/NgcImage/Registry.antt =====
-- The registry protocol behind `fetch_tags`: the token challenge, and the pages of the list of tags.
-- A `RegistryError`, or another exception that the caller catches with it, is `none`.
pub mod Challenge
pub mod Token
pub mod Link
pub mod Pages
mod Tests
use cylon_local_infra.Prelude.{
  ℕ, zero, suc, String, ◌<>◌, Bool, true, false, Option, none, some, List, [], ◌∷◌, ◌++◌,
  if◌then◌else◌, ◌==◌, string_eq, eqb,
}
use cylon_local_infra.Prelude.Dict.{Dict, lookup, insert}
use cylon_local_infra.Prelude.Json.{
  Json, text, boolean, number, array, object, Fields, items_list, field_names, field_of,
  get_default, null, truth, str,
}
use cylon_local_infra.Prelude.State.{State, pure, ◌>>=◌}
use cylon_local_infra.NgcImage.Config.{ImageSpec}
use cylon_local_infra.NgcImage.Reconcile.{sorted}
use cylon_local_infra.NgcImage.Select.{unique_from}
use cylon_local_infra.NgcImage.Registry.Challenge.{parse_www_auth}
use cylon_local_infra.NgcImage.Registry.Link.{next_link}
use cylon_local_infra.NgcImage.Registry.Token.{
  Http, Response, http_get, ok_body, or_text, get_bearer_token,
}

-- `repo.split("/", 1)`
before_slash : String → String
before_slash String.[] = ""
before_slash (String.◌∷◌ c s) =
    let rest = before_slash s in
    if eqb (Prim.Native.Char.code c) b'/' then "" else String.◌∷◌ c rest

-- `none` when there is no slash, which is an `IndexError`.
behind_slash : String → Option String
behind_slash String.[] = none
behind_slash (String.◌∷◌ c s) =
    let rest = behind_slash s in if eqb (Prim.Native.Char.code c) b'/' then some s else rest

unfoldable pub registry : ImageSpec → String
unfolding before_slash
registry spec = before_slash spec.repo

unfoldable pub name : ImageSpec → Option String
unfolding behind_slash
name spec = behind_slash spec.repo

-- The tags of `data.get("tags") or []`, or `none` where they cannot be texts: a list of anything else
-- raises here or where the tags are matched.
unfoldable pub texts_of : List Json → Option (List String)
texts_of [] = some []
texts_of (text s ∷ rest) = elim (texts_of rest) [ none ↦ none | some ts ↦ some (s ∷ ts) ]
texts_of (_ ∷ rest) = none

-- `tags.extend(text)` takes its characters.
characters : String → List String
characters String.[] = []
characters (String.◌∷◌ c s) = String.◌∷◌ c String.[] ∷ characters s

unfoldable pub tags_of : Json → Option (List String)
unfolding characters
tags_of (array xs) = texts_of (items_list xs)
tags_of (object fs) = some (field_names fs)
tags_of (text s) = some (characters s)
tags_of (number false printed) = none
tags_of (boolean true) = none
tags_of _ = some []

-- What `fetch_tags` comes to. `unfinished` is a fuel that is used up.
pub data Fetch : Type 0 where
  fetched : List String → Fetch
  failed unfinished : Fetch

module _ (N : Http) where
  -- The tags of one page and the address of the next one.
  abbrev page_of : (url : String) → Option Response → Option (List String × Option String)
  page_of url none = none
  page_of url (some r) = elim (ok_body N (some r)) [
    | none ↦ none
    | some fs ↦ elim (tags_of (get_default "tags" null fs)) [
      | none ↦ none
      | some tags ↦ some (tags, next_link N.urljoin url (or_text "" (lookup "link" r.headers)))
    ]
  ]

  unfoldable pub fetch_page :
      (headers : Dict String String) (url : String)
      → State N.World (Option (List String × Option String))
  fetch_page headers url = do r ← http_get N url headers false; pure (page_of url r)

  abbrev pub all_tags : List String → Fetch
  all_tags tags = fetched (sorted (unique_from [] tags))

  abbrev with_page :
      (List String → Option String → State N.World Fetch)
      → Option (List String × Option String)
      → State N.World Fetch
  with_page next_turn none = pure failed
  with_page next_turn (some (more, next)) = next_turn more next

  -- `while url:` reads a page for each unit of fuel. An address that is empty ends the loop too.
  unfoldable pub page_loop :
      (headers : Dict String String) (fuel : ℕ) (url : Option String) (tags : List String)
      → State N.World Fetch
  page_loop headers fuel none tags = pure (all_tags tags)
  page_loop headers zero (some url) tags =
      if url == "" then pure (all_tags tags) else pure unfinished
  page_loop headers (suc fuel) (some url) tags =
      if url == ""
      then pure (all_tags tags)
      else fetch_page headers url
        >>= with_page (λ more next. page_loop headers fuel next (tags ++ more))

  abbrev pub authorized : (token : String) → Dict String String
  authorized token =
      let accept : String × String = ("Accept", "application/json") in
      if token == "" then accept ∷ [] else accept ∷ ("Authorization", "Bearer " <> token) ∷ []

  abbrev pub first_url : (registry_name image_name : String) → String
  first_url registry_name image_name =
      "https://" <> registry_name <> "/v2/" <> image_name <> "/tags/list"

  abbrev with_token :
      (fuel : ℕ) (registry_name image_name : String) → Option String → State N.World Fetch
  with_token fuel registry_name image_name none = pure failed
  with_token fuel registry_name image_name (some token) =
      page_loop (authorized token) fuel (some (first_url registry_name image_name)) []

  abbrev fetch_named : (fuel : ℕ) (registry_name : String) → Option String → State N.World Fetch
  fetch_named fuel registry_name none = pure failed
  fetch_named fuel registry_name (some image_name) = do
    token ← get_bearer_token N registry_name ("repository:" <> image_name <> ":pull")
    with_token fuel registry_name image_name token

  unfoldable pub fetch_tags : (fuel : ℕ) → ImageSpec → State N.World Fetch
  fetch_tags fuel spec = fetch_named fuel (registry spec) (name spec)
