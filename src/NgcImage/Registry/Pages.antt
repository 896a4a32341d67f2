-- ===== src/NgcImage/Registry/Pages.antt =====
-- `fetch_tags` over the pages that the registry serves.
use mathlib.Core.List as Lists
use cylon_local_infra.Prelude.{
  ℕ, zero, suc, ◌≤◌, String, ◌<>◌, false, ◌||◌, Option, none, some, List, [], ◌∷◌, ◌++◌, contains,
  IsUnique, ◌==◌, string_eq, ◌≡◌, refl, sym, ap, ◌∙◌, arith,
}
use cylon_local_infra.Prelude.Dict.{Dict}
use cylon_local_infra.Prelude.State.{pure, ◌>>=◌}
use cylon_local_infra.NgcImage.Config.{ImageSpec}
use cylon_local_infra.NgcImage.Reconcile.{insert_sorted, sorted}
use cylon_local_infra.NgcImage.Select.{unique_from}
use cylon_local_infra.NgcImage.Select.Kept.{unique_from-mem, unique_from-IsUnique}
use cylon_local_infra.NgcImage.Registry.Token.{Http, get_bearer_token}
use cylon_local_infra.NgcImage.Registry.{
  fetched, registry, name, fetch_page, all_tags, page_loop, authorized, first_url, fetch_tags,
}

insert_sorted-contains :
    (x : String) (xs : List String) (t : String)
    → contains (insert_sorted x xs) t ≡ (t == x || contains xs t)
unfolding insert_sorted
insert_sorted-contains x [] t = refl
insert_sorted-contains x (y ∷ ys) t = ground (arith, insert_sorted-contains x ys t)

sorted-contains : (xs : List String) (t : String) → contains (sorted xs) t ≡ contains xs t
unfolding sorted
sorted-contains [] t = refl
sorted-contains (x ∷ xs) t =
    ground (arith, insert_sorted-contains x (sorted xs) t, sorted-contains xs t)

insert_sorted-IsUnique :
    (x : String) (xs : List String)
    → contains xs x ≡ false
    → IsUnique xs
    → IsUnique (insert_sorted x xs)
unfolding insert_sorted
insert_sorted-IsUnique x [] fresh unique = (refl, tt)
insert_sorted-IsUnique x (y ∷ ys) fresh unique =
    ground (arith, insert_sorted-IsUnique x ys, insert_sorted-contains x ys y)

sorted-IsUnique : (xs : List String) → IsUnique xs → IsUnique (sorted xs)
unfolding sorted
sorted-IsUnique [] unique = tt
sorted-IsUnique (x ∷ xs) (fresh, unique) =
    insert_sorted-IsUnique x (sorted xs) (sorted-contains xs x ∙ fresh) (sorted-IsUnique xs unique)

module _ (N : Http) (headers : Dict String String) where
  -- From a world and an address on, the registry serves pages with these tags in all, and then
  -- names no further page.
  pub data Serves : ℕ → N.World → Option String → List String → Type 0 where
    at_end : {w : N.World} → Serves 0 w none []
    page :
        {n : ℕ} {w : N.World} {url : String} {more rest : List String} {next : Option String}
        → (url == "") ≡ false
        → (fetch_page N headers url w).0 ≡ some (more, next)
        → Serves n (fetch_page N headers url w).1 next rest
        → Serves (suc n) w (some url) (more ++ rest)

  page_loop-Serves :
      (fuel n : ℕ) (w : N.World) (url : Option String) (rest tags : List String)
      → Serves n w url rest
      → n ≤ fuel
      → (page_loop N headers fuel url tags w).0 ≡ all_tags N (tags ++ rest)
  unfolding page_loop pure ◌>>=◌
  page_loop-Serves fuel _ w _ _ tags at_end enough = ap (all_tags N) (sym (Lists.append-nil tags))
  page_loop-Serves zero _ w _ _ tags (page {n} _ _ _) enough = absurd (omega arith)
  page_loop-Serves (suc fuel) _ w _ _ tags
        (page {n} {url = url} {more} {rest} {next} some_url got later) enough =
      let w' = (fetch_page N headers url w).1 in
      let all_rest : (page_loop N headers fuel next (tags ++ more) w').0
          ≡ all_tags N ((tags ++ more) ++ rest) =
        page_loop-Serves fuel n _ next rest (tags ++ more) later (omega arith) in
      rw (some_url, got) (all_rest ∙ ap (all_tags N) (Lists.append_assoc tags more rest))

module _ (N : Http) (spec : ImageSpec) (w : N.World) (image_name token : String) where
  abbrev asked : Option String × N.World
  asked = get_bearer_token N (registry spec) ("repository:" <> image_name <> ":pull") w

  -- When the registry gives a token, and serves the list of tags in finitely many pages, the tags are
  -- fetched with fuel for these pages or more: exactly the tags of all pages, none of them twice.
  pub fetch_tags-Serves :
      (n fuel : ℕ) (tags : List String)
      → name spec ≡ some image_name
      → asked.0 ≡ some token
      → Serves N (authorized N token) n asked.1 (some (first_url N (registry spec) image_name)) tags
      → n ≤ fuel
      → (result : List String) × ((fetch_tags N fuel spec w).0 ≡ fetched result)
        × ((t : String) → contains result t ≡ contains tags t)
        × IsUnique result
  unfolding fetch_tags ◌>>=◌
  fetch_tags-Serves n fuel tags named given served enough = (
    sorted (unique_from [] tags),
    rw (named, given) (page_loop-Serves N (authorized N token) fuel n _ _ tags [] served enough),
    λ t. sorted-contains (unique_from [] tags) t ∙ ground (arith, unique_from-mem [] tags t),
    sorted-IsUnique _ (unique_from-IsUnique [] tags),
  )
