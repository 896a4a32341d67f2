-- ===== src/MassiveMirror/Source.antt =====
-- `BotoSource` over the pages that the S3 client returns, and `_list_command`.
pub mod Listed
use cylon_local_infra.Prelude.{
  ℕ, String, ◌<>◌, Bool, true, false, ◌&&◌, ◌||◌, not, Option, none, some, List, [], ◌∷◌, ◌++◌,
  contains, if◌then◌else◌, ◌==◌, string_eq, eqb,
}
use cylon_local_infra.Prelude.Text.{strip, ends_with}
use cylon_local_infra.MassiveMirror.Config.{MirrorConfig}
use cylon_local_infra.MassiveMirror.Sync.{ObjectHead, Listing, objects, denied, broken}

-- An item of `Contents`; a field that is missing is empty or 0.
pub record Item : Type 0 where
  pub key : String
  pub size : ℕ
  pub etag : String

-- What the pages of a prefix are: their items, or a `ClientError` with its code.
pub data Pages : Type 0 where
  contents : List (List Item) → Pages
  client_error : (code : String) → Pages

abbrev is_quote : ℕ → Bool
is_quote c = eqb c b'"'

abbrev pub is_file : String → Bool
is_file key = not (key == "" || ends_with key "/")

abbrev head_of : Item → ObjectHead
head_of i = record { key = i.key; size = i.size; etag = strip is_quote i.etag }

unfoldable pub heads_of : List Item → List ObjectHead
heads_of [] = []
heads_of (i ∷ is) = let rest = heads_of is in if is_file i.key then head_of i ∷ rest else rest

unfoldable pub all_heads : List (List Item) → List ObjectHead
all_heads [] = []
all_heads (page ∷ pages) = heads_of page ++ all_heads pages

abbrev denial_codes : List String
denial_codes = "AccessDenied" ∷ "403" ∷ "AllAccessDisabled" ∷ []

unfoldable pub list_objects : (prefix : String) → Pages → Listing
list_objects prefix (contents pages) = objects (all_heads pages)
list_objects prefix (client_error code) =
    if contains denial_codes code then denied prefix else broken

-- `CommonPrefixes` of the pages; a prefix that is missing is empty.
unfoldable pub prefixes_of : List String → List String
prefixes_of [] = []
prefixes_of (p ∷ ps) = let rest = prefixes_of ps in if p == "" then rest else p ∷ rest

unfoldable pub list_prefixes : List (List String) → List String
list_prefixes [] = []
list_prefixes (page ∷ pages) = prefixes_of page ++ list_prefixes pages

-- What `_list_command` prints.
pub record Report : Type 0 where
  pub accessible : List String
  pub denied : List String
  pub dest : String

abbrev add : String → Listing → Option Report → Option Report
add prefix (objects os) (some r) = some (record r { accessible = prefix ∷ r.accessible })
add prefix (denied p) (some r) = some (record r { denied = prefix ∷ r.denied })
add prefix broken _ = none
add prefix _ none = none

-- `none` is an exception.
unfoldable pub list_command :
    MirrorConfig → (pages : String → Pages) → (prefixes : List String) → Option Report
list_command cfg pages [] = some (record {
  accessible = [];
  denied = [];
  dest = "gs://" <> cfg.dest_bucket <> "/" <> cfg.dest_prefix <> "/";
})
list_command cfg pages (p ∷ ps) = add p (list_objects p (pages p)) (list_command cfg pages ps)
