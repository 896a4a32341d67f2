-- ===== src/Autoupgrade/Candidate/Newest.antt =====
-- That the tag found is the newest of the eligible ones.
use cylon_local_infra.Prelude.{
  String, Bool, true, false, Option, none, some, List, [], ◌∷◌, All, ◌≡◌, ◌⊎◌, string_eq,
}
use cylon_local_infra.Prelude.Dict.{Dict}
use cylon_local_infra.NgcImage.Version.{version_key, tuple_lt}
use cylon_local_infra.NgcImage.Store.{Store, Entry}
use cylon_local_infra.Autoupgrade.Config.{Config}
use cylon_local_infra.Autoupgrade.Candidate.{Found, is_eligible, found_in}

-- The first tag is not older than the second.
abbrev pub IsNotOlder : Found → Found → Type 0
IsNotOlder f g = tuple_lt (version_key f.0) (version_key g.0) ≡ false

module _ (matches : (pattern tag : String) → Bool) (cfg : Config) where
  -- The finds in the entries that pass the guards.
  abbrev pub eligible : Dict String Entry → List Found
  eligible [] = []
  eligible ((key, e) ∷ rest) = elim (is_eligible matches cfg key e) [
    | true ↦ found_in matches cfg key e ∷ eligible rest
    | false ↦ eligible rest
  ]

  abbrev pub IsIn : Found → List Found → Type 0
  IsIn f [] = ⊥
  IsIn f (g ∷ gs) = (f ≡ g) ⊎ IsIn f gs

  -- `f` is the best so far or one of the list, and not older than either.
  abbrev IsBest : Option Found → List Found → Found → Type 0
  IsBest none gs f = IsIn f gs × All (IsNotOlder f) gs
  IsBest (some b) gs f = ((f ≡ b) ⊎ IsIn f gs) × IsNotOlder f b × All (IsNotOlder f) gs
