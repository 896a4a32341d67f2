-- ===== src/MassiveMirror/Sync/Again.antt =====
-- A run over a mirror that is up to date.
use cylon_local_infra.Prelude.{
  String, Option, none, some, List, [], ◌∷◌, ◌++◌, ◌≡◌, refl, ◌∙◌, IsUnique, string_eq,
}
use cylon_local_infra.Prelude.Dict.{Dict}
use cylon_local_infra.Prelude.State.{pure, ◌>>=◌}
use cylon_local_infra.MassiveMirror.Config.{MirrorConfig}
use cylon_local_infra.MassiveMirror.Sync.{
  ObjectHead, Listing, objects, denied, broken, Copied, Stores, Run, M, Flow, continues, raised,
  while_going, sync_object, sync_objects, sync_listing, sync_prefixes, sort_denied, sync_listed,
  sync_all,
}
use cylon_local_infra.MassiveMirror.Sync.Counted.{listed_by, listed, or_no_prefix, all_listed}
use cylon_local_infra.MassiveMirror.Sync.Resume.{sync_all-file}
use cylon_local_infra.MassiveMirror.Sync.Complete.{
  IsMatched, AllMatched, blobs, sync_all-AllMatched,
}

-- The records, the state file, the uploads and the count of copies stay as they are.
abbrev pub IsIdle : Run → Run → Type 0
IsIdle before after =
    (after.copied ≡ before.copied)
    × (after.file ≡ before.file)
    × (after.history ≡ before.history)
    × (after.result.copied ≡ before.result.copied)

module _ (cfg : MirrorConfig) (S : Stores) (dest : String) where
  object-IsIdle :
      (o : ObjectHead) (run : Run)
      → IsMatched cfg S dest run.copied o
      → IsIdle run (sync_object cfg S dest o run).1
  unfolding sync_object
  object-IsIdle o run h = rw h (refl, refl, refl, refl)

  objects-IsIdle :
      (os : List ObjectHead) (run : Run)
      → AllMatched cfg S dest run.copied os
      → IsIdle run (sync_objects cfg S dest os run).1
  unfolding sync_objects sync_object ◌>>=◌ pure
  objects-IsIdle [] run h = (refl, refl, refl, refl)
  objects-IsIdle (o ∷ os) run h = rw (h.0) (objects-IsIdle os _ h.1)

  listing-IsIdle :
      (l : Listing) (run : Run)
      → AllMatched cfg S dest run.copied (listed_by l)
      → IsIdle run (sync_listing cfg S dest l run).1
  unfolding sync_listing pure
  listing-IsIdle (objects os) run h = objects-IsIdle os run h
  listing-IsIdle (denied p) run h = (refl, refl, refl, refl)
  listing-IsIdle broken run h = (refl, refl, refl, refl)

  AllMatched-split :
      (copied : Dict String Copied) (xs ys : List ObjectHead)
      → AllMatched cfg S dest copied (xs ++ ys)
      → AllMatched cfg S dest copied xs × AllMatched cfg S dest copied ys
  AllMatched-split copied [] ys h = (tt, h)
  AllMatched-split copied (x ∷ xs) ys h =
      let (a, b) = AllMatched-split copied xs ys h.1 in ((h.0, a), b)

  IsIdle-trans : (a b c : Run) → IsIdle a b → IsIdle b c → IsIdle a c
  IsIdle-trans a b c h k = (k.0 ∙ h.0, k.1 ∙ h.1, k.2 ∙ h.2, k.3 ∙ h.3)

  going-IsIdle :
      (rest : M Flow) (f : Flow) (run : Run)
      → IsIdle run (rest run).1
      → IsIdle run (while_going cfg S rest f run).1
  unfolding pure
  going-IsIdle rest continues run h = h
  going-IsIdle rest raised run h = (refl, refl, refl, refl)

  prefixes-IsIdle :
      (ps : List String) (run : Run)
      → AllMatched cfg S dest run.copied (listed S ps)
      → IsIdle run (sync_prefixes cfg S dest ps run).1
  unfolding sync_prefixes ◌>>=◌ pure
  prefixes-IsIdle [] run h = (refl, refl, refl, refl)
  prefixes-IsIdle (p ∷ ps) run h =
      let l = S.list_objects p in
      let (a, b) = AllMatched-split run.copied (listed_by l) (listed S ps) h in
      let idle = listing-IsIdle l run a in
      let (f, mid) = sync_listing cfg S dest l run in
      IsIdle-trans run mid (while_going cfg S (sync_prefixes cfg S dest ps) f mid).1 idle
        (going-IsIdle (sync_prefixes cfg S dest ps) f mid (prefixes-IsIdle ps mid (rw (idle.0) b)))

  sort-IsIdle : (f : Flow) (run : Run) → IsIdle run (sort_denied cfg S f run).1
  sort-IsIdle continues run = (refl, refl, refl, refl)
  sort-IsIdle raised run = (refl, refl, refl, refl)

  listed-IsIdle :
      (o : Option (List String)) (run : Run)
      → AllMatched cfg S dest run.copied (listed S (or_no_prefix o))
      → IsIdle run (sync_listed cfg S dest o run).1
  unfolding ◌>>=◌ pure
  listed-IsIdle none run h = (refl, refl, refl, refl)
  listed-IsIdle (some ps) run h =
      let (f, mid) = sync_prefixes cfg S dest ps run in
      IsIdle-trans run mid (sort_denied cfg S f mid).1 (prefixes-IsIdle ps run h)
        (sort-IsIdle f mid)

  -- After a run that ends without an exception, and with no two listed objects under one blob name,
  -- the state file holds its records, and a second run over the same source that starts from them
  -- uploads nothing, copies nothing and keeps the state file.
  pub sync_all-again :
      (file : Dict String Copied)
      → IsUnique (blobs cfg S dest (all_listed S))
      → (sync_all cfg S dest file).0 ≡ continues
      → let first = (sync_all cfg S dest file).1.copied in
        let second = (sync_all cfg S dest first).1 in
        ((sync_all cfg S dest file).1.file ≡ some first)
        × (second.history ≡ [])
        × (second.result.copied ≡ 0)
        × (second.file ≡ some first)
  unfolding sync_all
  sync_all-again file unique done =
      let (a, b, c, d) =
        listed-IsIdle S.list_prefixes _ (sync_all-AllMatched cfg S dest file unique done) in
      (sync_all-file cfg S dest file done, c, d, b)
