-- ===== src/MassiveMirror/Sync/Counted.antt =====
-- What a run that ends without an exception counts.
use cylon_local_infra.Prelude.{
  ℕ, suc, ◌+◌, String, true, false, Option, none, some, List, [], ◌∷◌, ◌++◌, ◌≡◌, refl, arith,
  string_eq, length, length-append,
}
use cylon_local_infra.Prelude.Dict.{Dict}
use cylon_local_infra.Prelude.State.{pure, ◌>>=◌}
use cylon_local_infra.MassiveMirror.Config.{MirrorConfig}
use cylon_local_infra.MassiveMirror.Sync.{
  ObjectHead, Listing, objects, denied, broken, Copied, Event, uploaded, wrote, written, cut,
  Stores, Run, Flow, continues, raised, put, save, sync_object, sync_objects, sync_listing,
  sync_prefixes, sort_denied, sync_listed, sync_all, no_result,
}

abbrev pub listed_by : Listing → List ObjectHead
listed_by (objects objs) = objs
listed_by (denied p) = []
listed_by broken = []

-- The objects that the source lists below the prefixes it does not deny.
abbrev pub listed : Stores → List String → List ObjectHead
listed S [] = []
listed S (p ∷ ps) = listed_by (S.list_objects p) ++ listed S ps

abbrev pub or_no_prefix : Option (List String) → List String
or_no_prefix none = []
or_no_prefix (some ps) = ps

abbrev pub all_listed : Stores → List ObjectHead
all_listed S = listed S (or_no_prefix S.list_prefixes)

-- The uploads that succeeded.
unfoldable pub uploads : List Event → ℕ
uploads [] = 0
uploads (uploaded u true ∷ h) = suc (uploads h)
uploads (uploaded u false ∷ h) = uploads h
uploads (wrote w ∷ h) = uploads h

-- The writes of the state file that raised.
unfoldable pub cuts : List Event → ℕ
cuts [] = 0
cuts (uploaded u done ∷ h) = cuts h
cuts (wrote written ∷ h) = cuts h
cuts (wrote (cut left) ∷ h) = suc (cuts h)

abbrev pub total : Run → ℕ
total run = run.result.copied + run.result.skipped

module _ (cfg : MirrorConfig) (S : Stores) (dest : String) where
  abbrev IsCounted : (before after : Run) → ℕ → Type 0
  IsCounted before after n =
      (total after ≡ total before + n)
      × (after.result.copied + uploads before.history
          ≡ before.result.copied + uploads after.history)
      × (cuts after.history ≡ cuts before.history)

  object-IsCounted :
      (o : ObjectHead) (run : Run)
      → (sync_object cfg S dest o run).0 ≡ continues
      → IsCounted run (sync_object cfg S dest o run).1 1
  unfolding sync_object put save uploads cuts ◌>>=◌
  object-IsCounted o run done = ground arith

  objects-IsCounted :
      (os : List ObjectHead) (run : Run)
      → (sync_objects cfg S dest os run).0 ≡ continues
      → IsCounted run (sync_objects cfg S dest os run).1 (length os)
  unfolding sync_objects ◌>>=◌ pure
  objects-IsCounted [] run done = ground arith
  objects-IsCounted (o ∷ os) run done =
      ground (arith, object-IsCounted o run, objects-IsCounted os (sync_object cfg S dest o run).1)

  listing-IsCounted :
      (l : Listing) (run : Run)
      → (sync_listing cfg S dest l run).0 ≡ continues
      → IsCounted run (sync_listing cfg S dest l run).1 (length (listed_by l))
  unfolding sync_listing pure
  listing-IsCounted (objects os) run done = objects-IsCounted os run done
  listing-IsCounted (denied p) run done = ground arith
  listing-IsCounted broken run done = cc

  prefixes-IsCounted :
      (ps : List String) (run : Run)
      → (sync_prefixes cfg S dest ps run).0 ≡ continues
      → IsCounted run (sync_prefixes cfg S dest ps run).1 (length (listed S ps))
  unfolding sync_prefixes ◌>>=◌ pure
  prefixes-IsCounted [] run done = ground arith
  prefixes-IsCounted (p ∷ ps) run done = ground (
    arith,
    listing-IsCounted (S.list_objects p) run,
    prefixes-IsCounted ps (sync_listing cfg S dest (S.list_objects p) run).1,
    length-append (listed_by (S.list_objects p)) (listed S ps),
  )

  sort-IsCounted :
      (before : Run) (f : Flow) (run : Run) (n : ℕ)
      → (f ≡ continues → IsCounted before run n)
      → (sort_denied cfg S f run).0 ≡ continues
      → IsCounted before (sort_denied cfg S f run).1 n
  sort-IsCounted before continues run n h done = h refl
  sort-IsCounted before raised run n h done = cc

  listed-IsCounted :
      (o : Option (List String)) (run : Run)
      → (sync_listed cfg S dest o run).0 ≡ continues
      → IsCounted run (sync_listed cfg S dest o run).1 (length (listed S (or_no_prefix o)))
  unfolding ◌>>=◌ pure
  listed-IsCounted none run done = cc
  listed-IsCounted (some ps) run done = sort-IsCounted run _ _ _ (prefixes-IsCounted ps run) done

  abbrev start : Dict String Copied → Run
  start file = record { copied = file; file = some file; history = []; result = no_result }

  -- No write of the state file raised in a run that ends without an exception.
  pub sync_all-uncut :
      (file : Dict String Copied)
      → (sync_all cfg S dest file).0 ≡ continues
      → cuts (sync_all cfg S dest file).1.history ≡ 0
  unfolding sync_all cuts
  sync_all-uncut file done = (listed-IsCounted S.list_prefixes (start file) done).2

  -- A run that ends without an exception counts as many copies as uploads succeeded in it, and the
  -- copies and the skipped objects are together as many as the objects that are listed below the
  -- prefixes that are not denied.
  pub sync_all-counts :
      (file : Dict String Copied)
      → (sync_all cfg S dest file).0 ≡ continues
      → (total (sync_all cfg S dest file).1 ≡ length (all_listed S))
        × ((sync_all cfg S dest file).1.result.copied
            ≡ uploads (sync_all cfg S dest file).1.history)
  unfolding sync_all uploads
  sync_all-counts file done =
      let (a, b, c) = listed-IsCounted S.list_prefixes (start file) done in
      (omega (arith, a), omega (arith, b))
