-- ===== src/MassiveMirror/Sync/Complete.antt =====
-- A run that ends without an exception leaves every listed object with a record that matches it.
use cylon_local_infra.Prelude.{
  String, true, false, ◌||◌, Option, none, some, List, [], ◌∷◌, ◌++◌, ◌≡◌, refl, arith, string_eq,
  ◌==◌, contains, map, All, IsUnique,
}
use cylon_local_infra.Prelude.Dict.{Dict, lookup-insert}
use cylon_local_infra.Prelude.State.{pure, ◌>>=◌}
use cylon_local_infra.MassiveMirror.Config.{MirrorConfig}
use cylon_local_infra.MassiveMirror.Sync.{
  ObjectHead, Listing, objects, denied, broken, Copied, record_of, Stores, Run, M, Flow, continues,
  raised, gcs_blob_name, exists_matching, put, save, while_going, sync_object, sync_objects,
  sync_listing, sync_prefixes, sort_denied, sync_listed, sync_all,
}
use cylon_local_infra.MassiveMirror.Sync.Counted.{listed_by, listed, or_no_prefix, all_listed}

module _ (cfg : MirrorConfig) (S : Stores) (dest : String) where
  abbrev pub blob : ObjectHead → String
  blob o = gcs_blob_name dest o.key

  abbrev pub blobs : List ObjectHead → List String
  blobs os = map (λ (o : ObjectHead). gcs_blob_name dest o.key) os

  -- The object will be skipped.
  abbrev pub IsMatched : Dict String Copied → ObjectHead → Type 0
  IsMatched copied o = exists_matching copied (blob o) o.size o.etag ≡ true

  abbrev pub AllMatched : Dict String Copied → List ObjectHead → Type 0
  AllMatched copied os = All (IsMatched copied) os

  contains-blobs :
      (xs ys : List ObjectHead) (b : String)
      → contains (blobs (xs ++ ys)) b ≡ (contains (blobs xs) b || contains (blobs ys) b)
  contains-blobs [] ys b = refl
  contains-blobs (x ∷ xs) ys b = ground (arith, contains-blobs xs ys b)

  -- The blobs of `xs` are not those of `ys`.
  abbrev AreApart : List ObjectHead → List ObjectHead → Type 0
  AreApart ys xs = All (λ o. contains (blobs ys) (blob o) ≡ false) xs

  IsUnique-split :
      (xs ys : List ObjectHead)
      → IsUnique (blobs (xs ++ ys))
      → IsUnique (blobs xs) × AreApart ys xs × IsUnique (blobs ys)
  IsUnique-split [] ys h = (tt, tt, h)
  IsUnique-split (x ∷ xs) ys h =
      let (a, b, c) = IsUnique-split xs ys h.1 in
      let (p, q) : (contains (blobs xs) (blob x) ≡ false) × (contains (blobs ys) (blob x) ≡ false) =
        ground (arith, contains-blobs xs ys (blob x), h.0) in
      ((p, a), (q, b), c)

  object_self :
      (o : ObjectHead) (run : Run)
      → (sync_object cfg S dest o run).0 ≡ continues
      → IsMatched (sync_object cfg S dest o run).1.copied o
  unfolding sync_object put save ◌>>=◌ exists_matching
  object_self o run done = ground (arith, lookup-insert (blob o) (blob o) (record_of o) run.copied)

  object_other :
      (o p : ObjectHead) (run : Run)
      → (blob p == blob o) ≡ false
      → IsMatched run.copied p
      → IsMatched (sync_object cfg S dest o run).1.copied p
  unfolding sync_object put save ◌>>=◌ exists_matching
  object_other o p run other h =
      ground (arith, lookup-insert (blob p) (blob o) (record_of o) run.copied)

  objects_other :
      (os : List ObjectHead) (p : ObjectHead) (run : Run)
      → contains (blobs os) (blob p) ≡ false
      → IsMatched run.copied p
      → IsMatched (sync_objects cfg S dest os run).1.copied p
  unfolding sync_objects ◌>>=◌ pure
  objects_other [] p run out h = h
  objects_other (o ∷ os) p run out h =
      ground (arith, object_other o p run, objects_other os p (sync_object cfg S dest o run).1)

  -- Code that leaves the records of the objects of `xs` as copied.
  abbrev Spares : List ObjectHead → M Flow → Type 0
  Spares xs m = (run : Run) → AllMatched run.copied xs → AllMatched (m run).1.copied xs

  objects-Spares :
      (os xs : List ObjectHead) → AreApart os xs → Spares xs (sync_objects cfg S dest os)
  objects-Spares os [] apart run h = tt
  objects-Spares os (x ∷ xs) apart run h =
      (objects_other os x run apart.0 h.0, objects-Spares os xs apart.1 run h.1)

  listing-Spares :
      (l : Listing) (xs : List ObjectHead)
      → AreApart (listed_by l) xs
      → Spares xs (sync_listing cfg S dest l)
  unfolding sync_listing pure
  listing-Spares (objects os) xs apart run h = objects-Spares os xs apart run h
  listing-Spares (denied p) xs apart run h = h
  listing-Spares broken xs apart run h = h

  going-Spares :
      (rest : M Flow) (f : Flow) (xs : List ObjectHead)
      → Spares xs rest
      → Spares xs (while_going cfg S rest f)
  unfolding pure
  going-Spares rest continues xs h run k = h run k
  going-Spares rest raised xs h run k = k

  apart_split :
      (os ys xs : List ObjectHead) → AreApart (os ++ ys) xs → AreApart os xs × AreApart ys xs
  apart_split os ys [] h = (tt, tt)
  apart_split os ys (x ∷ xs) h =
      let (a, b) = apart_split os ys xs h.1 in
      let (p, q) : (contains (blobs os) (blob x) ≡ false) × (contains (blobs ys) (blob x) ≡ false) =
        ground (arith, contains-blobs os ys (blob x), h.0) in
      ((p, a), (q, b))

  prefixes-Spares :
      (ps : List String) (xs : List ObjectHead)
      → AreApart (listed S ps) xs
      → Spares xs (sync_prefixes cfg S dest ps)
  unfolding sync_prefixes ◌>>=◌ pure
  prefixes-Spares [] xs apart run h = h
  prefixes-Spares (p ∷ ps) xs apart run h =
      let (a, b) = apart_split (listed_by (S.list_objects p)) (listed S ps) xs apart in
      going-Spares _ _ xs (prefixes-Spares ps xs b) _ (listing-Spares (S.list_objects p) xs a run h)

  going_done :
      (rest : M Flow) (f : Flow) (run : Run)
      → (while_going cfg S rest f run).0 ≡ continues
      → f ≡ continues
  unfolding pure
  going_done rest continues run done = refl
  going_done rest raised run done = cc

  going-AllMatched :
      (rest : M Flow) (f : Flow) (run : Run) (xs : List ObjectHead)
      → (f ≡ continues → (rest run).0 ≡ continues → AllMatched (rest run).1.copied xs)
      → (while_going cfg S rest f run).0 ≡ continues
      → AllMatched (while_going cfg S rest f run).1.copied xs
  unfolding pure
  going-AllMatched rest continues run xs h done = h refl done
  going-AllMatched rest raised run xs h done = cc

  objects-AllMatched :
      (os : List ObjectHead) (run : Run)
      → IsUnique (blobs os)
      → (sync_objects cfg S dest os run).0 ≡ continues
      → AllMatched (sync_objects cfg S dest os run).1.copied os
  unfolding sync_objects ◌>>=◌ pure
  objects-AllMatched [] run unique done = tt
  objects-AllMatched (o ∷ os) run unique done =
      let first : (sync_object cfg S dest o run).0 ≡ continues =
        going_done (sync_objects cfg S dest os) _ _ done in
      let run' = (sync_object cfg S dest o run).1 in
      (
        rw first (objects_other os o run' unique.0 (object_self o run first)),
        going-AllMatched (sync_objects cfg S dest os) _ run' os
            (λ _ rest_done. objects-AllMatched os run' unique.1 rest_done) done,
      )

  listing-AllMatched :
      (l : Listing) (run : Run)
      → IsUnique (blobs (listed_by l))
      → (sync_listing cfg S dest l run).0 ≡ continues
      → AllMatched (sync_listing cfg S dest l run).1.copied (listed_by l)
  unfolding sync_listing pure
  listing-AllMatched (objects os) run unique done = objects-AllMatched os run unique done
  listing-AllMatched (denied p) run unique done = tt
  listing-AllMatched broken run unique done = tt

  All-append :
      (copied : Dict String Copied) (xs ys : List ObjectHead)
      → AllMatched copied xs
      → AllMatched copied ys
      → AllMatched copied (xs ++ ys)
  All-append copied [] ys h k = k
  All-append copied (x ∷ xs) ys h k = (h.0, All-append copied xs ys h.1 k)

  prefixes-AllMatched :
      (ps : List String) (run : Run)
      → IsUnique (blobs (listed S ps))
      → (sync_prefixes cfg S dest ps run).0 ≡ continues
      → AllMatched (sync_prefixes cfg S dest ps run).1.copied (listed S ps)
  unfolding sync_prefixes ◌>>=◌ pure
  prefixes-AllMatched [] run unique done = tt
  prefixes-AllMatched (p ∷ ps) run unique done =
      let l = S.list_objects p in
      let first : (sync_listing cfg S dest l run).0 ≡ continues =
        going_done (sync_prefixes cfg S dest ps) _ _ done in
      let (u, apart, v) = IsUnique-split (listed_by l) (listed S ps) unique in
      rw first (
        All-append _ (listed_by l) (listed S ps)
          (prefixes-Spares ps (listed_by l) apart _ (listing-AllMatched l run u first))
          (prefixes-AllMatched ps _ v (rw first at done)))

  sort-AllMatched :
      (f : Flow) (run : Run) (xs : List ObjectHead)
      → (f ≡ continues → AllMatched run.copied xs)
      → (sort_denied cfg S f run).0 ≡ continues
      → AllMatched (sort_denied cfg S f run).1.copied xs
  sort-AllMatched continues run xs h done = h refl
  sort-AllMatched raised run xs h done = cc

  listed-AllMatched :
      (o : Option (List String)) (run : Run)
      → IsUnique (blobs (listed S (or_no_prefix o)))
      → (sync_listed cfg S dest o run).0 ≡ continues
      → AllMatched (sync_listed cfg S dest o run).1.copied (listed S (or_no_prefix o))
  unfolding ◌>>=◌ pure
  listed-AllMatched none run unique done = cc
  listed-AllMatched (some ps) run unique done =
      sort-AllMatched _ _ _ (prefixes-AllMatched ps run unique) done

  pub sync_all-AllMatched :
      (file : Dict String Copied)
      → IsUnique (blobs (all_listed S))
      → (sync_all cfg S dest file).0 ≡ continues
      → AllMatched (sync_all cfg S dest file).1.copied (all_listed S)
  unfolding sync_all
  sync_all-AllMatched file unique done = listed-AllMatched S.list_prefixes _ unique done
