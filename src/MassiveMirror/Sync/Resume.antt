-- ===== src/MassiveMirror/Sync/Resume.antt =====
-- What the state file holds at any point of a run, so that the next run can go on from it.
use cylon_local_infra.Prelude.{
  String, true, Option, none, some, List, [], ◌∷◌, ◌≡◌, ◌⊎◌, inl, inr, refl, arith, string_eq,
}
use cylon_local_infra.Prelude.Dict.{Dict, lookup, lookup-insert}
use cylon_local_infra.Prelude.State.{◌>>=◌, Keeps, Keeps-bind, keeps_rules}
use cylon_local_infra.MassiveMirror.Config.{MirrorConfig}
use cylon_local_infra.MassiveMirror.Sync.{
  ObjectHead, Listing, objects, denied, broken, Copied, record_of, Event, uploaded, wrote, written,
  cut, Stores, Run, M, Flow, continues, raised, gcs_blob_name, uri_of, put, save, while_going,
  sync_object, sync_objects, sync_listing, sync_prefixes, sort_denied, sync_listed, sync_all,
}
use cylon_local_infra.MassiveMirror.Sync.Counted.{cuts, sync_all-uncut}

-- Some write of the state file raised.
abbrev pub WasCut : List Event → Type 0
WasCut [] = ⊥
WasCut (wrote (cut left) ∷ h) = Unit
WasCut (wrote written ∷ h) = WasCut h
WasCut (uploaded u done ∷ h) = WasCut h

-- Some upload of this URI succeeded.
abbrev pub WasUploaded : String → List Event → Type 0
WasUploaded uri [] = ⊥
WasUploaded uri (wrote w ∷ h) = WasUploaded uri h
WasUploaded uri (uploaded u done ∷ h) = ((u ≡ uri) × (done ≡ true)) ⊎ WasUploaded uri h

module _ (cfg : MirrorConfig) (S : Stores) (old : Dict String Copied) (blob : String) where
  -- The file is what the memory holds, unless a write of it raised, and the record of `blob` is the
  -- old one or of an upload.
  abbrev pub IsResumable : Run → Type 0
  IsResumable run =
      ((run.file ≡ some run.copied) ⊎ WasCut run.history)
      × ((lookup blob run.copied ≡ lookup blob old) ⊎ WasUploaded (uri_of cfg S blob) run.history)

  IsResumable-put : (b : String) (obj : ObjectHead) → Keeps IsResumable (put cfg S b obj)
  unfolding put save
  IsResumable-put b obj = record {
    at = λ run h. ground (arith, h, lookup-insert blob b (record_of obj) run.copied);
  }

  IsResumable-object :
      (dest : String) (obj : ObjectHead) → Keeps IsResumable (sync_object cfg S dest obj)
  unfolding sync_object ◌>>=◌
  IsResumable-object dest obj = record {
    at = λ run h. ground (arith, h, (IsResumable-put (gcs_blob_name dest obj.key) obj).at run h);
  }

  IsResumable-going :
      (rest : M Flow) (f : Flow)
      → Keeps IsResumable rest
      → Keeps IsResumable (while_going cfg S rest f)
  IsResumable-going rest continues h = h
  IsResumable-going rest raised h = search keeps_rules

  IsResumable-objects :
      (dest : String) (objs : List ObjectHead) → Keeps IsResumable (sync_objects cfg S dest objs)
  unfolding sync_objects
  IsResumable-objects dest [] = search keeps_rules
  IsResumable-objects dest (o ∷ os) =
      Keeps-bind _ _ (IsResumable-object dest o)
        (λ f. IsResumable-going _ f (IsResumable-objects dest os))

  IsResumable-listing :
      (dest : String) (l : Listing) → Keeps IsResumable (sync_listing cfg S dest l)
  unfolding sync_listing
  IsResumable-listing dest (objects objs) = IsResumable-objects dest objs
  IsResumable-listing dest (denied p) = record { at = λ run h. h }
  IsResumable-listing dest broken = search keeps_rules

  IsResumable-prefixes :
      (dest : String) (ps : List String) → Keeps IsResumable (sync_prefixes cfg S dest ps)
  unfolding sync_prefixes
  IsResumable-prefixes dest [] = search keeps_rules
  IsResumable-prefixes dest (p ∷ ps) =
      Keeps-bind _ _ (IsResumable-listing dest _)
        (λ f. IsResumable-going _ f (IsResumable-prefixes dest ps))

  IsResumable-sort : (f : Flow) → Keeps IsResumable (sort_denied cfg S f)
  IsResumable-sort continues = record { at = λ run h. h }
  IsResumable-sort raised = record { at = λ run h. h }

  IsResumable-listed :
      (dest : String) (o : Option (List String)) → Keeps IsResumable (sync_listed cfg S dest o)
  IsResumable-listed dest none = search keeps_rules
  IsResumable-listed dest (some ps) = Keeps-bind _ _ (IsResumable-prefixes dest ps) IsResumable-sort

  -- However a run ends, the state file holds what the memory holds, or a write of that file raised;
  -- and what the memory says of a blob is what the file said before the run, or an upload of that blob
  -- succeeded in the run.
  pub sync_all-IsResumable : (dest : String) → IsResumable (sync_all cfg S dest old).1
  unfolding sync_all
  sync_all-IsResumable dest = (IsResumable-listed dest S.list_prefixes).at _ (inl refl, inl refl)

WasCut-cuts : (h : List Event) → WasCut h → cuts h ≡ 0 → ⊥
unfolding cuts
WasCut-cuts [] was none_cut = was
WasCut-cuts (wrote (cut left) ∷ h) was none_cut = absurd (omega (arith, none_cut))
WasCut-cuts (wrote written ∷ h) was none_cut = WasCut-cuts h was none_cut
WasCut-cuts (uploaded u done ∷ h) was none_cut = WasCut-cuts h was none_cut

-- After a run that ends without an exception, the state file holds what the memory holds.
pub sync_all-file :
    (cfg : MirrorConfig) (S : Stores) (dest : String) (old : Dict String Copied)
    → (sync_all cfg S dest old).0 ≡ continues
    → (sync_all cfg S dest old).1.file ≡ some (sync_all cfg S dest old).1.copied
sync_all-file cfg S dest old done = elim ((sync_all-IsResumable cfg S old "" dest).0) [
  | inl same ↦ same
  | inr was ↦ absurd (WasCut-cuts _ was (sync_all-uncut cfg S dest old done))
]
