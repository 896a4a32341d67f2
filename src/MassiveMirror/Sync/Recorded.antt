-- ===== src/MassiveMirror/Sync/Recorded.antt =====
-- What stands in the records of the listed objects after a run that ends without an exception.
use cylon_local_infra.Prelude.{
  ℕ, String, true, false, ◌&&◌, ◌⊎◌, eqb, Option, none, some, List, [], ◌∷◌, ◌≡◌, refl, arith,
  string_eq, All, IsUnique,
}
use cylon_local_infra.Prelude.Dict.{Dict, lookup}
use cylon_local_infra.MassiveMirror.Config.{MirrorConfig}
use cylon_local_infra.MassiveMirror.Sync.{
  ObjectHead, Copied, Stores, Run, continues, uri_of, size_or_zero, same_etag, exists_matching,
  sync_all,
}
use cylon_local_infra.MassiveMirror.Sync.Counted.{all_listed}
use cylon_local_infra.MassiveMirror.Sync.Resume.{WasUploaded, sync_all-IsResumable}
use cylon_local_infra.MassiveMirror.Sync.Complete.{AllMatched, blob, blobs, sync_all-AllMatched}

module _ (cfg : MirrorConfig) (S : Stores) (dest : String) where
  -- The record of the object's blob has its size and its etag, and it is that of `old` or the blob was
  -- uploaded. A size of 0 may be missing.
  abbrev pub IsCopied : (old : Dict String Copied) → Run → ObjectHead → Type 0
  IsCopied old run o =
      ((r : Copied) × (lookup (blob cfg S dest o) run.copied ≡ some r)
        × (size_or_zero r.size ≡ o.size)
        × (r.etag ≡ some o.etag))
      × ((lookup (blob cfg S dest o) run.copied ≡ lookup (blob cfg S dest o) old)
          ⊎ WasUploaded (uri_of cfg S (blob cfg S dest o)) run.history)

  same_etag-eq : (t : Option String) (etag : String) → same_etag t etag ≡ true → t ≡ some etag
  same_etag-eq none etag h = cc
  same_etag-eq (some e) etag h = ground arith

  abbrev HasRecord : Dict String Copied → String → ℕ → String → Type 0
  HasRecord copied b n etag =
      (r : Copied) × (lookup b copied ≡ some r) × (size_or_zero r.size ≡ n) × (r.etag ≡ some etag)

  found-HasRecord :
      (copied : Dict String Copied) (b : String) (n : ℕ) (etag : String) (x : Option Copied)
      → lookup b copied ≡ x
      → exists_matching copied b n etag ≡ true
      → HasRecord copied b n etag
  unfolding exists_matching
  found-HasRecord copied b n etag none e h =
      let no : false ≡ true = rw (exists_matching, e) at h in cc
  found-HasRecord copied b n etag (some r) e h =
      let yes : (eqb (size_or_zero r.size) n && same_etag r.etag etag) ≡ true =
        rw (exists_matching, e) at h in
      (r, e, ground arith, same_etag-eq r.etag etag (ground arith))

  All-IsCopied :
      (file : Dict String Copied) (os : List ObjectHead)
      → AllMatched cfg S dest (sync_all cfg S dest file).1.copied os
      → All (IsCopied file (sync_all cfg S dest file).1) os
  All-IsCopied file [] h = tt
  All-IsCopied file (o ∷ os) h = (
    (
      found-HasRecord _ (blob cfg S dest o) o.size o.etag _ refl h.0,
      (sync_all-IsResumable cfg S file (blob cfg S dest o) dest).1,
    ),
    All-IsCopied file os h.1,
  )

  -- When a run ends without an exception, and no two listed objects have the same blob name, then for
  -- every object listed below the prefixes that are not denied the records have its size and its
  -- etag, and the record stood there before the run or the blob was uploaded in it.
  pub sync_all-AllCopied :
      (file : Dict String Copied)
      → IsUnique (blobs cfg S dest (all_listed S))
      → (sync_all cfg S dest file).0 ≡ continues
      → All (IsCopied file (sync_all cfg S dest file).1) (all_listed S)
  sync_all-AllCopied file unique done =
      All-IsCopied file (all_listed S) (sync_all-AllMatched cfg S dest file unique done)
