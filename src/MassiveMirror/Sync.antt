-- ===== src/MassiveMirror/Sync.antt =====
-- `sync_all` from a `SourceStore` to the `GcloudDest` with its record of what was copied.
pub mod Resume
pub mod Counted
pub mod Complete
pub mod Recorded
pub mod Again
use cylon_local_infra.Prelude.{
  ℕ, ◌+◌, String, ◌<>◌, Bool, true, false, ◌&&◌, Option, none, some, List, [], ◌∷◌, if◌then◌else◌,
  ◌==◌, eqb, string_eq,
}
use Prim.Native.String.{compare}
use text.Mathlib.Text.{is_lt}
use cylon_local_infra.Prelude.Dict.{Dict, lookup, insert}
use cylon_local_infra.Prelude.State.{State, pure, ◌>>=◌}
use cylon_local_infra.Prelude.Text.{strip, lstrip, is_slash}
use cylon_local_infra.MassiveMirror.Config.{MirrorConfig, SyncResult}

pub record ObjectHead : Type 0 where
  pub key : String
  pub size : ℕ
  pub etag : String

-- What `list_objects` does: it answers, it raises `PrefixDenied`, or it raises another exception.
pub data Listing : Type 0 where
  objects : List ObjectHead → Listing
  denied : (prefix : String) → Listing
  broken : Listing

-- A record of a copy; a field is `none` while its key is missing or null.
pub record Copied : Type 0 where
  pub size : Option ℕ
  pub etag : Option String

-- What `_save` did: the file holds the records, or an exception came and left something else in it,
-- which is `none` where it is no JSON, since `write_text` writes in place.
pub data Write : Type 0 where
  written : Write
  cut : (left : Option (Dict String Copied)) → Write

-- An upload with `gcloud storage cp`, and whether it succeeded; and a write of the state file.
pub data Event : Type 0 where
  uploaded : (uri : String) → Bool → Event
  wrote : Write → Event

-- What the two stores and the disk answer in one run. `list_prefixes` and `opens` may raise too; the
-- answer of an upload or a write may depend on all those before it.
pub record Stores : Type 0 where
  pub list_prefixes : Option (List String)
  pub list_objects : (prefix : String) → Listing
  pub opens : (key : String) → Bool
  pub upload : List Event → (uri : String) → Bool
  pub save : List Event → Dict String Copied → Write

-- `GcloudDest._copied`, the state file, `none` while it is no JSON, and the events so far, the last one
-- first; and the result that `sync_all` builds.
pub record Run : Type 0 where
  pub copied : Dict String Copied
  pub file : Option (Dict String Copied)
  pub history : List Event
  pub result : SyncResult

abbrev pub M : Type 0 → Type 0
M = State Run

-- How a step ended: the loop goes on, or an exception ends the run.
pub data Flow : Type 0 where
  continues raised : Flow

unfoldable pub gcs_blob_name : (dest_prefix key : String) → String
gcs_blob_name dest_prefix key = strip is_slash dest_prefix <> "/" <> lstrip is_slash key

abbrev pub size_or_zero : Option ℕ → ℕ
size_or_zero none = 0
size_or_zero (some n) = n

abbrev pub same_etag : Option String → String → Bool
same_etag none etag = false
same_etag (some e) etag = e == etag

-- A record `{}` is as good as none; it has no etag.
unfoldable pub exists_matching : Dict String Copied → (blob : String) → ℕ → (etag : String) → Bool
exists_matching copied blob size etag = elim (lookup blob copied) [
  | none ↦ false
  | some r ↦ eqb (size_or_zero r.size) size && same_etag r.etag etag
]

abbrev pub record_of : ObjectHead → Copied
record_of obj = record { size = some obj.size; etag = some obj.etag }

abbrev count_copied : SyncResult → SyncResult
count_copied r = record r { copied = r.copied + 1 }

abbrev count_skipped : SyncResult → SyncResult
count_skipped r = record r { skipped = r.skipped + 1 }

abbrev add_denied : String → SyncResult → SyncResult
add_denied prefix r = record r { denied_prefixes = prefix ∷ r.denied_prefixes }

unfoldable pub insert_sorted : String → List String → List String
insert_sorted x [] = x ∷ []
insert_sorted x (y ∷ ys) = if is_lt (compare y x) then y ∷ insert_sorted x ys else x ∷ y ∷ ys

-- `denied_prefixes.sort()`
unfoldable pub sorted : List String → List String
sorted [] = []
sorted (x ∷ xs) = insert_sorted x (sorted xs)

abbrev pub no_result : SyncResult
no_result = record { copied = 0; skipped = 0; denied_prefixes = []; failed = 0 }

module _ (cfg : MirrorConfig) (S : Stores) where
  unfoldable pub uri_of : String → String
  uri_of blob = "gs://" <> cfg.dest_bucket <> "/" <> blob

  abbrev save_as : Write → M Flow
  save_as written run =
      (continues, record run { file = some run.copied; history = wrote written ∷ run.history })
  save_as (cut left) run =
      (raised, record run { file = left; history = wrote (cut left) ∷ run.history })

  unfoldable pub save : M Flow
  save run = save_as (S.save run.history run.copied) run

  -- `put`: once the upload succeeded, the copy is recorded in memory, then in the file.
  unfoldable pub put : (blob : String) → ObjectHead → M Flow
  put blob obj run =
      let done = S.upload run.history (uri_of blob) in
      let asked = record run { history = uploaded (uri_of blob) done ∷ run.history } in
      let recorded = record asked { copied = insert blob (record_of obj) run.copied } in
      if done then save recorded else (raised, asked)

  abbrev while_going : M Flow → Flow → M Flow
  while_going rest continues = rest
  while_going rest raised = pure raised

  abbrev add_copied : Flow → M Flow
  add_copied continues run = (continues, record run { result = count_copied run.result })
  add_copied raised run = (raised, run)

  -- The body of the loop over the objects.
  unfoldable pub sync_object : (dest_prefix : String) → ObjectHead → M Flow
  sync_object dest_prefix obj run =
      let blob = gcs_blob_name dest_prefix obj.key in
      let copied = (put blob obj >>= add_copied) run in
      let skipped : Flow × Run = (continues, record run { result = count_skipped run.result }) in
      if exists_matching run.copied blob obj.size obj.etag
      then skipped
      else (if S.opens obj.key then copied else (raised, run))

  unfoldable pub sync_objects : (dest_prefix : String) → List ObjectHead → M Flow
  sync_objects dest_prefix [] = pure continues
  sync_objects dest_prefix (obj ∷ objs) =
      sync_object dest_prefix obj >>= while_going (sync_objects dest_prefix objs)

  abbrev note_denied : String → M Flow
  note_denied prefix run = (continues, record run { result = add_denied prefix run.result })

  -- The body of the loop over the prefixes.
  unfoldable pub sync_listing : (dest_prefix : String) → Listing → M Flow
  sync_listing dest_prefix (objects objs) = sync_objects dest_prefix objs
  sync_listing dest_prefix (denied prefix) = note_denied prefix
  sync_listing dest_prefix broken = pure raised

  unfoldable pub sync_prefixes : (dest_prefix : String) → List String → M Flow
  sync_prefixes dest_prefix [] = pure continues
  sync_prefixes dest_prefix (prefix ∷ prefixes) =
      sync_listing dest_prefix (S.list_objects prefix)
      >>= while_going (sync_prefixes dest_prefix prefixes)

  abbrev sort_denied : Flow → M Flow
  sort_denied continues run = (
    continues,
    record run {
      result = record run.result { denied_prefixes = sorted run.result.denied_prefixes };
    },
  )
  sort_denied raised run = (raised, run)

  abbrev sync_listed : (dest_prefix : String) → Option (List String) → M Flow
  sync_listed dest_prefix none = pure raised
  sync_listed dest_prefix (some prefixes) = sync_prefixes dest_prefix prefixes >>= sort_denied

  -- `sync_all` with the `GcloudDest` that starts from the state file.
  unfoldable pub sync_all : (dest_prefix : String) → Dict String Copied → Flow × Run
  sync_all dest_prefix file =
      sync_listed dest_prefix S.list_prefixes
        (record { copied = file; file = some file; history = []; result = no_result })

  -- The exit code of `_sync_command`; an exception ends the process with 1.
  unfoldable pub sync_command : Dict String Copied → ℕ × Run
  sync_command file =
      let (flow, run) = sync_all cfg.dest_prefix file in
      (elim flow [ continues ↦ if eqb run.result.failed 0 then 0 else 1 | raised ↦ 1 ], run)
