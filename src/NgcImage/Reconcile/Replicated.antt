-- ===== src/NgcImage/Reconcile/Replicated.antt =====
-- A tag that a pass leaves ready was copied to every peer in that pass.
use cylon_local_infra.Prelude.{
  ℕ, String, false, Option, some, List, [], ◌∷◌, ◌≡◌, arith, ◌⊎◌, string_eq,
}
use cylon_local_infra.Prelude.Dict.{lookup-insert_self}
use cylon_local_infra.Prelude.State.{◌>>=◌}
use cylon_local_infra.Prelude.Effect.{success}
use cylon_local_infra.NgcImage.Config.{Config, SyncTarget}
use cylon_local_infra.NgcImage.Store.{Store, Entry, ready, error, Reason, get, set, status_of}
use cylon_local_infra.NgcImage.Machine.{
  Host, Machine, Event, pulled, copied, compared, sent, ask, note, set_fields, update_backoff,
}
use cylon_local_infra.NgcImage.Reconcile.{record_failure, sync_peer, sync_loop, record_ready}

pub status_of-set_self :
    (s : Store) (key : String) (f : Entry → Entry) (now saved : ℕ)
    → status_of (set s key f now saved) key ≡ (f (get s key)).status
unfolding status_of set get
status_of-set_self s key f now saved = grind (arith, lookup-insert_self)

-- The peer was asked for its image, and it has the very image that is here, or it was sent the image
-- with exit code 0.
abbrev pub CopiedTo : String → SyncTarget → (before after : List Event) → Type 0
CopiedTo key p before after =
    ((id : String) × (after ≡ copied key p (compared (some id) (some id)) ∷ before))
    ⊎ ((here there : Option String) × (after
          ≡ copied key p (sent success) ∷ copied key p (compared here there) ∷ before))

-- One copy to each peer, in order.
abbrev pub CopiedToAll : String → List SyncTarget → (before after : List Event) → Type 0
CopiedToAll key [] before after = after ≡ before
CopiedToAll key (p ∷ ps) before after =
    (mid : List Event) × CopiedTo key p before mid × CopiedToAll key ps mid after

module _ (H : Host) (key : String) (now : ℕ) where
  pub record_failure-error :
      (why : Reason) (m : Machine H)
      → status_of (record_failure H key now why m).1.store key ≡ some error
  unfolding record_failure ◌>>=◌ update_backoff set_fields
  record_failure-error why m = status_of-set_self m.store key _ _ _

  pub record_ready-ready :
      (peers : List SyncTarget) (m : Machine H)
      → status_of (record_ready H key peers m).1.store key ≡ some ready
  unfolding record_ready ◌>>=◌ update_backoff set_fields
  record_ready-ready peers m = status_of-set_self m.store key _ _ _

  pub sync_peer-error :
      (p : SyncTarget) (m : Machine H)
      → (sync_peer H key now p m).0 ≡ some false
      → status_of (sync_peer H key now p m).1.store key ≡ some error
  unfolding sync_peer ◌>>=◌ ask set_fields note
  sync_peer-error p m done = grind (arith, record_failure-error)

  pub sync_loop-error :
      (ps : List SyncTarget) (m : Machine H)
      → (sync_loop H key now ps m).0 ≡ some false
      → status_of (sync_loop H key now ps m).1.store key ≡ some error
  unfolding sync_loop ◌>>=◌
  sync_loop-error [] m done = cc
  sync_loop-error (p ∷ ps) m done =
      ground (arith, sync_peer-error p m, sync_loop-error ps (sync_peer H key now p m).1)

module _ (H : Host) (key : String) (now : ℕ) (peers : List SyncTarget) where
  -- Every peer was served on top of a history `h`.
  abbrev Served : List Event → Machine H → Type 0
  Served h m = CopiedToAll key peers h m.history

-- The pass found the tag on the local daemon, or pulled it with exit code 0.
abbrev pub IsLocalBy : String → (before after : List Event) → Type 0
IsLocalBy key before after = (after ≡ before) ⊎ (after ≡ pulled key success ∷ before)
