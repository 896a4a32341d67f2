-- ===== src/NgcImage/Reconcile/Prune.antt =====
-- What a pass may delete: stale tags, and only behind an answer that no container uses them.
use cylon_local_infra.Prelude.{
  String, false, Option, none, some, List, [], ◌∷◌, All, contains, ◌≡◌, arith, string_eq,
  Bool-cases, inl, inr,
}
use cylon_local_infra.Prelude.State.{◌>>=◌, Keeps, Keeps-bind, Keeps-if, keeps_rules}
use cylon_local_infra.Prelude.Effect.{ExitCode}
use cylon_local_infra.NgcImage.Config.{Config, ImageSpec, SyncTarget}
use cylon_local_infra.NgcImage.Store.{Entry}
use cylon_local_infra.NgcImage.Machine.{
  Host, Machine, Event, pulled, Copying, copied, inspected, removed, ask, note, set_fields,
}
use cylon_local_infra.NgcImage.Reconcile.{
  stale, sorted, insert_sorted, tags_loop, prune_tag, prune_loop, prune_phase, reconcile_tags,
}
use cylon_local_infra.NgcImage.Select.{select_keep}
use cylon_local_infra.NgcImage.Reconcile.History.{Kept-ask, Kept-set, Kept-tags_loop}

module _ (keep : List String) where
  -- The newest event looked at the tag and found no container on it.
  abbrev SawUnused : String → String → List Event → Type 0
  SawUnused repo tag [] = ⊥
  SawUnused repo tag (e ∷ _) = e ≡ inspected repo tag false

  -- Every removal in a history is of a tag that is not kept, right after such a look.
  abbrev pub IsSafe : List Event → Type 0
  IsSafe [] = Unit
  IsSafe (pulled _ _ ∷ h) = IsSafe h
  IsSafe (copied _ _ _ ∷ h) = IsSafe h
  IsSafe (inspected _ _ _ ∷ h) = IsSafe h
  IsSafe (removed repo tag _ ∷ h) = (contains keep tag ≡ false) × SawUnused repo tag h × IsSafe h

  insert-stale :
      (x : String) (ys : List String)
      → contains keep x ≡ false
      → All (λ t. contains keep t ≡ false) ys
      → All (λ t. contains keep t ≡ false) (insert_sorted x ys)
  unfolding insert_sorted
  insert-stale x [] h k = (h, tt)
  insert-stale x (y ∷ ys) h k = ground (arith, insert-stale x ys h k.1)

  sorted-stale :
      (xs : List String)
      → All (λ t. contains keep t ≡ false) xs
      → All (λ t. contains keep t ≡ false) (sorted xs)
  unfolding sorted
  sorted-stale [] h = tt
  sorted-stale (x ∷ xs) h = insert-stale x (sorted xs) h.0 (sorted-stale xs h.1)

  stale-All : (xs : List String) → All (λ t. contains keep t ≡ false) (stale keep xs)
  unfolding stale
  stale-All [] = tt
  stale-All (x ∷ xs) = ground (arith, stale-All xs)

  after_pulled :
      (key : String) (rc : ExitCode) (h : List Event) → IsSafe h → IsSafe (pulled key rc ∷ h)
  after_pulled key rc h safe = safe

  after_copied :
      (key : String) (t : SyncTarget) (step : Copying) (h : List Event)
      → IsSafe h
      → IsSafe (copied key t step ∷ h)
  after_copied key t step h safe = safe

  module _ (H : Host) where
    abbrev KeptSafe : Machine H → Type 0
    KeptSafe m = IsSafe m.history

    Safe-ask : {A : Type 0} (f : H.World → A × H.World) → Keeps KeptSafe (ask H f)
    Safe-ask f = Kept-ask H IsSafe after_pulled after_copied f

    Safe-set : (key : String) (f : Entry → Entry) → Keeps KeptSafe (set_fields H key f)
    Safe-set key f = Kept-set H IsSafe after_pulled after_copied key f

    prune_tag-Safe :
        (repo tag : String) → contains keep tag ≡ false → Keeps KeptSafe (prune_tag H repo tag)
    unfolding prune_tag ◌>>=◌ ask note set_fields
    prune_tag-Safe repo tag out = record { at = λ m h. ground arith }

    prune_loop-Safe :
        (repo : String) (tags : List String)
        → All (λ t. contains keep t ≡ false) tags
        → Keeps KeptSafe (prune_loop H repo tags)
    unfolding prune_loop
    prune_loop-Safe repo [] h = search keeps_rules
    prune_loop-Safe repo (tag ∷ tags) h = Keeps-bind _ _ (Safe-ask H.is_set) (λ stop.
        Keeps-if stop _ _ (search keeps_rules)
          (Keeps-bind _ _ (prune_tag-Safe repo tag h.0) (λ _. prune_loop-Safe repo tags h.1)))

    prune_phase-Safe :
        (spec : ImageSpec) (have : Option (List String))
        → Keeps KeptSafe (prune_phase H spec keep have)
    unfolding prune_phase
    prune_phase-Safe spec none = search keeps_rules
    prune_phase-Safe spec (some have) = elim (Bool-cases spec.prune_stale) [
      | inl on ↦ rw on (prune_loop-Safe spec.repo _ (sorted-stale _ (stale-All have)))
      | inr off ↦ rw off (search keeps_rules)
    ]

    Safe-tags_loop :
        (cfg : Config) (repo : String) (tags have : List String)
        → Keeps KeptSafe (tags_loop H cfg repo have tags)
    Safe-tags_loop cfg repo tags have =
        Kept-tags_loop H IsSafe after_pulled after_copied cfg repo tags have

-- In the pass over one image specification every `docker image rm` is of a tag that is not kept,
-- and comes right after the answer that no container uses that very image.
pub reconcile_tags-IsSafe :
    (H : Host) (cfg : Config) (spec : ImageSpec) (tags : List String) (m : Machine H)
    → m.history ≡ []
    → IsSafe
        (select_keep (H.search spec.tag_pattern) tags spec)
        (reconcile_tags H cfg spec tags m).1.history
unfolding reconcile_tags
reconcile_tags-IsSafe H cfg spec tags m fresh =
    let keep = select_keep (H.search spec.tag_pattern) tags spec in
    (Keeps-bind _ _ (Safe-ask keep H H.time) (λ t. Keeps-bind _ _ (Safe-set keep H _ _) (λ _.
        Keeps-bind _ _ (Safe-ask keep H _) (λ have.
          Keeps-bind _ _ (Safe-tags_loop keep H cfg spec.repo keep have)
            (λ have'. prune_phase-Safe keep H spec have'))))).at
      m (rw fresh tt)
