-- ===== src/HfPrefetch/Reconcile/Invariant.antt =====
-- The invariant of a running daemon, over whole passes.
use cylon_local_infra.Prelude.{String, List, [], ◌∷◌, arith, string_eq, map}
use cylon_local_infra.Prelude.Dict.{keys, lookup-erase}
use cylon_local_infra.Prelude.State.{Keeps, Keeps-bind, Keeps-if, keeps_rules}
use cylon_local_infra.HfPrefetch.Config.{Config, ModelEntry}
use cylon_local_infra.HfPrefetch.Store.{drop, get, status_of}
use cylon_local_infra.HfPrefetch.Machine.{Host, Machine, M, drop_entry}
use cylon_local_infra.HfPrefetch.Reconcile.{
  Next, go_on, halt, then_rest, reconcile_models, drop_if_unconfigured, drop_unconfigured,
  reconcile_once,
}
use cylon_local_infra.HfPrefetch.Reconcile.Settled.{IsSettled, IsSettled-entry, IsSettled-is_set}

module _ (H : Host) (r : String) where
  IsSettled-drop : (known : String) → Keeps (IsSettled H r) (drop_entry H known)
  unfolding drop_entry drop status_of get
  IsSettled-drop known = record {
    at = λ m h. ground (arith, h, lookup-erase r known m.store.models);
  }

  IsSettled-drop_if :
      (configured : List String) (known : String)
      → Keeps (IsSettled H r) (drop_if_unconfigured H configured known)
  unfolding drop_if_unconfigured
  IsSettled-drop_if configured known = search (keeps_rules, IsSettled-drop)

  IsSettled-drop_all :
      (configured known : List String)
      → Keeps (IsSettled H r) (drop_unconfigured H configured known)
  unfolding drop_unconfigured
  IsSettled-drop_all configured [] = search keeps_rules
  IsSettled-drop_all configured (k ∷ ks) =
      Keeps-bind _ _ (IsSettled-drop_if configured k) (λ _. IsSettled-drop_all configured ks)

  IsSettled-then_rest :
      (rest : M H Next) (next : Next)
      → Keeps (IsSettled H r) rest
      → Keeps (IsSettled H r) (then_rest H rest next)
  IsSettled-then_rest rest go_on h = h
  IsSettled-then_rest rest halt h = search keeps_rules

  IsSettled-models :
      (cfg : Config) (entries : List ModelEntry)
      → Keeps (IsSettled H r) (reconcile_models H cfg entries)
  unfolding reconcile_models
  IsSettled-models cfg [] = search keeps_rules
  IsSettled-models cfg (e ∷ entries) = Keeps-bind _ _ (IsSettled-is_set H r) (λ stop.
      Keeps-if stop _ _ (search keeps_rules) (
        Keeps-bind _ _ (IsSettled-entry H r cfg e)
          (λ next. IsSettled-then_rest _ next (IsSettled-models cfg entries))))

  -- A pass keeps the invariant that a ready repository has no failure in the backoff, whatever the
  -- host answers and also when a stop cuts it short.
  pub reconcile_once-IsSettled :
      (cfg : Config) (m : Machine H) → IsSettled H r m → IsSettled H r (reconcile_once H cfg m).1
  unfolding reconcile_once
  reconcile_once-IsSettled cfg m =
      (Keeps-bind _ _
          (IsSettled-drop_all (map (λ (e : ModelEntry). e.repo) cfg.models) (keys m.store.models))
          (λ _. IsSettled-models cfg cfg.models)).at
        m
