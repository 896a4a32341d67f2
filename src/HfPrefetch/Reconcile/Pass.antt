-- ===== src/HfPrefetch/Reconcile/Pass.antt =====
-- A whole pass of `reconcile_once`, and where the body of its loop goes from a given state.
use cylon_local_infra.Prelude.{
  String, Bool, true, false, Option, none, List, [], ◌∷◌, map, ◌≡◌, refl, arith, string_eq,
  contains,
}
use cylon_local_infra.Prelude.Dict.{lookup, keys, lookup-erase_self, lookup-erase, contains-keys}
use cylon_local_infra.Prelude.State.{◌>>=◌, pure, Keeps, Keeps-bind, Keeps-if, keeps_rules}
use cylon_local_infra.HfPrefetch.Config.{Config, ModelEntry, effective_cache_dir}
use cylon_local_infra.HfPrefetch.Cache.{cache_status}
use cylon_local_infra.HfPrefetch.Store.{Entry, drop, status_of, is_ready}
use cylon_local_infra.HfPrefetch.Machine.{Host, Machine, M, checked, time, check_cache, drop_entry}
use cylon_local_infra.HfPrefetch.Reconcile.{
  Next, go_on, halt, reconcile_checked, reconcile_entry, then_rest, reconcile_models,
  drop_if_unconfigured, drop_unconfigured, reconcile_once,
}
use cylon_local_infra.HfPrefetch.Reconcile.Frame.{HasEntry, Keeps-entry, Keeps-is_set}

false≢true : false ≡ true → ⊥
false≢true h = cc

abbrev pub repos : List ModelEntry → List String
repos = map (λ (e : ModelEntry). e.repo)

module _ (H : Host) (r : String) where
  Keeps-then_rest :
      (old : Option Entry) (rest : M H Next) (next : Next)
      → Keeps (HasEntry H r old) rest
      → Keeps (HasEntry H r old) (then_rest H rest next)
  Keeps-then_rest old rest go_on h = h
  Keeps-then_rest old rest halt h = search keeps_rules

  Keeps-models :
      (cfg : Config) (old : Option Entry) (entries : List ModelEntry)
      → contains (repos entries) r ≡ false
      → Keeps (HasEntry H r old) (reconcile_models H cfg entries)
  unfolding reconcile_models
  Keeps-models cfg old [] h = search keeps_rules
  Keeps-models cfg old (e ∷ entries) h = Keeps-bind _ _ (Keeps-is_set H r old) (λ stop.
      Keeps-if stop _ _ (search keeps_rules) (
        Keeps-bind _ _ (Keeps-entry H r old cfg e (ground arith))
          (λ next. Keeps-then_rest old _ next (Keeps-models cfg old entries (ground arith)))))

  drop_entry-gone : (m : Machine H) → lookup r (drop_entry H r m).1.store.models ≡ none
  unfolding drop_entry drop
  drop_entry-gone m = ground (arith, lookup-erase_self r m.store.models)

  drop_entry-stays :
      (known : String) (m : Machine H)
      → lookup r m.store.models ≡ none
      → lookup r (drop_entry H known m).1.store.models ≡ none
  unfolding drop_entry drop
  drop_entry-stays known m h = ground (arith, lookup-erase r known m.store.models)

  -- `r` is on the list of the known, or has no entry.
  abbrev Listed : List String → Machine H → Type 0
  Listed ks m = contains ks r ≡ false → lookup r m.store.models ≡ none

  drop_if-Listed :
      (configured : List String) (k : String) (ks : List String) (m : Machine H)
      → contains configured r ≡ false
      → Listed (k ∷ ks) m
      → Listed ks (drop_if_unconfigured H configured k m).1
  unfolding drop_if_unconfigured pure
  drop_if-Listed configured k ks m out h rest = elim (string_eq.dec r k) [
    | yes same ↦ rw (← same, out) (drop_entry-gone m)
    | no other ↦ ground (arith, drop_entry-stays k m)
  ]

  drop_unconfigured-gone :
      (configured ks : List String) (m : Machine H)
      → contains configured r ≡ false
      → Listed ks m
      → lookup r (drop_unconfigured H configured ks m).1.store.models ≡ none
  unfolding drop_unconfigured ◌>>=◌
  drop_unconfigured-gone configured [] m out h = h refl
  drop_unconfigured-gone configured (k ∷ ks) m out h =
      drop_unconfigured-gone configured ks _ out (drop_if-Listed configured k ks m out h)

  -- After a pass, also one that a stop cuts short, the state file has no entry of a repository that
  -- is not configured.
  pub reconcile_once-drops :
      (cfg : Config) (m : Machine H)
      → contains (repos cfg.models) r ≡ false
      → lookup r (reconcile_once H cfg m).1.store.models ≡ none
  unfolding reconcile_once ◌>>=◌
  reconcile_once-drops cfg m out = (Keeps-models cfg none cfg.models out).at _ (
      drop_unconfigured-gone (repos cfg.models) (keys m.store.models) m out
        (λ absent. ground (arith, contains-keys m.store.models r)))

module _ (H : Host) (cfg : Config) (e : ModelEntry) (m : Machine H) where
  abbrev hub : String
  hub = effective_cache_dir e cfg.cache_dir

  -- The machine after the clock reading and the look at the cache, which found `good`.
  abbrev pub looked : Bool → Machine H
  looked good = record m { world = (H.time m.world).1; history = checked e.repo good ∷ m.history }

  abbrev cache_found : Bool
  cache_found = (cache_status (H.scan (H.time m.world).1 hub e.repo)).0

  -- A ready model with a complete cache is left alone: no command runs, and neither the state file
  -- nor the backoff changes.
  ready-left_alone :
      is_ready (status_of m.store e.repo) ≡ true
      → cache_found ≡ true
      → reconcile_entry H cfg e m ≡ (go_on, looked true)
  unfolding reconcile_entry reconcile_checked ◌>>=◌ time check_cache
  ready-left_alone r good = rw (r, good)
