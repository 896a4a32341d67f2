-- ===== src/HfPrefetch/Daemon/Turns.antt =====
-- What one turn does with the configuration that it meets, and what holds after any number of turns.
use mathlib.Core.Path.{subst⁻¹}
use cylon_local_infra.Prelude.{
  ℕ, zero, suc, String, Bool, true, false, Option, none, some, List, [], ◌∷◌, ◌≡◌, ◌⊎◌, inl, inr,
  refl, arith, contains, string_eq, eqb, Bool-cases,
}
use cylon_local_infra.Prelude.Dict.{lookup}
use cylon_local_infra.HfPrefetch.Config.{Config}
use cylon_local_infra.HfPrefetch.Store.{Store}
use cylon_local_infra.HfPrefetch.Machine.{Host, Machine, is_set}
use cylon_local_infra.HfPrefetch.Reconcile.{reconcile_once}
use cylon_local_infra.HfPrefetch.Reconcile.Pass.{repos, reconcile_once-drops}
use cylon_local_infra.HfPrefetch.Reconcile.Settled.{IsSettled}
use cylon_local_infra.HfPrefetch.Reconcile.Invariant.{reconcile_once-IsSettled}
use cylon_local_infra.HfPrefetch.Daemon.{
  Reading, Daemon, Next, goes_on, returned, loaded, after_stat, reload, sleep, with_config, turn,
  while_going, turns,
}

module _ (H : Host) where
  -- The file was changed since the last load, and loads as `c`; or it was not, or cannot be read or
  -- loaded, and `c` is the configuration that is there.
  abbrev pub IsInForce : Reading → Daemon H → Config → Type 0
  IsInForce r d c =
      ((n : ℕ) × (r.mtime ≡ some n) × (eqb n d.last_mtime ≡ false) × (r.load ≡ some c))
      ⊎ ((d.cfg ≡ some c) × ((r.mtime ≡ none) ⊎ (r.mtime ≡ some d.last_mtime) ⊎ (r.load ≡ none)))

  broken_load :
      (mtime : Option ℕ) (load : Option Config) (d : Daemon H) (c : Config)
      → d.cfg ≡ some c
      → load ≡ none
      → (after_stat H mtime load d).cfg ≡ some c
  broken_load none load d c old broken = old
  broken_load (some n) load d c old broken = rw broken (ground (arith, old))

  reload-cfg :
      (r : Reading) (d : Daemon H) (c : Config) → IsInForce r d c → (reload H r d).cfg ≡ some c
  unfolding reload
  reload-cfg r d c (inl (n, changed, newer, loads)) = rw (changed, newer, loads) refl
  reload-cfg r d c (inr (old, inl gone)) = rw gone old
  reload-cfg r d c (inr (old, inr (inl same))) = rw same (ground (arith, old))
  reload-cfg r d c (inr (old, inr (inr broken))) = broken_load r.mtime r.load d c old broken

  sleep-store : (naps : ℕ) (m : Machine H) → (sleep H naps m).store ≡ m.store
  unfolding sleep is_set
  sleep-store zero m = refl
  sleep-store (suc naps) m = ground (arith, sleep-store naps (is_set H m).1)

  -- The configuration is `c`, and the state file has no entry of the repository.
  abbrev pub Follows : Config → (repo : String) → Daemon H → Type 0
  Follows c repo d = (d.cfg ≡ some c) × (lookup repo d.machine.store.models ≡ none)

  with_config-drops :
      (once : Bool) (naps : ℕ) (c : Config) (d : Daemon H) (repo : String)
      → d.cfg ≡ some c
      → contains (repos c.models) repo ≡ false
      → Follows c repo (with_config H once naps (some c) d).1
  with_config-drops true naps c d repo cfg out = (cfg, reconcile_once-drops H repo c d.machine out)
  with_config-drops false naps c d repo cfg out =
      let done = (reconcile_once H c d.machine).1 in
      (
        cfg,
        subst⁻¹ (λ (s : Store). lookup repo s.models ≡ none) (sleep-store naps done)
            (reconcile_once-drops H repo c d.machine out),
      )

  -- When no stop is asked for as a turn begins, the turn works with the configuration in force: what the
  -- file loads as, if it was changed since the last load, and else, also when the file is gone or broken,
  -- the one that is there. After the turn, the state file has no entry of a repository that this
  -- configuration does not name.
  pub turn-drops :
      (once : Bool) (r : Reading) (d : Daemon H) (c : Config) (repo : String)
      → (H.is_set d.machine.world).0 ≡ false
      → IsInForce r d c
      → contains (repos c.models) repo ≡ false
      → Follows c repo (turn H once r d).1
  unfolding turn is_set
  turn-drops once r d c repo runs in_force out =
      let tested : Daemon H = record d { machine = (is_set H d.machine).1 } in
      let loads = reload-cfg r tested c in_force in
      let d' = reload H r tested in
      rw runs (
        subst⁻¹ (λ (o : Option Config). Follows c repo (with_config H once r.naps o d').1) loads
          (with_config-drops once r.naps c d' repo loads out))

  loaded-machine :
      (n : ℕ) (load : Option Config) (d : Daemon H) → (loaded H n load d).machine ≡ d.machine
  loaded-machine n none d = refl
  loaded-machine n (some c) d = refl

  after_stat-machine :
      (mtime : Option ℕ) (load : Option Config) (d : Daemon H)
      → (after_stat H mtime load d).machine ≡ d.machine
  after_stat-machine none load d = refl
  after_stat-machine (some n) load d = ground (arith, loaded-machine n load d)

  sleep-IsSettled :
      (repo : String) (naps : ℕ) (m : Machine H)
      → IsSettled H repo m
      → IsSettled H repo (sleep H naps m)
  unfolding sleep is_set
  sleep-IsSettled repo zero m h = h
  sleep-IsSettled repo (suc naps) m h = elim (Bool-cases (H.is_set m.world).0) [
    | inl stop ↦ rw stop h
    | inr runs ↦ rw runs (sleep-IsSettled repo naps (is_set H m).1 h)
  ]

  with_config-IsSettled :
      (repo : String) (once : Bool) (naps : ℕ) (o : Option Config) (d : Daemon H)
      → IsSettled H repo d.machine
      → IsSettled H repo (with_config H once naps o d).1.machine
  with_config-IsSettled repo once naps none d h = h
  with_config-IsSettled repo true naps (some c) d h = reconcile_once-IsSettled H repo c d.machine h
  with_config-IsSettled repo false naps (some c) d h =
      sleep-IsSettled repo naps _ (reconcile_once-IsSettled H repo c d.machine h)

  turn-IsSettled :
      (repo : String) (once : Bool) (r : Reading) (d : Daemon H)
      → IsSettled H repo d.machine
      → IsSettled H repo (turn H once r d).1.machine
  unfolding turn reload is_set
  turn-IsSettled repo once r d h =
      let tested : Daemon H = record d { machine = (is_set H d.machine).1 } in
      elim (Bool-cases (H.is_set d.machine.world).0) [
        | inl stop ↦ rw stop h
        | inr runs ↦ rw runs (
            with_config-IsSettled repo once r.naps _ (after_stat H r.mtime r.load tested)
              (subst⁻¹ (IsSettled H repo) (after_stat-machine r.mtime r.load tested) h))
      ]

  while_going-IsSettled :
      (repo : String) (rest : Daemon H → Next × Daemon H) (n : Next) (d : Daemon H)
      → ((e : Daemon H) → IsSettled H repo e.machine → IsSettled H repo (rest e).1.machine)
      → IsSettled H repo d.machine
      → IsSettled H repo (while_going H rest (n, d)).1.machine
  while_going-IsSettled repo rest goes_on d k h = k d h
  while_going-IsSettled repo rest returned d k h = h

  -- Over any number of turns a ready repository has no failure in the backoff.
  turns-IsSettled :
      (repo : String) (once : Bool) (rs : List Reading) (d : Daemon H)
      → IsSettled H repo d.machine
      → IsSettled H repo (turns H once rs d).1.machine
  unfolding turns
  turns-IsSettled repo once [] d h = h
  turns-IsSettled repo once (r ∷ rs) d h =
      let (n, d') = turn H once r d in
      while_going-IsSettled repo (turns H once rs) n d' (turns-IsSettled repo once rs)
        (turn-IsSettled repo once r d h)
