-- ===== src/HfPrefetch/Daemon.antt =====
-- The loop of `main`: one turn tests the signal, reloads the configuration when its file changed, and
-- runs a pass. A pass that raises, which the loop logs before it goes on, is not modelled.
pub mod Turns
use cylon_local_infra.Prelude.{
  ℕ, zero, suc, Bool, true, false, Option, none, some, List, [], ◌∷◌, if◌then◌else◌, eqb,
}
use cylon_local_infra.HfPrefetch.Config.{Config}
use cylon_local_infra.HfPrefetch.Machine.{Host, Machine, is_set}
use cylon_local_infra.HfPrefetch.Reconcile.{reconcile_once}

-- What a turn meets: the time of the last change of the file, and `Config.load`, where `none` raises;
-- and the naps of its sleep until the deadline.
pub record Reading : Type 0 where
  pub mtime : Option ℕ
  pub load : Option Config
  pub naps : ℕ

-- Whether the loop goes on, or `main` returns.
pub data Next : Type 0 where
  goes_on returned : Next

-- The variables of the loop.
pub record Daemon (H : Host) : Type 0 where
  pub last_mtime : ℕ
  pub cfg : Option Config
  pub machine : Machine H

module _ (H : Host) where
  abbrev pub loaded : ℕ → Option Config → Daemon H → Daemon H
  loaded mtime none d = d
  loaded mtime (some c) d = record d { last_mtime = mtime; cfg = some c }

  abbrev pub after_stat : Option ℕ → Option Config → Daemon H → Daemon H
  after_stat none load d = d
  after_stat (some mtime) load d = if eqb mtime d.last_mtime then d else loaded mtime load d

  -- A reload that fails leaves the configuration that is there.
  unfoldable pub reload : Reading → Daemon H → Daemon H
  reload r d = after_stat r.mtime r.load d

  -- The sleep of a turn, with the number of its naps until the deadline: each test of the signal may
  -- end it.
  unfoldable pub sleep : (naps : ℕ) → Machine H → Machine H
  sleep zero m = (is_set H m).1
  sleep (suc naps) m =
      let (stop, m') = is_set H m in let rest = sleep naps m' in if stop then m' else rest

  -- What follows the reload. Without a configuration the turn does nothing.
  abbrev pub with_config : (once : Bool) → (naps : ℕ) → Option Config → Daemon H → Next × Daemon H
  with_config once naps none d = (goes_on, d)
  with_config once naps (some c) d =
      let done = (reconcile_once H c d.machine).1 in
      if once
      then (returned, record d { machine = done })
      else (goes_on, record d { machine = sleep naps done })

  unfoldable pub turn : (once : Bool) → Reading → Daemon H → Next × Daemon H
  turn once r d =
      let (stop, m) = is_set H d.machine in
      let tested = record d { machine = m } in
      let d' = reload r tested in
      if stop then (returned, tested) else with_config once r.naps d'.cfg d'

  abbrev pub while_going : (Daemon H → Next × Daemon H) → Next × Daemon H → Next × Daemon H
  while_going rest (goes_on, d) = rest d
  while_going rest (returned, d) = (returned, d)

  -- The loop, for as many turns as there are readings.
  unfoldable pub turns : (once : Bool) → List Reading → Daemon H → Next × Daemon H
  turns once [] d = (goes_on, d)
  turns once (r ∷ rs) d = while_going (turns once rs) (turn once r d)
