-- ===== src/NgcImage/Daemon.antt =====
-- The loop of `main`, turn by turn and without its sleeps, with `set_top` and `summary` of the state.
pub mod OptIn
use cylon_local_infra.Prelude.{
  ℕ, ◌+◌, String, Bool, true, false, ◌&&◌, Option, none, some, List, [], ◌∷◌, if◌then◌else◌, eqb,
  ltb,
}
use cylon_local_infra.Prelude.State.{State, pure, gets, modify, ◌>>=◌, ◌>>◌}
use cylon_local_infra.NgcImage.Config.{Config}
use cylon_local_infra.NgcImage.Store.{Store}
use cylon_local_infra.NgcImage.Machine.{Host, Machine, M, ask}
use cylon_local_infra.NgcImage.Reconcile.{reconcile_once}

-- What a turn meets: the time of the last change of the file, and `Config.load`; `none` raises.
pub record Reading : Type 0 where
  pub mtime : Option ℕ
  pub load : Option Config

-- The variables of the loop, and the top level of the state file beside its images.
pub record Daemon (H : Host) : Type 0 where
  pub last_mtime : ℕ
  pub cfg : Option Config
  pub first_pass : Bool
  pub last_poll_at : Option ℕ
  pub next_poll_at : Option ℕ
  pub machine : Machine H

-- How a turn ended: the loop goes on, ends, has returned because of `--once`, or has met the
-- assertion that there is a configuration.
pub data Next : Type 0 where
  goes_on ended returned asserted : Next

-- What the reload at the top of a turn comes to.
pub data Reload : Type 0 where
  settled raised : Reload

module _ (H : Host) where
  abbrev pub D : Type 0 → Type 0
  D A = State (Daemon H) A

  -- Code on the machine, in the daemon.
  unfoldable pub inside : {A : Type 0} → M H A → D A
  inside code d = let (a, m) = code d.machine in (a, record d { machine = m })

  -- The write of the state file behind an update of the top level.
  unfoldable pub save_top : M H Unit
  save_top m =
      let (saved, w) = H.time m.world in
      let s : Store = record m.store { updated_at = saved } in
      (tt, record m { world = H.save w s; store = s })

  -- `state.set_top(**fields)`
  unfoldable pub set_top : (Daemon H → Daemon H) → D Unit
  set_top fields = modify fields >> inside save_top

  abbrev pub loaded : ℕ → Option Config → D Reload
  loaded mtime none = pure raised
  loaded mtime (some c) =
      modify (λ d. record d { last_mtime = mtime; cfg = some c }) >> pure settled

  abbrev pub after_stat : Option ℕ → Option Config → (last_mtime : ℕ) → D Reload
  after_stat none load last = pure raised
  after_stat (some mtime) load last = if eqb mtime last then pure settled else loaded mtime load

  -- A reload that fails leaves the configuration that is there.
  unfoldable pub reload : Reading → D Reload
  reload r = gets (λ d. d.last_mtime) >>= after_stat r.mtime r.load

  -- The delay before the first pass, which a stop cuts short; `true` is a stop behind it.
  unfoldable pub startup_delay : Config → D Bool
  startup_delay c = do
    first ← gets (λ d. d.first_pass)
    if first && ltb 0 c.startup_delay_sec then inside (ask H H.is_set) else pure false

  unfoldable pub poll : (once : Bool) → Config → D Next
  poll once c = do
    modify (λ d. record d { first_pass = false })
    started ← inside (ask H H.time)
    set_top (λ d. record d { last_poll_at = some started })
    inside (reconcile_once H c c.images)
    finished ← inside (ask H H.time)
    set_top (λ d. record d { next_poll_at = some (finished + c.poll_interval_sec) })
    pure (if once then returned else goes_on)

  unfoldable pub delayed_poll : (once : Bool) → Config → D Next
  delayed_poll once c = do stop ← startup_delay c; if stop then pure ended else poll once c

  -- Without a configuration a reload that raised is tried again, and one that did not fails the
  -- assertion: the time of the file is 0, which is the value that the loop starts with.
  abbrev pub without_config : Reload → D Next
  without_config raised = pure goes_on
  without_config settled = pure asserted

  abbrev pub with_config : (once : Bool) → Reload → Option Config → D Next
  with_config once r none = without_config r
  with_config once r (some c) = delayed_poll once c

  unfoldable pub turn : (once : Bool) → Reading → D Next
  turn once r = do
    stop ← inside (ask H H.is_set)
    if stop
        then pure ended
        else do outcome ← reload r; cfg ← gets (λ d. d.cfg); with_config once outcome cfg

  -- The turns up to the one that ends the loop.
  abbrev pub while_going : D Next → Next → D Next
  while_going rest goes_on = rest
  while_going rest n = pure n

  unfoldable pub turns : (once : Bool) → List Reading → D Next
  turns once [] = pure goes_on
  turns once (r ∷ rs) = let rest = turns once rs in turn once r >>= while_going rest
