-- ===== src/NgcImage/Daemon/OptIn.antt =====
-- Pruning is the operator's choice: without it, nothing that the daemon does removes an image.
use cylon_local_infra.Prelude.{ℕ, String, Bool, false, Option, none, some, List, [], ◌∷◌, All, ◌≡◌}
use cylon_local_infra.Prelude.State.{
  gets, modify, ◌>>=◌, Keeps, Keeps-bind, Keeps-if, Keeps-pure, keeps_rules,
}
use cylon_local_infra.Prelude.Effect.{ExitCode}
use cylon_local_infra.NgcImage.Config.{Config, ImageSpec, SyncTarget}
use cylon_local_infra.NgcImage.Machine.{
  Host, Machine, M, Event, pulled, Copying, copied, inspected, removed, ask,
}
use cylon_local_infra.NgcImage.Reconcile.{prune_phase, reconcile_tags, after_fetch, reconcile_once}
use cylon_local_infra.NgcImage.Reconcile.History.{Kept-ask, Kept-set, Kept-tags_loop}
use cylon_local_infra.NgcImage.Daemon.{
  Reading, Daemon, D, Next, Reload, settled, raised, goes_on, ended, returned, asserted, inside,
  save_top, set_top, loaded, after_stat, reload, startup_delay, poll, delayed_poll, with_config,
  turn, while_going, turns,
}

-- No image was removed.
abbrev pub NoRemoval : List Event → Type 0
NoRemoval [] = Unit
NoRemoval (pulled _ _ ∷ h) = NoRemoval h
NoRemoval (copied _ _ _ ∷ h) = NoRemoval h
NoRemoval (inspected _ _ _ ∷ h) = NoRemoval h
NoRemoval (removed _ _ _ ∷ h) = ⊥

-- No image of the configuration may be pruned.
abbrev pub IsOptedOut : Config → Type 0
IsOptedOut c = All (λ (spec : ImageSpec). spec.prune_stale ≡ false) c.images

abbrev pub IsOptedOutIfAny : Option Config → Type 0
IsOptedOutIfAny none = Unit
IsOptedOutIfAny (some c) = IsOptedOut c

after_pulled :
    (key : String) (rc : ExitCode) (h : List Event) → NoRemoval h → NoRemoval (pulled key rc ∷ h)
after_pulled key rc h kept = kept

after_copied :
    (key : String) (t : SyncTarget) (step : Copying) (h : List Event)
    → NoRemoval h
    → NoRemoval (copied key t step ∷ h)
after_copied key t step h kept = kept

module _ (H : Host) where
  abbrev Kept : Machine H → Type 0
  Kept m = NoRemoval m.history

  Kept-asked : {A : Type 0} (f : H.World → A × H.World) → Keeps Kept (ask H f)
  Kept-asked f = Kept-ask H NoRemoval after_pulled after_copied f

  Kept-prune :
      (spec : ImageSpec) (keep : List String) (have : Option (List String))
      → spec.prune_stale ≡ false
      → Keeps Kept (prune_phase H spec keep have)
  unfolding prune_phase
  Kept-prune spec keep none out = search keeps_rules
  Kept-prune spec keep (some have) out = rw out (search keeps_rules)

  Kept-after_fetch :
      (cfg : Config) (spec : ImageSpec) (tags : Option (List String))
      → spec.prune_stale ≡ false
      → Keeps Kept (after_fetch H cfg spec tags)
  unfolding reconcile_tags
  Kept-after_fetch cfg spec none out =
      Keeps-bind _ _ (Kept-set H NoRemoval after_pulled after_copied _ _) (λ _. search keeps_rules)
  Kept-after_fetch cfg spec (some tags) out = Keeps-bind _ _ (Kept-asked H.time) (λ t.
      Keeps-bind _ _ (Kept-set H NoRemoval after_pulled after_copied _ _) (λ _.
        Keeps-bind _ _ (Kept-asked _) (λ have.
          Keeps-bind _ _ (Kept-tags_loop H NoRemoval after_pulled after_copied cfg spec.repo _ have)
            (λ have'. Kept-prune spec _ have' out))))

  Kept-reconcile :
      (cfg : Config) (specs : List ImageSpec)
      → All (λ (spec : ImageSpec). spec.prune_stale ≡ false) specs
      → Keeps Kept (reconcile_once H cfg specs)
  unfolding reconcile_once
  Kept-reconcile cfg [] out = search keeps_rules
  Kept-reconcile cfg (spec ∷ specs) (out, rest) = Keeps-bind _ _ (Kept-asked H.is_set) (λ stop.
      Keeps-if stop _ _ (search keeps_rules) (
        Keeps-bind _ _ (Kept-asked _) (λ tags.
          Keeps-bind _ _ (Kept-after_fetch cfg spec tags out)
            (λ go. Keeps-if go _ _ (Kept-reconcile cfg specs rest) (search keeps_rules)))))

  -- The daemon has no configuration that prunes, and has removed nothing.
  abbrev pub IsSparing : Daemon H → Type 0
  IsSparing d = IsOptedOutIfAny d.cfg × NoRemoval d.machine.history

  IsSparing-inside : {A : Type 0} (code : M H A) → Keeps Kept code → Keeps IsSparing (inside H code)
  unfolding inside
  IsSparing-inside code k = record { at = λ d h. (h.0, k.at d.machine h.1) }

  IsSparing-modify :
      (f : Daemon H → Daemon H)
      → ((d : Daemon H) → IsSparing d → IsSparing (f d))
      → Keeps IsSparing (modify f)
  unfolding modify
  IsSparing-modify f k = record { at = k }

  Kept-save_top : Keeps Kept (save_top H)
  unfolding save_top
  Kept-save_top = record { at = λ m h. h }

  IsSparing-set_top :
      (f : Daemon H → Daemon H)
      → ((d : Daemon H) → IsSparing d → IsSparing (f d))
      → Keeps IsSparing (set_top H f)
  unfolding set_top
  IsSparing-set_top f k =
      Keeps-bind _ _ (IsSparing-modify f k) (λ _. IsSparing-inside _ Kept-save_top)

  IsSparing-poll : (once : Bool) (c : Config) → IsOptedOut c → Keeps IsSparing (poll H once c)
  unfolding poll
  IsSparing-poll once c out = Keeps-bind _ _ (IsSparing-modify _ (λ d h. h)) (λ _.
      Keeps-bind _ _ (IsSparing-inside _ (Kept-asked H.time)) (λ started.
        Keeps-bind _ _ (IsSparing-set_top _ (λ d h. h)) (λ _.
          Keeps-bind _ _ (IsSparing-inside _ (Kept-reconcile c c.images out)) (λ _.
            Keeps-bind _ _ (IsSparing-inside _ (Kept-asked H.time)) (λ finished.
              Keeps-bind _ _ (IsSparing-set_top _ (λ d h. h)) (λ _. search keeps_rules))))))

  IsSparing-delayed :
      (once : Bool) (c : Config) → IsOptedOut c → Keeps IsSparing (delayed_poll H once c)
  unfolding delayed_poll startup_delay
  IsSparing-delayed once c out =
      Keeps-bind _ _
        (Keeps-bind _ _ (search keeps_rules)
          (λ first. Keeps-if _ _ _ (IsSparing-inside _ (Kept-asked H.is_set)) (Keeps-pure false)))
        (λ stop. Keeps-if stop _ _ (search keeps_rules) (IsSparing-poll once c out))

  IsSparing-loaded :
      (mtime : ℕ) (load : Option Config)
      → IsOptedOutIfAny load
      → Keeps IsSparing (loaded H mtime load)
  IsSparing-loaded mtime none out = search keeps_rules
  IsSparing-loaded mtime (some c) out =
      Keeps-bind _ _ (IsSparing-modify _ (λ d h. (out, h.1))) (λ _. search keeps_rules)

  IsSparing-after_stat :
      (mtime : Option ℕ) (load : Option Config) (last : ℕ)
      → IsOptedOutIfAny load
      → Keeps IsSparing (after_stat H mtime load last)
  IsSparing-after_stat none load last out = search keeps_rules
  IsSparing-after_stat (some mtime) load last out =
      Keeps-if _ _ _ (Keeps-pure settled) (IsSparing-loaded mtime load out)

  IsSparing-reload : (r : Reading) → IsOptedOutIfAny r.load → Keeps IsSparing (reload H r)
  unfolding reload
  IsSparing-reload r out =
      Keeps-bind _ _ (search keeps_rules) (λ last. IsSparing-after_stat r.mtime r.load last out)

  IsSparing-configured :
      (once : Bool) (r : Reload) (cfg : Option Config)
      → IsOptedOutIfAny cfg
      → Keeps IsSparing (with_config H once r cfg)
  IsSparing-configured once settled none out = search keeps_rules
  IsSparing-configured once raised none out = search keeps_rules
  IsSparing-configured once r (some c) out = IsSparing-delayed once c out

  IsSparing-at_config :
      (once : Bool) (outcome : Reload)
      → Keeps IsSparing (gets (λ d. d.cfg) >>= with_config H once outcome)
  unfolding gets ◌>>=◌
  IsSparing-at_config once outcome = record {
    at = λ d h. (IsSparing-configured once outcome d.cfg h.0).at d h;
  }

  IsSparing-turn :
      (once : Bool) (r : Reading) → IsOptedOutIfAny r.load → Keeps IsSparing (turn H once r)
  unfolding turn
  IsSparing-turn once r out = Keeps-bind _ _ (IsSparing-inside _ (Kept-asked H.is_set)) (λ stop.
      Keeps-if stop _ _ (search keeps_rules)
        (Keeps-bind _ _ (IsSparing-reload r out) (λ outcome. IsSparing-at_config once outcome)))

  IsSparing-while_going :
      (rest : D H Next) (n : Next) → Keeps IsSparing rest → Keeps IsSparing (while_going H rest n)
  IsSparing-while_going rest goes_on k = k
  IsSparing-while_going rest ended k = search keeps_rules
  IsSparing-while_going rest returned k = search keeps_rules
  IsSparing-while_going rest asserted k = search keeps_rules

  IsSparing-turns :
      (once : Bool) (rs : List Reading)
      → All (λ (r : Reading). IsOptedOutIfAny r.load) rs
      → Keeps IsSparing (turns H once rs)
  unfolding turns
  IsSparing-turns once [] out = search keeps_rules
  IsSparing-turns once (r ∷ rs) (out, rest) =
      Keeps-bind _ _ (IsSparing-turn once r out)
        (λ n. IsSparing-while_going _ n (IsSparing-turns once rs rest))

-- Pruning has to be asked for: over any number of turns, as long as no configuration that is loaded
-- sets `prune_stale` for an image, no image is removed, whatever the registry, the docker daemons and
-- the clock answer.
pub turns-NoRemoval :
    (H : Host) (once : Bool) (rs : List Reading) (d : Daemon H)
    → All (λ (r : Reading). IsOptedOutIfAny r.load) rs
    → IsOptedOutIfAny d.cfg
    → NoRemoval d.machine.history
    → NoRemoval (turns H once rs d).1.machine.history
turns-NoRemoval H once rs d out cfg kept = ((IsSparing-turns H once rs out).at d (cfg, kept)).1
