-- ===== src/Autoupgrade/Loop/Due.antt =====
-- When a turn of the loop touches a container.
use cylon_local_infra.Prelude.{
  ℕ, ◌+◌, String, ◌<>◌, Bool, true, false, ◌&&◌, Option, none, some, List, [], ◌∷◌, ◌≡◌, ◌⊎◌, inl,
  inr, refl, ◌==◌, string_eq, ltb, Bool-cases,
}
use cylon_local_infra.Prelude.State.{pure, ◌>>=◌, ◌>>◌, Keeps, Keeps-bind, keeps_rules}
use cylon_local_infra.Autoupgrade.Config.{Config}
use cylon_local_infra.Autoupgrade.Candidate.{find_candidate}
use cylon_local_infra.Autoupgrade.Quiet.{Progress, Verdict, returned, turning, wait_for_quiet}
use cylon_local_infra.Autoupgrade.Machine.{Host, Machine, Event, Store, ask, set_fields}
use cylon_local_infra.Autoupgrade.Loop.{
  sleeps, is_none, write_progress, observe, after_observing, wait_and_promote, consider,
  with_candidate, with_current, if_enabled, turn,
}

module _ (H : Host) where
  -- The commands run so far are `h`.
  abbrev Ran : List Event → Machine H → Type 0
  Ran h m = m.history ≡ h

  module _ (h : List Event) where
    Ran-set : (f : Store → Store) → Keeps (Ran h) (set_fields H f)
    unfolding set_fields
    Ran-set f = record { at = λ m k. k }

    Ran-ask : {A : Type 0} (f : H.World → A × H.World) → Keeps (Ran h) (ask H f)
    unfolding ask
    Ran-ask f = record { at = λ m k. k }

    ruleset ran_rules = (keeps_rules, Ran-set, Ran-ask)

    Ran-set_sleeps : (f : Store → Store) → Keeps (Ran h) (set_fields H f >> pure sleeps)
    Ran-set_sleeps f = search ran_rules

    Ran-progress : (ps : List Progress) → Keeps (Ran h) (write_progress H ps)
    unfolding write_progress
    Ran-progress [] = search keeps_rules
    Ran-progress (p ∷ ps) = Keeps-bind _ _ (Ran-set _) (λ _. Ran-progress ps)

    Ran-observe : (cfg : Config) → Keeps (Ran h) (observe H cfg)
    unfolding observe
    Ran-observe cfg = search (ran_rules, Ran-progress)

  module _ (cfg : Config) where
    -- The wait for quiet that started in some world returned `True`.
    abbrev pub SawQuiet : Type 0
    SawQuiet =
        (w : H.World) × ((wait_for_quiet ⦃e = H.value_eq⦄ H.zero_value cfg.quiet_window_sec
            cfg.quiet_sample_sec cfg.max_wait_for_quiet_sec (H.samples w).0).0
          ≡ returned true)

    -- At some reading of the clock the candidate was pinned or old enough.
    abbrev pub WasStable : (since : ℕ) → Type 0
    WasStable since =
        (w : H.World) × ((is_none cfg.pinned_tag
            && ltb (H.time w).0 (since + cfg.stabilization_sec))
          ≡ false)

    observe-SawQuiet : (m : Machine H) → (observe H cfg m).0 ≡ returned true → SawQuiet
    unfolding observe ◌>>=◌ ask
    observe-SawQuiet m h = (m.world, h)

    after_observing-acts :
        (current wanted tag : String) (stop : Bool) (v : Verdict) (m : Machine H) (h : List Event)
        → (v ≡ returned true → SawQuiet)
        → Ran h m
        → Ran h (after_observing H cfg current wanted tag stop v m).1 ⊎ SawQuiet
    unfolding pure
    after_observing-acts current wanted tag stop turning m h quiet ran = inl ran
    after_observing-acts current wanted tag true (returned ok) m h quiet ran = inl ran
    after_observing-acts current wanted tag false (returned true) m h quiet ran = inr (quiet refl)
    after_observing-acts current wanted tag false (returned false) m h quiet ran =
        inl ((Ran-set_sleeps h _).at m ran)

    wait_and_promote-acts :
        (current wanted tag : String) (since : ℕ) (m : Machine H)
        → Ran m.history (wait_and_promote H cfg current wanted tag since m).1 ⊎ SawQuiet
    unfolding wait_and_promote ◌>>=◌
    wait_and_promote-acts current wanted tag since m =
        let h = m.history in
        after_observing-acts current wanted tag _ _ _ h (observe-SawQuiet _)
          ((Ran-ask h H.is_set).at _ ((Ran-observe h cfg).at _ ((Ran-set h _).at m refl)))

    consider-acts :
        (current wanted tag : String) (since : ℕ) (m : Machine H)
        → Ran m.history (consider H cfg current wanted tag since m).1 ⊎ (WasStable since × SawQuiet)
    unfolding consider ◌>>=◌ ask
    consider-acts current wanted tag since m =
        let m' : Machine H = record m { world = (H.time m.world).1 } in
        elim (Bool-cases
          (is_none cfg.pinned_tag && ltb (H.time m.world).0 (since + cfg.stabilization_sec))) [
            | inl early ↦ rw early (inl ((Ran-set_sleeps m.history _).at m' refl))
            | inr stable ↦ rw stable (elim (wait_and_promote-acts current wanted tag since m') [
              | inl same ↦ inl same
              | inr quiet ↦ inr ((m.world, stable), quiet)
            ])
          ]

    -- A candidate was found that is not the image `current`, was stable, and met a quiet API.
    abbrev pub IsDue : (current : String) → Option (String × ℕ) → Type 0
    IsDue current none = ⊥
    IsDue current (some (tag, since)) =
        (((cfg.repo <> ":" <> tag) == current) ≡ false) × WasStable since × SawQuiet

    with_candidate-acts :
        (current : String) (found : Option (String × ℕ)) (m : Machine H)
        → Ran m.history (with_candidate H cfg current found m).1 ⊎ IsDue current found
    with_candidate-acts current none m = inl ((Ran-set_sleeps m.history _).at m refl)
    with_candidate-acts current (some (tag, since)) m =
        elim (Bool-cases ((cfg.repo <> ":" <> tag) == current)) [
          | inl runs ↦ rw runs (inl ((Ran-set_sleeps m.history _).at m refl))
          | inr other ↦
              rw other (elim (consider-acts current (cfg.repo <> ":" <> tag) tag since m) [
                | inl same ↦ inl same
                | inr (stable, quiet) ↦ inr (refl, stable, quiet)
              ])
        ]

    -- The image of the leader and the state file of the image daemon, read in some world.
    abbrev pub WasDue : Option String → Type 0
    WasDue none = ⊥
    WasDue (some current) =
        (w : H.World) × IsDue current (find_candidate H.matches cfg (H.ngc_state w).0)

    with_current-acts :
        (current : Option String) (m : Machine H)
        → Ran m.history (with_current H cfg current m).1 ⊎ WasDue current
    unfolding ◌>>=◌ ask
    with_current-acts none m = inl ((Ran-set_sleeps m.history _).at m refl)
    with_current-acts (some current) m =
        let m' : Machine H = record m { world = (H.ngc_state m.world).1 } in
        elim (with_candidate-acts current (find_candidate H.matches cfg (H.ngc_state m.world).0)
          m') [ inl same ↦ inl same | inr due ↦ inr (m.world, due) ]

    if_enabled-acts :
        (current : Option String) (enabled : Bool) (m : Machine H)
        → Ran m.history (if_enabled H cfg current enabled m).1 ⊎ ((enabled ≡ true) × WasDue current)
    if_enabled-acts current true m = elim (with_current-acts current m) [
      | inl same ↦ inl same
      | inr due ↦ inr (refl, due)
    ]
    if_enabled-acts current false m = inl ((Ran-set_sleeps m.history _).at m refl)

    -- A turn runs no command that stops, removes or starts a container, unless the service is enabled, the leader's
    -- container has an image, the candidate is another one, which is pinned or has not been touched
    -- for the time of stabilization, and a wait for quiet returned `True`.
    pub turn-acts :
        (m : Machine H)
        → ((turn H cfg m).1.history ≡ m.history)
          ⊎ ((cfg.enabled ≡ true) × WasDue (H.image_of m.world cfg.leader_container).0)
    unfolding turn ◌>>=◌ ask set_fields
    turn-acts m = if_enabled-acts (H.image_of m.world cfg.leader_container).0 cfg.enabled _
