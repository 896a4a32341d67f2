-- ===== src/Autoupgrade/Loop.antt =====
-- `loop`: one turn with a configuration that is loaded, from the look at the leader to the sleep.
pub mod Due
use cylon_local_infra.Prelude.{
  ℕ, ◌+◌, ◌-◌, String, ◌<>◌, Bool, true, false, ◌&&◌, not, Option, none, some, List, [], ◌∷◌,
  if◌then◌else◌, ◌==◌, string_eq, ltb,
}
use cylon_local_infra.Prelude.State.{State, pure, gets, ◌>>=◌, ◌>>◌}
use cylon_local_infra.NgcImage.Store as NgcStore
use cylon_local_infra.Autoupgrade.Config.{Config}
use cylon_local_infra.Autoupgrade.Candidate.{find_candidate}
use cylon_local_infra.Autoupgrade.Quiet.{Progress, Verdict, returned, turning, wait_for_quiet}
use cylon_local_infra.Autoupgrade.Machine.{
  Status, idle, candidate, waiting_quiet, promoting, ready, error, Reason, waiting_to_be_stable,
  observing, quiet_sample, in_flight, busy_too_long, promoted, triage_required, bouncing_to, Store,
  Host, Machine, M, ask, set_fields,
}
use cylon_local_infra.Autoupgrade.Bounce.{
  Flow, goes_on, returns, raises, hangs, CapturedStack, capture_stack, bounce,
}

-- How a turn ends: with the sleep before the next one, with the return of `loop`, or not at all.
pub data Next : Type 0 where
  sleeps stops stuck : Next

abbrev pub is_none {ℓ} : {A : Type ℓ} → Option A → Bool
is_none none = true
is_none (some _) = false

abbrev progress_reason : ℕ → Reason
progress_reason n = if ltb 0 n then quiet_sample else in_flight

module _ (H : Host) where
  -- The writes of the counter while the loop waits for quiet.
  unfoldable pub write_progress : List Progress → M H Unit
  write_progress [] = pure tt
  write_progress (p ∷ ps) =
      set_fields H (λ s. record s {
        quiet_consecutive = some p.quiet_consecutive;
        quiet_needed = some p.quiet_needed;
        reason = some (progress_reason p.quiet_consecutive);
      })
      >> write_progress ps

  -- `wait_for_quiet`
  unfoldable pub observe : Config → M H Verdict
  observe cfg = do
    samples ← ask H H.samples
    let (v, writes) =
        wait_for_quiet ⦃e = H.value_eq⦄ H.zero_value cfg.quiet_window_sec cfg.quiet_sample_sec
          cfg.max_wait_for_quiet_sec samples
    write_progress writes
    pure v

  unfoldable pub record_promotion : (current wanted tag : String) → M H Unit
  record_promotion current wanted tag = do
    now ← ask H H.time
    set_fields H (λ s. record s {
      status = ready;
      current_image = some wanted;
      last_promotion = some (current, wanted, now);
      candidate_tag = some tag;
      reason = some promoted;
      has_error = false;
    })

  unfoldable pub record_error : M H Unit
  record_error =
      set_fields H
        (λ s. record s { status = error; has_error = true; reason = some triage_required })

  -- A bounce that returns is a promotion, also when a stop made it return.
  abbrev after_bounce : (current wanted tag : String) → Flow → M H Next
  after_bounce current wanted tag goes_on = record_promotion current wanted tag >> pure sleeps
  after_bounce current wanted tag returns = record_promotion current wanted tag >> pure sleeps
  after_bounce current wanted tag raises = record_error >> pure sleeps
  after_bounce current wanted tag hangs = pure stuck

  abbrev pub bounce_captured :
      Config → (current wanted tag : String) → Option CapturedStack → M H Next
  bounce_captured cfg current wanted tag none = record_error >> pure sleeps
  bounce_captured cfg current wanted tag (some captured) =
      bounce H cfg captured wanted >>= after_bounce current wanted tag

  -- All preconditions are satisfied.
  unfoldable pub promote : Config → (current wanted tag : String) → M H Next
  promote cfg current wanted tag = do
    set_fields H (λ s. record s { status = promoting; reason = some (bouncing_to wanted) })
    captured ← capture_stack H cfg
    bounce_captured cfg current wanted tag captured

  abbrev pub after_observing :
      Config → (current wanted tag : String) → (stop : Bool) → Verdict → M H Next
  after_observing cfg current wanted tag stop turning = pure stuck
  after_observing cfg current wanted tag true (returned ok) = pure stops
  after_observing cfg current wanted tag false (returned true) = promote cfg current wanted tag
  after_observing cfg current wanted tag false (returned false) =
      set_fields H (λ s. record s { status = candidate; reason = some busy_too_long })
      >> pure sleeps

  unfoldable pub wait_and_promote : Config → (current wanted tag : String) → (since : ℕ) → M H Next
  wait_and_promote cfg current wanted tag since = do
    set_fields H (λ s. record s {
      status = waiting_quiet;
      candidate_tag = some tag;
      candidate_since = some since;
      reason = some (observing cfg.quiet_window_sec);
    })
    verdict ← observe cfg
    stop ← ask H H.is_set
    after_observing cfg current wanted tag stop verdict

  -- The candidate is not the image that runs.
  unfoldable pub consider : Config → (current wanted tag : String) → (since : ℕ) → M H Next
  consider cfg current wanted tag since = do
    now ← ask H H.time
    if is_none cfg.pinned_tag && ltb now (since + cfg.stabilization_sec)
        then (set_fields H (λ s. record s {
          status = candidate;
          candidate_tag = some tag;
          candidate_since = some since;
          reason = some (waiting_to_be_stable (since + cfg.stabilization_sec - now));
        })
            >> pure sleeps)
        else wait_and_promote cfg current wanted tag since

  abbrev pub with_candidate : Config → (current : String) → Option (String × ℕ) → M H Next
  with_candidate cfg current none =
      set_fields H (λ s. record s {
        status = idle;
        candidate_tag = none;
        candidate_since = none;
        has_error = false;
      })
      >> pure sleeps
  with_candidate cfg current (some (tag, since)) =
      if (cfg.repo <> ":" <> tag) == current
      then (set_fields H (λ s. record s {
        status = ready;
        candidate_tag = some tag;
        candidate_since = none;
        has_error = false;
      })
          >> pure sleeps)
      else consider cfg current (cfg.repo <> ":" <> tag) tag since

  abbrev pub with_current : Config → Option String → M H Next
  with_current cfg none = set_fields H (λ s. record s { status = idle }) >> pure sleeps
  with_current cfg (some current) = do
    file ← ask H H.ngc_state
    with_candidate cfg current (find_candidate H.matches cfg file)

  abbrev pub if_enabled : Config → Option String → (enabled : Bool) → M H Next
  if_enabled cfg current true = with_current cfg current
  if_enabled cfg current false =
      set_fields H (λ s. record s { status = idle; candidate_tag = none; candidate_since = none })
      >> pure sleeps

  -- The body of `loop` after the configuration, without the sleep.
  unfoldable pub turn : Config → M H Next
  turn cfg = do
    current ← ask H (λ w. H.image_of w cfg.leader_container)
    set_fields H (λ s. record s { current_image = current })
    if_enabled cfg current cfg.enabled
