-- ===== src/Autoupgrade/Quiet/Ending.antt =====
-- That `wait_for_quiet` ends.
use cylon_local_infra.Prelude.{
  ℕ, ◌+◌, Bool, true, ◌||◌, Option, none, List, [], ◌∷◌, any, ◌≡◌, ◌≢◌, refl, arith, ltb, Eq,
}
use cylon_local_infra.Autoupgrade.Quiet.{
  Sample, Verdict, returned, turning, wait_loop, wait_for_quiet, needed, last_after_quiet,
  last_after_busy,
}

module _ {Value : Type 0} ⦃e : Eq Value⦄ (zero_value : Value) where
  wait_loop-returns :
      (target limit : ℕ) (samples : List (Sample Value)) (c : ℕ) (last : Option Value)
      → any (λ (s : Sample Value). s.stop || ltb limit s.elapsed) samples ≡ true
      → (wait_loop zero_value target limit c last samples).0 ≢ turning
  unfolding wait_loop
  wait_loop-returns target limit [] c last over done = cc
  wait_loop-returns target limit (s ∷ rest) c last over done = ground (
    arith,
    wait_loop-returns target limit rest (c + 1) (last_after_quiet zero_value last s.metrics),
    wait_loop-returns target limit rest 0 (last_after_busy zero_value s.metrics),
  )

  has_returned : (v : Verdict) → v ≢ turning → (b : Bool) × (v ≡ returned b)
  has_returned (returned b) h = (b, refl)
  has_returned turning h = absurd (h refl)

  -- `wait_for_quiet` returns at the latest in the first turn that sees the stop flag, or more than
  -- `max_wait_for_quiet_sec` seconds since the start.
  pub wait_for_quiet-returns :
      (window sample limit : ℕ) (samples : List (Sample Value))
      → any (λ (s : Sample Value). s.stop || ltb limit s.elapsed) samples ≡ true
      → (b : Bool) × ((wait_for_quiet zero_value window sample limit samples).0 ≡ returned b)
  unfolding wait_for_quiet
  wait_for_quiet-returns window sample limit samples over =
      has_returned _ (wait_loop-returns (needed window sample) limit samples 0 none over)
