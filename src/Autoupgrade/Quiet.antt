-- ===== src/Autoupgrade/Quiet.antt =====
-- `is_quiet` and `wait_for_quiet`. `Value` is the type of floats, of which the code uses `0.0` and
-- the equality alone. The answers of the clock, of the stop flag and of the metrics endpoint are a
-- list with one sample for each turn of the loop.
pub mod Window
pub mod Ending
use cylon_local_infra.Prelude.{
  ℕ, ◌+◌, ◌/◌, max, String, Bool, true, false, ◌&&◌, ◌||◌, not, Option, none, some, List, [], ◌∷◌,
  if◌then◌else◌, ◌==◌, string_eq, Eq, ltb, leb,
}
use cylon_local_infra.Prelude.Dict.{Dict, lookup}

-- One turn of the loop: `stop_event.is_set()`, the seconds since the start, and `fetch_metrics`,
-- where `none` is an API that cannot be reached.
pub record Sample (Value : Type 0) : Type 0 where
  pub stop : Bool
  pub elapsed : ℕ
  pub metrics : Option (Dict String Value)

-- A write of the counter to the state file.
pub record Progress : Type 0 where
  pub quiet_consecutive : ℕ
  pub quiet_needed : ℕ

abbrev pub progress : (target n : ℕ) → Progress
progress target n = record { quiet_consecutive = n; quiet_needed = target }

-- How the loop ended: with its result, or still turning when the samples were used up.
pub data Verdict : Type 0 where
  returned : Bool → Verdict
  turning : Verdict

unfoldable pub needed : (quiet_window_sec quiet_sample_sec : ℕ) → ℕ
needed window sample = max 1 (window / max sample 1)

module _ {Value : Type 0} ⦃e : Eq Value⦄ (zero_value : Value) where
  -- `m.get(name, 0.0)`
  abbrev get_value : Dict String Value → String → Value
  get_value m name = elim (lookup name m) [ none ↦ zero_value | some v ↦ v ]

  abbrev pub success_total : Dict String Value → Value
  success_total m = get_value m "vllm:request_success_total"

  unfoldable pub is_quiet : Option (Dict String Value) → Bool
  is_quiet none = true
  is_quiet (some m) =
      (get_value m "vllm:num_requests_running" == zero_value)
      && (get_value m "vllm:num_requests_waiting" == zero_value)

  abbrev same_as : Option Value → Value → Bool
  same_as none cur = true
  same_as (some last) cur = cur == last

  -- `quiet` after the comparison with the last total.
  unfoldable pub stays_quiet : Option Value → Option (Dict String Value) → Bool
  stays_quiet last none = is_quiet none
  stays_quiet last (some m) = is_quiet (some m) && same_as last (success_total m)

  -- `last_success_total` after a quiet sample.
  abbrev pub last_after_quiet : Option Value → Option (Dict String Value) → Option Value
  last_after_quiet last none = last
  last_after_quiet last (some m) = some (success_total m)

  -- `last_success_total` after another sample; metrics `{}` are as good as none.
  abbrev pub last_after_busy : Option (Dict String Value) → Option Value
  last_after_busy none = none
  last_after_busy (some []) = none
  last_after_busy (some (x ∷ xs)) = some (success_total (x ∷ xs))

  -- The loop, with the counter and the last total. It returns its verdict and the writes in order.
  unfoldable pub wait_loop :
      (target limit consecutive : ℕ) → Option Value → List (Sample Value) → Verdict × List Progress
  wait_loop target limit consecutive last [] = (turning, [])
  wait_loop target limit consecutive last (s ∷ rest) =
      let (v, ws) =
        wait_loop target limit (consecutive + 1) (last_after_quiet last s.metrics) rest in
      let (v', ws') = wait_loop target limit 0 (last_after_busy s.metrics) rest in
      if s.stop || ltb limit s.elapsed
      then (returned false, [])
      else if stays_quiet last s.metrics
      then (if leb target (consecutive + 1)
          then (returned true, progress target (consecutive + 1) ∷ [])
          else (v, progress target (consecutive + 1) ∷ ws))
      else (v', progress target 0 ∷ ws')

  unfoldable pub wait_for_quiet :
      (quiet_window_sec quiet_sample_sec max_wait_for_quiet_sec : ℕ)
      → List (Sample Value)
      → Verdict × List Progress
  wait_for_quiet window sample limit samples = wait_loop (needed window sample) limit 0 none samples
