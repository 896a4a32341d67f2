-- ===== src/Autoupgrade/Quiet/Window.antt =====
-- What `wait_for_quiet` saw when it returns `True`.
use cylon_local_infra.Prelude.{
  ℕ, ◌≤◌, String, true, false, Option, none, some, List, [], ◌∷◌, ◌++◌, length, All, ◌≡◌, ltb, Eq,
  string_eq,
}
use cylon_local_infra.Prelude.Dict.{Dict}
use cylon_local_infra.Autoupgrade.Quiet.{Sample, is_quiet, success_total}

module _ {Value : Type 0} ⦃e : Eq Value⦄ (zero_value : Value) where
  -- The metrics, where there are some, show this total of successes.
  abbrev Shows : Option Value → Option (Dict String Value) → Type 0
  Shows last none = Unit
  Shows last (some m) = last ≡ some (success_total zero_value m)

  -- A sample taken while nothing was running or waiting, no stop was asked for and the limit was not
  -- passed, with this total of successes.
  abbrev pub IsQuiet : (limit : ℕ) → Option Value → Sample Value → Type 0
  IsQuiet limit last s =
      (s.stop ≡ false)
      × (ltb limit s.elapsed ≡ false)
      × (is_quiet zero_value s.metrics ≡ true)
      × Shows last s.metrics

  abbrev pub rev_onto : List (Sample Value) → List (Sample Value) → List (Sample Value)
  rev_onto [] ys = ys
  rev_onto (x ∷ xs) ys = rev_onto xs (x ∷ ys)

  -- The last `target` or more of the first `taken` samples are quiet with one total of successes.
  abbrev pub HasWindow : (target limit taken : ℕ) → List (Sample Value) → Type 0
  HasWindow target limit taken samples =
      (recent older after : List (Sample Value)) × (last : Option Value) × (rev_onto
          (recent ++ older) after
        ≡ samples)
      × (length (recent ++ older) ≡ taken)
      × (target ≤ length recent)
      × All (IsQuiet limit last) recent
