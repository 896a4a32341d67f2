-- ===== src/Autoupgrade/Metrics/Totals.antt =====
-- What the totals are sums of.
use cylon_local_infra.Prelude.{
  String, Option, none, some, List, [], ◌∷◌, if◌then◌else◌, ◌==◌, string_eq,
}
use cylon_local_infra.Prelude.Dict.{Dict}
use cylon_local_infra.Autoupgrade.Metrics.{sample_of, total_or_zero}

module _ {Value : Type 0} (zero_value : Value) (add : Value → Value → Value)
    (to_float : String → Option Value) where
  abbrev sample : String → Option (String × Value)
  sample line = sample_of zero_value add to_float line

  -- A running total behind one sample, which may be of another name.
  abbrev pub count : (name : String) → Option Value → Option (String × Value) → Option Value
  count name so_far none = so_far
  count name so_far (some (other, v)) =
      if name == other then some (add (total_or_zero zero_value add to_float so_far) v) else so_far

  -- The sum of the samples of one name, in the order of the lines.
  unfoldable pub total_of : (name : String) → Option Value → List String → Option Value
  total_of name so_far [] = so_far
  total_of name so_far (line ∷ lines) = total_of name (count name so_far (sample line)) lines
