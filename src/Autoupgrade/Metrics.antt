-- ===== src/Autoupgrade/Metrics.antt =====
-- `parse_metrics`: the totals of the Prometheus metrics, summed over their labels. The text is its
-- lines. `Value` is the type of floats.
pub mod Totals
use Prim.Native.Char.{code}
use cylon_local_infra.Prelude.{
  ℕ, String, Bool, true, false, ◌&&◌, ◌||◌, not, Option, none, some, List, [], ◌∷◌, if◌then◌else◌,
  ◌==◌, string_eq, eqb, leb,
}
use cylon_local_infra.Prelude.Dict.{Dict, lookup, insert}
use cylon_local_infra.Prelude.Text.{lstrip, is_space, starts_with, ends_with}
use cylon_local_infra.Prelude.Effect.{ExitCode, succeeded}

abbrev is_letter : ℕ → Bool
is_letter c = (leb b'a' c && leb c b'z') || (leb b'A' c && leb c b'Z')

abbrev is_digit : ℕ → Bool
is_digit c = leb b'0' c && leb c b'9'

-- `[a-zA-Z_:]`, `[a-zA-Z0-9_:]` and `[0-9eE+\-.]`.
abbrev is_name_start : ℕ → Bool
is_name_start c = is_letter c || (eqb c b'_' || eqb c b':')

abbrev is_name_part : ℕ → Bool
is_name_part c = is_name_start c || is_digit c

abbrev is_number_part : ℕ → Bool
is_number_part c =
    is_digit c || (eqb c b'e' || (eqb c b'E' || (eqb c b'+' || (eqb c b'-' || eqb c b'.'))))

-- The longest beginning of a text whose characters pass a test. `lstrip` is the rest.
unfoldable pub take_while : (ℕ → Bool) → String → String
take_while p String.[] = ""
take_while p (String.◌∷◌ c s) =
    let rest = take_while p s in if p (code c) then String.◌∷◌ c rest else ""

abbrev begins : (ℕ → Bool) → String → Bool
begins p String.[] = false
begins p (String.◌∷◌ c s) = p (code c)

-- Behind the next `}`.
unfoldable pub behind_brace : String → Option String
behind_brace String.[] = none
behind_brace (String.◌∷◌ c s) =
    let later = behind_brace s in if eqb (code c) b'}' then some s else later

-- `(\{[^}]*\})?`
unfoldable pub skip_labels : String → Option String
skip_labels String.[] = some ""
skip_labels (String.◌∷◌ c s) =
    let labelled = behind_brace s in if eqb (code c) b'{' then labelled else some (String.◌∷◌ c s)

-- `\s+([0-9eE+\-.]+)`
abbrev number_behind : (name : String) → Option String → Option (String × String)
number_behind name none = none
number_behind name (some rest) =
    let number = take_while is_number_part (lstrip is_space rest) in
    if begins is_space rest && not (number == "") then some (name, number) else none

-- The name and the number that the expression finds in a line.
unfoldable pub match_line : String → Option (String × String)
match_line line =
    let name = take_while is_name_part line in
    if begins is_name_start line
    then number_behind name (skip_labels (lstrip is_name_part line))
    else none

module _ {Value : Type 0} (zero_value : Value) (add : Value → Value → Value)
    -- `float(text)`; `none` is its `ValueError`.
    (to_float : String → Option Value) where
  abbrev valued : Option (String × String) → Option (String × Value)
  valued none = none
  valued (some (name, number)) = elim (to_float number) [ none ↦ none | some v ↦ some (name, v) ]

  -- The sample of a line, unless it is empty, a comment or no sample.
  unfoldable pub sample_of : String → Option (String × Value)
  sample_of line = if line == "" || starts_with line "#" then none else valued (match_line line)

  -- `out.get(name, 0.0)`
  abbrev pub total_or_zero : Option Value → Value
  total_or_zero none = zero_value
  total_or_zero (some v) = v

  -- `out[name] = out.get(name, 0.0) + v`
  abbrev pub add_sample : Option (String × Value) → Dict String Value → Dict String Value
  add_sample none out = out
  add_sample (some (name, v)) out = insert name (add (total_or_zero (lookup name out)) v) out

  unfoldable pub parse_from : Dict String Value → List String → Dict String Value
  parse_from out [] = out
  parse_from out (line ∷ lines) = parse_from (add_sample (sample_of line) out) lines

  unfoldable pub parse_metrics : List String → Dict String Value
  parse_metrics lines = parse_from [] lines

-- The arguments from `vllm` on, or all of them; `none` when nothing was found.
abbrev ends_in_vllm : String → Bool
ends_in_vllm token = ends_with token "/vllm" || token == "vllm"

unfoldable pub from_vllm : List String → Option (List String)
from_vllm [] = none
from_vllm (token ∷ tokens) =
    let later = from_vllm tokens in if ends_in_vllm token then some (token ∷ tokens) else later

abbrev or_all : List String → Option (List String) → List String
or_all parts none = parts
or_all parts (some found) = found

-- `capture_vllm_serve_argv`, of the exit code of the command and the fields of its output.
unfoldable pub serve_argv_of : ExitCode → (parts : List String) → Option (List String)
serve_argv_of rc [] = none
serve_argv_of rc (p ∷ ps) =
    if succeeded rc then some (or_all (p ∷ ps) (from_vllm (p ∷ ps))) else none
