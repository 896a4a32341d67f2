-- ===== src/NgcImage/Registry/Challenge.antt =====
-- `_parse_www_auth`: the parameters of a challenge, `name="value"`, wherever they stand in the text.
-- A character of a name is an ASCII letter, a digit or `_`; Python's `\w` has other letters too.
pub mod RoundTrip
use cylon_local_infra.Prelude.{
  ℕ, String, ◌<>◌, Bool, true, false, ◌&&◌, ◌||◌, not, List, [], ◌∷◌, leb, eqb, if◌then◌else◌, ◌==◌,
  string_eq,
}
use cylon_local_infra.Prelude.Dict.{Dict, insert}
use Prim.Native.Char.{Char, code}

abbrev pub is_word : ℕ → Bool
is_word c =
    (leb b'0' c && leb c b'9')
    || ((leb b'A' c && leb c b'Z') || ((leb b'a' c && leb c b'z') || eqb c b'_'))

abbrev pub one : Char → String
one c = String.◌∷◌ c String.[]

-- Where a search through the text is: in a run of word characters, which may be empty, behind such a
-- run and its `=`, or inside the quotes.
pub data Mode : Type 0 where
  word : (run : String) → Mode
  equals : (name : String) → Mode
  quoted : (name value : String) → Mode

abbrev after_run : (run : String) → Char → Mode
after_run run c =
    if is_word (code c)
    then word (run <> one c)
    else if eqb (code c) b'=' && not (run == "")
    then equals run
    else word ""

-- The mode behind one more character, unless it closes the quotes.
abbrev pub step : Mode → Char → Mode
step (word run) c = after_run run c
step (equals name) c = if eqb (code c) b'"' then quoted name "" else after_run "" c
step (quoted name value) c = quoted name (value <> one c)

abbrev pub closes : Mode → Char → Bool
closes (quoted name value) c = eqb (code c) b'"'
closes _ c = false

abbrev pub found : Mode → Dict String String → Dict String String
found (quoted name value) rest = (name, value) ∷ rest
found _ rest = rest

-- `re.findall(r'(\w+)="([^"]*)"', text)`. A value whose quotes do not close ends the search, since no
-- quote is left for another.
unfoldable pub findall : Mode → String → Dict String String
findall mode String.[] = []
findall mode (String.◌∷◌ c s) =
    let inside = findall (step mode c) s in
    let behind = found mode (findall (word "") s) in if closes mode c then behind else inside

-- `dict(pairs)`: a later value of a key replaces an earlier one.
unfoldable pub dict_from : Dict String String → Dict String String → Dict String String
dict_from d [] = d
dict_from d ((k, v) ∷ rest) = dict_from (insert k v d) rest

unfoldable pub parse_www_auth : String → Dict String String
parse_www_auth value = dict_from [] (findall (word "") value)
