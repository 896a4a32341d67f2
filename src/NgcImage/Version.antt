-- ===== src/NgcImage/Version.antt =====
-- `_version_key`: the numbers of a tag, compared as tuples. A digit is an ASCII digit.
pub mod Order
use cylon_local_infra.Prelude.{
  ℕ, ◌+◌, ◌-◌, ◌*◌, String, Bool, true, false, ◌&&◌, ◌||◌, Option, none, some, List, [], ◌∷◌, ltb,
  leb, eqb, if◌then◌else◌,
}
use cylon_local_infra.Prelude.Text.{codes}

is_digit : ℕ → Bool
is_digit c = leb b'0' c && leb c b'9'

abbrev flush : Option ℕ → List ℕ → List ℕ
flush none rest = rest
flush (some n) rest = n ∷ rest

abbrev or_zero : Option ℕ → ℕ
or_zero none = 0
or_zero (some n) = n

-- `int(x) for x in re.findall(r"\d+", tag)`: `open_run` is the value of the run being read.
unfoldable pub numbers_from : Option ℕ → List ℕ → List ℕ
unfolding is_digit
numbers_from open_run [] = flush open_run []
numbers_from open_run (c ∷ cs) =
    let inside = numbers_from (some (or_zero open_run * 10 + (c - b'0'))) cs in
    let outside = flush open_run (numbers_from none cs) in if is_digit c then inside else outside

abbrev or_single_zero : List ℕ → List ℕ
or_single_zero [] = 0 ∷ []
or_single_zero (n ∷ ns) = n ∷ ns

unfoldable pub version_key : String → List ℕ
unfolding numbers_from
version_key tag = or_single_zero (numbers_from none (codes tag))

-- `a < b` on tuples of numbers.
unfoldable pub tuple_lt : List ℕ → List ℕ → Bool
tuple_lt [] [] = false
tuple_lt [] (b ∷ bs) = true
tuple_lt (a ∷ as') [] = false
tuple_lt (a ∷ as') (b ∷ bs) = ltb a b || (eqb a b && tuple_lt as' bs)
