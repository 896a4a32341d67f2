-- ===== src/Prelude/Text.antt =====
-- Python's text methods, character by character.
use Prim.Native.Nat.{ℕ, zero, suc, ◌/◌, ◌%◌}
use Prim.Native.Char.{code}
use Prim.Native.String.{String, ◌++◌ as ◌<>◌}
use mathlib.Core.Bool.{Bool, true, false, ◌&&◌, ◌||◌}
use cylon_local_infra.Prelude.Tests.{eqb, leb, ltb}
use cylon_local_infra.Prelude.Lists.{get_or}
use mathlib.Core.List.{List, [], ◌∷◌}
use cylon_local_infra.Prelude.Equality.{◌==◌, contains, if◌then◌else◌, string_eq, nat_eq}

-- The code points of a text. `String` has its own `[]` and `∷`.
abbrev pub codes : String → List ℕ
codes String.[] = []
codes (String.◌∷◌ c s) = code c ∷ codes s

-- `s.replace(old, new)` for an `old` of one character.
unfoldable pub replace_char : ℕ → String → String → String
unfolding nat_eq
replace_char old new String.[] = ""
replace_char old new (String.◌∷◌ c s) =
    (if code c == old then new else String.◌∷◌ c String.[]) <> replace_char old new s

-- `s[:n]`
unfoldable pub take_chars : ℕ → String → String
take_chars zero s = ""
take_chars (suc n) String.[] = ""
take_chars (suc n) (String.◌∷◌ c s) = String.◌∷◌ c (take_chars n s)

-- `s.endswith(suffix)`
unfoldable pub ends_with : String → String → Bool
unfolding string_eq
ends_with String.[] suffix = suffix == ""
ends_with (String.◌∷◌ c s) suffix = String.◌∷◌ c s == suffix || ends_with s suffix

-- `sep.join(parts)`
unfoldable pub join : String → List String → String
join sep [] = ""
join sep (x ∷ []) = x
join sep (x ∷ y ∷ r) = x <> sep <> join sep (y ∷ r)

-- `a / b` on paths.
infixl 66 ◌/_◌
abbrev pub ◌/_◌ : String → String → String
a /_ b = a <> "/" <> b

abbrev has_slash : String → Bool
has_slash s = contains (codes s) b'/'

-- The text before the last slash.
before_last_slash : String → String
unfolding nat_eq
before_last_slash String.[] = ""
before_last_slash (String.◌∷◌ c s) = if has_slash s then String.◌∷◌ c (before_last_slash s) else ""

-- `Path(p).parent` of a path with no slash at its end.
unfoldable pub parent : String → String
unfolding before_last_slash string_eq nat_eq
parent p =
    let before = before_last_slash p in
    if has_slash p then (if before == "" then "/" else before) else "."

-- `s.lstrip(chars)`, `s.rstrip(chars)` and `s.strip(chars)` for a set of characters given by a test.
unfoldable pub lstrip : (ℕ → Bool) → String → String
lstrip p String.[] = ""
lstrip p (String.◌∷◌ c s) = let rest = lstrip p s in if p (code c) then rest else String.◌∷◌ c s

unfoldable pub rstrip : (ℕ → Bool) → String → String
unfolding string_eq
rstrip p String.[] = ""
rstrip p (String.◌∷◌ c s) =
    let rest = rstrip p s in if rest == "" && p (code c) then "" else String.◌∷◌ c rest

unfoldable pub strip : (ℕ → Bool) → String → String
strip p s = rstrip p (lstrip p s)

abbrev pub is_slash : ℕ → Bool
is_slash c = eqb c b'/'

-- The ASCII characters that `s.strip()` takes for whitespace.
abbrev pub is_space : ℕ → Bool
is_space c = (leb 9 c && leb c 13) || (leb 28 c && leb c 32)

-- `s.startswith(prefix)`
unfoldable pub starts_with : String → String → Bool
starts_with s String.[] = true
starts_with String.[] (String.◌∷◌ d p) = false
starts_with (String.◌∷◌ c s) (String.◌∷◌ d p) =
    let rest = starts_with s p in if eqb (code c) (code d) then rest else false

-- `s[n:]`
unfoldable pub drop_chars : ℕ → String → String
drop_chars zero s = s
drop_chars (suc n) String.[] = ""
drop_chars (suc n) (String.◌∷◌ c s) = drop_chars n s

abbrev digit : ℕ → String
digit d = get_or ("0" ∷ "1" ∷ "2" ∷ "3" ∷ "4" ∷ "5" ∷ "6" ∷ "7" ∷ "8" ∷ "9" ∷ []) d ""

decimal_from : (fuel n : ℕ) → String
decimal_from zero n = digit n
decimal_from (suc fuel) n =
    let rest = decimal_from fuel (n / 10) in if ltb n 10 then digit n else rest <> digit (n % 10)

-- `str(n)`: a number has at most as many digits as its value, and one.
unfoldable pub decimal : ℕ → String
unfolding decimal_from
decimal n = decimal_from n n

-- `sub in s`
unfoldable pub has_part : (sub s : String) → Bool
has_part sub String.[] = starts_with String.[] sub
has_part sub (String.◌∷◌ c s) =
    let rest = has_part sub s in if starts_with (String.◌∷◌ c s) sub then true else rest
