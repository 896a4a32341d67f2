-- ===== src/Prelude/Json.antt =====
-- JSON values as Python's `json.loads` gives them, with `dict.get`, truth and `str`.
use cylon_local_infra.Prelude.Equality.{if◌then◌else◌, ◌==◌, string_eq}
use Prim.Native.String.{String}
use mathlib.Core.Bool.{Bool, true, false, not}
use mathlib.Core.Option.{Option, none, some}
use mathlib.Core.List.{List, [], ◌∷◌}

-- A number is whether it is zero, and what `str` prints of it.
mutual
  pub data Json : Type 0 where
    null : Json
    boolean : Bool → Json
    number : (is_zero : Bool) → (printed : String) → Json
    text : String → Json
    array : Items → Json
    object : Fields → Json

  pub data Items : Type 0 where
    nil : Items
    item : Json → Items → Items

  pub data Fields : Type 0 where
    end : Fields
    field : String → Json → Fields → Fields

abbrev pub items_list : Items → List Json
items_list nil = []
items_list (item x xs) = x ∷ items_list xs

abbrev pub field_names : Fields → List String
field_names end = []
field_names (field k v fs) = k ∷ field_names fs

-- `d.get(name)`
unfoldable pub field_of : String → Fields → Option Json
field_of name end = none
field_of name (field k v fs) = if name == k then some v else field_of name fs

-- `d.get(name, default)`
abbrev pub get_default : String → Json → Fields → Json
get_default name default fs = elim (field_of name fs) [ none ↦ default | some v ↦ v ]

-- `bool(v)`
unfoldable pub truth : Json → Bool
truth null = false
truth (boolean b) = b
truth (number is_zero printed) = not is_zero
truth (text s) = not (s == "")
truth (array nil) = false
truth (array (item x xs)) = true
truth (object end) = false
truth (object (field k v fs)) = true

-- `[x for x in xs if isinstance(x, dict)]`
unfoldable pub only_objects : List Json → List Fields
only_objects [] = []
only_objects (object fs ∷ rest) = fs ∷ only_objects rest
only_objects (_ ∷ rest) = only_objects rest

-- `str(v)`; `repr` prints an array or an object.
unfoldable pub str : (repr : Json → String) → Json → String
str repr null = "None"
str repr (boolean true) = "True"
str repr (boolean false) = "False"
str repr (number is_zero printed) = printed
str repr (text s) = s
str repr (array xs) = repr (array xs)
str repr (object fs) = repr (object fs)

-- A value that may be missing, as `None`.
abbrev pub text_or_null : Option String → Json
text_or_null none = null
text_or_null (some s) = text s

-- The characters of a text, as `for c in text` gives them.
abbrev pub characters : String → List Json
characters String.[] = []
characters (String.◌∷◌ c s) = text (String.◌∷◌ c String.[]) ∷ characters s

abbrev names : Fields → List Json
names end = []
names (field k v fs) = text k ∷ names fs

-- What `for x in v or []` goes over; a number or `True` cannot be iterated.
unfoldable pub members : Json → Option (List Json)
members (array xs) = some (items_list xs)
members (object fs) = some (names fs)
members (text s) = some (characters s)
members (number false printed) = none
members (boolean true) = none
members _ = some []

-- The text that `str` prints of a value that counts as given.
abbrev pub given_text : (repr : Json → String) → Json → Option String
given_text repr v = if truth v then some (str repr v) else none
