-- ===== src/Extra.antt =====
-- backend/internal/extra/extra.go: reading the untyped maps of a topic and of a check.
use marauder.Prelude.{
  ℕ, zero, suc, min, Bool, true, false, not, Option, none, some, List, [], ◌∷◌, ◌==◌, if◌then◌else◌,
  Text, text_eq,
}
use marauder.Prelude.Decimal.{parse_uint}
use marauder.Prelude.Int.{ℤ, pos, negsuc, max_int}

-- A value of `any` after a round trip through JSON. `float` holds what `int(t)` gives for the number, and
-- an item of `items` is a string or, as `none`, another value.
pub data Dynamic : Type 0 where
  null : Dynamic
  whole : ℤ → Dynamic
  float : ℤ → Dynamic
  text : Text → Dynamic
  texts : List Text → Dynamic
  items : List (Option Text) → Dynamic
  other : Dynamic

-- `map[string]any`; a nil map has no key.
abbrev pub Extras : Type 0
Extras = Text → Option Dynamic

-- The first result of `strconv.Atoi`, whose error is dropped: a value out of range is the nearest `int`.
unfoldable pub clamp_int : (negative : Bool) → Option ℕ → ℤ
clamp_int negative none = pos 0
clamp_int false (some n) = pos (min n max_int)
clamp_int true (some zero) = pos 0
clamp_int true (some (suc n)) = negsuc (min n max_int)

unfoldable pub atoi_value : Text → ℤ
unfolding clamp_int parse_uint
atoi_value [] = pos 0
atoi_value (c ∷ s) =
    if c == b'-'
    then clamp_int true (parse_uint s)
    else if c == b'+'
    then clamp_int false (parse_uint s)
    else clamp_int false (parse_uint (c ∷ s))

-- The switch of `Int`, `int_value none` for a key that is missing.
unfoldable pub int_value : Option Dynamic → ℤ
unfolding atoi_value
int_value (some (whole n)) = n
int_value (some (float n)) = n
int_value (some (text s)) = atoi_value s
int_value o = pos 0

unfoldable pub strings_of : List (Option Text) → List Text
strings_of [] = []
strings_of (some s ∷ vs) = s ∷ strings_of vs
strings_of (none ∷ vs) = strings_of vs

-- The switch of `StringSlice`.
unfoldable pub strings_value : Option Dynamic → List Text
unfolding strings_of
strings_value (some (texts ss)) = ss
strings_value (some (items vs)) = strings_of vs
strings_value o = []

-- `Int`.
unfoldable pub get_int : Extras → Text → ℤ
unfolding int_value
get_int m key = int_value (m key)

-- `StringSlice`.
unfoldable pub get_strings : Extras → Text → List Text
unfolding strings_value
get_strings m key = strings_value (m key)

-- The switch of `String`.
unfoldable pub string_value : Option Dynamic → (fallback : Text) → Text
string_value (some (text s)) fallback = if not (text_eq s []) then s else fallback
string_value o fallback = fallback

-- `String`.
unfoldable pub get_string : Extras → Text → (fallback : Text) → Text
unfolding string_value
get_string m key fallback = string_value (m key) fallback
