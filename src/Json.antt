-- ===== src/Json.antt =====
-- Decoded JSON, and internal/jsonutil/jsonutil.go: a Go `any` that holds what the decoder makes, or
-- what the program puts in its place.
pub mod Laws
use codex_model_tester.Base.{
  ℤ, Float64, Bool, List, Option, Str, [], if◌then◌else◌, some, true, ◌∷◌, false, is_empty, none,
  parse_float, str_eq, truncate, parse_int, trim_space,
}

-- `integer` is an `int` or `int64` that the program itself puts in a map; `number` is the text of a
-- `json.Number`; `array` is a `[]any` or a `[]map[string]any`. The nil interface is `null`.
mutual
  pub data Json : Type 0 where
    null : Json
    bool : Bool → Json
    float : Float64 → Json
    integer : ℤ → Json
    number : Str → Json
    str : Str → Json
    array : Items → Json
    object : Fields → Json

  pub data Items : Type 0 where
    nil : Items
    cons : Json → Items → Items

  -- A `map[string]any` that is not nil; the first entry of a key counts.
  pub data Fields : Type 0 where
    end : Fields
    field : Str → Json → Fields → Fields

-- `m[key]`, nil where the key is missing.
unfoldable pub get : Str → Fields → Json
get key end = null
get key (field k v m) = if str_eq k key then v else get key m

-- `m[key] = v`
unfoldable pub put : Str → Json → Fields → Fields
put key v end = field key v end
put key v (field k w m) = if str_eq k key then field key v m else field k w (put key v m)

-- `m[key]` of a map that may be nil.
abbrev pub get_opt : Str → Option Fields → Json
get_opt key none = null
get_opt key (some m) = get key m

-- `len(m) == 0`
abbrev pub no_fields : Fields → Bool
no_fields end = true
no_fields (field k v m) = false

-- The values of a composite literal.
abbrev pub fields_of : List (Str × Json) → Fields
fields_of [] = end
fields_of ((k, v) ∷ m) = field k v (fields_of m)

abbrev pub items_of : List Fields → Items
items_of [] = nil
items_of (m ∷ ms) = cons (object m) (items_of ms)

abbrev pub string_value : Json → Str
string_value (str s) = s
string_value _ = []

abbrev pub as_map : Json → Option Fields
as_map (object m) = some m
as_map _ = none

unfoldable pub map_value : Str → Option Fields → Option Fields
map_value key m = as_map (get_opt key m)

-- `FirstMap` of two maps.
abbrev pub first_map : Option Fields → Option Fields → Option Fields
first_map (some (field k v m)) b = some (field k v m)
first_map a (some (field k v m)) = some (field k v m)
first_map a b = none

unfoldable pub maps_of : Items → List Fields
maps_of nil = []
maps_of (cons (object m) xs) = m ∷ maps_of xs
maps_of (cons _ xs) = maps_of xs

abbrev pub slice_of_maps : Json → List Fields
slice_of_maps (array xs) = maps_of xs
slice_of_maps _ = []

-- `CloneMap`, `CloneValue`: a new map, a new slice.
unfoldable mutual
  pub clone_value : Json → Json
  clone_value null = null
  clone_value (bool b) = bool b
  clone_value (float x) = float x
  clone_value (integer i) = integer i
  clone_value (number s) = number s
  clone_value (str s) = str s
  clone_value (array xs) = array (clone_items xs)
  clone_value (object m) = object (clone_fields m)

  pub clone_items : Items → Items
  clone_items nil = nil
  clone_items (cons x xs) = cons (clone_value x) (clone_items xs)

  pub clone_fields : Fields → Fields
  clone_fields end = end
  clone_fields (field k v m) = field k (clone_value v) (clone_fields m)

abbrev pub clone_map : Option Fields → Option Fields
clone_map none = none
clone_map (some m) = some (clone_fields m)

-- `maps.Copy(dst, src)`
unfoldable pub copy : Fields → Fields → Fields
copy dst end = dst
copy dst (field k v src) = put k v (copy dst src)

abbrev or_float : Str → Option ℤ → Option ℤ
or_float s none = some (parse_float s)
or_float s (some i) = some i

-- `jsonutil.IntValue`
unfoldable pub int_value : Json → Option ℤ
int_value (integer i) = some i
int_value (float x) = some (truncate x)
int_value (number s) = or_float s (parse_int s)
int_value (str s) = parse_int (trim_space s)
int_value _ = none

unfoldable pub first_non_empty : List Str → Str
first_non_empty [] = []
first_non_empty (s ∷ ss) =
    let rest = first_non_empty ss in if is_empty (trim_space s) then rest else s
