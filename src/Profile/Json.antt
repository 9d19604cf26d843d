-- ===== src/Profile/Json.antt =====
-- The JSON values that profile/parser.go works on: map[string]any with json.Number, and the helpers
-- valueFrom and valueToString. An absent map is one without entries.
use target_lib.Base.{
  List, [], ◌∷◌, Option, none, some, Text, text, ◌==◌, eq_iff, Bool, true, false, ℤ, pos,
  if◌then◌else◌, ◌≡◌, refl, arith,
}

mutual
  pub data Value : Type 0 where
    null : Value
    bool : Bool → Value
    number : Text → Value
    str : Text → Value
    arr : Items → Value
    obj : Fields → Value

  pub data Items : Type 0 where
    nil : Items
    cons : Value → Items → Items

  -- The entries of a map, each key once.
  pub data Fields : Type 0 where
    end : Fields
    field : Text → Value → Fields → Fields

-- m[key], where a key that is not there gives nil.
unfoldable pub get_field : Text → Fields → Value
get_field key end = null
get_field key (field k v m) = if k == key then v else get_field key m

unfoldable pub set_field : Text → Value → Fields → Fields
set_field key value end = field key value end
set_field key value (field k v m) =
    if k == key then field key value m else field k v (set_field key value m)

unfoldable pub delete_field : Text → Fields → Fields
delete_field key end = end
delete_field key (field k v m) =
    let rest = delete_field key m in if k == key then rest else field k v rest

abbrev pub is_null : Value → Bool
is_null null = true
is_null _ = false

-- v.(map[string]any) and v.([]any), with nil for another value.
abbrev pub as_object : Value → Option Fields
as_object (obj m) = some m
as_object _ = none

abbrev pub fields_of : Value → Fields
fields_of (obj m) = m
fields_of _ = end

abbrev pub items_of : Value → Items
items_of (arr xs) = xs
items_of _ = nil

-- valueFrom: the first of the keys that has a value other than nil.
unfoldable pub value_from : Fields → List Text → Value
value_from m [] = null
value_from m (key ∷ more) =
    let rest = value_from m more in if is_null (get_field key m) then rest else get_field key m

-- valueToString; `sprint` is fmt.Sprint on arrays and maps.
unfoldable pub value_to_string : (sprint : Value → Text) → Value → Text
value_to_string sprint null = []
value_to_string sprint (bool true) = text "true"
value_to_string sprint (bool false) = text "false"
value_to_string sprint (number n) = n
value_to_string sprint (str s) = s
value_to_string sprint v = sprint v

-- toInt's number; what strconv and fmt.Sscan make of a text are parameters.
unfoldable pub to_int : (int64 scan : Text → ℤ) → Value → ℤ
to_int int64 scan (number n) = int64 n
to_int int64 scan (str s) = scan s
to_int int64 scan v = pos 0

pub get_field-delete_field : (key : Text) (m : Fields) → get_field key (delete_field key m) ≡ null
unfolding get_field delete_field
get_field-delete_field key end = refl
get_field-delete_field key (field k v m) = ground (arith, get_field-delete_field key m)

pub get_field-set_field :
    (key j : Text) (v : Value) (m : Fields)
    → get_field j (set_field key v m) ≡ (if key == j then v else get_field j m)
unfolding get_field set_field
get_field-set_field key j v end = refl
get_field-set_field key j v (field k w m) =
    ground (arith, eq_iff k key, eq_iff k j, eq_iff key j, get_field-set_field key j v m)
