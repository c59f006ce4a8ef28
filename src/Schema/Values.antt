-- ===== src/Schema/Values.antt =====
-- pkg/fgo/model.go: the values of a row and the test of a value against a data type. The keys of a
-- map[string]any are sorted by the map's own order, which the test does not depend on.
use Prim.Native.String.{String}
use text.Mathlib.Text.{◌==◌ as str_eq}
use fluss_go.Prelude.{
  ℕ, Bool, true, false, ◌&&◌, ◌||◌, not, List, [], ◌∷◌, Option, none, some, if◌then◌else◌,
}
use fluss_go.Prelude.Int.{ℤ}
use fluss_go.Schema.Types.{
  LogicalType, logical_type, OptionalType, absent, present, FieldList, no_fields, field, one_of,
  is_absent,
}

-- A Go value of type `any`, by its dynamic type. Numbers that no test reads are kept as they are
-- encoded: a float by its bits, a *big.Rat by its parts, a time by its nanoseconds.
mutual
  pub data Value : Type 0 where
    nil_value : Value
    bool_value : Bool → Value
    int8_value int16_value int32_value int64_value : ℤ → Value
    float32_value float64_value : ℕ → Value
    string_value : String → Value
    bytes_value : List ℕ → Value
    rat_value : ℤ → ℕ → Value
    time_value : ℤ → Value
    slice_value : Values → Value
    map_value : Entries → Value
    row_value : Values → Value
    other_value : Value

  pub data Values : Type 0 where
    no_values : Values
    value_cons : Value → Values → Values

  -- Map, and map[string]any by its sorted keys.
  pub data Entries : Type 0 where
    no_entries : Entries
    entry_cons : (key value : Value) → Entries → Entries

-- dataTypeForLogicalType, with the root for the type.
unfoldable pub data_type_for_root : String → String
data_type_for_root root =
    if str_eq root "INTEGER"
    then "INT"
    else if str_eq root "TIMESTAMP_WITHOUT_TIME_ZONE"
    then "TIMESTAMP"
    else root

unfoldable pub logical_root : String → String
logical_root kind =
    if str_eq kind "INT"
    then "INTEGER"
    else if str_eq kind "TIMESTAMP"
    then "TIMESTAMP_WITHOUT_TIME_ZONE"
    else kind

abbrev pub data_types : List String
data_types =
    "BOOLEAN" ∷ "CHAR" ∷ "INT" ∷ "TINYINT" ∷ "SMALLINT" ∷ "BIGINT" ∷ "FLOAT" ∷ "DOUBLE" ∷ "STRING"
    ∷ "BINARY" ∷ "BYTES" ∷ "DECIMAL" ∷ "DATE" ∷ "TIME_WITHOUT_TIME_ZONE" ∷ "TIMESTAMP"
    ∷ "TIMESTAMP_WITH_LOCAL_TIME_ZONE" ∷ "ARRAY" ∷ "MAP" ∷ "ROW" ∷ []

abbrev pub temporal_types : List String
temporal_types =
    "DATE" ∷ "TIME_WITHOUT_TIME_ZONE" ∷ "TIMESTAMP" ∷ "TIMESTAMP_WITH_LOCAL_TIME_ZONE" ∷ []

-- validUntypedValue, from the data type to the dynamic type.
unfoldable pub valid_untyped_value : String → Value → Bool
valid_untyped_value kind nil_value = false
valid_untyped_value kind (bool_value _) = str_eq kind "BOOLEAN"
valid_untyped_value kind (int8_value _) = str_eq kind "TINYINT"
valid_untyped_value kind (int16_value _) = str_eq kind "SMALLINT"
valid_untyped_value kind (int32_value _) = str_eq kind "INT"
valid_untyped_value kind (int64_value _) = str_eq kind "BIGINT"
valid_untyped_value kind (float32_value _) = str_eq kind "FLOAT"
valid_untyped_value kind (float64_value _) = str_eq kind "DOUBLE"
valid_untyped_value kind (string_value _) = one_of kind ("STRING" ∷ "CHAR" ∷ [])
valid_untyped_value kind (bytes_value _) = one_of kind ("BINARY" ∷ "BYTES" ∷ [])
valid_untyped_value kind (rat_value _ _) = str_eq kind "DECIMAL"
valid_untyped_value kind (time_value _) = one_of kind temporal_types
valid_untyped_value kind (slice_value _) = str_eq kind "ARRAY"
valid_untyped_value kind (map_value _) = str_eq kind "MAP"
valid_untyped_value kind (row_value _) = str_eq kind "ROW"
valid_untyped_value kind other_value = false

abbrev pub all_values : (Value → Bool) → Values → Bool
all_values p no_values = true
all_values p (value_cons v vs) = p v && all_values p vs

abbrev pub all_entries : (Value → Bool) → (Value → Bool) → Entries → Bool
all_entries p q no_entries = true
all_entries p q (entry_cons key value rest) = p key && q value && all_entries p q rest

abbrev pub array_elements : Value → Option Values
array_elements (slice_value vs) = some vs
array_elements _ = none

abbrev pub map_entries : Value → Option Entries
map_entries (map_value es) = some es
map_entries _ = none

abbrev pub row_values : Value → Option Values
row_values (row_value vs) = some vs
row_values _ = none

abbrev pub is_nil : Value → Bool
is_nil nil_value = true
is_nil _ = false

-- What validLogicalValue asks of a value that is not nil, with the tests for the types within.
unfoldable pub valid_by_kind : String → Bool → Bool → Bool → Value → Bool
unfolding valid_untyped_value
valid_by_kind kind array map_type row_type v =
    if str_eq kind "ARRAY"
    then array
    else if str_eq kind "MAP"
    then map_type
    else if str_eq kind "ROW"
    then row_type
    else valid_untyped_value kind v

-- validLogicalArray, with the elements if the value is a slice, and the test of one element.
unfoldable pub valid_logical_array : Bool → (Value → Bool) → Option Values → Bool
valid_logical_array missing valid none = false
valid_logical_array missing valid (some vs) = not missing && all_values valid vs

-- validLogicalMap
unfoldable pub valid_logical_map : Bool → (Value → Bool) → (Value → Bool) → Option Entries → Bool
valid_logical_map missing valid_key valid none = false
valid_logical_map missing valid_key valid (some es) = not missing && all_entries valid_key valid es

unfoldable mutual
  unfolding data_type_for_root valid_by_kind valid_logical_array valid_logical_map

  -- validLogicalValue
  pub valid_logical_value : LogicalType → Value → Bool
  valid_logical_value (logical_type root nullable len precision scale element key value fields) v =
      let array =
        valid_logical_array (is_absent element) (valid_optional element) (array_elements v) in
      let entries =
        valid_logical_map (is_absent key || is_absent value) (valid_optional key)
          (valid_optional value) (map_entries v) in
      let row_type = valid_row fields (row_values v) in
      if is_nil v
      then nullable
      else valid_by_kind (data_type_for_root root) array entries row_type v

  pub valid_optional : OptionalType → Value → Bool
  valid_optional absent v = false
  valid_optional (present t) v = valid_logical_value t v

  -- validLogicalRow: the values are none when the value is not a row, and have to be as many as the
  -- fields.
  pub valid_row : FieldList → Option Values → Bool
  valid_row no_fields none = false
  valid_row no_fields (some no_values) = true
  valid_row no_fields (some (value_cons v vs)) = false
  valid_row (field name type description id rest) none = false
  valid_row (field name type description id rest) (some no_values) = false
  valid_row (field name type description id rest) (some (value_cons v vs)) =
      valid_logical_value type v && valid_row rest (some vs)
