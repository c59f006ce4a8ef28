-- ===== src/Schema/Types.antt =====
-- pkg/fgo/logical_type.go, and of pkg/fgo/model.go the data types, the values and the test of a value
-- against its type.
use Prim.Native.String.{String}
use text.Mathlib.Text.{◌==◌ as str_eq}
use fluss_go.Prelude.{Bool, true, false, ◌||◌, List, [], ◌∷◌, Option, none, some}
use fluss_go.Prelude.{if◌then◌else◌}
use fluss_go.Prelude.Int.{ℤ, pos, ltb_ℤ}
use fluss_go.Prelude.Errors.{GoError, err_invalid_schema}

mutual
  pub data LogicalType : Type 0 where
    logical_type :
        (root : String) (nullable : Bool) (len precision scale : ℤ)
        (element key value : OptionalType) (fields : FieldList)
        → LogicalType

  -- *LogicalType
  pub data OptionalType : Type 0 where
    absent : OptionalType
    present : LogicalType → OptionalType

  -- []LogicalField
  pub data FieldList : Type 0 where
    no_fields : FieldList
    field :
        (name : String) (type : LogicalType) (description : String) (id : ℤ) (rest : FieldList)
        → FieldList

abbrev pub one_of : String → List String → Bool
one_of s [] = false
one_of s (t ∷ ts) = str_eq s t || one_of s ts

abbrev plain_roots : List String
plain_roots =
    "BOOLEAN" ∷ "TINYINT" ∷ "SMALLINT" ∷ "INTEGER" ∷ "BIGINT" ∷ "FLOAT" ∷ "DOUBLE" ∷ "DATE"
    ∷ "STRING" ∷ "BYTES" ∷ []

abbrev temporal_roots : List String
temporal_roots =
    "TIME_WITHOUT_TIME_ZONE" ∷ "TIMESTAMP_WITHOUT_TIME_ZONE" ∷ "TIMESTAMP_WITH_LOCAL_TIME_ZONE" ∷ []

abbrev pub invalid_when : Bool → Option GoError
invalid_when true = some err_invalid_schema
invalid_when false = none

unfoldable pub validate_decimal : ℤ → ℤ → Option GoError
validate_decimal precision scale = invalid_when (
    ltb_ℤ precision (pos 1)
    || ltb_ℤ (pos 38) precision
    || ltb_ℤ scale (pos 0)
    || ltb_ℤ precision scale)

-- What Validate asks of a type without looking at the types within it.
unfoldable pub validate_root :
    String → ℤ → ℤ → ℤ → Option GoError → Option GoError → Option GoError → Option GoError
unfolding validate_decimal
validate_root root len precision scale array map_type row_type =
    if one_of root plain_roots
    then none
    else if one_of root ("CHAR" ∷ "BINARY" ∷ [])
    then invalid_when (ltb_ℤ len (pos 1))
    else if str_eq root "DECIMAL"
    then validate_decimal precision scale
    else if one_of root temporal_roots
    then invalid_when (ltb_ℤ precision (pos 0) || ltb_ℤ (pos 9) precision)
    else if str_eq root "ARRAY"
    then array
    else if str_eq root "MAP"
    then map_type
    else if str_eq root "ROW"
    then row_type
    else some err_invalid_schema

abbrev pub first_error : Option GoError → Option GoError → Option GoError
first_error (some e) rest = some e
first_error none rest = rest

abbrev pub is_absent : OptionalType → Bool
is_absent absent = true
is_absent (present t) = false

abbrev has_no_fields : FieldList → Bool
has_no_fields no_fields = true
has_no_fields (field name type description id rest) = false

unfoldable mutual
  unfolding validate_root

  -- LogicalType.Validate
  pub validate_type : LogicalType → Option GoError
  validate_type (logical_type root nullable len precision scale element key value fields) =
      let array = validate_optional element in
      let entries = first_error (validate_optional key) (validate_optional value) in
      let row_type = validate_fields fields in
      validate_root root len precision scale array
        (if is_absent key || is_absent value then some err_invalid_schema else entries)
        (if has_no_fields fields then some err_invalid_schema else row_type)

  -- `if t == nil { return ErrInvalidSchema }; return t.Validate()`
  pub validate_optional : OptionalType → Option GoError
  validate_optional absent = some err_invalid_schema
  validate_optional (present t) = validate_type t

  -- The loop of validateRow.
  pub validate_fields : FieldList → Option GoError
  validate_fields no_fields = none
  validate_fields (field name type description id rest) =
      let inner = first_error (validate_type type) (validate_fields rest) in
      if str_eq name "" then some err_invalid_schema else inner
