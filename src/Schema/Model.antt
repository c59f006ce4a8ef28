-- ===== src/Schema/Model.antt =====
-- pkg/fgo/model.go: columns and schemas, their validation, and that of rows and keys. The
-- description of a column is left out.
use Prim.Native.String.{String}
use text.Mathlib.Text.{◌==◌ as str_eq}
use text.Mathlib.TextEquality.{eq_iff}
use fluss_go.Prelude.{Bool, true, false, ◌||◌, not, List, [], ◌∷◌, Option, none, some, map, length}
use fluss_go.Prelude.{◌==◌, if◌then◌else◌, is_some}
use fluss_go.Prelude.Assoc.{Key, find, put}
use fluss_go.Prelude.Int.{ℤ, pos}
use fluss_go.Prelude.Errors.{GoError, Result, ok, err, err_invalid_schema, err_invalid_row}
use fluss_go.Schema.Types.{
  LogicalType, logical_type, OptionalType, absent, present, no_fields, one_of, invalid_when,
  validate_type, first_error,
}
use fluss_go.Schema.Values.{
  Value, logical_root, data_types, valid_untyped_value, valid_logical_value, is_nil,
}

instance abbrev pub string_key : Key String
string_key = record { same = str_eq; same_iff = eq_iff }

pub record Column : Type 0 where
  pub name : String
  pub type : String
  pub nullable : Bool
  pub logical : OptionalType
  pub id : ℤ

pub record Schema : Type 0 where
  pub columns : List Column
  pub primary_key : List String
  pub bucket_key : List String
  pub partition_key : List String
  pub auto_increment : List String
  pub highest_field_id : ℤ

-- DataType.Validate
unfoldable pub validate_data_type : String → Option GoError
validate_data_type t = invalid_when (not (one_of t data_types))

-- logicalTypeForColumn
unfoldable pub logical_type_for_column : Column → LogicalType
unfolding logical_root
logical_type_for_column c = elim c.logical [
  | present t ↦ t
  | absent ↦
      logical_type (logical_root c.type) c.nullable (pos 0) (pos 0) (pos 0) absent absent absent
        no_fields
]

unfoldable pub validate_column_type : Column → Option GoError
unfolding validate_data_type
validate_column_type c = elim c.logical [
  | present t ↦ validate_type t
  | absent ↦ validate_data_type c.type
]

-- `column.Name == "" || strings.TrimSpace(column.Name) != column.Name`; `trim_space` is the library's.
unfoldable pub invalid_name : (String → String) → String → Bool
invalid_name trim_space name = str_eq name "" || not (str_eq (trim_space name) name)

-- The loop of validateColumns, with the columns of the map so far.
unfoldable pub validate_columns :
    (String → String) → List Column → List (String × Column) → Result (List (String × Column))
unfolding invalid_name validate_column_type
validate_columns trim_space [] columns = ok columns
validate_columns trim_space (c ∷ cs) columns =
    let rest = validate_columns trim_space cs (put c.name c columns) in
    if invalid_name trim_space c.name
    then err err_invalid_schema
    else if is_some (find c.name columns)
    then err err_invalid_schema
    else elim (validate_column_type c) [ some e ↦ err e | none ↦ rest ]

-- validateSchemaKeys
unfoldable pub validate_schema_keys : List (String × Column) → List String → Option GoError
validate_schema_keys columns [] = none
validate_schema_keys columns (k ∷ ks) =
    let rest = validate_schema_keys columns ks in
    if is_some (find k columns) then rest else some err_invalid_schema

abbrev has_no_columns : List Column → Bool
has_no_columns [] = true
has_no_columns (_ ∷ _) = false

unfoldable pub validate_keys : Schema → Result (List (String × Column)) → Option GoError
unfolding validate_schema_keys
validate_keys s (err e) = some e
validate_keys s (ok columns) = first_error (validate_schema_keys columns s.primary_key) (
    first_error (validate_schema_keys columns s.bucket_key)
      (validate_schema_keys columns s.partition_key))

-- Schema.Validate
unfoldable pub validate_schema : (String → String) → Schema → Option GoError
unfolding validate_columns validate_keys
validate_schema trim_space s =
    if has_no_columns s.columns
    then some err_invalid_schema
    else validate_keys s (validate_columns trim_space s.columns [])

-- columnsByName
unfoldable pub columns_by_name : List Column → List (String × Column) → List (String × Column)
columns_by_name [] m = m
columns_by_name (c ∷ cs) m = columns_by_name cs (put c.name c m)

abbrev pub column_name : Column → String
column_name c = c.name

-- selectedColumns
unfoldable pub selected_columns : Schema → List String → List String
selected_columns s [] = map column_name s.columns
selected_columns s (n ∷ ns) = n ∷ ns

-- validateColumnValue
unfoldable pub validate_column_value : Column → Value → Option GoError
validate_column_value c v =
    let valid = elim c.logical as (λ _. Bool) [
      | absent ↦ valid_untyped_value c.type v
      | present t ↦ valid_logical_value t v
    ] in
    if is_nil v
    then if c.nullable then none else some err_invalid_row
    else if valid
    then none
    else some err_invalid_row

-- One round of the loop of ValidateRow, with the error of the later ones.
unfoldable pub check_named : Option Column → Value → Option GoError → Option GoError
unfolding validate_column_value
check_named none v rest = some err_invalid_row
check_named (some c) v rest = first_error (validate_column_value c v) rest

-- The loop of ValidateRow, which stands after a test of the two lengths.
unfoldable pub validate_values : List (String × Column) → List String → List Value → Option GoError
unfolding check_named
validate_values by_name [] vs = none
validate_values by_name (n ∷ ns) [] = some err_invalid_row
validate_values by_name (n ∷ ns) (v ∷ vs) =
    let rest = validate_values by_name ns vs in check_named (find n by_name) v rest

-- ValidateRow
unfoldable pub validate_row : (String → String) → Schema → List Value → List String → Option GoError
unfolding validate_schema selected_columns columns_by_name validate_values
validate_row trim_space s row columns =
    let names = selected_columns s columns in
    let checked = validate_values (columns_by_name s.columns []) names row in
    first_error (validate_schema trim_space s)
      (if length row == length names then checked else some err_invalid_row)
