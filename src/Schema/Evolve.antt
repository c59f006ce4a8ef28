-- ===== src/Schema/Evolve.antt =====
-- pkg/fgo/schema_resolver.go: how a row of the writer's schema is read with another schema.
pub mod Columns
pub mod SameType
pub mod Values
use Prim.Native.String.{String}
use fluss_go.Prelude.{
  ℕ, ◌+◌, Bool, true, false, ◌&&◌, not, List, [], ◌∷◌, Option, none, some, length, get_or,
  get_elem?,
}
use fluss_go.Prelude.{◌==◌, if◌then◌else◌, ◌↔◌, ◌≡◌, ==_iff, ap, arith}
use text.Mathlib.Text.{◌==◌ as str_eq}
use fluss_go.Prelude.Assoc.{Key, find, put}
use fluss_go.Prelude.Int.{ℤ, pos, negsuc, pos_part}
use fluss_go.Prelude.Errors.{GoError, Result, ok, err, ◌>>=◌, err_invalid_schema, err_malformed_row}
use fluss_go.Schema.Types.{
  LogicalType, logical_type, OptionalType, absent, present, FieldList, no_fields, field,
}
use fluss_go.Schema.Values.{Value, nil_value, is_nil}
use fluss_go.Schema.Model.{Column, Schema, string_key, logical_type_for_column, column_name}
use fluss_go.Schema.Ids.{has_unassigned_field_ids}

abbrev pub same_bool : Bool → Bool → Bool
same_bool true b = b
same_bool false b = not b

abbrev pub same_int : ℤ → ℤ → Bool
same_int (pos a) (pos b) = a == b
same_int (negsuc a) (negsuc b) = a == b
same_int (pos a) (negsuc b) = false
same_int (negsuc a) (pos b) = false

pub same_int_iff : (a b : ℤ) → (same_int a b ≡ true) ↔ (a ≡ b)
same_int_iff (pos a) (pos b) =
    let (to, from) = ==_iff a b in (λ h. ap pos (to h), λ h. from (ap pos_part h))
same_int_iff (negsuc a) (negsuc b) =
    let (to, from) = ==_iff a b in (λ h. ap negsuc (to h), λ h. ground arith)
same_int_iff (pos a) (negsuc b) = (λ h. cc, λ h. cc)
same_int_iff (negsuc a) (pos b) = (λ h. cc, λ h. cc)

instance abbrev pub int_key : Key ℤ
int_key = record { same = same_int; same_iff = same_int_iff }

unfoldable mutual
  -- reflect.DeepEqual on two logical types; nil and empty Fields, which it tells apart, are one here.
  pub same_logical_type : LogicalType → LogicalType → Bool
  same_logical_type (logical_type root nullable len precision scale element key value fields)
        (logical_type root' nullable' len' precision' scale' element' key' value' fields') =
      str_eq root root'
      && (same_bool nullable nullable'
          && (same_int len len'
              && (same_int precision precision'
                  && (same_int scale scale'
                      && (same_optional element element'
                          && (same_optional key key'
                              && (same_optional value value' && same_fields fields fields')))))))

  pub same_optional : OptionalType → OptionalType → Bool
  same_optional absent absent = true
  same_optional absent (present t) = false
  same_optional (present t) absent = false
  same_optional (present t) (present u) = same_logical_type t u

  pub same_fields : FieldList → FieldList → Bool
  same_fields no_fields no_fields = true
  same_fields no_fields (field name' type' description' id' rest') = false
  same_fields (field name type description id rest) no_fields = false
  same_fields (field name type description id rest) (field name' type' description' id' rest') =
      str_eq name name'
      && (same_logical_type type type'
          && (str_eq description description' && (same_int id id' && same_fields rest rest')))

abbrev pub not_null : LogicalType → LogicalType
not_null (logical_type root nullable len precision scale element key value fields) =
    logical_type root false len precision scale element key value fields

-- compatibleColumnType
unfoldable pub compatible_column_type : Column → Column → Bool
unfolding same_logical_type logical_type_for_column
compatible_column_type source target =
    same_logical_type (not_null (logical_type_for_column source))
      (not_null (logical_type_for_column target))

-- sourceByID and sourceByName, from the index of the first column.
unfoldable pub index_by :
    {K : Type 0} ⦃e : Key K⦄ → (Column → K) → List Column → ℕ → List (K × ℕ) → List (K × ℕ)
index_by key [] index m = m
index_by key (c ∷ cs) index m = index_by key cs (index + 1) (put (key c) index m)

abbrev pub column_id : Column → ℤ
column_id c = c.id

-- stableIDs
unfoldable pub stable_ids : Schema → Schema → Bool
unfolding has_unassigned_field_ids
stable_ids source target =
    not (has_unassigned_field_ids source) && not (has_unassigned_field_ids target)

-- The index of the source's column for a target's column.
unfoldable pub find_source : Schema → Schema → Column → Option ℕ
unfolding stable_ids index_by
find_source source target c =
    if stable_ids source target
    then find c.id (index_by column_id source.columns 0 [])
    else find c.name (index_by column_name source.columns 0 [])

-- The mapping of a column that was found.
unfoldable pub map_found : Column → ℕ → Option Column → Result (Option ℕ)
unfolding compatible_column_type
map_found c index none = err err_invalid_schema
map_found c index (some s) =
    if compatible_column_type s c then ok (some index) else err err_invalid_schema

-- One column of the mapping, where none stands for -1.
unfoldable pub map_column : Schema → Option ℕ → Column → Result (Option ℕ)
unfolding map_found
map_column source none c = if c.nullable then ok none else err err_invalid_schema
map_column source (some index) c = map_found c index (get_elem? source.columns index)

-- The loop of schemaColumnMapping.
unfoldable pub map_columns : Schema → Schema → List Column → Result (List (Option ℕ))
unfolding find_source map_column
map_columns source target [] = ok []
map_columns source target (c ∷ cs) = map_column source (find_source source target c) c >>= λ m.
    map_columns source target cs >>= λ ms. ok (m ∷ ms)

unfoldable pub schema_column_mapping : Schema → Schema → Result (List (Option ℕ))
unfolding map_columns
schema_column_mapping source target = map_columns source target target.columns

unfoldable pub evolve_value : Option ℕ → Column → List Value → Result Value
evolve_value none c row = ok nil_value
evolve_value (some index) c row =
    let v = get_or row index nil_value in
    if is_nil v && not c.nullable then err err_invalid_schema else ok v

-- The loop of evolveRow.
unfoldable pub evolve_values : List (Option ℕ) → List Column → List Value → Result (List Value)
unfolding evolve_value
evolve_values (m ∷ ms) (c ∷ cs) row =
    evolve_value m c row >>= λ v. evolve_values ms cs row >>= λ vs. ok (v ∷ vs)
evolve_values _ _ row = ok []

unfoldable pub evolve_row : Schema → Schema → List Value → Result (List Value)
unfolding schema_column_mapping evolve_values
evolve_row source target row =
    if length row == length source.columns
    then (schema_column_mapping source target >>= λ mapping.
        evolve_values mapping target.columns row)
    else err err_malformed_row
