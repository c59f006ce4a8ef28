-- ===== src/Schema/Ids.antt =====
-- pkg/fgo/model.go: the stable field ids of a schema and how Schema.JSON assigns them. A nested type
-- is shared by the copies of a LogicalType, which have the same Fields slice and the same pointers: here
-- by a column and the copy that JSON makes of its type. Each column, and each Element, Key, Value and
-- field within, has its own: schemas in which two of them share one nested type are outside the model.
pub mod Assigned
pub mod Twice
pub mod Zero
use Prim.Native.String.{String}
use fluss_go.Prelude.{ℕ, ◌+◌, ◌-◌, Bool, true, false, ◌&&◌, not, List, [], ◌∷◌, Option, none, some}
use fluss_go.Prelude.{◌==◌, if◌then◌else◌}
use fluss_go.Prelude.Int.{ℤ, pos, negsuc, ◌-ℤ◌}
use fluss_go.Prelude.Errors.{GoError, Result, ok, err}
use fluss_go.Schema.Types.{
  LogicalType, logical_type, OptionalType, absent, present, FieldList, no_fields, field,
}
use fluss_go.Schema.Model.{Column, Schema, logical_type_for_column, validate_schema}

abbrev pub is_zero : ℤ → Bool
is_zero (pos n) = n == 0
is_zero (negsuc n) = false

unfoldable mutual
  -- logicalFieldIDsAreZero
  pub type_ids_are_zero : LogicalType → Bool
  type_ids_are_zero (logical_type root nullable len precision scale element key value fields) =
      field_ids_are_zero fields
      && (optional_ids_are_zero element
          && (optional_ids_are_zero key && optional_ids_are_zero value))

  pub optional_ids_are_zero : OptionalType → Bool
  optional_ids_are_zero absent = true
  optional_ids_are_zero (present t) = type_ids_are_zero t

  pub field_ids_are_zero : FieldList → Bool
  field_ids_are_zero no_fields = true
  field_ids_are_zero (field name type description id rest) =
      is_zero id && (type_ids_are_zero type && field_ids_are_zero rest)

-- The loop of hasUnassignedFieldIDs.
unfoldable pub columns_unassigned : List Column → Bool
unfolding type_ids_are_zero
columns_unassigned [] = true
columns_unassigned (c ∷ cs) =
    is_zero c.id && (type_ids_are_zero (logical_type_for_column c) && columns_unassigned cs)

unfoldable pub has_unassigned_field_ids : Schema → Bool
unfolding columns_unassigned
has_unassigned_field_ids s = is_zero s.highest_field_id && columns_unassigned s.columns

unfoldable mutual
  -- assignLogicalFieldIDs, with the next id before and after.
  pub assign_type_ids : LogicalType → ℕ → LogicalType × ℕ
  assign_type_ids (logical_type root nullable len precision scale element key value fields) next =
      let f = assign_field_ids fields next in
      let e = assign_optional_ids element f.1 in
      let k = assign_optional_ids key e.1 in
      let v = assign_optional_ids value k.1 in
      (logical_type root nullable len precision scale e.0 k.0 v.0 f.0, v.1)

  pub assign_optional_ids : OptionalType → ℕ → OptionalType × ℕ
  assign_optional_ids absent next = (absent, next)
  assign_optional_ids (present t) next = let r = assign_type_ids t next in (present r.0, r.1)

  pub assign_field_ids : FieldList → ℕ → FieldList × ℕ
  assign_field_ids no_fields next = (no_fields, next)
  assign_field_ids (field name type description id rest) next =
      let t = assign_type_ids type (next + 1) in
      let r = assign_field_ids rest t.1 in (field name t.0 description (pos next) r.0, r.1)

-- schemaColumnJSON
pub record ColumnJson : Type 0 where
  pub name : String
  pub data_type : LogicalType
  pub id : ℤ

pub record SchemaJson : Type 0 where
  pub columns : List ColumnJson
  pub primary_key : List String
  pub auto_increment : List String
  pub highest_field_id : ℤ

abbrev pub is_present : OptionalType → Bool
is_present absent = false
is_present (present t) = true

-- The type that the column points to is the one whose ids were assigned; no other column has it.
unfoldable pub share_ids : Column → LogicalType → Column
share_ids c t = if is_present c.logical then record c { logical = present t } else c

-- The loop of JSON that assigns the ids, with the columns as it leaves them and the next id.
unfoldable pub assign_column_ids : List Column → ℕ → List ColumnJson × List Column × ℕ
unfolding assign_type_ids share_ids
assign_column_ids [] next = ([], [], next)
assign_column_ids (c ∷ cs) next =
    let t = assign_type_ids (logical_type_for_column c) (next + 1) in
    let r = assign_column_ids cs t.1 in
    (record { name = c.name; data_type = t.0; id = pos next } ∷ r.0, share_ids c t.0 ∷ r.1, r.2)

-- The same loop when the columns have their ids.
unfoldable pub keep_column_ids : List Column → List ColumnJson
keep_column_ids [] = []
keep_column_ids (c ∷ cs) =
    record { name = c.name; data_type = logical_type_for_column c; id = c.id } ∷ keep_column_ids cs

-- Schema.JSON after its validation and the test of hasUnassignedFieldIDs.
unfoldable pub write_json : Option GoError → Bool → Schema → Result SchemaJson × Schema
unfolding assign_column_ids keep_column_ids
write_json (some e) unassigned s = (err e, s)
write_json none true s =
    let assigned = assign_column_ids s.columns 0 in
    (
      ok (record {
        columns = assigned.0;
        primary_key = s.primary_key;
        auto_increment = s.auto_increment;
        highest_field_id = pos assigned.2 -ℤ pos 1;
      }),
      record s { columns = assigned.1 },
    )
write_json none false s = (
  ok (record {
    columns = keep_column_ids s.columns;
    primary_key = s.primary_key;
    auto_increment = s.auto_increment;
    highest_field_id = s.highest_field_id;
  }),
  s,
)

-- Schema.JSON before json.Marshal, and the caller's schema after the call.
unfoldable pub schema_json : (String → String) → Schema → Result SchemaJson × Schema
unfolding write_json has_unassigned_field_ids validate_schema
schema_json trim_space s = write_json (validate_schema trim_space s) (has_unassigned_field_ids s) s
