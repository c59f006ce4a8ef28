-- ===== src/Writer/Upsert/Partial.antt =====
-- pkg/fgo/kv_writer.go: which tables an upsert writer takes, and which columns a partial update may
-- name (validateUpsertWriterTable, validatePartial, validatePartialSelection).
pub mod Targets
pub mod Omitted
use Prim.Native.String.{String}
use text.Mathlib.Text.{◌==◌ as str_eq}
use fluss_go.Prelude.{
  ℕ, ◌^◌, ◌-◌, Bool, true, false, ◌&&◌, ◌||◌, not, List, [], ◌∷◌, ◌++◌, Option, none, some,
}
use fluss_go.Prelude.{length, ltb, ◌==◌, if◌then◌else◌}
use fluss_go.Prelude.Assoc.{find}
use fluss_go.Prelude.Int.{ℤ, pos, negsuc, ltb_ℤ}
use fluss_go.Prelude.Errors.{
  GoError, Result, ok, err, ◌>>=◌, err_invalid_row, err_invalid_schema, err_table_kind,
  unless_error,
}
use fluss_go.Schema.Types.{one_of, first_error}
use fluss_go.Schema.Values.{Value}
use fluss_go.Schema.Model.{Column, Schema, string_key, column_name, validate_schema, validate_row}
use fluss_go.Schema.Evolve.{index_by}

-- The table kinds, "LOG" and "PRIMARY_KEY", and of Table what an upsert writer reads.
pub record Table : Type 0 where
  pub kind : String
  pub schema_id : ℤ
  pub schema : Schema

-- RequirePrimaryKey
unfoldable pub require_primary_key : Table → Option GoError
require_primary_key t = if str_eq t.kind "PRIMARY_KEY" then none else some err_table_kind

-- Each bucket key is a primary key.
unfoldable pub all_within : List String → List String → Bool
all_within [] keys = true
all_within (k ∷ ks) keys = one_of k keys && all_within ks keys

abbrev pub has_none : List String → Bool
has_none [] = true
has_none (_ ∷ _) = false

-- validateUpsertWriterTable
unfoldable pub validate_upsert_writer_table : (String → String) → Table → Option GoError
unfolding require_primary_key all_within validate_schema
validate_upsert_writer_table trim_space t = first_error (require_primary_key t) (
    first_error (validate_schema trim_space t.schema) (
      if ltb_ℤ t.schema_id (pos 0) || ltb_ℤ (pos (2 ^ 15 - 1)) t.schema_id
      then some err_invalid_schema
      else if has_none t.schema.primary_key
      then some err_invalid_schema
      else if all_within t.schema.bucket_key t.schema.primary_key
      then none
      else some err_invalid_schema))

-- `positions[name]`, which is 0 for a name that is not a column.
unfoldable pub position_of : List (String × ℕ) → String → ℕ
position_of positions name = elim (find name positions) [ none ↦ 0 | some n ↦ n ]

-- The loop of validatePartial, with the names selected so far.
unfoldable pub select_targets : List (String × ℕ) → List String → List String → Result (List ℕ)
unfolding position_of
select_targets positions selected [] = ok []
select_targets positions selected (n ∷ ns) =
    let rest = select_targets positions (n ∷ selected) ns in
    if one_of n selected
    then err err_invalid_row
    else (rest >>= λ targets. ok (position_of positions n ∷ targets))

unfoldable pub all_selected : List String → List String → Option GoError
all_selected [] selected = none
all_selected (k ∷ ks) selected =
    let rest = all_selected ks selected in if one_of k selected then rest else some err_invalid_row

unfoldable pub none_selected : List String → List String → Option GoError
none_selected [] selected = none
none_selected (k ∷ ks) selected =
    let rest = none_selected ks selected in if one_of k selected then some err_invalid_row else rest

-- A column that may be left out: it is nullable, a primary key or filled in by the server.
unfoldable pub may_omit : Schema → List String → Column → Bool
may_omit s selected c =
    one_of c.name selected
    || c.nullable
    || one_of c.name s.primary_key
    || one_of c.name s.auto_increment

unfoldable pub omitted_fit : Schema → List String → List Column → Option GoError
unfolding may_omit
omitted_fit s selected [] = none
omitted_fit s selected (c ∷ cs) =
    let rest = omitted_fit s selected cs in
    if may_omit s selected c then rest else some err_invalid_row

-- validatePartialSelection
unfoldable pub validate_partial_selection : Schema → List String → Option GoError
unfolding all_selected none_selected omitted_fit
validate_partial_selection s selected =
    first_error (all_selected s.primary_key selected)
      (first_error (none_selected s.auto_increment selected) (omitted_fit s selected s.columns))

-- validatePartial
unfoldable pub validate_partial :
    (String → String) → Schema → List String → List Value → Result (List ℕ)
unfolding unless_error validate_row select_targets validate_partial_selection index_by
validate_partial trim_space s columns values =
    if has_none columns || not (length columns == length values)
    then err err_invalid_row
    else unless_error (validate_row trim_space s values columns) (
        select_targets (index_by column_name s.columns 0 []) [] columns >>= λ targets.
        unless_error (validate_partial_selection s columns) (ok targets))
