-- ===== src/Examples/Schemas.antt =====
-- Schemas with an id, a name that is not in the older schema, and a nested address.
use Prim.Native.String.{String}
use fluss_go.Prelude.{ℕ, ◌≤◌, ◌≡◌, ◌≢◌, refl, arith, true, false}
use fluss_go.Prelude.{Bool, List, [], ◌∷◌, none, some, All, length}
use fluss_go.Prelude.Int.{pos, ◌-ℤ◌}
use fluss_go.Prelude.Assoc.{nat_key, find}
use fluss_go.Prelude.Errors.{ok, err, network}
use fluss_go.Schema.Types.{
  LogicalType, logical_type, absent, present, no_fields, field, validate_type,
}
use fluss_go.Schema.Values.{Value, nil_value, int32_value, string_value, valid_untyped_value}
use fluss_go.Schema.Model.{Column, Schema, logical_type_for_column}
use fluss_go.Schema.Ids.{schema_json, has_unassigned_field_ids, SchemaJson, ColumnJson}
use fluss_go.Schema.Ids.Assigned.{column_ids}
use fluss_go.Schema.Ids.Twice.{schema_json-twice}
use fluss_go.Schema.Evolve.{evolve_row}
use fluss_go.Schema.Evolve.Values.{evolve_row-AllValues, AllValues}
use fluss_go.Writer.Upsert.Partial.{validate_partial}
use fluss_go.Writer.Upsert.Partial.Targets.{AtColumns}
use fluss_go.Writer.Upsert.Partial.Omitted.{validate_partial-targets, Names, IsGiven}
use fluss_go.Schema.Cache.{
  CacheCall, reading, fetching, storing, new_cache, run_calls, cached, Entry, evict_oldest,
}
use fluss_go.Schema.Cache.Oldest.{UsedAt, NoneBefore, evict_oldest-UsedAt}
use fluss_go.Prelude.{◌⊎◌}
use fluss_go.Schema.Cache.Refines.{map_calls, empty_map}
use fluss_go.Schema.Cache.Answers.{cache_refines, EntryOf, IsAnswer}

abbrev trimmed : String → String
trimmed s = s

abbrev column : String → String → Bool → Column
column name type nullable = record {
  name = name;
  type = type;
  nullable = nullable;
  logical = absent;
  id = pos 0;
}

abbrev schema_of : List Column → Schema
schema_of columns = record {
  columns = columns;
  primary_key = "key" ∷ [];
  bucket_key = [];
  partition_key = [];
  auto_increment = [];
  highest_field_id = pos 0;
}

abbrev written_schema : Schema
written_schema = schema_of (column "key" "INT" false ∷ column "city" "STRING" true ∷ [])

abbrev read_schema : Schema
read_schema =
    schema_of
      (column "city" "STRING" true ∷ column "name" "STRING" true ∷ column "key" "INT" false ∷ [])

abbrev written_row : List Value
written_row = int32_value (pos 7) ∷ string_value "Oslo" ∷ []

abbrev read_row : List Value
read_row = string_value "Oslo" ∷ nil_value ∷ int32_value (pos 7) ∷ []

evolves : evolve_row written_schema read_schema written_row ≡ ok read_row
unfolding evolve_row
evolves = refl

evolve_row-AllValues_example :
    AllValues written_schema read_schema written_row read_schema.columns read_row
evolve_row-AllValues_example =
    evolve_row-AllValues written_schema read_schema written_row read_row evolves

abbrev address : LogicalType
address = logical_type "ROW" true (pos 0) (pos 0) (pos 0) absent absent absent (
    field "street"
      (logical_type "STRING" true (pos 0) (pos 0) (pos 0) absent absent absent no_fields) "" (pos 0)
      no_fields)

abbrev nested_schema : Schema
nested_schema = schema_of (
    column "key" "INT" false
    ∷ record { name = "home"; type = "ROW"; nullable = true; logical = present address; id = pos 0 }
    ∷ [])

-- The type of the street, and the nested type with the street's id, which is 2.
abbrev text : LogicalType
text = logical_type "STRING" true (pos 0) (pos 0) (pos 0) absent absent absent no_fields

abbrev numbered_address : LogicalType
numbered_address =
    logical_type "ROW" true (pos 0) (pos 0) (pos 0) absent absent absent
      (field "street" text "" (pos 2) no_fields)

abbrev key_json : ColumnJson
key_json = record {
  name = "key";
  data_type = logical_type "INTEGER" false (pos 0) (pos 0) (pos 0) absent absent absent no_fields;
  id = pos 0;
}

abbrev json_of : ℕ → ℕ → SchemaJson
json_of home highest = record {
  columns = key_json ∷ record { name = "home"; data_type = numbered_address; id = pos home } ∷ [];
  primary_key = "key" ∷ [];
  auto_increment = [];
  highest_field_id = pos highest;
}

abbrev numbered_schema : Schema
numbered_schema = schema_of (
    column "key" "INT" false
    ∷ record {
      name = "home";
      type = "ROW";
      nullable = true;
      logical = present numbered_address;
      id = pos 0;
    }
    ∷ [])

writes_first : schema_json trimmed nested_schema ≡ (ok (json_of 1 2), numbered_schema)
unfolding schema_json ◌-ℤ◌ validate_type logical_type_for_column
writes_first = refl

writes_second : schema_json trimmed numbered_schema ≡ (ok (json_of 0 0), numbered_schema)
unfolding schema_json validate_type logical_type_for_column
writes_second = refl

nothing_assigned : has_unassigned_field_ids nested_schema ≡ true
unfolding has_unassigned_field_ids logical_type_for_column
nothing_assigned = refl

street_counts : length (column_ids (json_of 1 2).columns) ≢ 2
unfolding column_ids
street_counts e = ground arith

schema_json-twice_example :
    All (λ (c : ColumnJson). c.id ≡ pos 0) (json_of 0 0).columns × (pos 0 ≡ pos 0)
schema_json-twice_example =
    schema_json-twice trimmed nested_schema numbered_schema numbered_schema (json_of 1 2)
      (json_of 0 0) nothing_assigned writes_first street_counts writes_second

-- A cache of one entry: the schema of id 1 makes place for that of id 2.
abbrev some_calls : List (CacheCall ℕ ℕ)
some_calls =
    fetching 1 (ok 10) ∷ fetching 3 (err network) ∷ reading 1 ∷ storing true 2 20 ∷ reading 1 ∷ []

reads_two : (cached true 2 (run_calls 1 some_calls new_cache)).1 ≡ ok (some 20)
unfolding cached run_calls
reads_two = refl

evicted_one : (cached true 1 (run_calls 1 some_calls new_cache)).1 ≡ ok none
unfolding cached run_calls
evicted_one = refl

cache_refines_example :
    (length (run_calls 1 some_calls new_cache).entries ≤ 1)
    × EntryOf
        ((map_calls some_calls empty_map).stored 2)
        (find 2 (run_calls 1 some_calls new_cache).entries)
    × IsAnswer
        (map_calls some_calls empty_map).closed
        ((map_calls some_calls empty_map).stored 2)
        true
        (cached true 2 (run_calls 1 some_calls new_cache)).1
cache_refines_example = cache_refines 1 some_calls true 2

abbrev two_entries : List (ℕ × Entry ℕ)
two_entries = (1, record { schema = 10; used = 4 }) ∷ (2, record { schema = 20; used = 3 }) ∷ []

evict_oldest-UsedAt_example :
    (j : ℕ) × (u : ℕ) × UsedAt two_entries j u
    × NoneBefore u two_entries
    × (find j (evict_oldest two_entries) ≡ none)
    × ((l : ℕ) → (l ≡ j) ⊎ (find l (evict_oldest two_entries) ≡ find l two_entries))
evict_oldest-UsedAt_example =
    evict_oldest-UsedAt (1, record { schema = 10; used = 4 })
      ((2, record { schema = 20; used = 3 }) ∷ [])

-- A partial update of the city, with the key.
abbrev moved : List String
moved = "city" ∷ "key" ∷ []

moved_targets :
    validate_partial trimmed written_schema moved (string_value "Oslo" ∷ int32_value (pos 7) ∷ [])
    ≡ ok (1 ∷ 0 ∷ [])
unfolding validate_partial valid_untyped_value
moved_targets = refl

validate_partial-targets_example :
    AtColumns written_schema.columns moved (1 ∷ 0 ∷ [])
    × All (Names moved) ("key" ∷ [])
    × All (λ k. ¬ (Names moved k)) []
    × All (IsGiven written_schema moved) written_schema.columns
validate_partial-targets_example =
    validate_partial-targets trimmed written_schema moved
      (string_value "Oslo" ∷ int32_value (pos 7) ∷ []) (1 ∷ 0 ∷ []) moved_targets
