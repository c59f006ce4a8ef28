-- ===== src/Partition.antt =====
-- pkg/fgo/partition.go: partition names and specs. A text is the list of its bytes, and a
-- PartitionSpec an association list without a repeated key.
pub mod RoundTrip
pub mod Create
use fluss_go.Prelude.{
  ℕ, zero, suc, List, [], ◌∷◌, ◌++◌, Option, none, some, map, length, Bool, true, false, ◌&&◌, ◌||◌,
  not,
}
use fluss_go.Prelude.{◌==◌, is_some, if◌then◌else◌}
use fluss_go.Prelude.Errors.{Result, ok, err, ◌>>=◌, err_invalid_schema, err_invalid_config}

abbrev pub Text : Type 0
Text = List ℕ

-- partitionValueSeparator, "$"
abbrev pub partition_value_separator : ℕ
partition_value_separator = 36

abbrev pub PartitionSpec : Type 0
PartitionSpec = List (Text × Text)

abbrev pub same_text : Text → Text → Bool
same_text [] [] = true
same_text (a ∷ as') (b ∷ bs) = (a == b) && same_text as' bs
same_text _ _ = false

abbrev pub is_empty_text : Text → Bool
is_empty_text [] = true
is_empty_text (_ ∷ _) = false

-- spec[key]
abbrev pub lookup_spec : Text → PartitionSpec → Option Text
lookup_spec key [] = none
lookup_spec key ((k, v) ∷ spec) = if same_text key k then some v else lookup_spec key spec

-- strings.Contains(value, "$")
abbrev pub has_separator : Text → Bool
has_separator [] = false
has_separator (b ∷ bs) = (b == partition_value_separator) || has_separator bs

-- strings.Join(values, "$")
unfoldable pub join_values : List Text → Text
join_values [] = []
join_values (v ∷ []) = v
join_values (v ∷ w ∷ vs) = v ++ (partition_value_separator ∷ join_values (w ∷ vs))

unfoldable pub add_byte : ℕ → List Text → List Text
add_byte b [] = (b ∷ []) ∷ []
add_byte b (v ∷ vs) = (b ∷ v) ∷ vs

-- strings.Split(name, "$")
unfoldable pub split_values : Text → List Text
unfolding add_byte
split_values [] = [] ∷ []
split_values (b ∷ bs) =
    let rest = split_values bs in
    if b == partition_value_separator then [] ∷ rest else add_byte b rest

-- The test on one value of PartitionName.
unfoldable pub valid_value : Option Text → Result Text
valid_value none = err err_invalid_config
valid_value (some v) = if is_empty_text v || has_separator v then err err_invalid_config else ok v

unfoldable pub partition_values : List Text → PartitionSpec → Result (List Text)
unfolding valid_value
partition_values [] spec = ok []
partition_values (key ∷ keys) spec =
    valid_value (lookup_spec key spec) >>= λ v. partition_values keys spec >>= λ vs. ok (v ∷ vs)

unfoldable pub partition_name : List Text → PartitionSpec → Result Text
unfolding partition_values join_values
partition_name keys spec =
    if length keys == 0
    then err err_invalid_schema
    else if not (length spec == length keys)
    then err err_invalid_config
    else partition_values keys spec >>= λ vs. ok (join_values vs)

-- The loop of PartitionSpecFromName.
unfoldable pub spec_loop : List Text → List Text → PartitionSpec → Result PartitionSpec
spec_loop [] values spec = ok spec
spec_loop (key ∷ keys) [] spec = ok spec
spec_loop (key ∷ keys) (v ∷ values) spec =
    if is_empty_text key || is_empty_text v
    then err err_invalid_config
    else if is_some (lookup_spec key spec)
    then err err_invalid_config
    else spec_loop keys values (spec ++ ((key, v) ∷ []))

unfoldable pub partition_spec_from_name : List Text → Text → Result PartitionSpec
unfolding spec_loop split_values
partition_spec_from_name keys name =
    let values = split_values name in
    if length keys == 0 || is_empty_text name
    then err err_invalid_config
    else if not (length values == length keys)
    then err err_invalid_config
    else spec_loop keys values []
