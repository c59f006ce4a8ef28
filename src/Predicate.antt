-- ===== src/Predicate.antt =====
-- pkg/fgo/predicate.go: a predicate on columns and its encoding for a fetch request. The field err of a
-- Predicate is never set and is left out, and literals that are nil are those that are empty.
pub mod Literals
pub mod Shapes
pub mod Compiled
pub mod Exact
use Prim.Native.String.{String}
use text.Mathlib.Text.{◌==◌ as str_eq}
use fluss_go.Prelude.{ℕ, ◌+◌, Bool, true, false, ◌&&◌, ◌||◌, not, List, [], ◌∷◌, Option, none, some}
use fluss_go.Prelude.{length, ltb, ◌==◌, if◌then◌else◌}
use fluss_go.Prelude.Assoc.{find}
use fluss_go.Prelude.Int.{ℤ, pos, negsuc, ltb_ℤ, to_int32}
use fluss_go.Prelude.Errors.{GoError, Result, ok, err, ◌>>=◌, err_invalid_config, unless_error}
use fluss_go.Schema.Types.{LogicalType, logical_type, one_of}
use fluss_go.Schema.Values.{data_type_for_root}
use fluss_go.Schema.Model.{Column, Schema, string_key, columns_by_name, logical_type_for_column}
use fluss_go.Schema.Evolve.{int_key}
use fluss_go.Predicate.Literals.{Literal, PbLiteral, encode_literal, is_nil_literal}

-- The functions of compounds, int32.
abbrev pub compound_and : ℕ
compound_and = 0

abbrev pub compound_or : ℕ
compound_or = 1

mutual
  pub data Predicate : Type 0 where
    leaf : (function : ℕ) (column : String) (literals : List Literal) → Predicate
    compound : (function : ℕ) (children : Predicates) → Predicate

  pub data Predicates : Type 0 where
    no_predicates : Predicates
    predicate_cons : Predicate → Predicates → Predicates

-- combine, the body of And and Or.
unfoldable pub combine : ℕ → Predicates → Predicate
combine function (predicate_cons p no_predicates) = p
combine function no_predicates = compound function no_predicates
combine function (predicate_cons p (predicate_cons q rest)) =
    compound function (predicate_cons p (predicate_cons q rest))

-- PbPredicate
mutual
  pub data PbPredicate : Type 0 where
    pb_leaf : (function : ℕ) (field_id : ℤ) (literals : List PbLiteral) → PbPredicate
    pb_compound : (function : ℕ) (children : PbPredicates) → PbPredicate

  pub data PbPredicates : Type 0 where
    no_pb : PbPredicates
    pb_cons : PbPredicate → PbPredicates → PbPredicates

abbrev literal_types : List (String × ℕ)
literal_types =
    ("BOOLEAN", 0)
    ∷ ("TINYINT", 1)
    ∷ ("SMALLINT", 2)
    ∷ ("INT", 3)
    ∷ ("BIGINT", 4)
    ∷ ("FLOAT", 5)
    ∷ ("DOUBLE", 6)
    ∷ ("CHAR", 7)
    ∷ ("STRING", 8)
    ∷ ("DECIMAL", 9)
    ∷ ("DATE", 10)
    ∷ ("TIME_WITHOUT_TIME_ZONE", 11)
    ∷ ("TIMESTAMP", 12)
    ∷ ("TIMESTAMP_WITH_LOCAL_TIME_ZONE", 13)
    ∷ ("BINARY", 14)
    ∷ ("BYTES", 15)
    ∷ []

-- predicateLiteralType
unfoldable pub predicate_literal_type : String → Option ℕ
predicate_literal_type kind = find kind literal_types

abbrev pub first_is_nil : List Literal → Bool
first_is_nil [] = false
first_is_nil (v ∷ vs) = is_nil_literal v

abbrev pub error_unless : Bool → Option GoError
error_unless true = none
error_unless false = some err_invalid_config

-- checkLeafShape: 6 and 7 are IsNull and IsNotNull, 11 and 12 In and NotIn, and 8 to 10 StartsWith,
-- Contains and EndsWith.
unfoldable pub check_leaf_shape : ℕ → List Literal → String → Option GoError
check_leaf_shape function literals kind =
    let one = length literals == 1 && not (first_is_nil literals) in
    if function == 6 || function == 7
    then error_unless (length literals == 0)
    else if function == 11 || function == 12
    then error_unless (not (length literals == 0))
    else if function == 8 || function == 9 || function == 10
    then error_unless (one_of kind ("STRING" ∷ "CHAR" ∷ []) && one)
    else error_unless one

-- e.ids[id], the number of columns with the id.
unfoldable pub id_count : ℤ → List Column → ℕ
id_count id [] = 0
id_count id (c ∷ cs) = if int_key.same c.id id then id_count id cs + 1 else id_count id cs

-- An error of encodeLiteral is reported as one of the predicate.
unfoldable pub as_predicate_error : {A : Type 0} → Result A → Result A
as_predicate_error (ok a) = ok a
as_predicate_error (err e) = err err_invalid_config

unfoldable pub encode_literals : ℕ → String → ℤ → ℤ → List Literal → Result (List PbLiteral)
unfolding encode_literal as_predicate_error
encode_literals code kind precision scale [] = ok []
encode_literals code kind precision scale (v ∷ vs) =
    as_predicate_error (encode_literal v code kind precision scale) >>= λ x.
    encode_literals code kind precision scale vs >>= λ xs. ok (x ∷ xs)

-- The end of encodeLeaf, with the code of the column's type.
unfoldable pub encode_typed_leaf :
    ℕ → ℤ → String → ℤ → ℤ → List Literal → Option ℕ → Result PbPredicate
unfolding unless_error check_leaf_shape encode_literals
encode_typed_leaf function id kind precision scale literals none = err err_invalid_config
encode_typed_leaf function id kind precision scale literals (some code) =
    unless_error (check_leaf_shape function literals kind)
      (encode_literals code kind precision scale literals >>= λ xs. ok (pb_leaf function id xs))

unfoldable pub encode_for_type : ℕ → ℤ → List Literal → LogicalType → Result PbPredicate
unfolding encode_typed_leaf predicate_literal_type data_type_for_root
encode_for_type function id literals (logical_type root _ _ precision scale _ _ _ _) =
    let kind = data_type_for_root root in
    encode_typed_leaf function id kind precision scale literals (predicate_literal_type kind)

unfoldable pub encode_named_leaf : Schema → ℕ → List Literal → Option Column → Result PbPredicate
unfolding id_count encode_for_type logical_type_for_column
encode_named_leaf s function literals none = err err_invalid_config
encode_named_leaf s function literals (some c) =
    let typed = encode_for_type function (to_int32 c.id) literals (logical_type_for_column c) in
    if ltb_ℤ c.id (pos 0) || not (id_count c.id s.columns == 1)
    then err err_invalid_config
    else typed

abbrev is_empty_leaf : ℕ → String → List Literal → Bool
is_empty_leaf function column literals = str_eq column "" && (function == 0 && length literals == 0)

-- encodeLeaf
unfoldable pub encode_leaf : Schema → ℕ → String → List Literal → Result PbPredicate
unfolding encode_named_leaf columns_by_name
encode_leaf s function column literals =
    let named =
      encode_named_leaf s function literals (find column (columns_by_name s.columns [])) in
    if is_empty_leaf function column literals then err err_invalid_config else named

abbrev has_no_predicates : Predicates → Bool
has_no_predicates no_predicates = true
has_no_predicates (predicate_cons _ _) = false

unfoldable mutual
  unfolding encode_leaf

  -- predicateEncoder.encode
  pub encode : Schema → Predicate → Result PbPredicate
  encode s (leaf function column literals) = encode_leaf s function column literals
  encode s (compound function children) =
      let encoded = encode_children s children >>= λ xs. ok (pb_compound function xs) in
      if has_no_predicates children then err err_invalid_config else encoded

  -- The loop of encode over the children.
  pub encode_children : Schema → Predicates → Result PbPredicates
  encode_children s no_predicates = ok no_pb
  encode_children s (predicate_cons p ps) =
      encode s p >>= λ x. encode_children s ps >>= λ xs. ok (pb_cons x xs)

-- compilePredicate
unfoldable pub compile_predicate : Predicate → Schema → Result PbPredicate
unfolding encode
compile_predicate p s = encode s p
