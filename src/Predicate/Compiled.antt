-- ===== src/Predicate/Compiled.antt =====
-- What a predicate that was encoded says of its source.
use Prim.Native.String.{String}
use mathlib.Core.Path.{subst, subst⁻¹}
use fluss_go.Prelude.{ℕ, Bool, true, false, ◌||◌, not, List, [], ◌∷◌, Option, none, some}
use fluss_go.Prelude.{length, ◌==◌, ==_iff, then_of, else_of}
use fluss_go.Prelude.{◌≡◌, ◌≢◌, refl, sym, ap, ◌∙◌, arith, inl, inr, Bool-cases}
use fluss_go.Prelude.Assoc.{find, put, find-put, find-put_other}
use fluss_go.Prelude.Int.{ℤ, pos, ltb_ℤ, to_int32}
use fluss_go.Prelude.Errors.{ok, err, ◌>>=◌, >>=_ok, err_invalid_config, unless_error-ok}
use fluss_go.Schema.Types.{LogicalType, logical_type}
use fluss_go.Schema.Values.{data_type_for_root}
use fluss_go.Schema.Model.{Column, Schema, string_key, columns_by_name, logical_type_for_column}
use fluss_go.Predicate.Literals.{Literal, PbLiteral, encode_literal}
use fluss_go.Predicate.Shapes.{HasOne, HasShape, id_count-HasOne, check_leaf_shape-HasShape}
use fluss_go.Predicate.{
  Predicate, leaf, compound, Predicates, no_predicates, predicate_cons, PbPredicate, pb_leaf,
  pb_compound, PbPredicates, no_pb, pb_cons, predicate_literal_type, check_leaf_shape, id_count,
  as_predicate_error, encode_literals, encode_typed_leaf, encode_for_type, encode_named_leaf,
  encode_leaf, encode, encode_children, compile_predicate, is_empty_leaf,
}

-- The data type of a type.
abbrev pub kind_of : LogicalType → String
unfolding data_type_for_root
kind_of (logical_type root _ _ _ _ _ _ _ _) = data_type_for_root root

-- How a predicate and its encoding correspond: a leaf has the same function, the id of the column that
-- it names as an int32, which no other column has, the literals that the function takes on the column's
-- type, and as many encoded;
-- a compound has the same function and at least one child, and its children correspond in order.
mutual
  pub data IsCompiled (s : Schema) : Predicate → PbPredicate → Type 0 where
    compiled_leaf :
        (function : ℕ) (c : Column) (literals : List Literal) (encoded : List PbLiteral)
        → find c.name (columns_by_name s.columns []) ≡ some c
        → HasOne c.id s.columns
        → HasShape function literals (kind_of (logical_type_for_column c))
        → length encoded ≡ length literals
        → IsCompiled s (leaf function c.name literals) (pb_leaf function (to_int32 c.id) encoded)
    compiled_compound :
        (function : ℕ) (p : Predicate) (ps : Predicates) (children : PbPredicates)
        → AllCompiled s (predicate_cons p ps) children
        → IsCompiled s (compound function (predicate_cons p ps)) (pb_compound function children)

  pub data AllCompiled (s : Schema) : Predicates → PbPredicates → Type 0 where
    compiled_none : AllCompiled s no_predicates no_pb
    compiled_cons :
        (p : Predicate) (ps : Predicates) (x : PbPredicate) (xs : PbPredicates)
        → IsCompiled s p x
        → AllCompiled s ps xs
        → AllCompiled s (predicate_cons p ps) (pb_cons x xs)

not_or : (a b : Bool) → a || not b ≡ false → b ≡ true
not_or false true h = refl
not_or false false h = cc
not_or true b h = cc

-- The columns of the map stand under their names.
Named : List (String × Column) → Type 0
Named m = (n : String) (c : Column) → find n m ≡ some c → c.name ≡ n

put-Named : (c : Column) (m : List (String × Column)) → Named m → Named (put c.name c m)
unfolding Named
put-Named c m named n d found = elim (Bool-cases (string_key.same n c.name)) [
  | inl eq ↦
      let same : n ≡ c.name = (string_key.same_iff n c.name).0 eq in
      let there : some d ≡ some c =
        sym found ∙ ap (λ j. find j (put c.name c m)) same ∙ find-put c.name c m in
      let one : d ≡ c = cc in ap (λ (x : Column). x.name) one ∙ sym same
  | inr eq ↦
      let differ : n ≢ c.name = λ h. cc ((string_key.same_iff n c.name).1 h) in
      named n d (sym (find-put_other n c.name c m differ) ∙ found)
]

columns_by_name-Named :
    (cs : List Column) (m : List (String × Column)) → Named m → Named (columns_by_name cs m)
unfolding columns_by_name
columns_by_name-Named [] m named = named
columns_by_name-Named (c ∷ cs) m named =
    columns_by_name-Named cs (put c.name c m) (put-Named c m named)

length-encode_literals :
    (code : ℕ) (kind : String) (precision scale : ℤ) (vs : List Literal) (xs : List PbLiteral)
    → encode_literals code kind precision scale vs ≡ ok xs
    → length xs ≡ length vs
unfolding encode_literals
length-encode_literals code kind precision scale [] xs h =
    let same : [] ≡ xs = cc in ap length (sym same)
length-encode_literals code kind precision scale (v ∷ vs) xs h =
    let (x, first, rest) =
      >>=_ok (as_predicate_error (encode_literal v code kind precision scale))
        (λ y. encode_literals code kind precision scale vs >>= λ ys. ok (y ∷ ys)) xs h in
    let (ys, others, whole) =
      >>=_ok (encode_literals code kind precision scale vs) (λ zs. ok (x ∷ zs)) xs rest in
    let same : x ∷ ys ≡ xs = cc in
    ap length (sym same)
    ∙ omega (arith, length-encode_literals code kind precision scale vs ys others)

typed_leaf_lem :
    (function : ℕ) (id : ℤ) (kind : String) (precision scale : ℤ) (vs : List Literal)
    (code : Option ℕ) (x : PbPredicate)
    → encode_typed_leaf function id kind precision scale vs code ≡ ok x
    → (xs : List PbLiteral) × (x ≡ pb_leaf function id xs)
      × (check_leaf_shape function vs kind ≡ none)
      × (length xs ≡ length vs)
unfolding encode_typed_leaf
typed_leaf_lem function id kind precision scale vs none x h = cc
typed_leaf_lem function id kind precision scale vs (some code) x h =
    let (shape, coded) =
      unless_error-ok (check_leaf_shape function vs kind)
        (encode_literals code kind precision scale vs >>= λ ys. ok (pb_leaf function id ys)) x h in
    let (xs, literals, whole) =
      >>=_ok (encode_literals code kind precision scale vs) (λ ys. ok (pb_leaf function id ys)) x
        coded in
    (xs, cc, shape, length-encode_literals code kind precision scale vs xs literals)

type_leaf_lem :
    (function : ℕ) (id : ℤ) (vs : List Literal) (t : LogicalType) (x : PbPredicate)
    → encode_for_type function id vs t ≡ ok x
    → (xs : List PbLiteral) × (x ≡ pb_leaf function id xs)
      × (check_leaf_shape function vs (kind_of t) ≡ none)
      × (length xs ≡ length vs)
unfolding encode_for_type
type_leaf_lem function id vs (logical_type root _ _ precision scale _ _ _ _) x h =
    let kind = data_type_for_root root in
    typed_leaf_lem function id kind precision scale vs (predicate_literal_type kind) x h

named_leaf_lem :
    (s : Schema) (function : ℕ) (n : String) (vs : List Literal) (o : Option Column)
    (x : PbPredicate)
    → find n (columns_by_name s.columns []) ≡ o
    → encode_named_leaf s function vs o ≡ ok x
    → IsCompiled s (leaf function n vs) x
unfolding encode_named_leaf Named
named_leaf_lem s function n vs none x found h = cc
named_leaf_lem s function n vs (some c) x found h =
    let refused = ltb_ℤ c.id (pos 0) || not (id_count c.id s.columns == 1) in
    let typed = encode_for_type function (to_int32 c.id) vs (logical_type_for_column c) in
    elim (Bool-cases refused) [
      | inl e ↦ cc (then_of refused typed e h)
      | inr e ↦
          let (xs, leaf_of, shape, literals) =
            type_leaf_lem function (to_int32 c.id) vs (logical_type_for_column c) x
              (else_of refused (err err_invalid_config) e h) in
          let name : c.name ≡ n = columns_by_name-Named s.columns [] (λ k d g. cc) n c found in
          let one : (id_count c.id s.columns == 1) ≡ true = not_or (ltb_ℤ c.id (pos 0)) _ e in
          let here : find c.name (columns_by_name s.columns []) ≡ some c =
            ap (λ k. find k (columns_by_name s.columns [])) name ∙ found in
          subst (λ k. IsCompiled s (leaf function k vs) x) name
            (subst⁻¹ (IsCompiled s (leaf function c.name vs)) leaf_of (
              compiled_leaf function c vs xs here
                (id_count-HasOne c.id s.columns ((==_iff (id_count c.id s.columns) 1).0 one))
                (check_leaf_shape-HasShape function vs (kind_of (logical_type_for_column c)) shape)
                literals))
    ]

mutual
  unfolding encode encode_leaf

  encode-IsCompiled :
      (s : Schema) (p : Predicate) (x : PbPredicate) → encode s p ≡ ok x → IsCompiled s p x
  encode-IsCompiled s (leaf function n vs) x h =
      let named = encode_named_leaf s function vs (find n (columns_by_name s.columns [])) in
      let empty = is_empty_leaf function n vs in
      elim (Bool-cases empty) [
        | inl e ↦ cc (then_of empty named e h)
        | inr e ↦
            named_leaf_lem s function n vs (find n (columns_by_name s.columns [])) x refl
              (else_of empty (err err_invalid_config) e h)
      ]
  encode-IsCompiled s (compound function no_predicates) x h = cc
  encode-IsCompiled s (compound function (predicate_cons p ps)) x h =
      let (xs, children, whole) =
        >>=_ok (encode_children s (predicate_cons p ps)) (λ ys. ok (pb_compound function ys)) x h in
      let same : pb_compound function xs ≡ x = cc in
      subst (IsCompiled s (compound function (predicate_cons p ps))) same (
        compiled_compound function p ps xs
          (encode_children-AllCompiled s (predicate_cons p ps) xs children))

  encode_children-AllCompiled :
      (s : Schema) (ps : Predicates) (xs : PbPredicates)
      → encode_children s ps ≡ ok xs
      → AllCompiled s ps xs
  encode_children-AllCompiled s no_predicates xs h =
      let same : no_pb ≡ xs = cc in subst (AllCompiled s no_predicates) same compiled_none
  encode_children-AllCompiled s (predicate_cons p ps) xs h =
      let (y, first, rest) =
        >>=_ok (encode s p) (λ z. encode_children s ps >>= λ zs. ok (pb_cons z zs)) xs h in
      let (ys, others, whole) = >>=_ok (encode_children s ps) (λ zs. ok (pb_cons y zs)) xs rest in
      let same : pb_cons y ys ≡ xs = cc in
      subst (AllCompiled s (predicate_cons p ps)) same (
        compiled_cons p ps y ys (encode-IsCompiled s p y first)
          (encode_children-AllCompiled s ps ys others))

-- A predicate that is compiled against a schema has the shape of its source: each leaf carries, as an
-- int32, the id of the column that it names, which no other column of the schema has, with its function
-- and as many literals as were given: none for IsNull and IsNotNull, at least one for In and NotIn, and
-- one that is not nil for the others, where StartsWith, Contains and EndsWith are on a column of
-- characters; a compound has the children of its source in their order, at least one.
pub compile_predicate-IsCompiled :
    (p : Predicate) (s : Schema) (x : PbPredicate) → compile_predicate p s ≡ ok x → IsCompiled s p x
unfolding compile_predicate
compile_predicate-IsCompiled p s x h = encode-IsCompiled s p x h
