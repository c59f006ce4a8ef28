-- ===== src/Examples/Predicates.antt =====
-- A predicate on two columns, and a decimal literal.
use fluss_go.Prelude.{◌<◌, ◌^◌, ◌≡◌, refl, arith, true, false, [], ◌∷◌}
use fluss_go.Prelude.Int.{pos, negsuc}
use fluss_go.Prelude.Errors.{ok}
use fluss_go.Schema.Types.{absent}
use fluss_go.Schema.Model.{Schema}
use fluss_go.Predicate.Literals.{
  integer_literal, string_literal, int_value, text_value, decimal_unscaled, times, magnitude,
}
use fluss_go.Predicate.{
  Predicate, leaf, combine, compound_and, no_predicates, predicate_cons, PbPredicate, pb_leaf,
  pb_compound, no_pb, pb_cons, compile_predicate,
}
use fluss_go.Predicate.Compiled.{IsCompiled, compile_predicate-IsCompiled}
use fluss_go.Predicate.Exact.{decimal_unscaled-exact}

abbrev people : Schema
people = record {
  columns =
      record { name = "age"; type = "INT"; nullable = false; logical = absent; id = pos 0 }
      ∷ record { name = "city"; type = "STRING"; nullable = true; logical = absent; id = pos 1 }
      ∷ [];
  primary_key = [];
  bucket_key = [];
  partition_key = [];
  auto_increment = [];
  highest_field_id = pos 1;
}

-- And(Col("age").Ge(18), Col("city").StartsWith("O"))
abbrev adults : Predicate
unfolding combine
adults = combine compound_and (
    predicate_cons (leaf 5 "age" (integer_literal (pos 18) ∷ []))
      (predicate_cons (leaf 8 "city" (string_literal "O" ∷ [])) no_predicates))

abbrev adults_pb : PbPredicate
adults_pb = pb_compound compound_and (
    pb_cons
      (pb_leaf 5 (pos 0)
        (record { literal_type = 3; is_null = false; value = int_value (pos 18) } ∷ []))
      (pb_cons
        (pb_leaf 8 (pos 1)
          (record { literal_type = 8; is_null = false; value = text_value "O" } ∷ []))
        no_pb))

compiles : compile_predicate adults people ≡ ok adults_pb
unfolding compile_predicate adults
compiles = refl

compile_predicate-IsCompiled_example : IsCompiled people adults adults_pb
compile_predicate-IsCompiled_example = compile_predicate-IsCompiled adults people adults_pb compiles

-- -5/4 with three digits, two of them after the point.
unscaled : decimal_unscaled (negsuc 4) 4 (pos 3) (pos 2) ≡ ok (negsuc 124)
unfolding decimal_unscaled
unscaled = refl

decimal_unscaled-exact_example :
    (times (negsuc 124) 4 ≡ times (negsuc 4) (10 ^ magnitude (pos 2)))
    × (magnitude (negsuc 124) < 10 ^ magnitude (pos 3))
decimal_unscaled-exact_example =
    decimal_unscaled-exact (negsuc 4) 4 (pos 3) (pos 2) (negsuc 124) (omega arith) unscaled
