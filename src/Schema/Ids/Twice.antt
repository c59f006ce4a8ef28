-- ===== src/Schema/Ids/Twice.antt =====
-- Schema.JSON called again on the schema that it was given: the nested ids that the first call wrote
-- are taken for ids that were assigned.
use Prim.Native.String.{String}
use mathlib.Core.Path.{subst, subst⁻¹}
use fluss_go.Prelude.{
  ℕ, zero, suc, ◌+◌, Bool, true, false, ◌&&◌, List, [], ◌∷◌, ◌++◌, Option, none, some,
}
use fluss_go.Prelude.{
  ◌≡◌, ◌≢◌, refl, ap, ◌∙◌, arith, All, length, Bool-cases, inl, inr, length-append, ◌==◌, ==_iff,
  ◌⊎◌,
}
use fluss_go.Prelude.Int.{ℤ, pos, negsuc}
use fluss_go.Prelude.Errors.{GoError, Result, ok, err}
use fluss_go.Schema.Types.{
  LogicalType, logical_type, OptionalType, absent, present, FieldList, no_fields, field,
}
use fluss_go.Schema.Model.{Column, Schema, logical_type_for_column, validate_schema}
use fluss_go.Schema.Ids.{
  assign_type_ids, assign_column_ids, keep_column_ids, ColumnJson, SchemaJson, schema_json,
  write_json, has_unassigned_field_ids, columns_unassigned, type_ids_are_zero,
  optional_ids_are_zero, field_ids_are_zero, share_ids, is_zero,
}
use fluss_go.Schema.Ids.Assigned.{
  type_ids, optional_ids, field_ids, column_ids, numbers, assign_type_ids-numbers,
}

abbrev all_zero : List ℤ → Bool
all_zero [] = true
all_zero (z ∷ zs) = is_zero z && all_zero zs

and_true : (a b : Bool) → a && b ≡ true → (a ≡ true) × (b ≡ true)
and_true true b h = (refl, h)
and_true false b h = cc

all_zero-append :
    (xs ys : List ℤ) → all_zero xs ≡ true → all_zero ys ≡ true → all_zero (xs ++ ys) ≡ true
all_zero-append [] ys hx hy = hy
all_zero-append (x ∷ xs) ys hx hy =
    let (z, hx') = and_true (is_zero x) (all_zero xs) hx in rw z (all_zero-append xs ys hx' hy)

and_false : (a b : Bool) → b ≡ false → a && b ≡ false
and_false true b h = h
and_false false b h = refl

mutual
  unfolding type_ids_are_zero type_ids

  type_zero : (t : LogicalType) → type_ids_are_zero t ≡ true → all_zero (type_ids t) ≡ true
  type_zero (logical_type root nullable len precision scale element key value fields) h =
      let (f, rest) = and_true (field_ids_are_zero fields) _ h in
      let (e, rest') = and_true (optional_ids_are_zero element) _ rest in
      let (k, v) = and_true (optional_ids_are_zero key) (optional_ids_are_zero value) rest' in
      all_zero-append (field_ids fields) _ (fields_zero fields f) (
        all_zero-append (optional_ids element) _ (optional_zero element e) (
          all_zero-append (optional_ids key) (optional_ids value) (optional_zero key k)
            (optional_zero value v)))

  optional_zero :
      (t : OptionalType) → optional_ids_are_zero t ≡ true → all_zero (optional_ids t) ≡ true
  optional_zero absent h = refl
  optional_zero (present t) h = type_zero t h

  fields_zero : (fs : FieldList) → field_ids_are_zero fs ≡ true → all_zero (field_ids fs) ≡ true
  fields_zero no_fields h = refl
  fields_zero (field name type description id rest) h =
      let (z, h') = and_true (is_zero id) _ h in
      let (t, r) = and_true (type_ids_are_zero type) (field_ids_are_zero rest) h' in
      rw z
        (all_zero-append (type_ids type) (field_ids rest) (type_zero type t) (fields_zero rest r))

-- Numbers from 1 on are not all zero, unless there is none.
positive : (n count : ℕ) → all_zero (numbers (n + 1) count) ≡ true → count ≡ 0
unfolding numbers
positive n zero h = refl
positive n (suc count) h =
    let (z, r) = and_true (n + 1 == 0) (all_zero (numbers (n + 1 + 1) count)) h in
    let never : n + 1 ≡ 0 = (==_iff (n + 1) 0).0 z in omega arith

-- A type whose ids were assigned from 1 on and are all zero has no fields within.
assigned_zero :
    (t : LogicalType) (n : ℕ)
    → type_ids_are_zero (assign_type_ids t (n + 1)).0 ≡ true
    → length (type_ids (assign_type_ids t (n + 1)).0) ≡ 0
unfolding numbers
assigned_zero t n h =
    let (count, e) = assign_type_ids-numbers t (n + 1) in
    let zero_count : count ≡ 0 =
      positive n count (subst (λ ids. all_zero ids ≡ true) e (type_zero _ h)) in
    rw (e, zero_count) refl

OptionalType-cases : (o : OptionalType) → (o ≡ absent) ⊎ ((t : LogicalType) × (o ≡ present t))
OptionalType-cases absent = inl refl
OptionalType-cases (present t) = inr (t, refl)

shares :
    (c : Column) (t assigned : LogicalType)
    → c.logical ≡ present t
    → logical_type_for_column (share_ids c assigned) ≡ assigned
unfolding logical_type_for_column share_ids
shares c t assigned p = rw p refl

-- The ids of a column's type after JSON, whether or not the column shares its type.
shared_zero :
    (c : Column) (n : ℕ)
    → let assigned = (assign_type_ids (logical_type_for_column c) n).0 in
      type_ids_are_zero (logical_type_for_column (share_ids c assigned)) ≡ true
      → type_ids_are_zero assigned ≡ true
unfolding logical_type_for_column share_ids assign_type_ids type_ids_are_zero
shared_zero c n h = elim (OptionalType-cases c.logical) [
  | inl a ↦ rw a refl
  | inr (t, p) ↦
      subst (λ u. type_ids_are_zero u ≡ true)
        (shares c t (assign_type_ids (logical_type_for_column c) n).0 p) h
]

shared_id : (c : Column) (t : LogicalType) → (share_ids c t).id ≡ c.id
unfolding share_ids
shared_id c t = elim (OptionalType-cases c.logical) [ inl a ↦ rw a refl | inr (u, p) ↦ rw p refl ]

flat_columns :
    (cs : List Column) (n : ℕ)
    → columns_unassigned (assign_column_ids cs n).1 ≡ true
    → length (column_ids (assign_column_ids cs n).0) ≡ length cs
unfolding columns_unassigned assign_column_ids column_ids
flat_columns [] n h = refl
flat_columns (c ∷ cs) n h =
    let t = assign_type_ids (logical_type_for_column c) (n + 1) in
    let (z, h') = and_true (is_zero (share_ids c t.0).id) _ h in
    let (flat, rest) =
      and_true (type_ids_are_zero (logical_type_for_column (share_ids c t.0))) _ h' in
    omega (
      arith,
      length-append (type_ids t.0) (column_ids (assign_column_ids cs t.1).0),
      assigned_zero (logical_type_for_column c) n (shared_zero c (n + 1) flat),
      flat_columns cs t.1 rest,
    )

zero_of : (z : ℤ) → is_zero z ≡ true → z ≡ pos 0
zero_of (pos n) h = ap pos ((==_iff n 0).0 h)
zero_of (negsuc n) h = cc

-- The ids of the columns stay 0 in the schema.
kept_zero :
    (cs : List Column) (n : ℕ)
    → columns_unassigned cs ≡ true
    → All (λ (c : ColumnJson). c.id ≡ pos 0) (keep_column_ids (assign_column_ids cs n).1)
unfolding columns_unassigned assign_column_ids keep_column_ids
kept_zero [] n h = _
kept_zero (c ∷ cs) n h =
    let t = assign_type_ids (logical_type_for_column c) (n + 1) in
    let (z, h') = and_true (is_zero c.id) _ h in
    let (flat, rest) =
      and_true (type_ids_are_zero (logical_type_for_column c)) (columns_unassigned cs) h' in
    (shared_id c t.0 ∙ zero_of c.id z, kept_zero cs t.1 rest)

abbrev AllZero : Result SchemaJson × Schema → Type 0
AllZero (ok j, t) = All (λ (c : ColumnJson). c.id ≡ pos 0) j.columns × (j.highest_field_id ≡ pos 0)
AllZero (err e, t) = Unit

unassigned_now :
    (s : Schema)
    → let after = record s { columns = (assign_column_ids s.columns 0).1 } in
      length (column_ids (assign_column_ids s.columns 0).0) ≢ length s.columns
      → has_unassigned_field_ids after ≡ false
unfolding has_unassigned_field_ids
unassigned_now s nested =
    let after = columns_unassigned (assign_column_ids s.columns 0).1 in
    elim (Bool-cases after) [
      | inl flat ↦ elim (nested (flat_columns s.columns 0 flat)) [ ]
      | inr deep ↦ and_false (is_zero s.highest_field_id) after deep
    ]

second_call :
    (s : Schema) (failed : Option GoError)
    → has_unassigned_field_ids s ≡ true
    → AllZero (write_json failed false (record s { columns = (assign_column_ids s.columns 0).1 }))
unfolding write_json has_unassigned_field_ids
second_call s (some e) h = _
second_call s none h =
    let (z, flat) = and_true (is_zero s.highest_field_id) (columns_unassigned s.columns) h in
    (kept_zero s.columns 0 flat, zero_of s.highest_field_id z)

abbrev AgainZero : (String → String) → Schema → Result SchemaJson × Schema → Type 0
AgainZero trim_space s (ok j, t) =
    length (column_ids j.columns) ≢ length s.columns → AllZero (schema_json trim_space t)
AgainZero trim_space s (err e, t) = Unit

write_json-AgainZero :
    (trim_space : String → String) (s : Schema) (failed : Option GoError)
    → has_unassigned_field_ids s ≡ true
    → AgainZero trim_space s (write_json failed true s)
unfolding write_json schema_json
write_json-AgainZero trim_space s (some e) h = _
write_json-AgainZero trim_space s none h = λ nested.
    let after = record s { columns = (assign_column_ids s.columns 0).1 } in
    let failed = validate_schema trim_space after in
    subst⁻¹ (λ b. AllZero (write_json failed b after)) (unassigned_now s nested)
      (second_call s failed h)

-- Schema.JSON on a schema whose ids are not assigned and which has a field within the type of a
-- column, then again on the same schema: when the second call writes a schema, it gives every column
-- the id 0, and 0 for the highest id, because the first call left its ids in the shared types.
pub schema_json-twice :
    (trim_space : String → String) (s t u : Schema) (j k : SchemaJson)
    → has_unassigned_field_ids s ≡ true
    → schema_json trim_space s ≡ (ok j, t)
    → length (column_ids j.columns) ≢ length s.columns
    → schema_json trim_space t ≡ (ok k, u)
    → All (λ (c : ColumnJson). c.id ≡ pos 0) k.columns × (k.highest_field_id ≡ pos 0)
unfolding schema_json
schema_json-twice trim_space s t u j k unassigned first nested second =
    let failed = validate_schema trim_space s in
    let again : AgainZero trim_space s (schema_json trim_space s) =
      subst⁻¹ (λ b. AgainZero trim_space s (write_json failed b s)) unassigned
        (write_json-AgainZero trim_space s failed unassigned) in
    subst AllZero second (subst (AgainZero trim_space s) first again nested)
