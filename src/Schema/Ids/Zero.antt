-- ===== src/Schema/Ids/Zero.antt =====
-- hasUnassignedFieldIDs of pkg/fgo/model.go against the list of a schema's ids.
use fluss_go.Prelude.{Bool, true, false, ◌&&◌, List, [], ◌∷◌, ◌++◌, All, ==_iff}
use fluss_go.Prelude.{◌≡◌, refl, ap, ◌∙◌, Bool-cases, inl, inr}
use fluss_go.Prelude.Int.{ℤ, pos, negsuc}
use fluss_go.Schema.Types.{
  LogicalType, logical_type, OptionalType, absent, present, FieldList, no_fields, field,
}
use fluss_go.Schema.Model.{Column, Schema, logical_type_for_column}
use fluss_go.Schema.Ids.{
  is_zero, type_ids_are_zero, optional_ids_are_zero, field_ids_are_zero, columns_unassigned,
  has_unassigned_field_ids,
}
use fluss_go.Schema.Ids.Assigned.{type_ids, optional_ids, field_ids}

-- The ids of a schema: the highest, and those of the columns with those within their types.
abbrev pub ids_of_columns : List Column → List ℤ
unfolding type_ids
ids_of_columns [] = []
ids_of_columns (c ∷ cs) = c.id ∷ (type_ids (logical_type_for_column c) ++ ids_of_columns cs)

abbrev pub ids_of_schema : Schema → List ℤ
unfolding ids_of_columns
ids_of_schema s = s.highest_field_id ∷ ids_of_columns s.columns

-- No id was assigned.
pub IsUnassigned : Schema → Type 0
unfolding ids_of_schema
IsUnassigned s = All (λ (z : ℤ). z ≡ pos 0) (ids_of_schema s)

abbrev zeros : List ℤ → Bool
zeros [] = true
zeros (z ∷ zs) = is_zero z && zeros zs

zeros-append : (xs ys : List ℤ) → zeros (xs ++ ys) ≡ zeros xs && zeros ys
zeros-append [] ys = refl
zeros-append (x ∷ xs) ys = elim (Bool-cases (is_zero x)) [
  | inl e ↦ rw e (zeros-append xs ys)
  | inr e ↦ rw e refl
]

mutual
  unfolding type_ids_are_zero type_ids

  type-zeros : (t : LogicalType) → zeros (type_ids t) ≡ type_ids_are_zero t
  type-zeros (logical_type root nullable len precision scale element key value fields) =
      let e = optional-zeros element in
      let k = optional-zeros key in
      let v = optional-zeros value in
      let f = fields-zeros fields in
      zeros-append (field_ids fields) _
      ∙ ap (λ b. zeros (field_ids fields) && b)
          (zeros-append (optional_ids element) _
            ∙ ap (λ b. zeros (optional_ids element) && b)
                (zeros-append (optional_ids key) (optional_ids value)))
      ∙ rw (f, e, k, v) refl

  optional-zeros : (o : OptionalType) → zeros (optional_ids o) ≡ optional_ids_are_zero o
  optional-zeros absent = refl
  optional-zeros (present t) = type-zeros t

  fields-zeros : (fs : FieldList) → zeros (field_ids fs) ≡ field_ids_are_zero fs
  fields-zeros no_fields = refl
  fields-zeros (field name type description id rest) =
      ap (λ b. is_zero id && b)
        (zeros-append (type_ids type) (field_ids rest)
          ∙ rw (type-zeros type, fields-zeros rest) refl)

columns-zeros : (cs : List Column) → zeros (ids_of_columns cs) ≡ columns_unassigned cs
unfolding columns_unassigned ids_of_columns
columns-zeros [] = refl
columns-zeros (c ∷ cs) =
    ap (λ b. is_zero c.id && b)
      (zeros-append (type_ids (logical_type_for_column c)) (ids_of_columns cs)
        ∙ rw (type-zeros (logical_type_for_column c), columns-zeros cs) refl)

schema-zeros : (s : Schema) → zeros (ids_of_schema s) ≡ has_unassigned_field_ids s
unfolding has_unassigned_field_ids ids_of_schema
schema-zeros s = ap (λ b. is_zero s.highest_field_id && b) (columns-zeros s.columns)

zero_is : (z : ℤ) → is_zero z ≡ true → z ≡ pos 0
zero_is (pos n) h = ap pos ((==_iff n 0).0 h)
zero_is (negsuc n) h = cc

zeros-All : (zs : List ℤ) → zeros zs ≡ true → All (λ (z : ℤ). z ≡ pos 0) zs
zeros-All [] = λ h. _
zeros-All (z ∷ zs) = elim (Bool-cases (is_zero z)) [
  | inl e ↦ rw e (λ h. (zero_is z e, zeros-All zs h))
  | inr e ↦ rw e (λ h. cc)
]

All-zeros : (zs : List ℤ) → All (λ (z : ℤ). z ≡ pos 0) zs → zeros zs ≡ true
All-zeros [] h = refl
All-zeros (z ∷ zs) (e, h) = rw e (All-zeros zs h)

pub has_unassigned_field_ids-IsUnassigned :
    (s : Schema) → has_unassigned_field_ids s ≡ true → IsUnassigned s
unfolding IsUnassigned
has_unassigned_field_ids-IsUnassigned s h = zeros-All (ids_of_schema s) (schema-zeros s ∙ h)

pub has_unassigned_field_ids-false :
    (s : Schema) → has_unassigned_field_ids s ≡ false → ¬ (IsUnassigned s)
unfolding IsUnassigned
has_unassigned_field_ids-false s h =
    λ all. let yes = All-zeros (ids_of_schema s) all in let no = schema-zeros s ∙ h in cc
