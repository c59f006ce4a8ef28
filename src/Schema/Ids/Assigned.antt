-- ===== src/Schema/Ids/Assigned.antt =====
-- The ids within one type, as assignLogicalFieldIDs of pkg/fgo/model.go assigns them.
use fluss_go.Prelude.{ℕ, zero, suc, ◌+◌, List, [], ◌∷◌, ◌++◌}
use fluss_go.Prelude.{◌≡◌, refl, arith}
use fluss_go.Prelude.Int.{ℤ, pos}
use fluss_go.Schema.Types.{
  LogicalType, logical_type, OptionalType, absent, present, FieldList, no_fields, field,
}
use fluss_go.Schema.Ids.{assign_type_ids, assign_optional_ids, assign_field_ids, ColumnJson}

-- The ids of the fields within a type, in the order in which they stand.
unfoldable mutual
  pub type_ids : LogicalType → List ℤ
  type_ids (logical_type root nullable len precision scale element key value fields) =
      field_ids fields ++ (optional_ids element ++ (optional_ids key ++ optional_ids value))

  pub optional_ids : OptionalType → List ℤ
  optional_ids absent = []
  optional_ids (present t) = type_ids t

  pub field_ids : FieldList → List ℤ
  field_ids no_fields = []
  field_ids (field name type description id rest) = id ∷ (type_ids type ++ field_ids rest)

unfoldable pub column_ids : List ColumnJson → List ℤ
unfolding type_ids
column_ids [] = []
column_ids (c ∷ cs) = c.id ∷ (type_ids c.data_type ++ column_ids cs)

-- n, n + 1, …, `count` of them.
unfoldable pub numbers : ℕ → ℕ → List ℤ
numbers n zero = []
numbers n (suc count) = pos n ∷ numbers (n + 1) count

numbers-append : (n a b : ℕ) → numbers n a ++ numbers (n + a) b ≡ numbers n (a + b)
unfolding numbers
numbers-append n zero b =
    let e : n + 0 ≡ n = omega arith in let f : 0 + b ≡ b = omega arith in rw (e, f) refl
numbers-append n (suc a) b =
    let e : n + suc a ≡ n + 1 + a = omega arith in
    let f : suc a + b ≡ suc (a + b) = omega arith in rw (e, f, numbers-append (n + 1) a b) refl

-- A list of ids that runs from one number to another.
record Runs (ids : List ℤ) (n m : ℕ) : Type 0 where
  count : ℕ
  ends : m ≡ n + count
  are : ids ≡ numbers n count

Runs-append : {xs ys : List ℤ} {n m k : ℕ} → Runs xs n m → Runs ys m k → Runs (xs ++ ys) n k
Runs-append {xs} {ys} {n} {m} {k} r q = record {
  count = r.count + q.count;
  ends = omega (arith, r.ends, q.ends);
  are = rw (r.are, q.are, r.ends) (numbers-append n r.count q.count);
}

Runs-cons : {xs : List ℤ} {n m : ℕ} → Runs xs (n + 1) m → Runs (pos n ∷ xs) n m
unfolding numbers
Runs-cons {xs} {n} {m} r = record {
  count = suc r.count;
  ends = omega (arith, r.ends);
  are = rw r.are refl;
}

Runs-none : (n : ℕ) → Runs [] n n
unfolding numbers
Runs-none n = record { count = 0; ends = omega arith; are = refl }

mutual
  unfolding assign_type_ids type_ids

  assign_type-Runs :
      (t : LogicalType) (n : ℕ) → Runs (type_ids (assign_type_ids t n).0) n (assign_type_ids t n).1
  assign_type-Runs (logical_type root nullable len precision scale element key value fields) n =
      let f = assign_field_ids fields n in
      let e = assign_optional_ids element f.1 in
      let k = assign_optional_ids key e.1 in
      Runs-append (assign_fields-Runs fields n) (
        Runs-append (assign_optional-Runs element f.1)
          (Runs-append (assign_optional-Runs key e.1) (assign_optional-Runs value k.1)))

  assign_optional-Runs :
      (t : OptionalType) (n : ℕ)
      → Runs (optional_ids (assign_optional_ids t n).0) n (assign_optional_ids t n).1
  assign_optional-Runs absent n = Runs-none n
  assign_optional-Runs (present t) n = assign_type-Runs t n

  assign_fields-Runs :
      (fields : FieldList) (n : ℕ)
      → Runs (field_ids (assign_field_ids fields n).0) n (assign_field_ids fields n).1
  assign_fields-Runs no_fields n = Runs-none n
  assign_fields-Runs (field name type description id rest) n = Runs-cons (
      Runs-append (assign_type-Runs type (n + 1))
        (assign_fields-Runs rest (assign_type_ids type (n + 1)).1))

-- The ids of the fields within a type are the numbers from the next id on.
pub assign_type_ids-numbers :
    (t : LogicalType) (n : ℕ) → (count : ℕ) × (type_ids (assign_type_ids t n).0 ≡ numbers n count)
assign_type_ids-numbers t n = let r = assign_type-Runs t n in (r.count, r.are)
