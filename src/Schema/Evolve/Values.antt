-- ===== src/Schema/Evolve/Values.antt =====
-- What a row that was evolved has in each column, by the ids, the names and the types of the schemas.
use fluss_go.Prelude.{ℕ, ◌+◌, Bool, true, false, ◌&&◌, not, List, [], ◌∷◌, none, some, All}
use fluss_go.Prelude.{
  get_elem?, ◌≡◌, ◌≢◌, ◌⊎◌, inl, inr, refl, sym, ◌∙◌, ap, Bool-cases, then_of, else_of,
}
use fluss_go.Prelude.Assoc.{Key, find, put, find-put, find-put_other}
use fluss_go.Prelude.Errors.{ok}
use fluss_go.Schema.Values.{Value, nil_value, is_nil}
use fluss_go.Schema.Model.{Column, Schema, string_key, column_name, logical_type_for_column}
use fluss_go.Schema.Ids.{has_unassigned_field_ids}
use fluss_go.Schema.Ids.Zero.{
  IsUnassigned, has_unassigned_field_ids-IsUnassigned, has_unassigned_field_ids-false,
}
use fluss_go.Schema.Evolve.{
  int_key, index_by, column_id, stable_ids, find_source, evolve_row, compatible_column_type,
  not_null,
}
use fluss_go.Schema.Evolve.SameType.{same_logical_type_eq}
use fluss_go.Schema.Evolve.Columns.{IsSource, IsEvolved, AllEvolved, evolve_row-AllEvolved}

-- The ids of both schemas were assigned.
abbrev pub BothAssigned : Schema → Schema → Type 0
BothAssigned source target = (¬ (IsUnassigned source)) × (¬ (IsUnassigned target))

-- The source's column s is that of the target's column c: it has its id, or its name when the ids of one
-- of the schemas were not assigned.
abbrev pub IsColumnOf : Schema → Schema → Column → Column → Type 0
IsColumnOf source target c s =
    (BothAssigned source target × (s.id ≡ c.id))
    ⊎ ((IsUnassigned source ⊎ IsUnassigned target) × (s.name ≡ c.name))

-- The types are the same, when a column may be null or not.
abbrev pub IsSameType : Column → Column → Type 0
IsSameType s c = not_null (logical_type_for_column s) ≡ not_null (logical_type_for_column c)

-- The value of a column: nil in a nullable column of which the source has none, and else the row's value
-- at the source's column, of the same type, which is nil only in a nullable column.
abbrev pub IsValueOf : Schema → Schema → List Value → Column → Value → Type 0
IsValueOf source target row c v =
    (All (λ s. ¬ (IsColumnOf source target c s)) source.columns
      × (c.nullable ≡ true)
      × (v ≡ nil_value))
    ⊎ ((i : ℕ) × (s : Column) × (get_elem? source.columns i ≡ some s)
        × IsColumnOf source target c s
        × IsSameType s c
        × (get_elem? row i ≡ some v)
        × ((v ≢ nil_value) ⊎ (c.nullable ≡ true)))

abbrev pub AllValues : Schema → Schema → List Value → List Column → List Value → Type 0
AllValues source target row [] [] = Unit
AllValues source target row (c ∷ cs) (v ∷ vs) =
    IsValueOf source target row c v × AllValues source target row cs vs
AllValues source target row _ _ = ⊥

stable-BothAssigned :
    (source target : Schema) → stable_ids source target ≡ true → BothAssigned source target
unfolding stable_ids
stable-BothAssigned source target h =
    let a = has_unassigned_field_ids source in
    let b = has_unassigned_field_ids target in
    let (x, y) = both a b h in
    (has_unassigned_field_ids-false source x, has_unassigned_field_ids-false target y)
  where
    both : (a b : Bool) → not a && not b ≡ true → (a ≡ false) × (b ≡ false)
    both false false h = (refl, refl)
    both false true h = cc
    both true b h = cc

unstable-IsUnassigned :
    (source target : Schema)
    → stable_ids source target ≡ false
    → IsUnassigned source ⊎ IsUnassigned target
unfolding stable_ids
unstable-IsUnassigned source target h =
    elim (either (has_unassigned_field_ids source) (has_unassigned_field_ids target) h) [
      | inl x ↦ inl (has_unassigned_field_ids-IsUnassigned source x)
      | inr y ↦ inr (has_unassigned_field_ids-IsUnassigned target y)
    ]
  where
    either : (a b : Bool) → not a && not b ≡ false → (a ≡ true) ⊎ (b ≡ true)
    either true b h = inl refl
    either false true h = inr refl
    either false false h = cc

module _ {K : Type 0} ⦃e : Key K⦄ (key : Column → K) where
  find-put-none :
      (k j : K) (i : ℕ) (m : List (K × ℕ)) → find k (put j i m) ≡ none → (j ≢ k) × (find k m ≡ none)
  find-put-none k j i m h = elim (Bool-cases (e.same k j)) [
    | inl eq ↦
        let same : k ≡ j = (e.same_iff k j).0 eq in
        let there : find k (put j i m) ≡ some i =
          ap (λ l. find l (put j i m)) same ∙ find-put j i m in
        cc
    | inr eq ↦
        let differ : k ≢ j = λ h'. cc ((e.same_iff k j).1 h') in
        (λ h'. differ (sym h'), sym (find-put_other k j i m differ) ∙ h)
  ]

  -- A key that the index does not have is no column's, and was not in the index before.
  index_by-misses :
      (cs : List Column) (k : K) (i : ℕ) (m : List (K × ℕ))
      → find k (index_by key cs i m) ≡ none
      → All (λ c. key c ≢ k) cs × (find k m ≡ none)
  unfolding index_by
  index_by-misses [] k i m h = (_, h)
  index_by-misses (c ∷ cs) k i m h =
      let (rest, before) = index_by-misses cs k (i + 1) (put (key c) i m) h in
      let (here, earlier) = find-put-none k (key c) i m before in ((here, rest), earlier)

-- No column with another id, when the ids of both schemas were assigned.
none-by_id :
    (source target : Schema) (c : Column) (cs : List Column)
    → BothAssigned source target
    → All (λ (s : Column). s.id ≢ c.id) cs
    → All (λ s. ¬ (IsColumnOf source target c s)) cs
none-by_id source target c [] both h = _
none-by_id source target c (s ∷ cs) (x, y) (other, rest) = (
  λ is. elim is [
    | inl (both, same) ↦ other same
    | inr (inl u, named) ↦ x u
    | inr (inr u, named) ↦ y u
  ],
  none-by_id source target c cs (x, y) rest,
)

none-by_name :
    (source target : Schema) (c : Column) (cs : List Column)
    → IsUnassigned source ⊎ IsUnassigned target
    → All (λ (s : Column). s.name ≢ c.name) cs
    → All (λ s. ¬ (IsColumnOf source target c s)) cs
none-by_name source target c [] one h = _
none-by_name source target c (s ∷ cs) one (other, rest) = (
  λ is. elim is [
    | inl ((x, y), same) ↦ elim one [ inl u ↦ x u | inr u ↦ y u ]
    | inr (u, named) ↦ other named
  ],
  none-by_name source target c cs one rest,
)

find_source-none :
    (source target : Schema) (c : Column)
    → find_source source target c ≡ none
    → All (λ s. ¬ (IsColumnOf source target c s)) source.columns
unfolding find_source
find_source-none source target c missing =
    let by_id = find c.id (index_by column_id source.columns 0 []) in
    let by_name = find c.name (index_by column_name source.columns 0 []) in
    elim (Bool-cases (stable_ids source target)) [
      | inl stable ↦
          none-by_id source target c source.columns (stable-BothAssigned source target stable)
            (index_by-misses column_id source.columns c.id 0 []
              (then_of (stable_ids source target) by_name stable missing)).0
      | inr named ↦
          none-by_name source target c source.columns (unstable-IsUnassigned source target named)
            (index_by-misses column_name source.columns c.name 0 []
              (else_of (stable_ids source target) by_id named missing)).0
    ]

source-IsColumnOf :
    (source target : Schema) (c s : Column)
    → IsSource source target c s
    → IsColumnOf source target c s
unfolding IsSource
source-IsColumnOf source target c s (inl (stable, same)) =
    inl (stable-BothAssigned source target stable, same)
source-IsColumnOf source target c s (inr (named, same)) =
    inr (unstable-IsUnassigned source target named, same)

compatible-IsSameType : (s c : Column) → compatible_column_type s c ≡ true → IsSameType s c
unfolding compatible_column_type
compatible-IsSameType s c h =
    same_logical_type_eq (not_null (logical_type_for_column s))
      (not_null (logical_type_for_column c)) h

not_refused :
    (v : Value) (nullable : Bool)
    → (is_nil v && not nullable) ≡ false
    → (v ≢ nil_value) ⊎ (nullable ≡ true)
not_refused v true h = inr refl
not_refused v false h = elim (Bool-cases (is_nil v)) [
  | inl nil ↦ let refused : (is_nil v && true) ≡ true = rw nil refl in cc
  | inr other ↦ inl (λ e. let nil = ap is_nil e in cc)
]

evolved-IsValueOf :
    (source target : Schema) (row : List Value) (c : Column) (v : Value)
    → IsEvolved source target row c v
    → IsValueOf source target row c v
unfolding IsEvolved
evolved-IsValueOf source target row c v (inl (missing, nullable, nil)) =
    inl (find_source-none source target c missing, nullable, nil)
evolved-IsValueOf source target row c v (inr (i, s, at, is, same, value, kept)) = inr (
  i,
  s,
  at,
  source-IsColumnOf source target c s is,
  compatible-IsSameType s c same,
  value,
  not_refused v c.nullable kept,
)

all-AllValues :
    (source target : Schema) (row : List Value) (cs : List Column) (vs : List Value)
    → AllEvolved source target row cs vs
    → AllValues source target row cs vs
all-AllValues source target row [] [] h = _
all-AllValues source target row [] (v ∷ vs) h = h
all-AllValues source target row (c ∷ cs) [] h = h
all-AllValues source target row (c ∷ cs) (v ∷ vs) (h, hs) =
    (evolved-IsValueOf source target row c v h, all-AllValues source target row cs vs hs)

-- A row that evolveRow gives has a value for each column of the target and no other. A column's value
-- is the row's value at a column of the source with the same id, or with the same name when all ids of one
-- of the schemas are 0, and the types are the same but for being nullable; a column for which the source
-- has no such column is nil and nullable. A nil value is never in a column that is not nullable.
pub evolve_row-AllValues :
    (source target : Schema) (row out : List Value)
    → evolve_row source target row ≡ ok out
    → AllValues source target row target.columns out
evolve_row-AllValues source target row out h =
    all-AllValues source target row target.columns out
      (evolve_row-AllEvolved source target row out h)
