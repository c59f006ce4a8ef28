-- ===== src/Schema/Evolve/Columns.antt =====
-- What a row that was evolved has in each of its columns.
use fluss_go.Prelude.{
  ℕ, zero, suc, ◌+◌, ◌<◌, true, false, ◌&&◌, not, List, [], ◌∷◌, Option, none, some,
}
use fluss_go.Prelude.{length, get_or, get_elem?, drop, get_elem?-drop, get_elem?-lt, ◌==◌, ==_iff}
use fluss_go.Prelude.{
  ◌≡◌, ◌≢◌, ◌⊎◌, inl, inr, refl, sym, ◌∙◌, ap, arith, Bool-cases, then_of, else_of,
}
use mathlib.Core.Path.{subst}
use fluss_go.Prelude.Assoc.{Key, find, put, find-put, find-put_other}
use fluss_go.Prelude.Errors.{ok, err, ◌>>=◌, err_invalid_schema, err_malformed_row, >>=_ok}
use fluss_go.Schema.Values.{Value, nil_value, is_nil}
use fluss_go.Schema.Model.{Column, Schema, string_key, column_name}
use fluss_go.Schema.Evolve.{
  int_key, index_by, column_id, map_found, stable_ids, find_source, map_column, map_columns,
  schema_column_mapping, evolve_value, evolve_values, evolve_row, compatible_column_type,
}

module _ {K : Type 0} ⦃e : Key K⦄ (key : Column → K) (all : List Column) where
  -- What the index has for a key is the position of a column with that key.
  Sound : List (K × ℕ) → Type 0
  Sound m =
      (k : K) (i : ℕ) → find k m ≡ some i → (s : Column) × (get_elem? all i ≡ some s) × (key s ≡ k)

  put-Sound :
      (c : Column) (index : ℕ) (m : List (K × ℕ))
      → get_elem? all index ≡ some c
      → Sound m
      → Sound (put (key c) index m)
  unfolding Sound
  put-Sound c index m at sound k i found = elim (Bool-cases (e.same k (key c))) [
    | inl eq ↦
        let same : k ≡ key c = (e.same_iff k (key c)).0 eq in
        let there : some i ≡ some index =
          sym found ∙ ap (λ j. find j (put (key c) index m)) same ∙ find-put (key c) index m in
        let place : i ≡ index = cc in (c, rw place at, sym same)
    | inr eq ↦
        let differ : k ≢ key c = λ h. cc ((e.same_iff k (key c)).1 h) in
        sound k i (sym (find-put_other k (key c) index m differ) ∙ found)
  ]

  index_by-Sound :
      (cs : List Column) (index : ℕ) (m : List (K × ℕ))
      → drop index all ≡ cs
      → Sound m
      → Sound (index_by key cs index m)
  unfolding index_by
  index_by-Sound [] index m at sound = sound
  index_by-Sound (c ∷ cs) index m at sound =
      let (here, next) = get_elem?-drop index all c cs at in
      let step : index + 1 ≡ suc index = omega arith in
      index_by-Sound cs (index + 1) (put (key c) index m) (rw step next)
        (put-Sound c index m here sound)

  pub index_by-finds :
      (k : K) (i : ℕ)
      → find k (index_by key all 0 []) ≡ some i
      → (s : Column) × (get_elem? all i ≡ some s) × (key s ≡ k)
  unfolding Sound
  index_by-finds k i found = index_by-Sound all 0 [] refl (λ j n h. cc) k i found

-- The source's column for a target's column: the one with its id when the ids of both schemas are
-- assigned, and else the one with its name.
unfoldable pub IsSource : Schema → Schema → Column → Column → Type 0
IsSource source target c s =
    ((stable_ids source target ≡ true) × (s.id ≡ c.id))
    ⊎ ((stable_ids source target ≡ false) × (s.name ≡ c.name))

find_source-IsSource :
    (source target : Schema) (c : Column) (i : ℕ)
    → find_source source target c ≡ some i
    → (s : Column) × (get_elem? source.columns i ≡ some s) × IsSource source target c s
unfolding find_source IsSource
find_source-IsSource source target c i found = elim (Bool-cases (stable_ids source target)) [
  | inl stable ↦
      let (s, at, same) = index_by-finds column_id source.columns c.id i (
        then_of (stable_ids source target) (find c.name (index_by column_name source.columns 0 []))
          stable found) in
      (s, at, inl (stable, same))
  | inr named ↦
      let (s, at, same) = index_by-finds column_name source.columns c.name i (
        else_of (stable_ids source target) (find c.id (index_by column_id source.columns 0 []))
          named found) in
      (s, at, inr (named, same))
]

-- The value of a column: nil in a nullable column that the source does not have, and else the row's
-- value at the source's column, which has a compatible type; a nil one is in a nullable column.
unfoldable pub IsEvolved : Schema → Schema → List Value → Column → Value → Type 0
unfolding IsSource
IsEvolved source target row c v =
    ((find_source source target c ≡ none) × (c.nullable ≡ true) × (v ≡ nil_value))
    ⊎ ((i : ℕ) × (s : Column) × (get_elem? source.columns i ≡ some s)
        × IsSource source target c s
        × (compatible_column_type s c ≡ true)
        × (get_elem? row i ≡ some v)
        × ((is_nil v && not c.nullable) ≡ false))

abbrev pub AllEvolved : Schema → Schema → List Value → List Column → List Value → Type 0
AllEvolved source target row [] [] = Unit
AllEvolved source target row (c ∷ cs) (v ∷ vs) =
    IsEvolved source target row c v × AllEvolved source target row cs vs
AllEvolved source target row _ _ = ⊥

get_or-get_elem? :
    {A : Type 0} (xs : List A) (i : ℕ) (d : A)
    → i < length xs
    → get_elem? xs i ≡ some (get_or xs i d)
get_or-get_elem? [] i d h = ground arith
get_or-get_elem? (x ∷ xs) zero d h = refl
get_or-get_elem? (x ∷ xs) (suc i) d h = get_or-get_elem? xs i d (omega arith)

module _ (source target : Schema) (row : List Value)
    (full : length row ≡ length source.columns) where
  IsEvolved-some :
      (c s : Column) (i : ℕ) (v : Value)
      → get_elem? source.columns i ≡ some s
      → find_source source target c ≡ some i
      → compatible_column_type s c ≡ true
      → evolve_value (some i) c row ≡ ok v
      → IsEvolved source target row c v
  unfolding IsEvolved evolve_value
  IsEvolved-some c s i v at found same given =
      let (t, at', is_source) = find_source-IsSource source target c i found in
      let one : s ≡ t = cc in
      let there =
        get_or-get_elem? row i nil_value (omega (arith, full, get_elem?-lt source.columns i at)) in
      let refused = is_nil (get_or row i nil_value) && not c.nullable in
      elim (Bool-cases refused) [
        | inl r ↦ cc (then_of refused (ok (get_or row i nil_value)) r given)
        | inr kept ↦
            let taken : get_or row i nil_value ≡ v =
              cc (else_of refused (err err_invalid_schema) kept given) in
            inr (
              i,
              t,
              at',
              is_source,
              subst (λ u. compatible_column_type u c ≡ true) one same,
              subst (λ u. get_elem? row i ≡ some u) taken there,
              subst (λ u. (is_nil u && not c.nullable) ≡ false) taken kept,
            )
      ]

  map_found_lem :
      (c : Column) (i : ℕ) (at : Option Column) (m : Option ℕ)
      → map_found c i at ≡ ok m
      → (s : Column) × (at ≡ some s) × (compatible_column_type s c ≡ true) × (m ≡ some i)
  unfolding map_found
  map_found_lem c i none m h = cc
  map_found_lem c i (some s) m h = elim (Bool-cases (compatible_column_type s c)) [
    | inl same ↦
        (s, refl, same, cc (then_of (compatible_column_type s c) (err err_invalid_schema) same h))
    | inr other ↦ cc (else_of (compatible_column_type s c) (ok (some i)) other h)
  ]

  column-IsEvolved :
      (c : Column) (from : Option ℕ) (m : Option ℕ) (v : Value)
      → find_source source target c ≡ from
      → map_column source from c ≡ ok m
      → evolve_value m c row ≡ ok v
      → IsEvolved source target row c v
  unfolding map_column IsEvolved evolve_value
  column-IsEvolved c none m v found mapped given = elim (Bool-cases c.nullable) [
    | inl nullable ↦
        let nowhere : m ≡ none = cc (then_of c.nullable (err err_invalid_schema) nullable mapped) in
        let nil : ok nil_value ≡ ok v = subst (λ n. evolve_value n c row ≡ ok v) nowhere given in
        inl (found, nullable, cc)
    | inr required ↦ cc (else_of c.nullable (ok none) required mapped)
  ]
  column-IsEvolved c (some i) m v found mapped given =
      let (s, at, same, there) = map_found_lem c i (get_elem? source.columns i) m mapped in
      IsEvolved-some c s i v at found same (subst (λ n. evolve_value n c row ≡ ok v) there given)

  columns-AllEvolved :
      (cs : List Column) (mapping : List (Option ℕ)) (vs : List Value)
      → map_columns source target cs ≡ ok mapping
      → evolve_values mapping cs row ≡ ok vs
      → AllEvolved source target row cs vs
  unfolding map_columns evolve_values
  columns-AllEvolved [] mapping [] mapped given = _
  columns-AllEvolved [] mapping (v ∷ vs) mapped given =
      let nothing : mapping ≡ [] = cc in
      let stopped : ok [] ≡ ok (v ∷ vs) =
        subst (λ ms. evolve_values ms [] row ≡ ok (v ∷ vs)) nothing given in
      cc
  columns-AllEvolved (c ∷ cs) mapping vs mapped given =
      let (m, here, mapped') =
        >>=_ok (map_column source (find_source source target c) c)
          (λ n. map_columns source target cs >>= λ ms. ok (n ∷ ms)) mapping mapped in
      let (ms, rest, whole) =
        >>=_ok (map_columns source target cs) (λ ns. ok (m ∷ ns)) mapping mapped' in
      let split : mapping ≡ m ∷ ms = cc in
      let given' = subst (λ ns. evolve_values ns (c ∷ cs) row ≡ ok vs) split given in
      let (v, first, given'') =
        >>=_ok (evolve_value m c row) (λ u. evolve_values ms cs row >>= λ us. ok (u ∷ us)) vs
          given' in
      let (us, others, all) = >>=_ok (evolve_values ms cs row) (λ ws. ok (v ∷ ws)) vs given'' in
      let parts : v ∷ us ≡ vs = cc in
      subst (AllEvolved source target row (c ∷ cs)) parts (
        column-IsEvolved c (find_source source target c) m v refl here first,
        columns-AllEvolved cs ms us rest others,
      )

-- The columns of a row that evolveRow gives.
pub evolve_row-AllEvolved :
    (source target : Schema) (row out : List Value)
    → evolve_row source target row ≡ ok out
    → AllEvolved source target row target.columns out
unfolding evolve_row schema_column_mapping
evolve_row-AllEvolved source target row out evolved =
    elim (Bool-cases (length row == length source.columns)) [
      | inl full ↦
          let (mapping, mapped, given) =
            >>=_ok (map_columns source target target.columns)
              (λ ms. evolve_values ms target.columns row) out
              (then_of (length row == length source.columns) (err err_malformed_row) full
                evolved) in
          columns-AllEvolved source target row
            ((==_iff (length row) (length source.columns)).0 full) target.columns mapping out mapped
            given
      | inr short ↦ cc (
          else_of (length row == length source.columns)
            (map_columns source target target.columns >>= λ ms. evolve_values ms target.columns row)
            short evolved)
    ]
