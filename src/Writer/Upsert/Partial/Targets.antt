-- ===== src/Writer/Upsert/Partial/Targets.antt =====
-- The target columns of a partial update that was accepted.
use Prim.Native.String.{String}
use mathlib.Core.Path.{subst}
use fluss_go.Prelude.{ℕ, ◌+◌, true, false, not, List, [], ◌∷◌, Option, none, some, All, is_some}
use fluss_go.Prelude.{length, get_elem?, ◌==◌, if◌then◌else◌, then_of, else_of}
use fluss_go.Prelude.{◌≡◌, ◌≢◌, refl, sym, ap, ◌∙◌, inl, inr, Bool-cases, Option-cases}
use fluss_go.Prelude.Assoc.{find, put, find-put, find-put_other}
use fluss_go.Prelude.Errors.{
  GoError, ok, err, ◌>>=◌, >>=_ok, err_invalid_row, unless_error, unless_error-ok,
}
use fluss_go.Schema.Types.{one_of, first_error}
use fluss_go.Schema.Values.{Value}
use fluss_go.Schema.Model.{
  Column, Schema, string_key, column_name, columns_by_name, validate_schema, validate_row,
  validate_values, check_named, validate_column_value, selected_columns,
}
use fluss_go.Schema.Evolve.{index_by}
use fluss_go.Schema.Evolve.Columns.{index_by-finds}
use fluss_go.Writer.Upsert.Partial.{
  position_of, select_targets, all_selected, none_selected, may_omit, omitted_fit,
  validate_partial_selection, validate_partial,
}

-- The two checks of a chain that finds no error.
first_error-none : (a b : Option GoError) → first_error a b ≡ none → (a ≡ none) × (b ≡ none)
first_error-none none b h = (refl, h)
first_error-none (some e) b h = cc

-- A name is a key of both maps, or of neither.
put-alike :
    {A B : Type 0} (n k : String) (a : A) (b : B) (m : List (String × A)) (p : List (String × B))
    → is_some (find n m) ≡ is_some (find n p)
    → is_some (find n (put k a m)) ≡ is_some (find n (put k b p))
put-alike n k a b m p alike = elim (Bool-cases (string_key.same n k)) [
  | inl eq ↦
      let same : n ≡ k = (string_key.same_iff n k).0 eq in
      ap (λ j. is_some (find j (put k a m))) same
      ∙ ap is_some (find-put k a m)
      ∙ sym (ap (λ j. is_some (find j (put k b p))) same ∙ ap is_some (find-put k b p))
  | inr eq ↦
      let differ : n ≢ k = λ h. cc ((string_key.same_iff n k).1 h) in
      ap is_some (find-put_other n k a m differ)
      ∙ alike
      ∙ sym (ap is_some (find-put_other n k b p differ))
]

maps-alike :
    (n : String) (cs : List Column) (i : ℕ) (m : List (String × Column)) (p : List (String × ℕ))
    → is_some (find n m) ≡ is_some (find n p)
    → is_some (find n (columns_by_name cs m)) ≡ is_some (find n (index_by column_name cs i p))
unfolding columns_by_name index_by
maps-alike n [] i m p alike = alike
maps-alike n (c ∷ cs) i m p alike =
    maps-alike n cs (i + 1) (put c.name c m) (put c.name i p) (put-alike n c.name c i m p alike)

check_named-none :
    (o : Option Column) (v : Value) (rest : Option GoError)
    → check_named o v rest ≡ none
    → (is_some o ≡ true) × (rest ≡ none)
unfolding check_named
check_named-none none v rest h = cc
check_named-none (some c) v rest h = (refl, (first_error-none (validate_column_value c v) rest h).1)

-- ValidateRow looks every name up.
names-known :
    (m : List (String × Column)) (names : List String) (values : List Value)
    → validate_values m names values ≡ none
    → All (λ (n : String). is_some (find n m) ≡ true) names
unfolding validate_values
names-known m [] values h = _
names-known m (n ∷ ns) [] h = cc
names-known m (n ∷ ns) (v ∷ vs) h =
    let (known, rest) = check_named-none (find n m) v (validate_values m ns vs) h in
    (known, names-known m ns vs rest)

row-known :
    (trim_space : String → String) (s : Schema) (values : List Value) (n : String)
    (ns : List String)
    → validate_row trim_space s values (n ∷ ns) ≡ none
    → All (λ (k : String). is_some (find k (columns_by_name s.columns [])) ≡ true) (n ∷ ns)
unfolding validate_row selected_columns
row-known trim_space s values n ns h =
    let m = columns_by_name s.columns [] in
    let checked = validate_values m (n ∷ ns) values in
    let fits = length values == length (n ∷ ns) in
    let (valid, rest) =
      first_error-none (validate_schema trim_space s)
        (if fits then checked else some err_invalid_row) h in
    elim (Bool-cases fits) [
      | inl e ↦ names-known m (n ∷ ns) values (then_of fits (some err_invalid_row) e rest)
      | inr e ↦ cc (else_of fits checked e rest)
    ]

known_positions :
    (cs : List Column) (names : List String)
    → All (λ (k : String). is_some (find k (columns_by_name cs [])) ≡ true) names
    → All (λ (k : String). is_some (find k (index_by column_name cs 0 [])) ≡ true) names
known_positions cs [] h = _
known_positions cs (n ∷ ns) (here, rest) =
    (sym (maps-alike n cs 0 [] [] refl) ∙ here, known_positions cs ns rest)

-- The column at a position has the name.
abbrev pub AtColumns : List Column → List String → List ℕ → Type 0
AtColumns cs [] [] = Unit
AtColumns cs (n ∷ ns) (t ∷ ts) =
    ((c : Column) × (get_elem? cs t ≡ some c) × (c.name ≡ n)) × AtColumns cs ns ts
AtColumns cs _ _ = ⊥

position_of-finds :
    (cs : List Column) (n : String)
    → is_some (find n (index_by column_name cs 0 [])) ≡ true
    → (c : Column) × (get_elem? cs (position_of (index_by column_name cs 0 []) n) ≡ some c)
      × (c.name ≡ n)
unfolding position_of
position_of-finds cs n known = elim (Option-cases (find n (index_by column_name cs 0 []))) [
  | inl e ↦ cc (sym known ∙ ap is_some e)
  | inr (t, e) ↦ rw (e, position_of) (index_by-finds column_name cs n t e)
]

targets-AtColumns :
    (cs : List Column) (selected names : List String) (targets : List ℕ)
    → All (λ (n : String). is_some (find n (index_by column_name cs 0 [])) ≡ true) names
    → select_targets (index_by column_name cs 0 []) selected names ≡ ok targets
    → AtColumns cs names targets
unfolding select_targets
targets-AtColumns cs selected [] [] known h = _
targets-AtColumns cs selected [] (t ∷ ts) known h = cc
targets-AtColumns cs selected (n ∷ ns) targets (here, known) h =
    let positions = index_by column_name cs 0 [] in
    let rest = select_targets positions (n ∷ selected) ns in
    let more = rest >>= λ ts. ok (position_of positions n ∷ ts) in
    elim (Bool-cases (one_of n selected)) [
      | inl again ↦ cc (then_of (one_of n selected) more again h)
      | inr first ↦
          let (ts, later, whole) =
            >>=_ok rest (λ ts. ok (position_of positions n ∷ ts)) targets
              (else_of (one_of n selected) (err err_invalid_row) first h) in
          let split : position_of positions n ∷ ts ≡ targets = cc in
          subst (AtColumns cs (n ∷ ns)) split
            (position_of-finds cs n here, targets-AtColumns cs (n ∷ selected) ns ts known later)
    ]

selection-All :
    (keys selected : List String)
    → all_selected keys selected ≡ none
    → All (λ (k : String). one_of k selected ≡ true) keys
unfolding all_selected
selection-All [] selected h = _
selection-All (k ∷ ks) selected h = elim (Bool-cases (one_of k selected)) [
  | inl e ↦ (e, selection-All ks selected (then_of (one_of k selected) (some err_invalid_row) e h))
  | inr e ↦ cc (else_of (one_of k selected) (all_selected ks selected) e h)
]

selection-none :
    (keys selected : List String)
    → none_selected keys selected ≡ none
    → All (λ (k : String). one_of k selected ≡ false) keys
unfolding none_selected
selection-none [] selected h = _
selection-none (k ∷ ks) selected h = elim (Bool-cases (one_of k selected)) [
  | inl e ↦ cc (then_of (one_of k selected) (none_selected ks selected) e h)
  | inr e ↦ (e, selection-none ks selected (else_of (one_of k selected) (some err_invalid_row) e h))
]

omitted-fit :
    (s : Schema) (selected : List String) (cs : List Column)
    → omitted_fit s selected cs ≡ none
    → All (λ (c : Column). may_omit s selected c ≡ true) cs
unfolding omitted_fit
omitted-fit s selected [] h = _
omitted-fit s selected (c ∷ cs) h = elim (Bool-cases (may_omit s selected c)) [
  | inl e ↦
      (e, omitted-fit s selected cs (then_of (may_omit s selected c) (some err_invalid_row) e h))
  | inr e ↦ cc (else_of (may_omit s selected c) (omitted_fit s selected cs) e h)
]

pub validate_partial-accepted :
    (trim_space : String → String) (s : Schema) (columns : List String) (values : List Value)
    (targets : List ℕ)
    → validate_partial trim_space s columns values ≡ ok targets
    → AtColumns s.columns columns targets
      × All (λ (k : String). one_of k columns ≡ true) s.primary_key
      × All (λ (k : String). one_of k columns ≡ false) s.auto_increment
      × All (λ (c : Column). may_omit s columns c ≡ true) s.columns
unfolding validate_partial validate_partial_selection
validate_partial-accepted trim_space s [] values targets h = cc
validate_partial-accepted trim_space s (n ∷ ns) values targets h =
    let columns = n ∷ ns in
    let positions = index_by column_name s.columns 0 [] in
    let apart = not (length columns == length values) in
    let accepted = unless_error (validate_row trim_space s values columns) (
      select_targets positions [] columns >>= λ ts.
      unless_error (validate_partial_selection s columns) (ok ts)) in
    elim (Bool-cases apart) [
      | inl e ↦ cc (then_of apart accepted e h)
      | inr e ↦
          let (valid, chosen) =
            unless_error-ok (validate_row trim_space s values columns)
              (select_targets positions [] columns >>= λ ts.
                unless_error (validate_partial_selection s columns) (ok ts))
              targets (else_of apart (err err_invalid_row) e h) in
          let (ts, selected, last) =
            >>=_ok (select_targets positions [] columns)
              (λ us. unless_error (validate_partial_selection s columns) (ok us)) targets chosen in
          let (fits, whole) =
            unless_error-ok (validate_partial_selection s columns) (ok ts) targets last in
          let same : ts ≡ targets = cc in
          let (keys, rest) =
            first_error-none (all_selected s.primary_key columns)
              (first_error (none_selected s.auto_increment columns)
                (omitted_fit s columns s.columns))
              fits in
          let (filled, omitted) =
            first_error-none (none_selected s.auto_increment columns)
              (omitted_fit s columns s.columns) rest in
          let known =
            known_positions s.columns columns (row-known trim_space s values n ns valid) in
          (
            subst (AtColumns s.columns columns) same
                (targets-AtColumns s.columns [] columns ts known selected),
            selection-All s.primary_key columns keys,
            selection-none s.auto_increment columns filled,
            omitted-fit s columns s.columns omitted,
          )
    ]
