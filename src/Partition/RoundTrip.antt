-- ===== src/Partition/RoundTrip.antt =====
-- A partition name that was parsed is printed back as it was.
use fluss_go.Prelude.{
  ℕ, ◌+◌, List, [], ◌∷◌, ◌++◌, some, length, true, false, All, ◌||◌, is_some, length-append,
}
use fluss_go.Prelude.{◌==◌, ◌≡◌, refl, ap, ◌∙◌, arith, Bool-cases, inl, inr}
use fluss_go.Prelude.Errors.{ok}
use mathlib.Core.Path.{subst}
use fluss_go.Partition.{
  Text, PartitionSpec, partition_value_separator, same_text, is_empty_text, lookup_spec,
  has_separator,
}
use fluss_go.Partition.{
  join_values, split_values, add_byte, partition_values, partition_name, spec_loop,
  partition_spec_from_name, valid_value,
}

add_byte-join :
    (b : ℕ) (v : Text) (vs : List Text)
    → join_values (add_byte b (v ∷ vs)) ≡ b ∷ join_values (v ∷ vs)
unfolding add_byte join_values
add_byte-join b v [] = refl
add_byte-join b v (w ∷ vs) = refl

join_values-nil :
    (v : Text) (vs : List Text)
    → join_values ([] ∷ v ∷ vs) ≡ partition_value_separator ∷ join_values (v ∷ vs)
unfolding join_values
join_values-nil v vs = refl

-- The list of a split is never empty.
split_values-cons : (name : Text) → (v : Text) × (vs : List Text) × (split_values name ≡ v ∷ vs)
unfolding split_values add_byte
split_values-cons [] = ([], [], refl)
split_values-cons (b ∷ bs) =
    let (v, vs, e) = split_values-cons bs in
    elim (Bool-cases (b == partition_value_separator)) [
      | inl s ↦ ([], v ∷ vs, rw (s, e) refl)
      | inr s ↦ (b ∷ v, vs, rw (s, e) refl)
    ]

join_values-split_values : (name : Text) → join_values (split_values name) ≡ name
unfolding split_values join_values
join_values-split_values [] = refl
join_values-split_values (b ∷ bs) =
    let (v, vs, e) = split_values-cons bs in
    let rest : join_values (v ∷ vs) ≡ bs = rw (← e) (join_values-split_values bs) in
    elim (Bool-cases (b == partition_value_separator)) [
      | inl s ↦
          let sep : partition_value_separator ≡ b = ground arith in
          rw (s, e) (join_values-nil v vs ∙ rw (rest, sep))
      | inr s ↦ rw (s, e) (add_byte-join b v vs ∙ rw rest)
    ]

-- No value of a split has the separator.
abbrev pub AllPlain : List Text → Type 0
AllPlain = All (λ v. has_separator v ≡ false)

split_values-AllPlain : (name : Text) → AllPlain (split_values name)
unfolding split_values add_byte
split_values-AllPlain [] = (refl, tt)
split_values-AllPlain (b ∷ bs) =
    let (v, vs, e) = split_values-cons bs in
    let (here, rest) = (subst AllPlain e (split_values-AllPlain bs)) in
    elim (Bool-cases (b == partition_value_separator)) [
      | inl s ↦ rw (s, e) (refl, (here, rest))
      | inr s ↦ rw (s, e) (rw (s, here), rest)
    ]

same_text_refl : (t : Text) → same_text t t ≡ true
same_text_refl [] = refl
same_text_refl (b ∷ bs) = let e : (b == b) ≡ true = ground arith in rw (e, same_text_refl bs)

lookup_spec-append :
    (key : Text) (spec more : PartitionSpec) (v : Text)
    → lookup_spec key spec ≡ some v
    → lookup_spec key (spec ++ more) ≡ some v
lookup_spec-append key [] more v = λ h. cc
lookup_spec-append key ((k, x) ∷ spec) more v = elim (Bool-cases (same_text key k)) [
  | inl e ↦ rw e (λ h. h)
  | inr e ↦ rw e (lookup_spec-append key spec more v)
]

lookup_spec-added :
    (key : Text) (spec : PartitionSpec) (v : Text)
    → is_some (lookup_spec key spec) ≡ false
    → lookup_spec key (spec ++ ((key, v) ∷ [])) ≡ some v
lookup_spec-added key [] v = λ h. rw (same_text_refl key) refl
lookup_spec-added key ((k, x) ∷ spec) v = elim (Bool-cases (same_text key k)) [
  | inl e ↦ rw e (λ h. cc)
  | inr e ↦ rw e (lookup_spec-added key spec v)
]

-- What the loop returns: it keeps the entries that were there, it has a value for each key, and
-- those are the values of the name.
abbrev IsParsed : List Text → List Text → PartitionSpec → PartitionSpec → Type 0
IsParsed keys values spec result =
    ((k v : Text) → lookup_spec k spec ≡ some v → lookup_spec k result ≡ some v)
    × (partition_values keys result ≡ ok values)
    × (length result ≡ length spec + length keys)

is_filled :
    (key v : Text) → (is_empty_text key || is_empty_text v) ≡ false → is_empty_text v ≡ false
is_filled key v h = ground arith

valid_value_ok :
    (v : Text) → is_empty_text v ≡ false → has_separator v ≡ false → valid_value (some v) ≡ ok v
unfolding valid_value
valid_value_ok v filled plain = rw (filled, plain) refl

spec_loop-IsParsed :
    (keys values : List Text) (spec result : PartitionSpec)
    → length values ≡ length keys
    → AllPlain values
    → spec_loop keys values spec ≡ ok result
    → IsParsed keys values spec result
unfolding spec_loop partition_values
spec_loop-IsParsed [] [] spec result same plain =
    λ e. let q : spec ≡ result = cc in ((λ k v h. rw (← q) h), refl, rw (← q) (omega arith))
spec_loop-IsParsed [] (v ∷ values) spec result same plain = absurd (omega arith)
spec_loop-IsParsed (key ∷ keys) [] spec result same plain = absurd (omega arith)
spec_loop-IsParsed (key ∷ keys) (v ∷ values) spec result same (here, plain) =
    elim (Bool-cases (is_empty_text key || is_empty_text v)) [
      | inl bad ↦ rw bad (λ e. cc)
      | inr filled ↦ elim (Bool-cases (is_some (lookup_spec key spec))) [
        | inl twice ↦ rw (filled, twice) (λ e. cc)
        | inr fresh ↦
            rw (filled, fresh)
              (λ e.
                let (keeps, values_ok, count) =
                  spec_loop-IsParsed keys values (spec ++ ((key, v) ∷ [])) result (omega arith)
                    plain e in
                let found = keeps key v (lookup_spec-added key spec v fresh) in
                (
                  (λ k x h. keeps k x (lookup_spec-append k spec ((key, v) ∷ []) x h)),
                  rw (found, valid_value_ok v (is_filled key v filled) here, values_ok) refl,
                  omega (arith, length-append spec ((key, v) ∷ [])),
                ))
      ]
    ]

-- A partition name from which PartitionSpecFromName reads a spec is the name that PartitionName
-- gives that spec for the same keys.
pub partition_name-partition_spec_from_name :
    (keys : List Text) (name : Text) (spec : PartitionSpec)
    → partition_spec_from_name keys name ≡ ok spec
    → partition_name keys spec ≡ ok name
unfolding partition_spec_from_name partition_name
partition_name-partition_spec_from_name keys name spec =
    elim (Bool-cases (length keys == 0 || is_empty_text name)) [
      | inl bad ↦ rw bad (λ e. cc)
      | inr some_keys ↦ elim (Bool-cases (length (split_values name) == length keys)) [
        | inr bad ↦ rw (some_keys, bad) (λ e. cc)
        | inl same ↦
            rw (some_keys, same)
              (λ e.
                let (keeps, values_ok, count) =
                  spec_loop-IsParsed keys (split_values name) [] spec (ground arith)
                    (split_values-AllPlain name) e in
                let first : (length keys == 0) ≡ false = ground arith in
                let counted : (length spec == length keys) ≡ true = ground arith in
                rw (first, counted, values_ok) (ap ok (join_values-split_values name)))
      ]
    ]
