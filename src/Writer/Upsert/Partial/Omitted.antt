-- ===== src/Writer/Upsert/Partial/Omitted.antt =====
-- Which columns a partial update that was accepted names, and which it leaves out.
use Prim.Native.String.{String}
use text.Mathlib.Text.{◌==◌ as str_eq}
use text.Mathlib.TextEquality.{eq_iff}
use mathlib.Core.Path.{subst}
use fluss_go.Prelude.{ℕ, Bool, true, false, ◌||◌, List, [], ◌∷◌, All}
use fluss_go.Prelude.{◌≡◌, refl, sym, ◌⊎◌, inl, inr, Bool-cases}
use fluss_go.Prelude.Errors.{ok}
use fluss_go.Schema.Types.{one_of}
use fluss_go.Schema.Values.{Value}
use fluss_go.Schema.Model.{Column, Schema}
use fluss_go.Writer.Upsert.Partial.{may_omit, validate_partial}
use fluss_go.Writer.Upsert.Partial.Targets.{AtColumns, validate_partial-accepted}

-- The name is one of the names.
abbrev pub Names : List String → String → Type 0
Names [] k = ⊥
Names (x ∷ xs) k = (k ≡ x) ⊎ Names xs k

one_of-Names : (k : String) (xs : List String) → one_of k xs ≡ true → Names xs k
one_of-Names k [] = λ h. cc
one_of-Names k (x ∷ xs) = elim (Bool-cases (str_eq k x)) [
  | inl e ↦ rw e (λ h. inl ((eq_iff k x).0 e))
  | inr e ↦ rw e (λ h. inr (one_of-Names k xs h))
]

one_of-Names_not : (k : String) (xs : List String) → one_of k xs ≡ false → ¬ (Names xs k)
one_of-Names_not k [] = λ h n. n
one_of-Names_not k (x ∷ xs) = elim (Bool-cases (str_eq k x)) [
  | inl e ↦ rw e (λ h. cc)
  | inr e ↦ rw e (λ h n. elim n [
    | inl same ↦ let t : str_eq k x ≡ true = (eq_iff k x).1 same in cc
    | inr later ↦ one_of-Names_not k xs h later
  ])
]

All-Names :
    (columns keys : List String)
    → All (λ (k : String). one_of k columns ≡ true) keys
    → All (Names columns) keys
All-Names columns [] h = _
All-Names columns (k ∷ ks) (h, hs) = (one_of-Names k columns h, All-Names columns ks hs)

none-Names :
    (columns keys : List String)
    → All (λ (k : String). one_of k columns ≡ false) keys
    → All (λ k. ¬ (Names columns k)) keys
none-Names columns [] h = _
none-Names columns (k ∷ ks) (h, hs) = (one_of-Names_not k columns h, none-Names columns ks hs)

through-Names :
    (columns keys : List String) (k : String)
    → All (Names columns) keys
    → Names keys k
    → Names columns k
through-Names columns (x ∷ xs) k (h, hs) (inl e) = subst (Names columns) (sym e) h
through-Names columns (x ∷ xs) k (h, hs) (inr n) = through-Names columns xs k hs n
through-Names columns [] k h n = elim n [ ]

-- The column is named, or it is nullable, or the server fills it in.
abbrev pub IsGiven : Schema → List String → Column → Type 0
IsGiven s columns c = Names columns c.name ⊎ (c.nullable ≡ true) ⊎ Names s.auto_increment c.name

or_cases : (a b : Bool) → a || b ≡ true → (a ≡ true) ⊎ (b ≡ true)
or_cases true b h = inl refl
or_cases false b h = inr h

may_omit-IsGiven :
    (s : Schema) (columns : List String) (c : Column)
    → All (Names columns) s.primary_key
    → may_omit s columns c ≡ true
    → IsGiven s columns c
unfolding may_omit
may_omit-IsGiven s columns c keys h =
    let named = one_of c.name columns in
    let key = one_of c.name s.primary_key in
    elim (or_cases (named || c.nullable || key) (one_of c.name s.auto_increment) h) [
      | inr filled ↦ inr (inr (one_of-Names c.name s.auto_increment filled))
      | inl h' ↦ elim (or_cases (named || c.nullable) key h') [
        | inr k ↦
            inl (
              through-Names columns s.primary_key c.name keys (one_of-Names c.name s.primary_key k))
        | inl h'' ↦ elim (or_cases named c.nullable h'') [
          | inl n ↦ inl (one_of-Names c.name columns n)
          | inr null ↦ inr (inl null)
        ]
      ]
    ]

All-IsGiven :
    (s : Schema) (columns : List String) (cs : List Column)
    → All (Names columns) s.primary_key
    → All (λ (c : Column). may_omit s columns c ≡ true) cs
    → All (IsGiven s columns) cs
All-IsGiven s columns [] keys h = _
All-IsGiven s columns (c ∷ cs) keys (h, hs) =
    (may_omit-IsGiven s columns c keys h, All-IsGiven s columns cs keys hs)

-- A partial update that is accepted has for each named column its position in the schema; it names
-- every column of the primary key and none that the server fills in, and each column of the schema that
-- it does not name is nullable or filled in by the server.
pub validate_partial-targets :
    (trim_space : String → String) (s : Schema) (columns : List String) (values : List Value)
    (targets : List ℕ)
    → validate_partial trim_space s columns values ≡ ok targets
    → AtColumns s.columns columns targets
      × All (Names columns) s.primary_key
      × All (λ k. ¬ (Names columns k)) s.auto_increment
      × All (IsGiven s columns) s.columns
validate_partial-targets trim_space s columns values targets h =
    let (at, keys, filled, omitted) =
      validate_partial-accepted trim_space s columns values targets h in
    let named = All-Names columns s.primary_key keys in
    (
      at,
      named,
      none-Names columns s.auto_increment filled,
      All-IsGiven s columns s.columns named omitted,
    )
