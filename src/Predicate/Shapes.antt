-- ===== src/Predicate/Shapes.antt =====
-- What the checks of a leaf of pkg/fgo/predicate.go ask of its literals and of its column's id.
use Prim.Native.String.{String}
use text.Mathlib.Text.{◌==◌ as str_eq}
use text.Mathlib.TextEquality.{eq_iff}
use fluss_go.Prelude.{ℕ, Bool, true, false, ◌&&◌, ◌||◌, not, List, [], ◌∷◌, ◌++◌, Option, none, All}
use fluss_go.Prelude.{length, ◌==◌, ==_iff, if_cases, ◌⊎◌}
use fluss_go.Prelude.{◌≡◌, ◌≢◌, refl, ap, arith, inl, inr, Bool-cases}
use fluss_go.Prelude.Errors.{GoError}
use fluss_go.Prelude.Int.{ℤ}
use fluss_go.Schema.Types.{one_of}
use fluss_go.Schema.Evolve.{int_key}
use fluss_go.Schema.Model.{Column}
use fluss_go.Predicate.Literals.{Literal, nil_literal}
use fluss_go.Predicate.{check_leaf_shape, id_count, error_unless, first_is_nil}

-- One column has the id, and no other before or behind it.
abbrev pub HasOne : ℤ → List Column → Type 0
HasOne id cs =
    (xs : List Column) × (c : Column) × (ys : List Column) × (cs ≡ xs ++ (c ∷ ys))
    × (c.id ≡ id)
    × All (λ (d : Column). d.id ≢ id) xs
    × All (λ (d : Column). d.id ≢ id) ys

-- One literal that is not nil.
abbrev pub HasOneLiteral : List Literal → Type 0
HasOneLiteral vs = (v : Literal) × (vs ≡ v ∷ []) × (v ≢ nil_literal)

-- The literals that a function takes: IsNull and IsNotNull, 6 and 7, none; In and NotIn, 11 and 12, at
-- least one; StartsWith, Contains and EndsWith, 8, 9 and 10, one on a column of characters; and the
-- others one.
abbrev pub HasShape : ℕ → List Literal → String → Type 0
HasShape function vs kind =
    (((function ≡ 6) ⊎ (function ≡ 7)) × (vs ≡ []))
    ⊎ (((function ≡ 11) ⊎ (function ≡ 12)) × (vs ≢ []))
    ⊎ (((function ≡ 8) ⊎ (function ≡ 9) ⊎ (function ≡ 10))
        × ((kind ≡ "STRING") ⊎ (kind ≡ "CHAR"))
        × HasOneLiteral vs)
    ⊎ ((function ≢ 6)
        × (function ≢ 7)
        × (function ≢ 8)
        × (function ≢ 9)
        × (function ≢ 10)
        × (function ≢ 11)
        × (function ≢ 12)
        × HasOneLiteral vs)

or_left : (a b : Bool) → a || b ≡ true → (a ≡ true) ⊎ (b ≡ true)
or_left true b h = inl refl
or_left false b h = inr h

or_neither : (a b : Bool) → a || b ≡ false → (a ≡ false) × (b ≡ false)
or_neither true b h = cc
or_neither false b h = (refl, h)

and_both : (a b : Bool) → a && b ≡ true → (a ≡ true) × (b ≡ true)
and_both true b h = (refl, h)
and_both false b h = cc

differs : (a b : ℕ) → (a == b) ≡ false → a ≢ b
differs a b h = λ e. cc ((==_iff a b).1 e)

accepted : (b : Bool) → error_unless b ≡ none → b ≡ true
accepted true h = refl
accepted false h = cc

no_literals : (vs : List Literal) → (length vs == 0) ≡ true → vs ≡ []
no_literals [] h = refl
no_literals (v ∷ vs) h = let e = (==_iff (length (v ∷ vs)) 0).0 h in absurd (omega arith)

some_literals : (vs : List Literal) → not (length vs == 0) ≡ true → vs ≢ []
some_literals [] h = cc
some_literals (v ∷ vs) h = λ e. cc

one_literal :
    (vs : List Literal) → length vs == 1 && not (first_is_nil vs) ≡ true → HasOneLiteral vs
one_literal [] h = cc
one_literal (v ∷ []) h = (v, refl, λ e. cc)
one_literal (v ∷ w ∷ us) h =
    let (two, _) = and_both (length (v ∷ w ∷ us) == 1) (not (first_is_nil (v ∷ w ∷ us))) h in
    let e = (==_iff (length (v ∷ w ∷ us)) 1).0 two in absurd (omega arith)

kind_is :
    (kind : String)
    → one_of kind ("STRING" ∷ "CHAR" ∷ []) ≡ true
    → (kind ≡ "STRING") ⊎ (kind ≡ "CHAR")
kind_is kind h = elim (or_left (str_eq kind "STRING") _ h) [
  | inl e ↦ inl ((eq_iff kind "STRING").0 e)
  | inr h' ↦ elim (or_left (str_eq kind "CHAR") false h') [
    | inl e ↦ inr ((eq_iff kind "CHAR").0 e)
    | inr never ↦ cc
  ]
]

text_function : (n : ℕ) → n == 8 || n == 9 || n == 10 ≡ true → (n ≡ 8) ⊎ (n ≡ 9) ⊎ (n ≡ 10)
text_function n is = elim (or_left (n == 8 || n == 9) (n == 10) is) [
  | inr e ↦ inr (inr ((==_iff n 10).0 e))
  | inl is' ↦ elim (or_left (n == 8) (n == 9) is') [
    | inl e ↦ inl ((==_iff n 8).0 e)
    | inr e ↦ inr (inl ((==_iff n 9).0 e))
  ]
]

pub check_leaf_shape-HasShape :
    (function : ℕ) (vs : List Literal) (kind : String)
    → check_leaf_shape function vs kind ≡ none
    → HasShape function vs kind
unfolding check_leaf_shape
check_leaf_shape-HasShape f vs kind =
    let one = length vs == 1 && not (first_is_nil vs) in
    let Q : Option GoError → Type 0 = λ o. o ≡ none → HasShape f vs kind in
    if_cases Q (f == 6 || f == 7)
      (λ is h. inl (
        elim (or_left (f == 6) (f == 7) is) [
          | inl e ↦ inl ((==_iff f 6).0 e)
          | inr e ↦ inr ((==_iff f 7).0 e)
        ],
        no_literals vs (accepted (length vs == 0) h),
      ))
      (λ not_null.
        if_cases Q (f == 11 || f == 12)
          (λ is h. inr (
            inl (
              elim (or_left (f == 11) (f == 12) is) [
                | inl e ↦ inl ((==_iff f 11).0 e)
                | inr e ↦ inr ((==_iff f 12).0 e)
              ],
              some_literals vs (accepted (not (length vs == 0)) h),
            )))
          (λ not_in.
            if_cases Q (f == 8 || f == 9 || f == 10)
              (λ is h.
                let (kind_fits, single) =
                  and_both (one_of kind ("STRING" ∷ "CHAR" ∷ [])) one (accepted _ h) in
                inr (inr (inl (text_function f is, kind_is kind kind_fits, one_literal vs single))))
              (λ not_text h.
                let (n8_9, n10) = or_neither (f == 8 || f == 9) (f == 10) not_text in
                let (n8, n9) = or_neither (f == 8) (f == 9) n8_9 in
                let (n6, n7) = or_neither (f == 6) (f == 7) not_null in
                let (n11, n12) = or_neither (f == 11) (f == 12) not_in in
                inr (
                  inr (
                    inr (
                      differs f 6 n6,
                      differs f 7 n7,
                      differs f 8 n8,
                      differs f 9 n9,
                      differs f 10 n10,
                      differs f 11 n11,
                      differs f 12 n12,
                      one_literal vs (accepted one h),
                    ))))))

not_the_id : (a b : ℤ) → int_key.same a b ≡ false → a ≢ b
not_the_id a b h = λ e. cc ((int_key.same_iff a b).1 e)

id_count-zero :
    (id : ℤ) (cs : List Column) → id_count id cs ≡ 0 → All (λ (d : Column). d.id ≢ id) cs
unfolding id_count
id_count-zero id [] = λ h. _
id_count-zero id (c ∷ cs) = elim (Bool-cases (int_key.same c.id id)) [
  | inl e ↦ rw e (λ h. absurd (omega arith))
  | inr e ↦ rw e (λ h. (not_the_id c.id id e, id_count-zero id cs h))
]

pub id_count-HasOne : (id : ℤ) (cs : List Column) → id_count id cs ≡ 1 → HasOne id cs
unfolding id_count
id_count-HasOne id [] = λ h. absurd (omega arith)
id_count-HasOne id (c ∷ cs) = elim (Bool-cases (int_key.same c.id id)) [
  | inl e ↦ rw e (λ h.
      let none_left : id_count id cs ≡ 0 = omega arith in
      ([], c, cs, refl, (int_key.same_iff c.id id).0 e, _, id_count-zero id cs none_left))
  | inr e ↦ rw e (λ h.
      let (xs, d, ys, split, is, before, behind) = id_count-HasOne id cs h in
      (c ∷ xs, d, ys, ap (λ ds. c ∷ ds) split, is, (not_the_id c.id id e, before), behind))
]
