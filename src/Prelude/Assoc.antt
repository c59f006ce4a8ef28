-- ===== src/Prelude/Assoc.antt =====
-- Go's maps as association lists: a key is tested by the `Key` instance of its type.
use Prim.Native.Nat.{ℕ, suc, ◌≤◌}
use mathlib.Core.Path.{◌≡◌, refl, sym, ◌∙◌}
use mathlib.Core.Logic.{◌↔◌, ◌≢◌, inl, inr}
use mathlib.Core.Bool.{Bool, true, false}
use mathlib.Core.List.{List, [], ◌∷◌}
use mathlib.Core.Option.{Option, none, some}
use native.Mathlib.Omega.{arith}
use fluss_go.Prelude.Tests.{◌==◌, ==_iff, if◌then◌else◌, Bool-cases}
use fluss_go.Prelude.Lists.{length}

pub record Key {ℓ} (K : Type ℓ) : Type ℓ where
  pub same : K → K → Bool
  pub same_iff : (a b : K) → (same a b ≡ true) ↔ (a ≡ b)

instance abbrev pub nat_key : Key ℕ
nat_key = record { same = ◌==◌; same_iff = ==_iff }

module _ {ℓ} {K : Type ℓ} ⦃e : Key K⦄ where
  same_refl : (k : K) → e.same k k ≡ true
  same_refl k = (e.same_iff k k).1 refl

  pub same_false : (j k : K) → j ≢ k → e.same j k ≡ false
  same_false j k h = elim (Bool-cases (e.same j k)) [
    | inl eq ↦ elim (h ((e.same_iff j k).0 eq)) [ ]
    | inr eq ↦ eq
  ]

module _ {ℓ κ} {K : Type ℓ} {V : Type κ} ⦃e : Key K⦄ where
  -- m[key]
  abbrev pub find : K → List (K × V) → Option V
  find k [] = none
  find k ((l, v) ∷ m) = if e.same k l then some v else find k m

  -- m[key] = value
  abbrev pub put : K → V → List (K × V) → List (K × V)
  put k v [] = (k, v) ∷ []
  put k v ((l, w) ∷ m) = let rest = put k v m in if e.same k l then (k, v) ∷ m else (l, w) ∷ rest

  -- delete(m, key)
  abbrev pub remove : K → List (K × V) → List (K × V)
  remove k [] = []
  remove k ((l, w) ∷ m) = let rest = remove k m in if e.same k l then rest else (l, w) ∷ rest

  pub find-put : (k : K) (v : V) (m : List (K × V)) → find k (put k v m) ≡ some v
  find-put k v [] = rw (same_refl k) refl
  find-put k v ((l, w) ∷ m) = elim (Bool-cases (e.same k l)) [
    | inl eq ↦ rw (eq, same_refl k) refl
    | inr eq ↦ rw (eq, eq, find-put k v m) refl
  ]

  pub find-put_other : (j k : K) (v : V) (m : List (K × V)) → j ≢ k → find j (put k v m) ≡ find j m
  find-put_other j k v [] h = rw (same_false j k h) refl
  find-put_other j k v ((l, w) ∷ m) h = elim (Bool-cases (e.same k l)) [
    | inl eq ↦
        let kl = (e.same_iff k l).0 eq in
        let jl : e.same j l ≡ false = same_false j l (λ jl. h (jl ∙ sym kl)) in
        rw (eq, same_false j k h, jl) refl
    | inr eq ↦ rw (eq, find-put_other j k v m h) refl
  ]

  pub find-remove : (k : K) (m : List (K × V)) → find k (remove k m) ≡ none
  find-remove k [] = refl
  find-remove k ((l, w) ∷ m) = elim (Bool-cases (e.same k l)) [
    | inl eq ↦ rw (eq, find-remove k m) refl
    | inr eq ↦ rw (eq, eq, find-remove k m) refl
  ]

  pub find-remove_other : (j k : K) (m : List (K × V)) → j ≢ k → find j (remove k m) ≡ find j m
  find-remove_other j k [] h = refl
  find-remove_other j k ((l, w) ∷ m) h = elim (Bool-cases (e.same k l)) [
    | inl eq ↦
        let kl = (e.same_iff k l).0 eq in
        let jl : e.same j l ≡ false = same_false j l (λ jl. h (jl ∙ sym kl)) in
        rw (eq, jl, find-remove_other j k m h) refl
    | inr eq ↦ rw (eq, find-remove_other j k m h) refl
  ]

  pub length-put : (k : K) (v : V) (m : List (K × V)) → length (put k v m) ≤ suc (length m)
  length-put k v [] = omega arith
  length-put k v ((l, w) ∷ m) = elim (Bool-cases (e.same k l)) [
    | inl eq ↦ rw eq (omega arith)
    | inr eq ↦ rw eq (omega (arith, length-put k v m))
  ]

  pub length-remove : (k : K) (m : List (K × V)) → length (remove k m) ≤ length m
  length-remove k [] = omega arith
  length-remove k ((l, w) ∷ m) = elim (Bool-cases (e.same k l)) [
    | inl eq ↦ rw eq (omega (arith, length-remove k m))
    | inr eq ↦ rw eq (omega (arith, length-remove k m))
  ]
