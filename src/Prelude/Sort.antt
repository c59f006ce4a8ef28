-- ===== src/Prelude/Sort.antt =====
-- slices.Sort and slices.SortStableFunc: a stable sort by a key, as an insertion sort.
use Prim.Native.Nat.{ℕ, ◌≤◌}
use mathlib.Core.Logic.{inl, inr}
use mathlib.Core.List.{List, [], ◌∷◌, Perm}
use mathlib.Core.List.Perm
use native.Mathlib.Omega.{arith}
use fluss_go.Prelude.Tests.{leb, if◌then◌else◌, Bool-cases}
use fluss_go.Prelude.Lists.{All}

module _ {ℓ} {A : Type ℓ} (key : A → ℕ) where
  unfoldable pub insert_by : A → List A → List A
  insert_by x [] = x ∷ []
  insert_by x (y ∷ ys) = if leb (key x) (key y) then x ∷ y ∷ ys else y ∷ insert_by x ys

  unfoldable pub sort_by : List A → List A
  sort_by [] = []
  sort_by (x ∷ xs) = insert_by x (sort_by xs)

  -- Each element is at most every one behind it.
  abbrev pub IsSorted : List A → Type 0
  IsSorted [] = Unit
  IsSorted (x ∷ xs) = All (λ y. key x ≤ key y) xs × IsSorted xs

  insert_by-perm : (x : A) (xs : List A) → Perm (insert_by x xs) (x ∷ xs)
  unfolding insert_by
  insert_by-perm x [] = Perm.refl (x ∷ [])
  insert_by-perm x (y ∷ ys) = elim (Bool-cases (leb (key x) (key y))) [
    | inl e ↦ rw e (Perm.refl (x ∷ y ∷ ys))
    | inr e ↦ rw e (Perm.trans (Perm.cons y (insert_by-perm x ys)) (Perm.swap x y ys))
  ]

  pub sort_by-perm : (xs : List A) → Perm (sort_by xs) xs
  unfolding sort_by
  sort_by-perm [] = Perm.refl []
  sort_by-perm (x ∷ xs) = Perm.trans (insert_by-perm x (sort_by xs)) (Perm.cons x (sort_by-perm xs))

  All-weaken :
      (a b : A) (xs : List A)
      → key a ≤ key b
      → All (λ y. key b ≤ key y) xs
      → All (λ y. key a ≤ key y) xs
  All-weaken a b [] h k = tt
  All-weaken a b (x ∷ xs) h (k, ks) = (omega arith, All-weaken a b xs h ks)

  All-insert_by :
      (b x : A) (xs : List A)
      → key b ≤ key x
      → All (λ y. key b ≤ key y) xs
      → All (λ y. key b ≤ key y) (insert_by x xs)
  unfolding insert_by
  All-insert_by b x [] h k = (h, tt)
  All-insert_by b x (y ∷ ys) h (k, ks) = elim (Bool-cases (leb (key x) (key y))) [
    | inl e ↦ rw e (h, (k, ks))
    | inr e ↦ rw e (k, All-insert_by b x ys h ks)
  ]

  insert_by-IsSorted : (x : A) (xs : List A) → IsSorted xs → IsSorted (insert_by x xs)
  unfolding insert_by
  insert_by-IsSorted x [] s = (tt, tt)
  insert_by-IsSorted x (y ∷ ys) (h, s) = elim (Bool-cases (leb (key x) (key y))) [
    | inl e ↦ rw e ((ground arith, All-weaken x y ys (ground arith) h), (h, s))
    | inr e ↦ rw e (All-insert_by y x ys (ground arith) h, insert_by-IsSorted x ys s)
  ]

  pub sort_by-IsSorted : (xs : List A) → IsSorted (sort_by xs)
  unfolding sort_by
  sort_by-IsSorted [] = tt
  sort_by-IsSorted (x ∷ xs) = insert_by-IsSorted x (sort_by xs) (sort_by-IsSorted xs)
