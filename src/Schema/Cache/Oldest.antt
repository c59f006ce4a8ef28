-- ===== src/Schema/Cache/Oldest.antt =====
-- Which entry an eviction of the schema cache takes.
use fluss_go.Prelude.{ℕ, ◌≤◌, ◌<◌, List, [], ◌∷◌, none, ltb}
use fluss_go.Prelude.{◌≡◌, ◌≢◌, ◌⊎◌, inl, inr, refl, arith, Bool-cases}
use fluss_go.Prelude.Assoc.{Key, find, find-remove, find-remove_other}
use fluss_go.Schema.Cache.{Entry, oldest, evict_oldest}

module _ {K V : Type 0} ⦃e : Key K⦄ where
  -- One of the entries has the key and was used at this time.
  abbrev pub UsedAt : List (K × Entry V) → K → ℕ → Type 0
  UsedAt [] k used = ⊥
  UsedAt ((l, x) ∷ m) k used = ((k ≡ l) × (used ≡ x.used)) ⊎ UsedAt m k used

  -- No entry was used before this time.
  abbrev pub NoneBefore : ℕ → List (K × Entry V) → Type 0
  NoneBefore used [] = Unit
  NoneBefore used ((l, x) ∷ m) = (used ≤ x.used) × NoneBefore used m

  oldest-UsedAt :
      (m : List (K × Entry V)) (k : K) (used : ℕ)
      → (u : ℕ) × (((oldest m k used ≡ k) × (u ≡ used)) ⊎ UsedAt m (oldest m k used) u)
        × (u ≤ used)
        × NoneBefore u m
  unfolding oldest
  oldest-UsedAt [] k used = (used, inl (refl, refl), omega arith, _)
  oldest-UsedAt ((l, x) ∷ m) k used = elim (Bool-cases (ltb x.used used)) [
    | inl lt ↦
        let (u, which, le, rest) = oldest-UsedAt m l x.used in
        let earlier : x.used < used = ground arith in rw lt (u, inr which, omega arith, (le, rest))
    | inr ge ↦
        let (u, which, le, rest) = oldest-UsedAt m k used in
        let later : used ≤ x.used = ground arith in
        rw ge (
          u,
          elim which [ inl same ↦ inl same | inr there ↦ inr (inr there) ],
          le,
          (omega arith, rest),
        )
  ]

  -- A round of evictLocked on a cache that is not empty takes one key out and leaves every other key as it
  -- is; an entry of that key was used at a time before which no entry was.
  pub evict_oldest-UsedAt :
      (p : K × Entry V) (m : List (K × Entry V))
      → (j : K) × (u : ℕ) × UsedAt (p ∷ m) j u
        × NoneBefore u (p ∷ m)
        × (find j (evict_oldest (p ∷ m)) ≡ none)
        × ((l : K) → (l ≡ j) ⊎ (find l (evict_oldest (p ∷ m)) ≡ find l (p ∷ m)))
  unfolding evict_oldest
  evict_oldest-UsedAt (k, x) m =
      let (u, which, le, rest) = oldest-UsedAt m k x.used in
      let j = oldest m k x.used in
      (
        j,
        u,
        which,
        (le, rest),
        find-remove j ((k, x) ∷ m),
        λ l. elim (Bool-cases (e.same l j)) [
          | inl eq ↦ inl ((e.same_iff l j).0 eq)
          | inr eq ↦
              let differ : l ≢ j = λ h. cc ((e.same_iff l j).1 h) in
              inr (find-remove_other l j ((k, x) ∷ m) differ)
        ],
      )
