-- ===== src/Schema/Cache/Answers.antt =====
-- What a lookup of the schema cache answers.
use fluss_go.Prelude.{ℕ, ◌≤◌, Bool, true, false, List, Option, none, some, length}
use fluss_go.Prelude.{◌≡◌, ◌⊎◌, inl, inr, refl, Bool-cases, Option-cases}
use mathlib.Core.Path.{subst}
use fluss_go.Prelude.Assoc.{Key, find}
use fluss_go.Prelude.Errors.{Result, ok, err, err_closed, err_invalid_config}
use fluss_go.Schema.Cache.{Entry, CacheState, new_cache, cached, CacheCall, run_calls}
use fluss_go.Schema.Cache.Refines.{StoredMap, map_calls, empty_map, run_calls-refined}

-- An entry has the schema that the map has.
abbrev pub EntryOf : {V : Type 0} → Option V → Option (Entry V) → Type 0
EntryOf stored none = Unit
EntryOf stored (some x) = stored ≡ some x.schema

-- The answer of a lookup: an error once the map is closed, and else what the map has, or a miss, which is
-- an error without a fetch.
abbrev pub IsAnswer : {V : Type 0} → Bool → Option V → Bool → Result (Option V) → Type 0
IsAnswer closed stored has_fetch r =
    ((closed ≡ true) × (r ≡ err err_closed))
    ⊎ ((closed ≡ false) × ((v : _) × (stored ≡ some v) × (r ≡ ok (some v))))
    ⊎ ((closed ≡ false) × (has_fetch ≡ true) × (r ≡ ok none))
    ⊎ ((closed ≡ false) × (has_fetch ≡ false) × (r ≡ err err_invalid_config))

module _ {K V : Type 0} ⦃e : Key K⦄ where
  cached-IsAnswer :
      (has_fetch : Bool) (k : K) (c : CacheState K V) (stored : Option V)
      → EntryOf stored (find k c.entries)
      → IsAnswer c.closed stored has_fetch (cached has_fetch k c).1
  unfolding cached
  cached-IsAnswer has_fetch k c stored = elim (Bool-cases c.closed) [
    | inl shut ↦ rw shut (λ h. inl (refl, refl))
    | inr running ↦ elim (Option-cases (find k c.entries)) [
      | inr (x, hit) ↦ rw (running, hit) (λ h. inr (inl (refl, (x.schema, h, refl))))
      | inl miss ↦ elim (Bool-cases has_fetch) [
        | inl can ↦ rw (running, miss, can) (λ h. inr (inr (inl (refl, refl, refl))))
        | inr cannot ↦ rw (running, miss, cannot) (λ h. inr (inr (inr (refl, refl, refl))))
      ]
    ]
  ]

  -- After any lookups, fetches, stores and Close, in any order, a new cache has no more entries than its
  -- bound, and each of its entries has the schema that was last stored under its key while the cache was
  -- open. A lookup fails with ErrClosed after Close; before it, it answers with that schema, or it misses,
  -- which is an error when there is no fetch. So the cache refines the map of all that was stored.
  pub cache_refines :
      (max : ℕ) (xs : List (CacheCall K V)) (has_fetch : Bool) (k : K)
      → let c : CacheState K V = run_calls max xs new_cache in
        let a : StoredMap K V = map_calls xs empty_map in
        (length c.entries ≤ max)
        × EntryOf (a.stored k) (find k c.entries)
        × IsAnswer a.closed (a.stored k) has_fetch (cached has_fetch k c).1
  cache_refines max xs has_fetch k =
      let c : CacheState K V = run_calls max xs new_cache in
      let a : StoredMap K V = map_calls xs empty_map in
      let (same, short, within) = run_calls-refined max xs in
      let entry : EntryOf (a.stored k) (find k c.entries) = elim (Option-cases (find k c.entries)) [
        | inl miss ↦ rw miss _
        | inr (x, hit) ↦ rw hit (within k x hit)
      ] in
      (
        short,
        entry,
        subst (λ b. IsAnswer b (a.stored k) has_fetch (cached has_fetch k c).1) same
            (cached-IsAnswer has_fetch k c (a.stored k) entry),
      )
