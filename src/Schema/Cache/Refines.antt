-- ===== src/Schema/Cache/Refines.antt =====
-- The cache refines the map of everything that was stored: a hit is what the map has.
use fluss_go.Prelude.{ℕ, zero, suc, ◌≤◌, ◌<◌, Bool, true, false, List, [], ◌∷◌, Option, none, some}
use mathlib.Core.Path.{subst}
use fluss_go.Prelude.{
  length, ltb, if◌then◌else◌, ◌≡◌, ◌≢◌, ◌⊎◌, inl, inr, refl, sym, ◌∙◌, ap, arith,
}
use fluss_go.Prelude.{Bool-cases, Option-cases, if_cases, is_some}
use fluss_go.Prelude.Assoc.{
  Key, find, put, remove, find-put, find-put_other, find-remove, find-remove_other, length-remove,
}
use fluss_go.Prelude.Errors.{ok, err}
use fluss_go.Schema.Cache.{
  Entry, CacheState, new_cache, oldest, evict_oldest, evict_rounds, evict_locked, cached, insert,
  fetched, store, close, tick, CacheCall, reading, fetching, storing, closing, run_call, run_calls,
}

fits : (max n : ℕ) → ltb max n ≡ false → n ≤ max
fits max n h = ground arith

module _ {K V : Type 0} ⦃e : Key K⦄ where
  -- Every hit of the entries is a hit of the map.
  Within : List (K × Entry V) → (K → Option V) → Type 0
  Within m spec = (k : K) (x : Entry V) → find k m ≡ some x → spec k ≡ some x.schema

  remove-Within :
      (j : K) (m : List (K × Entry V)) (spec : K → Option V)
      → Within m spec
      → Within (remove j m) spec
  unfolding Within
  remove-Within j m spec within k x found = elim (Bool-cases (e.same k j)) [
    | inl eq ↦
        let same : k ≡ j = (e.same_iff k j).0 eq in
        let gone : find k (remove j m) ≡ none = rw same (find-remove j m) in cc
    | inr eq ↦
        let differ : k ≢ j = λ h. cc ((e.same_iff k j).1 h) in
        within k x (sym (find-remove_other k j m differ) ∙ found)
  ]

  evict_rounds-Within :
      (rounds max : ℕ) (m : List (K × Entry V)) (spec : K → Option V)
      → Within m spec
      → Within (evict_rounds rounds max m) spec
  unfolding evict_rounds evict_oldest
  evict_rounds-Within zero max m spec within = within
  evict_rounds-Within (suc rounds) max [] spec within =
      if_cases (λ n. Within n spec) (ltb max 0) (λ _. evict_rounds-Within rounds max [] spec within)
        (λ _. within)
  evict_rounds-Within (suc rounds) max ((k, x) ∷ m) spec within =
      let gone = oldest m k x.used in
      if_cases (λ n. Within n spec) (ltb max (suc (length m)))
        (λ _.
          evict_rounds-Within rounds max (remove gone ((k, x) ∷ m)) spec
            (remove-Within gone ((k, x) ∷ m) spec within))
        (λ _. within)

  has : K → List (K × Entry V) → Bool
  has k m = is_some (find k m)

  has-head : (l : K) (y : Entry V) (m : List (K × Entry V)) → has l ((l, y) ∷ m) ≡ true
  unfolding has
  has-head l y m = rw ((e.same_iff l l).1 refl) refl

  has-tail :
      (k l : K) (y : Entry V) (m : List (K × Entry V)) → has k m ≡ true → has k ((l, y) ∷ m) ≡ true
  unfolding has
  has-tail k l y m h =
      if_cases (λ (o : Option (Entry V)). is_some o ≡ true) (e.same k l) (λ _. refl) (λ _. h)

  length-remove_lt :
      (k : K) (m : List (K × Entry V)) → has k m ≡ true → length (remove k m) < length m
  unfolding has
  length-remove_lt k [] h = cc
  length-remove_lt k ((l, y) ∷ m) h = elim (Bool-cases (e.same k l)) [
    | inl eq ↦ rw eq (omega (arith, length-remove k m))
    | inr eq ↦
        let skip : find k ((l, y) ∷ m) ≡ find k m = rw eq refl in
        let inside : is_some (find k m) ≡ true = ap is_some (sym skip) ∙ h in
        rw eq (omega (arith, length-remove_lt k m inside))
  ]

  oldest-has :
      (m : List (K × Entry V)) (k : K) (used : ℕ)
      → (oldest m k used ≡ k) ⊎ (has (oldest m k used) m ≡ true)
  unfolding oldest
  oldest-has [] k used = inl refl
  oldest-has ((l, y) ∷ m) k used =
      if_cases (λ o. (o ≡ k) ⊎ (has o ((l, y) ∷ m) ≡ true)) (ltb y.used used)
        (λ _. inr (elim (oldest-has m l y.used) [
          | inl same ↦ rw same (has-head l y m)
          | inr inside ↦ has-tail (oldest m l y.used) l y m inside
        ]))
        (λ _. elim (oldest-has m k used) [
          | inl same ↦ inl same
          | inr inside ↦ inr (has-tail (oldest m k used) l y m inside)
        ])

  length-evict_oldest :
      (k : K) (x : Entry V) (m : List (K × Entry V)) → length (evict_oldest ((k, x) ∷ m)) ≤ length m
  unfolding evict_oldest
  length-evict_oldest k x m =
      let gone = oldest m k x.used in
      let inside : has gone ((k, x) ∷ m) ≡ true = elim (oldest-has m k x.used) [
        | inl same ↦ rw same (has-head k x m)
        | inr there ↦ has-tail gone k x m there
      ] in
      omega (arith, length-remove_lt gone ((k, x) ∷ m) inside)

  length-evict_rounds :
      (rounds max : ℕ) (m : List (K × Entry V))
      → length m ≤ rounds
      → length (evict_rounds rounds max m) ≤ max
  unfolding evict_rounds evict_oldest
  length-evict_rounds zero max m enough = omega arith
  length-evict_rounds (suc rounds) max [] enough =
      if_cases (λ (n : List (K × Entry V)). length n ≤ max) (ltb max 0)
        (λ _. length-evict_rounds rounds max [] (omega arith)) (λ _. omega arith)
  length-evict_rounds (suc rounds) max ((k, x) ∷ m) enough =
      if_cases (λ (n : List (K × Entry V)). length n ≤ max) (ltb max (suc (length m)))
        (λ _.
          length-evict_rounds rounds max (evict_oldest ((k, x) ∷ m))
            (omega (arith, length-evict_oldest k x m)))
        (λ h. fits max (suc (length m)) h)

  -- The map of what was stored.
  abbrev update : K → V → (K → Option V) → K → Option V
  update k v spec j = if e.same j k then some v else spec j

  put-Within :
      (k : K) (v : V) (used : ℕ) (m : List (K × Entry V)) (spec : K → Option V)
      → Within m spec
      → Within (put k (record { schema = v; used = used }) m) (update k v spec)
  unfolding Within
  put-Within k v used m spec within j x found = elim (Bool-cases (e.same j k)) [
    | inl eq ↦
        let same : j ≡ k = (e.same_iff j k).0 eq in
        let entry : Entry V = record { schema = v; used = used } in
        let there : find j (put k entry m) ≡ some entry =
          ap (λ i. find i (put k entry m)) same ∙ find-put k entry m in
        let one : entry ≡ x = cc in rw eq (ap (λ (y : Entry V). some y.schema) one)
    | inr eq ↦
        let differ : j ≢ k = λ h. cc ((e.same_iff j k).1 h) in
        rw eq (
          within j x
            (sym (find-put_other j k (record { schema = v; used = used }) m differ) ∙ found))
  ]

  touch-Within :
      (k : K) (x : Entry V) (used : ℕ) (m : List (K × Entry V)) (spec : K → Option V)
      → find k m ≡ some x
      → Within m spec
      → Within (put k (record { schema = x.schema; used = used }) m) spec
  unfolding Within
  touch-Within k x used m spec hit within j y found = elim (Bool-cases (e.same j k)) [
    | inl eq ↦
        let same : j ≡ k = (e.same_iff j k).0 eq in
        let entry : Entry V = record { schema = x.schema; used = used } in
        let there : find j (put k entry m) ≡ some entry =
          ap (λ i. find i (put k entry m)) same ∙ find-put k entry m in
        let one : entry ≡ y = cc in
        ap spec same ∙ within k x hit ∙ ap (λ (z : Entry V). some z.schema) one
    | inr eq ↦
        let differ : j ≢ k = λ h. cc ((e.same_iff j k).1 h) in
        within j y
          (sym (find-put_other j k (record { schema = x.schema; used = used }) m differ) ∙ found)
  ]

  length-put-has :
      (k : K) (v : Entry V) (m : List (K × Entry V))
      → has k m ≡ true
      → length (put k v m) ≡ length m
  unfolding has
  length-put-has k v [] h = cc
  length-put-has k v ((l, y) ∷ m) h = elim (Bool-cases (e.same k l)) [
    | inl eq ↦ rw eq refl
    | inr eq ↦
        let skip : find k ((l, y) ∷ m) ≡ find k m = rw eq refl in
        rw eq (ap suc (length-put-has k v m (ap is_some (sym skip) ∙ h)))
  ]

  -- A cache within its bound, whose hits are hits of the map.
  IsRefined : ℕ → (K → Option V) → CacheState K V → Type 0
  unfolding Within
  IsRefined max spec c = (length c.entries ≤ max) × Within c.entries spec

  insert-IsRefined :
      (max : ℕ) (spec : K → Option V) (k : K) (v : V) (c : CacheState K V)
      → IsRefined max spec c
      → IsRefined max (update k v spec) (insert max k v c)
  unfolding IsRefined insert evict_locked
  insert-IsRefined max spec k v c (short, within) =
      let m = put k (record { schema = v; used = tick c.clock }) c.entries in
      (
        length-evict_rounds (length m) max m (omega arith),
        evict_rounds-Within (length m) max m (update k v spec)
            (put-Within k v (tick c.clock) c.entries spec within),
      )

  cached-IsRefined :
      (max : ℕ) (spec : K → Option V) (has_fetch : Bool) (k : K) (c : CacheState K V)
      → IsRefined max spec c
      → IsRefined max spec (cached has_fetch k c).0
  unfolding cached IsRefined has
  cached-IsRefined max spec has_fetch k c (short, within) = elim (Bool-cases c.closed) [
    | inl shut ↦ rw shut (short, within)
    | inr running ↦ elim (Option-cases (find k c.entries)) [
      | inl miss ↦ rw (running, miss) (short, within)
      | inr (x, hit) ↦
          let entry : Entry V = record { schema = x.schema; used = tick c.clock } in
          rw (running, hit)
            (
              omega (arith, length-put-has k entry c.entries (ap is_some hit)),
              touch-Within k x (tick c.clock) c.entries spec hit within,
            )
    ]
  ]

-- What the cache promises: a map of everything that was stored while it was open.
pub record StoredMap (K V : Type 0) : Type 0 where
  pub stored : K → Option V
  pub closed : Bool

module _ {K V : Type 0} ⦃e : Key K⦄ where
  abbrev pub empty_map : StoredMap K V
  empty_map = record { stored = λ k. none; closed = false }

  abbrev pub store_in : K → V → StoredMap K V → StoredMap K V
  store_in k v a = if a.closed then a else record a { stored = update k v a.stored }

  abbrev pub map_call : CacheCall K V → StoredMap K V → StoredMap K V
  map_call (reading k) a = a
  map_call (fetching k (err x)) a = a
  map_call (fetching k (ok v)) a = store_in k v a
  map_call (storing valid k v) a = if valid then store_in k v a else a
  map_call closing a = record a { closed = true }

  abbrev pub map_calls : List (CacheCall K V) → StoredMap K V → StoredMap K V
  map_calls [] a = a
  map_calls (x ∷ xs) a = map_calls xs (map_call x a)

  -- The cache and the map are open or closed alike, and the cache is within the map.
  Follows : ℕ → StoredMap K V → CacheState K V → Type 0
  unfolding IsRefined Within
  Follows max a c = (c.closed ≡ a.closed) × IsRefined max a.stored c

  cached-closed :
      (has_fetch : Bool) (k : K) (c : CacheState K V) → (cached has_fetch k c).0.closed ≡ c.closed
  unfolding cached
  cached-closed has_fetch k c = elim (Bool-cases c.closed) [
    | inl shut ↦ rw shut refl
    | inr running ↦ elim (Option-cases (find k c.entries)) [
      | inl miss ↦ rw (running, miss) running
      | inr (x, hit) ↦ rw (running, hit) running
    ]
  ]

  stored-Follows :
      (max : ℕ) (k : K) (v : V) (a : StoredMap K V) (c : CacheState K V)
      → Follows max a c
      → Follows max (record a { stored = update k v a.stored }) (insert max k v c)
  unfolding Follows insert
  stored-Follows max k v a c (same, refined) = (same, insert-IsRefined max a.stored k v c refined)

  store-Follows :
      (max : ℕ) (k : K) (v : V) (a : StoredMap K V) (c : CacheState K V) (shut : Bool)
      → Follows max a c
      → Follows max
          (if shut then a else record a { stored = update k v a.stored })
          (if shut then c else insert max k v c)
  store-Follows max k v a c true h = h
  store-Follows max k v a c false h = stored-Follows max k v a c h

  insert-Follows :
      (max : ℕ) (k : K) (v : V) (a : StoredMap K V) (c : CacheState K V)
      → Follows max a c
      → Follows max (store_in k v a) (if c.closed then c else insert max k v c)
  unfolding Follows
  insert-Follows max k v a c (same, refined) =
      let later = record a { stored = update k v a.stored } in
      subst (λ d. Follows max (if d then a else later) (if c.closed then c else insert max k v c))
        same (store-Follows max k v a c c.closed (same, refined))

  run_call-Follows :
      (max : ℕ) (x : CacheCall K V) (a : StoredMap K V) (c : CacheState K V)
      → Follows max a c
      → Follows max (map_call x a) (run_call max x c)
  unfolding run_call Follows fetched store close
  run_call-Follows max (reading k) a c (same, refined) =
      (cached-closed true k c ∙ same, cached-IsRefined max a.stored true k c refined)
  run_call-Follows max (fetching k (err x)) a c h = h
  run_call-Follows max (fetching k (ok v)) a c h = insert-Follows max k v a c h
  run_call-Follows max (storing true k v) a c h = insert-Follows max k v a c h
  run_call-Follows max (storing false k v) a c h = h
  run_call-Follows max closing a c (same, refined) = (refl, refined)

  run_calls-Follows :
      (max : ℕ) (xs : List (CacheCall K V)) (a : StoredMap K V) (c : CacheState K V)
      → Follows max a c
      → Follows max (map_calls xs a) (run_calls max xs c)
  unfolding run_calls
  run_calls-Follows max [] a c h = h
  run_calls-Follows max (x ∷ xs) a c h =
      run_calls-Follows max xs (map_call x a) (run_call max x c) (run_call-Follows max x a c h)

  -- The cache and the map after any calls.
  pub run_calls-refined :
      (max : ℕ) (xs : List (CacheCall K V))
      → let c : CacheState K V = run_calls max xs new_cache in
        let a : StoredMap K V = map_calls xs empty_map in
        (c.closed ≡ a.closed)
        × (length c.entries ≤ max)
        × ((k : K) (x : Entry V) → find k c.entries ≡ some x → a.stored k ≡ some x.schema)
  unfolding Follows IsRefined Within
  run_calls-refined max xs =
      let (same, refined) =
        run_calls-Follows max xs empty_map new_cache (refl, (omega arith, λ j x h. cc)) in
      (same, refined.0, refined.1)
