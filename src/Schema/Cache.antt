-- ===== src/Schema/Cache.antt =====
-- pkg/fgo/schema_resolver.go: schemaCache, by its critical sections. The key is a path with a schema
-- id, and the flights that share a fetch are a coalescer.
pub mod Refines
pub mod Answers
pub mod Oldest
use fluss_go.Prelude.{
  ℕ, zero, suc, ◌+◌, ◌%◌, ◌^◌, Bool, true, false, ◌||◌, not, List, [], ◌∷◌, Option, none, some,
}
use fluss_go.Prelude.{length, ltb, if◌then◌else◌}
use fluss_go.Prelude.Assoc.{Key, find, put, remove}
use fluss_go.Prelude.Errors.{GoError, Result, ok, err, err_closed, err_invalid_config}

-- schemaCacheEntry; `used` and the clock are uint64.
pub record Entry (V : Type 0) : Type 0 where
  pub schema : V
  pub used : ℕ

pub record CacheState (K V : Type 0) : Type 0 where
  pub entries : List (K × Entry V)
  pub clock : ℕ
  pub closed : Bool

abbrev pub tick : ℕ → ℕ
tick clock = (clock + 1) % 2 ^ 64

module _ {K V : Type 0} ⦃e : Key K⦄ where
  -- newSchemaCache
  abbrev pub new_cache : CacheState K V
  new_cache = record { entries = []; clock = 0; closed = false }

  -- The loop of evictLocked that finds the entry used longest ago, from the one found so far.
  unfoldable pub oldest : List (K × Entry V) → K → ℕ → K
  oldest [] k used = k
  oldest ((l, x) ∷ m) k used =
      let newer = oldest m l x.used in
      let same = oldest m k used in if ltb x.used used then newer else same

  unfoldable pub evict_oldest : List (K × Entry V) → List (K × Entry V)
  unfolding oldest
  evict_oldest [] = []
  evict_oldest ((k, x) ∷ m) = remove (oldest m k x.used) ((k, x) ∷ m)

  -- evictLocked: each round takes an entry, so as many rounds as there are entries are enough.
  unfoldable pub evict_rounds : ℕ → ℕ → List (K × Entry V) → List (K × Entry V)
  unfolding evict_oldest
  evict_rounds zero max m = m
  evict_rounds (suc rounds) max m =
      let again = evict_rounds rounds max (evict_oldest m) in
      if ltb max (length m) then again else m

  unfoldable pub evict_locked : ℕ → List (K × Entry V) → List (K × Entry V)
  unfolding evict_rounds
  evict_locked max m = evict_rounds (length m) max m

  -- cached: a hit is used now. `has_fetch` is `c.fetch != nil`.
  unfoldable pub cached : Bool → K → CacheState K V → CacheState K V × Result (Option V)
  cached has_fetch k c = if c.closed then (c, err err_closed) else elim (find k c.entries) [
    | some x ↦ (
      record c {
        clock = tick c.clock;
        entries = put k (record { schema = x.schema; used = tick c.clock }) c.entries;
      },
      ok (some x.schema),
    )
    | none ↦ (c, if has_fetch then ok none else err err_invalid_config)
  ]

  -- The last part of fetchAndStore, and that of store.
  unfoldable pub insert : ℕ → K → V → CacheState K V → CacheState K V
  unfolding evict_locked
  insert max k v c = record c {
    clock = tick c.clock;
    entries = evict_locked max (put k (record { schema = v; used = tick c.clock }) c.entries);
  }

  -- fetchAndStore after the fetch: the schema that it gave, or the error of the fetch or of Validate.
  unfoldable pub fetched : ℕ → K → Result V → CacheState K V → CacheState K V × Result V
  unfolding insert
  fetched max k (err x) c = (c, err x)
  fetched max k (ok v) c =
      (if c.closed then c else insert max k v c, if c.closed then err err_closed else ok v)

  -- store, of a key and a schema that are valid.
  unfoldable pub store : ℕ → Bool → K → V → CacheState K V → CacheState K V
  unfolding insert
  store max valid k v c = if not valid || c.closed then c else insert max k v c

  unfoldable pub close : CacheState K V → CacheState K V
  close c = record c { closed = true }

-- The sections that change the cache, in any order: a lookup, the end of a fetch, a schema that is
-- stored, and Close.
module _ (K V : Type 0) where
  pub data CacheCall : Type 0 where
    reading : K → CacheCall
    fetching : K → Result V → CacheCall
    storing : Bool → K → V → CacheCall
    closing : CacheCall

module _ {K V : Type 0} ⦃e : Key K⦄ where
  unfoldable pub run_call : ℕ → CacheCall K V → CacheState K V → CacheState K V
  unfolding cached fetched store close
  run_call max (reading k) c = (cached true k c).0
  run_call max (fetching k r) c = (fetched max k r c).0
  run_call max (storing valid k v) c = store max valid k v c
  run_call max closing c = close c

  unfoldable pub run_calls : ℕ → List (CacheCall K V) → CacheState K V → CacheState K V
  unfolding run_call
  run_calls max [] c = c
  run_calls max (x ∷ xs) c = run_calls max xs (run_call max x c)
