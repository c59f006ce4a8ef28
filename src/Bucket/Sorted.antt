-- ===== src/Bucket/Sorted.antt =====
-- sortedBuckets of pkg/fgo/bucket.go. The map's keys come in any order, as signed numbers.
use fluss_go.Prelude.{ℕ, ◌≡◌, refl, List, [], ◌∷◌, map}
use fluss_go.Prelude.Int.{ℤ, pos, negsuc}
use fluss_go.Prelude.Sort.{sort_by, sort_by-perm, sort_by-IsSorted, IsSorted}
use fluss_go.Prelude.Errors.{Result, ok, err, err_metadata, ◌>>=◌}
use mathlib.Core.List.{Perm}

-- The loop over the map: the ids, or an error on a negative one.
collect_ids : List ℤ → Result (List ℕ)
collect_ids [] = ok []
collect_ids (pos id ∷ rest) = collect_ids rest >>= λ ids. ok (id ∷ ids)
collect_ids (negsuc _ ∷ rest) = err err_metadata

unfoldable pub sorted_buckets : List ℤ → Result (List ℕ)
unfolding collect_ids
sorted_buckets [] = err err_metadata
sorted_buckets (k ∷ ks) = collect_ids (k ∷ ks) >>= λ ids. ok (sort_by (λ id. id) ids)

collect_ids_pos : (ids : List ℕ) → collect_ids (map pos ids) ≡ ok ids
unfolding collect_ids
collect_ids_pos [] = refl
collect_ids_pos (id ∷ ids) = rw (collect_ids_pos ids)

-- The ids of a table with buckets, none of them negative, come back sorted and are the same ids.
pub sorted_buckets_lem :
    (id : ℕ) (ids : List ℕ)
    → (out : List ℕ) × (sorted_buckets (map pos (id ∷ ids)) ≡ ok out)
      × IsSorted (λ b. b) out
      × Perm out (id ∷ ids)
unfolding sorted_buckets
sorted_buckets_lem id ids = (
  sort_by (λ b. b) (id ∷ ids),
  rw (collect_ids_pos ids),
  sort_by-IsSorted (λ b. b) (id ∷ ids),
  sort_by-perm (λ b. b) (id ∷ ids),
)
