-- ===== src/Examples/Names.antt =====
-- Bounded scans and partition names on concrete inputs.
use fluss_go.Prelude.{ℕ, ◌^◌, ◌-◌, ◌≤◌, ◌≡◌, refl, List, [], ◌∷◌, take, length, none}
use fluss_go.Prelude.Errors.{ok}
use fluss_go.Prelude.Sort.{sort_by, insert_by}
use fluss_go.Scan.Bounds.{ScanRecord, ArrowLogBatch, ScanSegment, apply_bounds, stopping_of}
use fluss_go.Scan.Bounds.Exact.{rows_of, pairs_of, batch_pairs, before, all_entries}
use fluss_go.Scan.Bounds.Delivers.{IsOrdered, apply_bounds_delivers}
use fluss_go.Partition.{Text, PartitionSpec, partition_name, partition_spec_from_name}
use fluss_go.Partition.RoundTrip.{partition_name-partition_spec_from_name}

abbrev two_rows : List (ScanRecord ℕ)
two_rows = record { offset = 13; row = 700 } ∷ record { offset = 9; row = 600 } ∷ []

abbrev one_batch : List (ArrowLogBatch ℕ)
one_batch = record { base_offset = 10; rows = 1 ∷ 2 ∷ 3 ∷ []; changes = 0 ∷ 0 ∷ 0 ∷ [] } ∷ []

-- A limit of 5 rows with 2 delivered, and no stopping offset.
apply_bounds_delivers_example :
    let r = apply_bounds 5 2 none two_rows one_batch 14 in
    (segments : List (ScanSegment ℕ)) × IsOrdered two_rows one_batch segments
    × (let out = take 3 (before (2 ^ 63 - 1) (all_entries segments)) in
        (r.rows ≡ rows_of out)
        × (batch_pairs r.arrows ≡ pairs_of out)
        × (r.delivered ≡ length out)
        × (r.next ≤ 2 ^ 63 - 1))
apply_bounds_delivers_example = apply_bounds_delivers 5 2 none two_rows one_batch 14 refl

-- Of the row at 9 and the rows at 10 to 12, the limit leaves three; the next offset is 12.
limited : (apply_bounds 5 2 none two_rows one_batch 14).next ≡ 12
unfolding apply_bounds sort_by insert_by stopping_of
limited = refl

-- The keys "d" and "h", and the name "20$7".
abbrev keys : List Text
keys = (100 ∷ []) ∷ (104 ∷ []) ∷ []

abbrev a_name : Text
a_name = 50 ∷ 48 ∷ 36 ∷ 55 ∷ []

abbrev a_spec : PartitionSpec
a_spec = (100 ∷ [], 50 ∷ 48 ∷ []) ∷ (104 ∷ [], 55 ∷ []) ∷ []

spec_read : partition_spec_from_name keys a_name ≡ ok a_spec
unfolding partition_spec_from_name
spec_read = refl

partition_name-partition_spec_from_name_example : partition_name keys a_spec ≡ ok a_name
partition_name-partition_spec_from_name_example =
    partition_name-partition_spec_from_name keys a_name a_spec spec_read
