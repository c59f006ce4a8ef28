-- ===== src/Scan/Bounds/Delivers.antt =====
-- A bounded scan against a description of its own: which rows, in which order, and how many.
use fluss_go.Prelude.{
  ℕ, suc, zero, ◌-◌, ◌^◌, ◌≤◌, List, ◌++◌, Option, none, some, length, take, map,
}
use fluss_go.Prelude.{◌==◌, ◌&&◌, not, is_some, ◌≡◌, refl, false, arith}
use mathlib.Core.Path.{subst, fun_ext}
use mathlib.Core.List.{Perm}
use fluss_go.Prelude.Sort.{sort_by, sort_by-perm, sort_by-IsSorted, IsSorted}
use fluss_go.Scan.Bounds.{
  ScanRecord, ArrowLogBatch, ScanSegment, row_segment, arrow_segment, segment_offset, apply_bounds,
  scan_bounds, ordered_scan_segments, stopping_of,
}
use fluss_go.Scan.Bounds.Exact.{
  all_entries, before, rows_of, pairs_of, batch_pairs, apply_bounds_exact,
}

-- The offset at which a bucket's scan stops: the bucket's own, or the largest int64 when there are no
-- stopping offsets or the bucket has none.
abbrev pub stop_of : Option (Option ℕ) → ℕ
stop_of none = 2 ^ 63 - 1
stop_of (some none) = 2 ^ 63 - 1
stop_of (some (some stop)) = stop

-- How many rows the limit leaves, where 0 is no limit.
abbrev pub rows_left : ℕ → ℕ → ℕ
rows_left zero delivered = 2 ^ 63 - 1
rows_left (suc limit) delivered = suc limit - delivered

limited : (limit : ℕ) → (suc limit == 0) ≡ false
limited limit = ground arith

bounds-are :
    (row_limit delivered : ℕ) (offsets : Option (Option ℕ))
    → scan_bounds row_limit delivered (stopping_of offsets)
      ≡ (rows_left row_limit delivered, stop_of offsets)
unfolding scan_bounds stopping_of
bounds-are zero delivered none = refl
bounds-are zero delivered (some none) = refl
bounds-are zero delivered (some (some stop)) = refl
bounds-are (suc limit) delivered none = rw (limited limit) refl
bounds-are (suc limit) delivered (some none) = rw (limited limit) refl
bounds-are (suc limit) delivered (some (some stop)) = rw (limited limit) refl

module _ {A : Type 0} where
  -- The offset of a segment's first row.
  abbrev pub starts_at : ScanSegment A → ℕ
  starts_at (row_segment r) = r.offset
  starts_at (arrow_segment b) = b.base_offset

  segment_offset-starts_at : (x : ScanSegment A) → segment_offset x ≡ starts_at x
  unfolding segment_offset
  segment_offset-starts_at (row_segment r) = refl
  segment_offset-starts_at (arrow_segment b) = refl

  -- The rows and batches of a fetch, each once, by the offsets of their first rows.
  abbrev pub IsOrdered :
      List (ScanRecord A) → List (ArrowLogBatch A) → List (ScanSegment A) → Type 0
  IsOrdered rows arrows segments =
      Perm segments (map row_segment rows ++ map arrow_segment arrows) × IsSorted starts_at segments

  ordered_scan_segments-IsOrdered :
      (rows : List (ScanRecord A)) (arrows : List (ArrowLogBatch A))
      → IsOrdered rows arrows (ordered_scan_segments rows arrows)
  unfolding ordered_scan_segments
  ordered_scan_segments-IsOrdered rows arrows =
      let all = map row_segment rows ++ map arrow_segment arrows in
      (
        sort_by-perm segment_offset all,
        subst (λ f. IsSorted f (sort_by segment_offset all)) (fun_ext segment_offset-starts_at)
            (sort_by-IsSorted segment_offset all),
      )

  -- A scan with a row limit or stopping offsets delivers exactly the fetched rows that stand before the
  -- bucket's stopping offset, or before the largest int64 when it has none, in the order of the offsets
  -- of the rows and batches that were fetched, as many as the row limit leaves after the rows delivered
  -- before; it counts them, and its next offset is not above the stopping offset.
  pub apply_bounds_delivers :
      (row_limit delivered : ℕ) (offsets : Option (Option ℕ)) (rows : List (ScanRecord A))
      (arrows : List (ArrowLogBatch A)) (decoded_next : ℕ)
      → (row_limit == 0 && not (is_some offsets)) ≡ false
      → let r = apply_bounds row_limit delivered offsets rows arrows decoded_next in
        (segments : List (ScanSegment A)) × IsOrdered rows arrows segments
        × (let out =
              take
                (rows_left row_limit delivered)
                (before (stop_of offsets) (all_entries segments)) in
            (r.rows ≡ rows_of out)
            × (batch_pairs r.arrows ≡ pairs_of out)
            × (r.delivered ≡ length out)
            × (r.next ≤ stop_of offsets))
  apply_bounds_delivers row_limit delivered offsets rows arrows decoded_next bounded = (
    ordered_scan_segments rows arrows,
    ordered_scan_segments-IsOrdered rows arrows,
    rw (bounds-are row_limit delivered offsets) at
        (apply_bounds_exact row_limit delivered offsets rows arrows decoded_next bounded),
  )
