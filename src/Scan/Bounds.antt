-- ===== src/Scan/Bounds.antt =====
-- pkg/fgo/log_scanner_bounds.go: the row limit and the stopping offset of a bounded scan. Offsets and
-- limits are not negative. An Arrow batch is the list of its rows and the list of their changes; its
-- release has no effect on what is delivered and is left out.
pub mod Exact
pub mod Delivers
use fluss_go.Prelude.{ℕ, ◌+◌, ◌-◌, ◌^◌, List, [], ◌∷◌, ◌++◌, Option, none, some, map, length, take}
use fluss_go.Prelude.{ltb, leb, ◌==◌, ◌||◌, ◌&&◌, is_some, not, if◌then◌else◌}
use fluss_go.Prelude.Sort.{sort_by}

module _ (A : Type 0) where
  pub record ScanRecord : Type 0 where
    pub offset : ℕ
    pub row : A

  pub record ArrowLogBatch : Type 0 where
    pub base_offset : ℕ
    pub rows : List A
    pub changes : List ℕ

  -- scanSegment, with the row or the batch in place of its index.
  pub data ScanSegment : Type 0 where
    row_segment : ScanRecord → ScanSegment
    arrow_segment : ArrowLogBatch → ScanSegment

  pub record BoundedScan : Type 0 where
    pub stop : ℕ
    pub remaining : ℕ
    pub delivered : ℕ
    pub next : ℕ
    pub rows : List ScanRecord
    pub arrows : List ArrowLogBatch

module _ {A : Type 0} where
  unfoldable pub segment_offset : ScanSegment A → ℕ
  segment_offset (row_segment r) = r.offset
  segment_offset (arrow_segment b) = b.base_offset

  unfoldable pub ordered_scan_segments :
      List (ScanRecord A) → List (ArrowLogBatch A) → List (ScanSegment A)
  unfolding segment_offset
  ordered_scan_segments rows arrows =
      sort_by segment_offset (map row_segment rows ++ map arrow_segment arrows)

  unfoldable pub append_row : ScanRecord A → BoundedScan A → BoundedScan A
  append_row r s = if s.remaining == 0 || leb s.stop r.offset then s else record s {
    rows = s.rows ++ (r ∷ []);
    remaining = s.remaining - 1;
    delivered = s.delivered + 1;
    next = r.offset + 1;
  }

  -- sliceArrowLogBatch(batch, 0, allowed)
  unfoldable pub slice_arrow_log_batch : ArrowLogBatch A → ℕ → ArrowLogBatch A
  slice_arrow_log_batch b allowed = record b {
    rows = take allowed b.rows;
    changes = take allowed b.changes;
  }

  -- The rows of the batch that the bounds allow: `stop - offset` is 0 where it is negative.
  unfoldable pub allowed_rows : ArrowLogBatch A → BoundedScan A → ℕ
  allowed_rows b s =
      let count = length b.rows in
      let before = if ltb (s.stop - b.base_offset) count then s.stop - b.base_offset else count in
      if ltb s.remaining before then s.remaining else before

  unfoldable pub append_arrow : ArrowLogBatch A → BoundedScan A → BoundedScan A
  unfolding allowed_rows slice_arrow_log_batch
  append_arrow b s =
      let allowed = allowed_rows b s in
      let kept = if allowed == length b.rows then b else slice_arrow_log_batch b allowed in
      if allowed == 0 then s else record s {
        arrows = s.arrows ++ (kept ∷ []);
        remaining = s.remaining - allowed;
        delivered = s.delivered + allowed;
        next = b.base_offset + allowed;
      }

  unfoldable pub append_segment : ScanSegment A → BoundedScan A → BoundedScan A
  unfolding append_row append_arrow
  append_segment (row_segment r) s = append_row r s
  append_segment (arrow_segment b) s = append_arrow b s

  unfoldable pub append_segments : List (ScanSegment A) → BoundedScan A → BoundedScan A
  unfolding append_segment
  append_segments [] s = s
  append_segments (x ∷ xs) s = append_segments xs (append_segment x s)

  unfoldable pub scan_result_rows : List (ScanRecord A) → List (ArrowLogBatch A) → ℕ
  scan_result_rows rows [] = length rows
  scan_result_rows rows (b ∷ bs) = length b.rows + scan_result_rows rows bs

-- math.MaxInt64
abbrev pub max_int64 : ℕ
max_int64 = 2 ^ 63 - 1

-- scanBounds: a RowLimit of 0 is none; `delivered` stays at the limit or below.
unfoldable pub scan_bounds : ℕ → ℕ → Option ℕ → ℕ × ℕ
scan_bounds row_limit delivered stopping = (
  if row_limit == 0 then max_int64 else row_limit - delivered,
  elim stopping [ none ↦ max_int64 | some stop ↦ stop ],
)

unfoldable pub stopping_of : Option (Option ℕ) → Option ℕ
stopping_of none = none
stopping_of (some bucket) = bucket

module _ {A : Type 0} where
  unfoldable pub bounded_start : ℕ × ℕ → ℕ → BoundedScan A
  bounded_start (remaining, stop) decoded_next = record {
    stop = stop;
    remaining = remaining;
    delivered = 0;
    next = decoded_next;
    rows = [];
    arrows = [];
  }

  -- `if bounded.next > stop { bounded.next = stop }`
  unfoldable pub cap_next : BoundedScan A → BoundedScan A
  cap_next s = if ltb s.stop s.next then record s { next = s.stop } else s

  -- applyBounds. `offsets` is StoppingOffsets at the bucket: none for no map, and some none for a map
  -- without the bucket.
  unfoldable pub apply_bounds :
      ℕ → ℕ → Option (Option ℕ) → List (ScanRecord A) → List (ArrowLogBatch A) → ℕ → BoundedScan A
  unfolding append_segments ordered_scan_segments scan_bounds scan_result_rows bounded_start
      cap_next
  apply_bounds row_limit delivered offsets rows arrows decoded_next =
      let bounds = scan_bounds row_limit delivered (stopping_of offsets) in
      if row_limit == 0 && not (is_some offsets)
      then record {
        stop = max_int64;
        remaining = max_int64;
        delivered = scan_result_rows rows arrows;
        next = decoded_next;
        rows = rows;
        arrows = arrows;
      }
      else cap_next
          (append_segments (ordered_scan_segments rows arrows) (bounded_start bounds decoded_next))
