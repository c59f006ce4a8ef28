-- ===== src/Scan/Scanner/Limit.antt =====
-- The rows of a poll are counted, and they stay within the row limit.
use fluss_go.Prelude.{ℕ, suc, ◌+◌, ◌-◌, ◌≤◌, ◌<◌, Bool, false, ◌&&◌, ◌||◌, not, is_some}
use fluss_go.Prelude.{List, [], ◌∷◌, ◌++◌, Option, length, length-append, length-take}
use fluss_go.Prelude.{
  ◌≡◌, refl, arith, if_cases, Bool-cases, inl, inr, ltb, leb, ◌==◌, if◌then◌else◌,
}
use fluss_go.Prelude.Assoc.{nat_key}
use fluss_go.Prelude.Errors.{Result, ok}
use fluss_go.Scan.Bounds.{
  ScanRecord, ArrowLogBatch, ScanSegment, BoundedScan, row_segment, arrow_segment, append_row,
  append_arrow, append_segment, append_segments, allowed_rows, slice_arrow_log_batch,
  scan_result_rows, apply_bounds, bounded_start, cap_next, scan_bounds, ordered_scan_segments,
  stopping_of,
}
use mathlib.Core.Path.{subst}
use fluss_go.Scan.Scanner.{move_offset}
use fluss_go.Scan.Scanner.{
  ScannerConfig, ScannerState, ScanOffset, Call, subscribing, unsubscribing, waking, closing,
  update_done, subscribe, unsubscribe, wakeup, close, advance_offset, run_call,
}
use fluss_go.Scan.Scanner.Poll.{
  Exchange, ScanResult, Decoded, deliver, poll, tag, at_bucket_bounds, add_bucket_error,
}
use fluss_go.Scan.Scanner.Kept.{IsKept, Outcome, poll-kept}

module _ {A : Type 0} where
  scan_result_rows-append_row :
      (rows : List (ScanRecord A)) (arrows : List (ArrowLogBatch A)) (r : ScanRecord A)
      → scan_result_rows (rows ++ (r ∷ [])) arrows ≡ suc (scan_result_rows rows arrows)
  unfolding scan_result_rows
  scan_result_rows-append_row rows [] r = omega (arith, length-append rows (r ∷ []))
  scan_result_rows-append_row rows (b ∷ bs) r = omega (arith, scan_result_rows-append_row rows bs r)

  scan_result_rows-append_arrow :
      (rows : List (ScanRecord A)) (arrows : List (ArrowLogBatch A)) (b : ArrowLogBatch A)
      → scan_result_rows rows (arrows ++ (b ∷ [])) ≡ scan_result_rows rows arrows + length b.rows
  unfolding scan_result_rows
  scan_result_rows-append_arrow rows [] b = omega arith
  scan_result_rows-append_arrow rows (x ∷ xs) b =
      omega (arith, scan_result_rows-append_arrow rows xs b)

  -- The rows taken so far are counted, and with those that remain they make up n.
  Counted : ℕ → BoundedScan A → Type 0
  unfolding scan_result_rows
  Counted n s = (scan_result_rows s.rows s.arrows ≡ s.delivered) × (s.delivered + s.remaining ≡ n)

  append_row-Counted :
      (n : ℕ) (r : ScanRecord A) (s : BoundedScan A) → Counted n s → Counted n (append_row r s)
  unfolding append_row Counted
  append_row-Counted n r s (rows, sum) =
      let skip : Bool = s.remaining == 0 || leb s.stop r.offset in
      elim (Bool-cases skip) [
        | inl stopped ↦ rw stopped (rows, sum)
        | inr going ↦
            rw going (omega (arith, scan_result_rows-append_row s.rows s.arrows r), ground arith)
      ]

  allowed_rows_le :
      (b : ArrowLogBatch A) (s : BoundedScan A)
      → (allowed_rows b s ≤ length b.rows) × (allowed_rows b s ≤ s.remaining)
  unfolding allowed_rows
  allowed_rows_le b s = ground arith

  kept_rows :
      (b : ArrowLogBatch A) (n : ℕ)
      → n ≤ length b.rows
      → length (if n == length b.rows then b else slice_arrow_log_batch b n).rows ≡ n
  unfolding slice_arrow_log_batch
  kept_rows b n h = elim (Bool-cases (n == length b.rows)) [
    | inl e ↦ rw e (ground arith)
    | inr e ↦ rw e (omega (arith, length-take n b.rows))
  ]

  append_arrow-Counted :
      (n : ℕ) (b : ArrowLogBatch A) (s : BoundedScan A) → Counted n s → Counted n (append_arrow b s)
  unfolding append_arrow Counted
  append_arrow-Counted n b s (rows, sum) =
      let allowed = allowed_rows b s in
      let (in_batch, in_limit) = allowed_rows_le b s in
      elim (Bool-cases (allowed == 0)) [
        | inl nothing ↦ rw nothing (rows, sum)
        | inr something ↦ rw something (
          omega (
            arith,
            scan_result_rows-append_arrow s.rows s.arrows
                (if allowed == length b.rows then b else slice_arrow_log_batch b allowed),
            kept_rows b allowed in_batch,
          ),
          omega arith,
        )
      ]

  append_segments-Counted :
      (n : ℕ) (xs : List (ScanSegment A)) (s : BoundedScan A)
      → Counted n s
      → Counted n (append_segments xs s)
  unfolding append_segments append_segment
  append_segments-Counted n [] s h = h
  append_segments-Counted n (row_segment r ∷ xs) s h =
      append_segments-Counted n xs (append_row r s) (append_row-Counted n r s h)
  append_segments-Counted n (arrow_segment b ∷ xs) s h =
      append_segments-Counted n xs (append_arrow b s) (append_arrow-Counted n b s h)

  cap_next-Counted : (n : ℕ) (s : BoundedScan A) → Counted n s → Counted n (cap_next s)
  unfolding cap_next Counted
  cap_next-Counted n s h = if_cases (Counted n) (ltb s.stop s.next) (λ _. h) (λ _. h)

  -- Under a row limit, the bounds count what they let through, and it is at most what remains.
  pub apply_bounds-counted :
      (row_limit delivered : ℕ) (offsets : Option (Option ℕ)) (rows : List (ScanRecord A))
      (arrows : List (ArrowLogBatch A)) (next : ℕ)
      → 0 < row_limit
      → let r = apply_bounds row_limit delivered offsets rows arrows next in
        (scan_result_rows r.rows r.arrows ≡ r.delivered) × (r.delivered ≤ row_limit - delivered)
  unfolding apply_bounds scan_bounds bounded_start Counted scan_result_rows
  apply_bounds-counted row_limit delivered offsets rows arrows next limited =
      let unlimited : (row_limit == 0) ≡ false = ground arith in
      let start : BoundedScan A =
        bounded_start (scan_bounds row_limit delivered (stopping_of offsets)) next in
      let segments = ordered_scan_segments rows arrows in
      let begun : Counted (row_limit - delivered) start = rw unlimited (refl, omega arith) in
      let (counted, sum) =
        cap_next-Counted (row_limit - delivered) (append_segments segments start)
          (append_segments-Counted (row_limit - delivered) segments start begun) in
      let bounded : (row_limit == 0 && not (is_some offsets)) ≡ false = rw unlimited refl in
      rw bounded (counted, omega arith)

length-tag : {B : Type 0} (b : ℕ) (xs : List B) → length (tag b xs) ≡ length xs
length-tag b [] = refl
length-tag b (x ∷ xs) = omega (arith, length-tag b xs)

module _ {A : Type 0} where
  batch_rows : List (ℕ × ArrowLogBatch A) → ℕ
  batch_rows [] = 0
  batch_rows ((b, batch) ∷ bs) = length batch.rows + batch_rows bs

  -- The rows of a result, those of its Arrow batches included.
  pub result_rows : ScanResult A → ℕ
  unfolding batch_rows
  result_rows r = length r.records + batch_rows r.arrow_batches

  batch_rows-append :
      (xs ys : List (ℕ × ArrowLogBatch A)) → batch_rows (xs ++ ys) ≡ batch_rows xs + batch_rows ys
  unfolding batch_rows
  batch_rows-append [] ys = omega arith
  batch_rows-append ((b, batch) ∷ xs) ys = omega (arith, batch_rows-append xs ys)

  batch_rows-tag :
      (b : ℕ) (rows : List (ScanRecord A)) (arrows : List (ArrowLogBatch A))
      → length rows + batch_rows (tag b arrows) ≡ scan_result_rows rows arrows
  unfolding batch_rows scan_result_rows
  batch_rows-tag b rows [] = omega arith
  batch_rows-tag b rows (x ∷ xs) = omega (arith, batch_rows-tag b rows xs)

  deliver-rows :
      (c : ScannerConfig) (b offset next watermark : ℕ) (d : Decoded A) (s : ScannerState)
      (r : ScanResult A)
      → 0 < c.row_limit
      → let out = deliver c b offset next watermark d s r in
        let new = out.0.delivered - s.delivered in
        (s.delivered ≤ out.0.delivered)
        × (result_rows out.1 ≡ result_rows r + new)
        × (new ≤ c.row_limit - s.delivered)
  unfolding deliver advance_offset update_done move_offset result_rows
  deliver-rows c b offset next watermark d s r limited =
      let p = apply_bounds c.row_limit s.delivered (at_bucket_bounds c b) d.rows d.arrows next in
      let (counted, within) =
        apply_bounds-counted c.row_limit s.delivered (at_bucket_bounds c b) d.rows d.arrows next
          limited in
      (
        omega arith,
        omega (
          arith,
          length-append r.records (tag b p.rows),
          length-tag b p.rows,
          batch_rows-append r.arrow_batches (tag b p.arrows),
          batch_rows-tag b p.rows p.arrows,
        ),
        omega arith,
      )

subscribe-delivered :
    (c : ScannerConfig) (b : ℕ) (start : ScanOffset) (listed : Result ℕ) (s : ScannerState)
    → (subscribe c b start listed s).0.delivered ≡ s.delivered
unfolding subscribe update_done
subscribe-delivered c b start listed s = ground arith

run_call-delivered :
    (c : ScannerConfig) (x : Call) (s : ScannerState) → (run_call c x s).delivered ≡ s.delivered
unfolding run_call unsubscribe update_done wakeup close
run_call-delivered c (subscribing b start listed) s = subscribe-delivered c b start listed s
run_call-delivered c (unsubscribing b) s = refl
run_call-delivered c waking s = ground arith
run_call-delivered c closing s = refl

module _ {A : Type 0} (c : ScannerConfig) (base : ℕ) (limited : 0 < c.row_limit) where
  -- The rows of the result so far are those delivered since the start, and the limit holds.
  Within : ScannerState → ScanResult A → Type 0
  unfolding result_rows batch_rows
  Within s r = (s.delivered ≡ base + result_rows r) × (s.delivered ≤ c.row_limit)

  Within-IsKept : IsKept c Within
  unfolding Within result_rows add_bucket_error
  Within-IsKept = record {
    by_call =
        λ x s r (n, m). let e = run_call-delivered c x s in (omega (arith, e), omega (arith, e));
    by_wake = λ s r h. h;
    by_begin = λ s r h. h;
    by_end = λ s r h. h;
    by_done = λ d s r h. h;
    by_error = λ b e s r h. h;
    by_deliver = λ b offset next watermark d s r (n, m).
        let (up, rows, new) = deliver-rows c b offset next watermark d s r limited in
        (omega arith, omega arith);
  }

  outcome-Within :
      (xs : ℕ → Exchange A) (s : ScannerState)
      → s.delivered ≡ base
      → base ≤ c.row_limit
      → Outcome Within (poll c xs s)
  unfolding Within result_rows batch_rows
  outcome-Within xs s start room = poll-kept c Within Within-IsKept xs s (omega arith, omega arith)

module _ {A : Type 0} where
  -- A poll that returns a result in a scanner with a row limit, whatever the fetches give and other
  -- goroutines call, adds to the rows delivered so far exactly the rows of its result, those of
  -- Arrow batches included, and stays within the row limit, when the scanner was within it before.
  pub poll_within_limit :
      (c : ScannerConfig) (xs : ℕ → Exchange A) (s t : ScannerState) (r : ScanResult A)
      → 0 < c.row_limit
      → s.delivered ≤ c.row_limit
      → poll c xs s ≡ (t, ok r)
      → (t.delivered ≡ s.delivered + result_rows r) × (t.delivered ≤ c.row_limit)
  unfolding Within
  poll_within_limit c xs s t r limited room returned =
      subst (Outcome (Within c s.delivered limited)) returned
        (outcome-Within c s.delivered limited xs s refl room)
