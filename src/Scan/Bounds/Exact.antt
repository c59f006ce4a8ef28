-- ===== src/Scan/Bounds/Exact.antt =====
-- A bounded scan against the rows that it should deliver: those before the stopping offset, in the
-- order of the segments, as many as remain.
use fluss_go.Prelude.{ℕ, zero, suc, ◌+◌, ◌-◌, ◌≤◌, List, [], ◌∷◌, ◌++◌, Option, length, take}
use fluss_go.Prelude.{
  ltb, leb, ◌==◌, ◌||◌, ◌&&◌, not, is_some, if◌then◌else◌, ◌≡◌, refl, ap, ◌∙◌, sym, arith,
  Bool-cases, inl, inr, true, false, length-append, length-take, take-length_append,
}
use Prim.Native.Nat.{min}
use mathlib.Core.List.{append_assoc, append-nil}
use fluss_go.Scan.Bounds.{
  ScanRecord, ArrowLogBatch, ScanSegment, BoundedScan, row_segment, arrow_segment,
}
use fluss_go.Scan.Bounds.{
  append_row, append_arrow, allowed_rows, slice_arrow_log_batch, append_segment, append_segments,
  cap_next, bounded_start,
}
use fluss_go.Scan.Bounds.{apply_bounds, scan_bounds, ordered_scan_segments, stopping_of}

module _ {A : Type 0} where
  take-nil : (n : ℕ) → take {A = A} n [] ≡ []
  take-nil zero = refl
  take-nil (suc n) = refl

  take-append : (n : ℕ) (xs ys : List A) → take n (xs ++ ys) ≡ take n xs ++ take (n - length xs) ys
  take-append zero [] ys = refl
  take-append zero (x ∷ xs) ys = let e : zero - suc (length xs) ≡ 0 = omega arith in rw e refl
  take-append (suc n) [] ys = let e : suc n - 0 ≡ suc n = omega arith in rw e refl
  take-append (suc n) (x ∷ xs) ys =
      let e : suc n - suc (length xs) ≡ n - length xs = omega arith in rw (e, take-append n xs ys)

-- One row of a scan's result, with its offset.
pub data Entry (A : Type 0) : Type 0 where
  of_row : ScanRecord A → Entry A
  of_arrow : ℕ → A → Entry A

module _ {A : Type 0} where
  abbrev enumerate : ℕ → List A → List (ℕ × A)
  enumerate offset [] = []
  enumerate offset (x ∷ xs) = (offset, x) ∷ enumerate (offset + 1) xs

  abbrev of_pairs : List (ℕ × A) → List (Entry A)
  of_pairs [] = []
  of_pairs ((offset, x) ∷ ps) = of_arrow offset x ∷ of_pairs ps

  abbrev entries : ScanSegment A → List (Entry A)
  entries (row_segment r) = of_row r ∷ []
  entries (arrow_segment b) = of_pairs (enumerate b.base_offset b.rows)

  -- The rows of the segments, in their order.
  abbrev pub all_entries : List (ScanSegment A) → List (Entry A)
  all_entries [] = []
  all_entries (x ∷ xs) = entries x ++ all_entries xs

  abbrev entry_offset : Entry A → ℕ
  entry_offset (of_row r) = r.offset
  entry_offset (of_arrow offset x) = offset

  -- The entries below an offset.
  abbrev pub before : ℕ → List (Entry A) → List (Entry A)
  before stop [] = []
  before stop (e ∷ es) = if ltb (entry_offset e) stop then e ∷ before stop es else before stop es

  abbrev pub rows_of : List (Entry A) → List (ScanRecord A)
  rows_of [] = []
  rows_of (of_row r ∷ es) = r ∷ rows_of es
  rows_of (of_arrow offset x ∷ es) = rows_of es

  abbrev pub pairs_of : List (Entry A) → List (ℕ × A)
  pairs_of [] = []
  pairs_of (of_row r ∷ es) = pairs_of es
  pairs_of (of_arrow offset x ∷ es) = (offset, x) ∷ pairs_of es

  -- The rows of Arrow batches with their offsets.
  abbrev pub batch_pairs : List (ArrowLogBatch A) → List (ℕ × A)
  batch_pairs [] = []
  batch_pairs (b ∷ bs) = enumerate b.base_offset b.rows ++ batch_pairs bs

  before-append :
      (stop : ℕ) (xs ys : List (Entry A))
      → before stop (xs ++ ys) ≡ before stop xs ++ before stop ys
  before-append stop [] ys = refl
  before-append stop (x ∷ xs) ys = elim (Bool-cases (ltb (entry_offset x) stop)) [
    | inl e ↦ rw e (rw (before-append stop xs ys))
    | inr e ↦ rw e (before-append stop xs ys)
  ]

  rows_of-append : (xs ys : List (Entry A)) → rows_of (xs ++ ys) ≡ rows_of xs ++ rows_of ys
  rows_of-append [] ys = refl
  rows_of-append (of_row r ∷ xs) ys = rw (rows_of-append xs ys)
  rows_of-append (of_arrow o x ∷ xs) ys = rows_of-append xs ys

  pairs_of-append : (xs ys : List (Entry A)) → pairs_of (xs ++ ys) ≡ pairs_of xs ++ pairs_of ys
  pairs_of-append [] ys = refl
  pairs_of-append (of_row r ∷ xs) ys = pairs_of-append xs ys
  pairs_of-append (of_arrow o x ∷ xs) ys = rw (pairs_of-append xs ys)

  batch_pairs-append :
      (xs ys : List (ArrowLogBatch A)) → batch_pairs (xs ++ ys) ≡ batch_pairs xs ++ batch_pairs ys
  batch_pairs-append [] ys = refl
  batch_pairs-append (b ∷ xs) ys =
      rw (batch_pairs-append xs ys)
        (sym (append_assoc (enumerate b.base_offset b.rows) (batch_pairs xs) (batch_pairs ys)))

  before-enumerate :
      (stop offset : ℕ) (xs : List A)
      → before stop (of_pairs (enumerate offset xs))
        ≡ of_pairs (enumerate offset (take (stop - offset) xs))
  before-enumerate stop offset [] = rw (take-nil (stop - offset)) refl
  before-enumerate stop offset (x ∷ xs) = elim (Bool-cases (ltb offset stop)) [
    | inl e ↦
        let more : stop - offset ≡ suc (stop - (offset + 1)) = ground arith in
        rw (e, more) (rw (before-enumerate stop (offset + 1) xs))
    | inr e ↦
        let none_left : stop - offset ≡ 0 = ground arith in
        let rest : stop - (offset + 1) ≡ 0 = ground arith in
        rw (e, none_left) (rw rest at (before-enumerate stop (offset + 1) xs))
  ]

  take-of_pairs :
      (n offset : ℕ) (xs : List A)
      → take n (of_pairs (enumerate offset xs)) ≡ of_pairs (enumerate offset (take n xs))
  take-of_pairs zero offset xs = refl
  take-of_pairs (suc n) offset [] = refl
  take-of_pairs (suc n) offset (x ∷ xs) = rw (take-of_pairs n (offset + 1) xs)

  rows_of_pairs : (ps : List (ℕ × A)) → rows_of (of_pairs ps) ≡ []
  rows_of_pairs [] = refl
  rows_of_pairs (p ∷ ps) = rows_of_pairs ps

  pairs_of_pairs : (ps : List (ℕ × A)) → pairs_of (of_pairs ps) ≡ ps
  pairs_of_pairs [] = refl
  pairs_of_pairs (p ∷ ps) = rw (pairs_of_pairs ps)

  length-of_pairs : (offset : ℕ) (xs : List A) → length (of_pairs (enumerate offset xs)) ≡ length xs
  length-of_pairs offset [] = refl
  length-of_pairs offset (x ∷ xs) = rw (length-of_pairs (offset + 1) xs)

  -- `t` is what becomes of `s` when these entries are offered to it.
  abbrev pub Accepts : BoundedScan A → List (Entry A) → BoundedScan A → Type 0
  Accepts s es t =
      let out = take s.remaining (before s.stop es) in
      (t.rows ≡ s.rows ++ rows_of out)
      × (batch_pairs t.arrows ≡ batch_pairs s.arrows ++ pairs_of out)
      × (t.delivered ≡ s.delivered + length out)
      × (t.remaining + length out ≡ s.remaining)
      × (t.stop ≡ s.stop)

  -- What is taken of two lists of entries, one after the other.
  out-append :
      (s t : BoundedScan A) (es fs : List (Entry A))
      → t.remaining + length (take s.remaining (before s.stop es)) ≡ s.remaining
      → t.stop ≡ s.stop
      → take s.remaining (before s.stop (es ++ fs))
        ≡ take s.remaining (before s.stop es) ++ take t.remaining (before t.stop fs)
  out-append s t es fs m p =
      let left : s.remaining - length (before s.stop es) ≡ t.remaining =
        omega (arith, length-take s.remaining (before s.stop es)) in
      rw (before-append s.stop es fs, p)
        (take-append s.remaining (before s.stop es) (before s.stop fs) ∙ rw left)

  Accepts-append :
      (s t u : BoundedScan A) (es fs : List (Entry A))
      → Accepts s es t
      → Accepts t fs u
      → Accepts s (es ++ fs) u
  Accepts-append s t u es fs (r, a, d, m, p) (r', a', d', m', p') =
      let first = take s.remaining (before s.stop es) in
      let second = take t.remaining (before t.stop fs) in
      rw
        (
          out-append s t es fs m p,
          rows_of-append first second,
          pairs_of-append first second,
          length-append first second,
        )
        (
          rw r at r' ∙ append_assoc s.rows (rows_of first) (rows_of second),
          rw a at a' ∙ append_assoc (batch_pairs s.arrows) (pairs_of first) (pairs_of second),
          omega arith,
          omega arith,
          p' ∙ p,
        )

  append_none :
      (s : BoundedScan A) (es : List (Entry A))
      → take s.remaining (before s.stop es) ≡ []
      → Accepts s es s
  append_none s es e = rw e (
    sym (append-nil s.rows),
    sym (append-nil (batch_pairs s.arrows)),
    omega arith,
    omega arith,
    refl,
  )

  none_of_row :
      (r : ScanRecord A) (s : BoundedScan A)
      → (s.remaining == 0 || leb s.stop r.offset) ≡ true
      → take s.remaining (before s.stop (of_row r ∷ [])) ≡ []
  none_of_row r s e = elim (Bool-cases (ltb r.offset s.stop)) [
    | inl lt ↦ let m : s.remaining ≡ 0 = ground arith in rw (lt, m) refl
    | inr ge ↦ rw ge (take-nil s.remaining)
  ]

  one_of_row :
      (r : ScanRecord A) (s : BoundedScan A)
      → (s.remaining == 0 || leb s.stop r.offset) ≡ false
      → take s.remaining (before s.stop (of_row r ∷ [])) ≡ of_row r ∷ []
  one_of_row r s e =
      let lt : ltb r.offset s.stop ≡ true = ground arith in
      let m : s.remaining ≡ suc (s.remaining - 1) = ground arith in
      rw (lt, m) (rw (take-nil (s.remaining - 1)))

  append_row-Accepts :
      (r : ScanRecord A) (s : BoundedScan A) → Accepts s (of_row r ∷ []) (append_row r s)
  unfolding append_row
  append_row-Accepts r s = elim (Bool-cases (s.remaining == 0 || leb s.stop r.offset)) [
    | inl e ↦ rw e (append_none s (of_row r ∷ []) (none_of_row r s e))
    | inr e ↦
        rw (e, one_of_row r s e)
          (refl, sym (append-nil (batch_pairs s.arrows)), refl, ground arith, refl)
  ]

  take-take : (m n : ℕ) (xs : List A) → take m (take n xs) ≡ take (min m (min n (length xs))) xs
  take-take m zero xs =
      let e : min m (min 0 (length xs)) ≡ 0 = omega arith in rw (e, take-nil m) refl
  take-take m (suc n) [] =
      let e : min m (min (suc n) 0) ≡ 0 = omega arith in rw (e, take-nil m) refl
  take-take zero (suc n) (x ∷ xs) =
      let e : min 0 (min (suc n) (suc (length xs))) ≡ 0 = omega arith in rw e refl
  take-take (suc m) (suc n) (x ∷ xs) =
      let e : min (suc m) (min (suc n) (suc (length xs))) ≡ suc (min m (min n (length xs))) =
        omega arith in
      rw (e, take-take m n xs)

  allowed_rows-min :
      (b : ArrowLogBatch A) (s : BoundedScan A)
      → allowed_rows b s ≡ min s.remaining (min (s.stop - b.base_offset) (length b.rows))
  unfolding allowed_rows
  allowed_rows-min b s = ground arith

  -- The entries of an Arrow batch that are taken are its first allowed rows.
  arrow_out :
      (b : ArrowLogBatch A) (s : BoundedScan A)
      → take s.remaining (before s.stop (entries (arrow_segment b)))
        ≡ of_pairs (enumerate b.base_offset (take (allowed_rows b s) b.rows))
  arrow_out b s =
      rw (before-enumerate s.stop b.base_offset b.rows, allowed_rows-min b s)
        (take-of_pairs s.remaining b.base_offset (take (s.stop - b.base_offset) b.rows)
          ∙ rw (take-take s.remaining (s.stop - b.base_offset) b.rows))

  take_all : (b : ArrowLogBatch A) (n : ℕ) → (n == length b.rows) ≡ true → take n b.rows ≡ b.rows
  take_all b n e =
      let q : n ≡ length b.rows = ground arith in
      rw q (sym (ap (take (length b.rows)) (append-nil b.rows)) ∙ take-length_append b.rows [])

  -- What it means to append the allowed rows of a batch, as the batch `k`.
  taken_arrow :
      (b k : ArrowLogBatch A) (s : BoundedScan A)
      → k.base_offset ≡ b.base_offset
      → k.rows ≡ take (allowed_rows b s) b.rows
      → let ps = of_pairs (enumerate b.base_offset (take (allowed_rows b s) b.rows)) in
        (s.rows ≡ s.rows ++ rows_of ps)
        × (batch_pairs (s.arrows ++ (k ∷ [])) ≡ batch_pairs s.arrows ++ pairs_of ps)
        × (s.delivered + allowed_rows b s ≡ s.delivered + length ps)
        × (s.remaining - allowed_rows b s + length ps ≡ s.remaining)
        × (s.stop ≡ s.stop)
  taken_arrow b k s base rows =
      let pairs = enumerate b.base_offset (take (allowed_rows b s) b.rows) in
      let counted = length-of_pairs b.base_offset (take (allowed_rows b s) b.rows) in
      let few = length-take (allowed_rows b s) b.rows in
      let bound = allowed_rows-min b s in
      (
        rw (rows_of_pairs pairs) (sym (append-nil s.rows)),
        rw (pairs_of_pairs pairs)
            (batch_pairs-append s.arrows (k ∷ []) ∙ rw (base, rows) (rw (append-nil pairs))),
        omega arith,
        omega arith,
        refl,
      )

  append_arrow-Accepts :
      (b : ArrowLogBatch A) (s : BoundedScan A)
      → Accepts s (entries (arrow_segment b)) (append_arrow b s)
  unfolding append_arrow
  append_arrow-Accepts b s =
      let allowed = allowed_rows b s in
      let out = arrow_out b s in
      elim (Bool-cases (allowed == 0)) [
        | inl none_allowed ↦
            let zero_rows : allowed ≡ 0 = ground arith in
            rw none_allowed (append_none s (entries (arrow_segment b)) (rw zero_rows at out))
        | inr more ↦ elim (Bool-cases (allowed == length b.rows)) [
          | inl whole ↦
              rw (more, whole, out) (taken_arrow b b s refl (sym (take_all b allowed whole)))
          | inr part ↦
              rw (more, part, out) (taken_arrow b (slice_arrow_log_batch b allowed) s refl refl)
        ]
      ]

  append_segment-Accepts :
      (x : ScanSegment A) (s : BoundedScan A) → Accepts s (entries x) (append_segment x s)
  unfolding append_segment
  append_segment-Accepts (row_segment r) s = append_row-Accepts r s
  append_segment-Accepts (arrow_segment b) s = append_arrow-Accepts b s

  -- The loop over the segments delivers the rows before the stopping offset, in the order of the
  -- segments, as many as remain, and nothing else; and it counts them.
  pub append_segments-Accepts :
      (xs : List (ScanSegment A)) (s : BoundedScan A)
      → Accepts s (all_entries xs) (append_segments xs s)
  unfolding append_segments
  append_segments-Accepts [] s = append_none s [] (take-nil s.remaining)
  append_segments-Accepts (x ∷ xs) s =
      Accepts-append s (append_segment x s) (append_segments xs (append_segment x s)) (entries x)
        (all_entries xs) (append_segment-Accepts x s)
        (append_segments-Accepts xs (append_segment x s))

  cap_next-keeps :
      (s : BoundedScan A)
      → let t = cap_next s in
        (t.rows ≡ s.rows) × (t.arrows ≡ s.arrows) × (t.delivered ≡ s.delivered) × (t.next ≤ s.stop)
  unfolding cap_next
  cap_next-keeps s = elim (Bool-cases (ltb s.stop s.next)) [
    | inl over ↦ rw over (refl, refl, refl, omega arith)
    | inr within ↦ rw within (refl, refl, refl, ground arith)
  ]

  -- A scan with a row limit or stopping offsets delivers exactly the fetched rows that stand before
  -- the bucket's stopping offset, in the order of the segments' offsets, as many as the row limit
  -- leaves; it counts them, and its next offset is not above the stopping offset.
  pub apply_bounds_exact :
      (row_limit delivered : ℕ) (offsets : Option (Option ℕ)) (rows : List (ScanRecord A))
      (arrows : List (ArrowLogBatch A)) (decoded_next : ℕ)
      → (row_limit == 0 && not (is_some offsets)) ≡ false
      → let r = apply_bounds row_limit delivered offsets rows arrows decoded_next in
        let bounds = scan_bounds row_limit delivered (stopping_of offsets) in
        let out =
          take bounds.0 (before bounds.1 (all_entries (ordered_scan_segments rows arrows))) in
        (r.rows ≡ rows_of out)
        × (batch_pairs r.arrows ≡ pairs_of out)
        × (r.delivered ≡ length out)
        × (r.next ≤ bounds.1)
  unfolding apply_bounds bounded_start
  apply_bounds_exact row_limit delivered offsets rows arrows decoded_next bounded =
      let bounds = scan_bounds row_limit delivered (stopping_of offsets) in
      let start : BoundedScan A = bounded_start bounds decoded_next in
      let segments = ordered_scan_segments rows arrows in
      let (r, a, d, m, p) = append_segments-Accepts segments start in
      let (r', a', d', n') = cap_next-keeps (append_segments segments start) in
      rw bounded (r' ∙ r, ap batch_pairs a' ∙ a, omega (arith, d', d), omega (arith, n', p))
