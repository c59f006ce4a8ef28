-- ===== src/Scan/Scanner/Poll.antt =====
-- pkg/fgo/log_scanner.go: Poll. What a fetch and the decoder give for a bucket is an input of the
-- poll, with the calls of other goroutines that the lock lets in around it.
use fluss_go.Prelude.{ℕ, Bool, true, false, List, [], ◌∷◌, ◌++◌, Option, none, some}
use fluss_go.Prelude.{ltb, leb, if◌then◌else◌}
use fluss_go.Prelude.Assoc.{nat_key, find, put}
use fluss_go.Prelude.Errors.{
  GoError, Result, ok, err, err_invalid_config, err_validation, err_closed, err_wakeup,
}
use fluss_go.Scan.Bounds.{ScanRecord, ArrowLogBatch, apply_bounds}
use fluss_go.Scan.Scanner.{ScannerConfig, ScannerState, Call, run_calls, advance_offset}

module _ (A : Type 0) where
  -- ScanResult
  pub record ScanResult : Type 0 where
    pub records : List (ℕ × ScanRecord A)
    pub arrow_batches : List (ℕ × ArrowLogBatch A)
    pub bucket_errors : List (ℕ × GoError)
    pub high_watermark : List (ℕ × ℕ)
    pub done : Bool

  -- What decodeFetchedFetchResponseWithResolver gives: the next offset and the rows, as projectScanRows
  -- and projectScanArrows leave them in a dynamic scanner, or the error of projectScanArrows.
  pub record Decoded : Type 0 where
    pub next : ℕ
    pub rows : List (ScanRecord A)
    pub arrows : List (ArrowLogBatch A)
    pub project_error : Option GoError

  pub record Fetched : Type 0 where
    pub decoded : Result Decoded
    pub filtered_end : Option ℕ
    pub high_watermark : ℕ

  -- One bucket's part of a poll: `during` are the calls made while the fetch runs, `after` those
  -- made once its result is recorded, and `context_error` the error of the caller's context.
  pub record Exchange : Type 0 where
    pub during : List Call
    pub context_error : Option GoError
    pub reply : Result Fetched
    pub after : List Call

-- The second result is the offsets to read; none when the scan is done.
unfoldable pub begin_poll : ScannerState → ScannerState × Result (Option (List (ℕ × ℕ)))
begin_poll s =
    if s.closed
    then (s, err err_closed)
    else if s.done
    then (s, ok none)
    else if s.wake_pending
    then (record s { wake_pending = false }, err err_wakeup)
    else (record s { polling = true; cancelled = false }, ok (some s.offset))

unfoldable pub end_poll : ScannerState → ScannerState
end_poll s = record s { polling = false }

-- The end of a filtered fetch: none when it precedes the fetch's offset.
unfoldable pub filtered_next : ℕ → ℕ → Option ℕ → Option ℕ
filtered_next offset next none = some next
filtered_next offset next (some end) =
    if ltb end offset then none else if ltb next end then some end else some next

unfoldable pub at_bucket_bounds : ScannerConfig → ℕ → Option (Option ℕ)
at_bucket_bounds c b = elim c.stopping [ none ↦ none | some stops ↦ some (find b stops) ]

-- `if stop, bounded := StoppingOffsets[bucket]; bounded && offset >= stop { continue }`
unfoldable pub is_past_stop : ScannerConfig → ℕ → ℕ → Bool
is_past_stop c b offset = elim c.stopping [
  | none ↦ false
  | some stops ↦ elim (find b stops) [ none ↦ false | some stop ↦ leb stop offset ]
]

-- The offset from which a bucket is read, if it is.
unfoldable pub to_read : ScannerConfig → List (ℕ × ℕ) → ℕ → Option ℕ
unfolding is_past_stop
to_read c offsets b = elim (find b offsets) [
  | none ↦ none
  | some offset ↦ if is_past_stop c b offset then none else some offset
]

abbrev pub tag : {B : Type 0} → ℕ → List B → List (ℕ × B)
tag b [] = []
tag b (x ∷ xs) = (b, x) ∷ tag b xs

module _ {A : Type 0} where
  abbrev pub empty_result : ScanResult A
  empty_result = record {
    records = [];
    arrow_batches = [];
    bucket_errors = [];
    high_watermark = [];
    done = false;
  }

  unfoldable pub add_bucket_error : ℕ → GoError → ScanResult A → ScanResult A
  add_bucket_error b e r = record r { bucket_errors = r.bucket_errors ++ ((b, e) ∷ []) }

  -- recordFetchError
  unfoldable pub record_fetch_error :
      Option GoError
      → ℕ
      → GoError
      → ScannerState
      → ScanResult A
      → ScannerState × Result (ScanResult A)
  unfolding add_bucket_error
  record_fetch_error context_error b e s r = elim context_error [
    | some ctx ↦ (s, err ctx)
    | none ↦
        let settled = record s { wake_pending = false } in
        if s.closed
        then (settled, err err_closed)
        else if s.wake_pending
        then (settled, err err_wakeup)
        else (settled, ok (add_bucket_error b e r))
  ]

  -- The rows within the bounds join the result, and the bucket's offset moves on.
  unfoldable pub deliver :
      ScannerConfig
      → ℕ
      → ℕ
      → ℕ
      → ℕ
      → Decoded A
      → ScannerState
      → ScanResult A
      → ScannerState × ScanResult A
  unfolding at_bucket_bounds apply_bounds advance_offset
  deliver c b offset next watermark d s r =
      let bounded =
        apply_bounds c.row_limit s.delivered (at_bucket_bounds c b) d.rows d.arrows next in
      (
        advance_offset c b offset bounded.next bounded.delivered s,
        record r {
          records = r.records ++ tag b bounded.rows;
          arrow_batches = r.arrow_batches ++ tag b bounded.arrows;
          high_watermark = put b watermark r.high_watermark;
        },
      )

  -- pollBucket after the fetch.
  unfoldable pub after_decode :
      ScannerConfig
      → ℕ
      → ℕ
      → Fetched A
      → Decoded A
      → ScannerState
      → ScanResult A
      → ScannerState × Result (ScanResult A)
  unfolding filtered_next deliver add_bucket_error
  after_decode c b offset f d s r = elim (filtered_next offset d.next f.filtered_end) [
    | none ↦ (s, ok (add_bucket_error b err_validation r))
    | some next ↦ elim (if c.dynamic then d.project_error else none) [
      | some e ↦ (s, err e)
      | none ↦
          let delivered = deliver c b offset next f.high_watermark d s r in
          (delivered.0, ok delivered.1)
    ]
  ]

  unfoldable pub poll_bucket :
      ScannerConfig
      → Exchange A
      → ℕ
      → ℕ
      → ScannerState
      → ScanResult A
      → ScannerState × Result (ScanResult A)
  unfolding run_calls record_fetch_error after_decode add_bucket_error
  poll_bucket c x b offset s r =
      let called = run_calls c x.during s in
      elim x.reply [
        | err e ↦ record_fetch_error x.context_error b e called r
        | ok f ↦ elim f.decoded [
          | err e ↦ (called, ok (add_bucket_error b e r))
          | ok d ↦ after_decode c b offset f d called r
        ]
      ]

  -- The loop of Poll over the buckets.
  unfoldable pub poll_buckets :
      ScannerConfig
      → (ℕ → Exchange A)
      → List (ℕ × ℕ)
      → List ℕ
      → ScannerState
      → ScanResult A
      → ScannerState × Result (ScanResult A)
  unfolding to_read poll_bucket run_calls
  poll_buckets c xs offsets [] s r = (s, ok r)
  poll_buckets c xs offsets (b ∷ bs) s r = elim (to_read c offsets b) [
    | none ↦ poll_buckets c xs offsets bs s r
    | some offset ↦
        let polled = poll_bucket c (xs b) b offset s r in
        elim polled.1 [
          | err e ↦ (polled.0, err e)
          | ok r' ↦
              let s' = run_calls c (xs b).after polled.0 in
              let rest = poll_buckets c xs offsets bs s' r' in if s'.done then (s', ok r') else rest
        ]
  ]

  -- `result.Done = s.Done()`, and the deferred endPoll.
  unfoldable pub finish_poll :
      ScannerState × Result (ScanResult A) → ScannerState × Result (ScanResult A)
  unfolding end_poll
  finish_poll (s, ok r) = (end_poll s, ok (record r { done = s.done }))
  finish_poll (s, err e) = (end_poll s, err e)

  unfoldable pub poll_begun :
      ScannerConfig
      → (ℕ → Exchange A)
      → ScannerState
      → Result (Option (List (ℕ × ℕ)))
      → ScannerState × Result (ScanResult A)
  unfolding poll_buckets finish_poll end_poll
  poll_begun c xs s (err e) = (s, err e)
  poll_begun c xs s (ok none) = (s, ok (record empty_result { done = true }))
  poll_begun c xs s (ok (some [])) = (end_poll s, err err_invalid_config)
  poll_begun c xs s (ok (some (o ∷ offsets))) =
      finish_poll (poll_buckets c xs (o ∷ offsets) c.buckets s empty_result)

  -- Poll with a context that is not nil. Polls are one after another.
  unfoldable pub poll :
      ScannerConfig → (ℕ → Exchange A) → ScannerState → ScannerState × Result (ScanResult A)
  unfolding begin_poll poll_begun
  poll c xs s = let begun = begin_poll s in poll_begun c xs begun.0 begun.1
