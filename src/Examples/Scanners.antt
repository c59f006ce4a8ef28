-- ===== src/Examples/Scanners.antt =====
-- A log scanner with two buckets and a row limit of 3.
use fluss_go.Prelude.{
  ℕ, ◌+◌, ◌≤◌, ◌≡◌, ◌≢◌, refl, arith, inl, inr, true, false, if◌then◌else◌, ◌==◌,
}
use fluss_go.Prelude.{List, [], ◌∷◌, none, some}
use fluss_go.Prelude.Int.{pos}
use fluss_go.Prelude.Assoc.{nat_key, find}
use fluss_go.Prelude.Errors.{Result, ok}
use fluss_go.Prelude.Sort.{sort_by, insert_by}
use fluss_go.Scan.Bounds.{stopping_of}
use fluss_go.Scan.Scanner.{ScannerConfig, ScannerState, Call, subscribing, waking, run_calls}
use fluss_go.Scan.Scanner.Poll.{Exchange, Decoded, ScanResult, poll, poll_bucket, empty_result}
use fluss_go.Scan.Scanner.Settled.{IsSettled, IsDone, poll-IsSettled}
use fluss_go.Scan.Scanner.Limit.{poll_within_limit, result_rows}
use fluss_go.Scan.Scanner.Closed.{poll_bucket-changed}

abbrev three_rows : ScannerConfig
three_rows = record { row_limit = 3; stopping = none; buckets = 0 ∷ 1 ∷ []; dynamic = false }

abbrev started : ScannerState
started = record {
  offset = (0, 10) ∷ (1, 20) ∷ [];
  delivered = 0;
  done = false;
  closed = false;
  polling = false;
  cancelled = false;
  wake_pending = false;
}

abbrev two_from : ℕ → Decoded ℕ
two_from offset = record {
  next = offset + 2;
  rows = record { offset = offset; row = 7 } ∷ record { offset = offset + 1; row = 8 } ∷ [];
  arrows = [];
  project_error = none;
}

abbrev fetches : ℕ → Exchange ℕ
fetches b = record {
  during = [];
  context_error = none;
  reply = ok (record {
    decoded = ok (two_from (if b == 0 then 10 else 20));
    filtered_end = none;
    high_watermark = 30;
  });
  after = [];
}

abbrev polled : ScannerState × Result (ScanResult ℕ)
unfolding poll
polled = poll three_rows fetches started

started-IsSettled : IsSettled three_rows started
unfolding IsSettled IsDone
started-IsSettled =
    inr (λ h. cc, λ h. elim h [ inl (lo, hi) ↦ ground arith | inr (stops, e, l, a) ↦ cc ])

poll-IsSettled_example : IsSettled three_rows polled.0
unfolding polled
poll-IsSettled_example = poll-IsSettled three_rows fetches started started-IsSettled

abbrev three_results : ScanResult ℕ
three_results = record {
  records =
      (0, record { offset = 10; row = 7 })
      ∷ (0, record { offset = 11; row = 8 })
      ∷ (1, record { offset = 20; row = 7 })
      ∷ [];
  arrow_batches = [];
  bucket_errors = [];
  high_watermark = (0, 30) ∷ (1, 30) ∷ [];
  done = true;
}

poll_within_limit_example :
    (polled.0.delivered ≡ started.delivered + result_rows three_results) × (polled.0.delivered ≤ 3)
unfolding polled sort_by insert_by stopping_of
poll_within_limit_example =
    poll_within_limit three_rows fetches started polled.0 three_results (omega arith) (omega arith)
      refl

abbrev reopening : List Call
reopening =
    subscribing 0 (record { kind = 0; offset = pos 5; timestamp = none }) (ok 0) ∷ waking ∷ []

-- Bucket 0 is reset to 5 while it is fetched from 10.
abbrev resubscribed : Exchange ℕ
resubscribed = record (fetches 0) { during = reopening }

moved_away : find 0 (run_calls three_rows reopening started).offset ≢ some 10
unfolding run_calls
moved_away e = cc

poll_bucket-changed_example :
    (poll_bucket three_rows resubscribed 0 10 started empty_result).0.offset
    ≡ (run_calls three_rows reopening started).offset
poll_bucket-changed_example =
    poll_bucket-changed three_rows resubscribed 0 10 started empty_result moved_away
