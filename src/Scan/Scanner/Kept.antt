-- ===== src/Scan/Scanner/Kept.antt =====
-- What the steps of a poll keep of the scanner and of the result, the poll keeps.
use fluss_go.Prelude.{ℕ, Bool, true, false, List, [], ◌∷◌, Option, none, some, if◌then◌else◌}
use fluss_go.Prelude.{if_cases}
use fluss_go.Prelude.Errors.{GoError, Result, ok, err, err_validation}
use fluss_go.Scan.Scanner.{ScannerConfig, ScannerState, Call, run_call, run_calls}
use fluss_go.Scan.Scanner.Poll.{
  ScanResult, Decoded, Fetched, Exchange, empty_result, begin_poll, end_poll, add_bucket_error,
  record_fetch_error, deliver, after_decode, poll_bucket, poll_buckets, finish_poll, poll_begun,
  poll, filtered_next, to_read,
}

module _ {A : Type 0} where
  -- Q of the state and the result, or of the state and some result that was given up.
  abbrev pub Outcome :
      (ScannerState → ScanResult A → Type 0) → ScannerState × Result (ScanResult A) → Type 0
  Outcome Q (s, ok r) = Q s r
  Outcome Q (s, err e) = (r : ScanResult A) × Q s r

  -- The steps of a poll keep Q.
  pub record IsKept (c : ScannerConfig) (Q : ScannerState → ScanResult A → Type 0) : Type 0 where
    pub by_call : (x : Call) (s : ScannerState) (r : ScanResult A) → Q s r → Q (run_call c x s) r
    pub by_wake :
        (s : ScannerState) (r : ScanResult A) → Q s r → Q (record s { wake_pending = false }) r
    pub by_begin :
        (s : ScannerState) (r : ScanResult A)
        → Q s r
        → Q (record s { polling = true; cancelled = false }) r
    pub by_end : (s : ScannerState) (r : ScanResult A) → Q s r → Q (record s { polling = false }) r
    pub by_done :
        (d : Bool) (s : ScannerState) (r : ScanResult A) → Q s r → Q s (record r { done = d })
    pub by_error :
        (b : ℕ) (e : GoError) (s : ScannerState) (r : ScanResult A)
        → Q s r
        → Q s (add_bucket_error b e r)
    pub by_deliver :
        (b offset next watermark : ℕ) (d : Decoded A) (s : ScannerState) (r : ScanResult A)
        → Q s r
        → Q (deliver c b offset next watermark d s r).0 (deliver c b offset next watermark d s r).1

module _ {A : Type 0} (c : ScannerConfig) (Q : ScannerState → ScanResult A → Type 0)
    (k : IsKept c Q) where
  run_calls-kept :
      (xs : List Call) (s : ScannerState) (r : ScanResult A) → Q s r → Q (run_calls c xs s) r
  unfolding run_calls
  run_calls-kept [] s r q = q
  run_calls-kept (x ∷ xs) s r q = run_calls-kept xs (run_call c x s) r (k.by_call x s r q)

  record_fetch_error-kept :
      (context_error : Option GoError) (b : ℕ) (e : GoError) (s : ScannerState) (r : ScanResult A)
      → Q s r
      → Outcome Q (record_fetch_error context_error b e s r)
  unfolding record_fetch_error
  record_fetch_error-kept (some ctx) b e s r q = (r, q)
  record_fetch_error-kept none b e s r q =
      let q' = k.by_wake s r q in
      if_cases (Outcome Q) s.closed (λ _. (r, q'))
        λ _. if_cases (Outcome Q) s.wake_pending (λ _. (r, q')) λ _. k.by_error b e _ r q'

  decoded-kept :
      (b offset watermark : ℕ) (d : Decoded A) (s : ScannerState) (r : ScanResult A)
      (next : Option ℕ) (failed : Option GoError)
      → Q s r
      → Outcome Q (elim next [
        | none ↦ (s, ok (add_bucket_error b err_validation r))
        | some n ↦ elim failed [
          | some e ↦ (s, err e)
          | none ↦
              let delivered = deliver c b offset n watermark d s r in (delivered.0, ok delivered.1)
        ]
      ])
  decoded-kept b offset watermark d s r none failed q = k.by_error b err_validation s r q
  decoded-kept b offset watermark d s r (some n) (some e) q = (r, q)
  decoded-kept b offset watermark d s r (some n) none q = k.by_deliver b offset n watermark d s r q

  fetched-kept :
      (b offset : ℕ) (f : Fetched A) (s : ScannerState) (r : ScanResult A)
      (decoded : Result (Decoded A))
      → Q s r
      → Outcome Q (elim decoded [
        | err e ↦ (s, ok (add_bucket_error b e r))
        | ok d ↦ after_decode c b offset f d s r
      ])
  unfolding after_decode
  fetched-kept b offset f s r (err e) q = k.by_error b e s r q
  fetched-kept b offset f s r (ok d) q =
      decoded-kept b offset f.high_watermark d s r (filtered_next offset d.next f.filtered_end)
        (if c.dynamic then d.project_error else none) q

  replied-kept :
      (b offset : ℕ) (context_error : Option GoError) (s : ScannerState) (r : ScanResult A)
      (reply : Result (Fetched A))
      → Q s r
      → Outcome Q (elim reply [
        | err e ↦ record_fetch_error context_error b e s r
        | ok f ↦ elim f.decoded [
          | err e ↦ (s, ok (add_bucket_error b e r))
          | ok d ↦ after_decode c b offset f d s r
        ]
      ])
  replied-kept b offset ctx s r (err e) q = record_fetch_error-kept ctx b e s r q
  replied-kept b offset ctx s r (ok f) q = fetched-kept b offset f s r f.decoded q

  pub poll_bucket-kept :
      (x : Exchange A) (b offset : ℕ) (s : ScannerState) (r : ScanResult A)
      → Q s r
      → Outcome Q (poll_bucket c x b offset s r)
  unfolding poll_bucket
  poll_bucket-kept x b offset s r q =
      replied-kept b offset x.context_error (run_calls c x.during s) r x.reply
        (run_calls-kept x.during s r q)

  next_bucket-kept :
      (xs : ℕ → Exchange A) (offsets : List (ℕ × ℕ)) (bs : List ℕ) (b : ℕ)
      (polled : ScannerState × Result (ScanResult A))
      → ((s : ScannerState) (r : ScanResult A)
          → Q s r
          → Outcome Q (poll_buckets c xs offsets bs s r))
      → Outcome Q polled
      → Outcome Q (elim polled.1 [
        | err e ↦ (polled.0, err e)
        | ok r' ↦
            let s' = run_calls c (xs b).after polled.0 in
            let rest = poll_buckets c xs offsets bs s' r' in if s'.done then (s', ok r') else rest
      ])
  next_bucket-kept xs offsets bs b (s, err e) ih q = q
  next_bucket-kept xs offsets bs b (s, ok r) ih q =
      let q' = run_calls-kept (xs b).after s r q in
      if_cases (Outcome Q) (run_calls c (xs b).after s).done (λ _. q') λ _. ih _ r q'

  read-kept :
      (xs : ℕ → Exchange A) (offsets : List (ℕ × ℕ)) (bs : List ℕ) (b : ℕ) (s : ScannerState)
      (r : ScanResult A) (from : Option ℕ)
      → ((s : ScannerState) (r : ScanResult A)
          → Q s r
          → Outcome Q (poll_buckets c xs offsets bs s r))
      → Q s r
      → Outcome Q (elim from [
        | none ↦ poll_buckets c xs offsets bs s r
        | some offset ↦
            let polled = poll_bucket c (xs b) b offset s r in
            elim polled.1 [
              | err e ↦ (polled.0, err e)
              | ok r' ↦
                  let s' = run_calls c (xs b).after polled.0 in
                  let rest = poll_buckets c xs offsets bs s' r' in
                  if s'.done then (s', ok r') else rest
            ]
      ])
  read-kept xs offsets bs b s r none ih q = ih s r q
  read-kept xs offsets bs b s r (some offset) ih q =
      next_bucket-kept xs offsets bs b (poll_bucket c (xs b) b offset s r) ih
        (poll_bucket-kept (xs b) b offset s r q)

  poll_buckets-kept :
      (xs : ℕ → Exchange A) (offsets : List (ℕ × ℕ)) (bs : List ℕ) (s : ScannerState)
      (r : ScanResult A)
      → Q s r
      → Outcome Q (poll_buckets c xs offsets bs s r)
  unfolding poll_buckets
  poll_buckets-kept xs offsets [] s r q = q
  poll_buckets-kept xs offsets (b ∷ bs) s r q =
      read-kept xs offsets bs b s r (to_read c offsets b) (poll_buckets-kept xs offsets bs) q

  finish_poll-kept :
      (p : ScannerState × Result (ScanResult A)) → Outcome Q p → Outcome Q (finish_poll p)
  unfolding finish_poll end_poll
  finish_poll-kept (s, ok r) q = k.by_done s.done _ r (k.by_end s r q)
  finish_poll-kept (s, err e) (r, q) = (r, k.by_end s r q)

  poll_begun-kept :
      (xs : ℕ → Exchange A) (s : ScannerState) (begun : Result (Option (List (ℕ × ℕ))))
      → Q s empty_result
      → Outcome Q (poll_begun c xs s begun)
  unfolding poll_begun end_poll
  poll_begun-kept xs s (err e) q = (empty_result, q)
  poll_begun-kept xs s (ok none) q = k.by_done true s empty_result q
  poll_begun-kept xs s (ok (some [])) q = (empty_result, k.by_end s empty_result q)
  poll_begun-kept xs s (ok (some (o ∷ offsets))) q =
      finish_poll-kept (poll_buckets c xs (o ∷ offsets) c.buckets s empty_result)
        (poll_buckets-kept xs (o ∷ offsets) c.buckets s empty_result q)

  begin_poll-kept : (s : ScannerState) → Q s empty_result → Q (begin_poll s).0 empty_result
  unfolding begin_poll
  begin_poll-kept s q =
      let P : ScannerState × Result (Option (List (ℕ × ℕ))) → Type 0 = λ p. Q p.0 empty_result in
      if_cases P s.closed (λ _. q)
        λ _.
          if_cases P s.done (λ _. q)
            λ _.
              if_cases P s.wake_pending (λ _. k.by_wake s empty_result q)
                λ _. k.by_begin s empty_result q

  pub poll-kept :
      (xs : ℕ → Exchange A) (s : ScannerState) → Q s empty_result → Outcome Q (poll c xs s)
  unfolding poll
  poll-kept xs s q = poll_begun-kept xs (begin_poll s).0 (begin_poll s).1 (begin_poll-kept s q)
