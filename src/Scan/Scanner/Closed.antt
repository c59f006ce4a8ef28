-- ===== src/Scan/Scanner/Closed.antt =====
-- What calls that fall between the polls, or into one, do to it: Close, Wakeup, and a change of the
-- subscription.
use fluss_go.Prelude.{ℕ, zero, suc, ◌||◌, true, false, List, [], ◌∷◌, Option, none, some}
use fluss_go.Prelude.{
  ◌≡◌, ◌≢◌, refl, arith, if_cases, Bool-cases, inl, inr, if◌then◌else◌, ◌==◌, ==_iff,
}
use fluss_go.Prelude.Assoc.{nat_key, find}
use fluss_go.Prelude.Errors.{GoError, Result, ok, err, err_closed, err_validation}
use fluss_go.Scan.Scanner.{
  ScannerConfig, ScannerState, ScanOffset, Call, subscribing, unsubscribing, waking, closing,
  update_done, subscribe, unsubscribe, wakeup, close, advance_offset, move_offset, is_at, run_call,
  run_calls,
}
use fluss_go.Scan.Scanner.Poll.{
  Exchange, ScanResult, Decoded, Fetched, deliver, poll, poll_begun, begin_poll, poll_bucket,
  after_decode, record_fetch_error, filtered_next, add_bucket_error,
}

subscribe-closed :
    (c : ScannerConfig) (b : ℕ) (start : ScanOffset) (listed : Result ℕ) (s : ScannerState)
    → s.closed ≡ true
    → (subscribe c b start listed s).0.closed ≡ true
unfolding subscribe update_done
subscribe-closed c b start listed s h = ground arith

run_call-closed :
    (c : ScannerConfig) (x : Call) (s : ScannerState)
    → s.closed ≡ true
    → (run_call c x s).closed ≡ true
unfolding run_call unsubscribe update_done wakeup close
run_call-closed c (subscribing b start listed) s h = subscribe-closed c b start listed s h
run_call-closed c (unsubscribing b) s h = h
run_call-closed c waking s h = ground arith
run_call-closed c closing s h = refl

run_calls-closed :
    (c : ScannerConfig) (xs : List Call) (s : ScannerState)
    → s.closed ≡ true
    → (run_calls c xs s).closed ≡ true
unfolding run_calls
run_calls-closed c [] s h = h
run_calls-closed c (x ∷ xs) s h = run_calls-closed c xs (run_call c x s) (run_call-closed c x s h)

module _ {A : Type 0} where
  -- After Close, whatever else is called, a poll fails with ErrClosed and leaves the scanner as it is.
  pub poll-close :
      (c : ScannerConfig) (xs : ℕ → Exchange A) (calls : List Call) (s : ScannerState)
      → let after = run_calls c calls (close s) in poll c xs after ≡ (after, err err_closed)
  unfolding poll begin_poll poll_begun close
  poll-close c xs calls s = rw (run_calls-closed c calls (close s) refl) refl

-- Wakeup, n times.
abbrev pub wakeups : ℕ → ScannerState → ScannerState
wakeups zero s = s
wakeups (suc n) s = wakeup (wakeups n s)

-- The scanner without a wakeup; a poll that is active when Wakeup comes is cancelled.
abbrev pub used_up : ScannerState → ScannerState
used_up s = record s { wake_pending = false; cancelled = s.cancelled || s.polling }

-- What one Wakeup and more do.
woken : ScannerState → ScannerState
woken s = record s { wake_pending = true; cancelled = s.cancelled || s.polling }

is_at-false : (previous : ℕ) (o : Option ℕ) → o ≢ some previous → is_at previous o ≡ false
unfolding is_at
is_at-false previous none h = refl
is_at-false previous (some offset) h = elim (Bool-cases (offset == previous)) [
  | inl e ↦
      let same : offset ≡ previous = (==_iff offset previous).0 e in elim (h (rw same refl)) [ ]
  | inr e ↦ e
]

module _ {A : Type 0} where
  deliver-changed :
      (c : ScannerConfig) (b offset next watermark : ℕ) (d : Decoded A) (s : ScannerState)
      (r : ScanResult A)
      → find b s.offset ≢ some offset
      → (deliver c b offset next watermark d s r).0.offset ≡ s.offset
  unfolding deliver advance_offset move_offset update_done
  deliver-changed c b offset next watermark d s r h =
      rw (is_at-false offset (find b s.offset) h) refl

  abbrev Leaves : ScannerState → ScannerState × Result (ScanResult A) → Type 0
  Leaves s p = p.0.offset ≡ s.offset

  bounded-changed :
      (c : ScannerConfig) (b offset watermark : ℕ) (d : Decoded A) (s : ScannerState)
      (r : ScanResult A) (next : Option ℕ) (failed : Option GoError)
      → find b s.offset ≢ some offset
      → Leaves s (elim next [
        | none ↦ (s, ok (add_bucket_error b err_validation r))
        | some n ↦ elim failed [
          | some e ↦ (s, err e)
          | none ↦
              let delivered = deliver c b offset n watermark d s r in (delivered.0, ok delivered.1)
        ]
      ])
  bounded-changed c b offset watermark d s r none failed h = refl
  bounded-changed c b offset watermark d s r (some n) (some e) h = refl
  bounded-changed c b offset watermark d s r (some n) none h =
      deliver-changed c b offset n watermark d s r h

  fetched-changed :
      (c : ScannerConfig) (b offset : ℕ) (f : Fetched A) (s : ScannerState) (r : ScanResult A)
      (decoded : Result (Decoded A))
      → find b s.offset ≢ some offset
      → Leaves s (elim decoded [
        | err e ↦ (s, ok (add_bucket_error b e r))
        | ok d ↦ after_decode c b offset f d s r
      ])
  unfolding after_decode
  fetched-changed c b offset f s r (err e) h = refl
  fetched-changed c b offset f s r (ok d) h =
      bounded-changed c b offset f.high_watermark d s r (filtered_next offset d.next f.filtered_end)
        (if c.dynamic then d.project_error else none) h

  replied-changed :
      (c : ScannerConfig) (b offset : ℕ) (context_error : Option GoError) (s : ScannerState)
      (r : ScanResult A) (reply : Result (Fetched A))
      → find b s.offset ≢ some offset
      → Leaves s (elim reply [
        | err e ↦ record_fetch_error context_error b e s r
        | ok f ↦ elim f.decoded [
          | err e ↦ (s, ok (add_bucket_error b e r))
          | ok d ↦ after_decode c b offset f d s r
        ]
      ])
  unfolding record_fetch_error
  replied-changed c b offset (some ctx) s r (err e) h = refl
  replied-changed c b offset none s r (err e) h =
      if_cases (Leaves s) s.closed (λ _. refl)
        λ _. if_cases (Leaves s) s.wake_pending (λ _. refl) λ _. refl
  replied-changed c b offset ctx s r (ok f) h = fetched-changed c b offset f s r f.decoded h

  -- A bucket whose subscription other goroutines removed or moved while it was fetched is not moved
  -- by what the fetch gives: all offsets stay as those calls left them.
  pub poll_bucket-changed :
      (c : ScannerConfig) (x : Exchange A) (b offset : ℕ) (s : ScannerState) (r : ScanResult A)
      → find b (run_calls c x.during s).offset ≢ some offset
      → (poll_bucket c x b offset s r).0.offset ≡ (run_calls c x.during s).offset
  unfolding poll_bucket
  poll_bucket-changed c x b offset s r h =
      replied-changed c b offset x.context_error (run_calls c x.during s) r x.reply h
