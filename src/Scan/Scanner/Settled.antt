-- ===== src/Scan/Scanner/Settled.antt =====
-- The done flag of a scanner that is open says whether the scan is done.
use fluss_go.Prelude.{ℕ, ◌≤◌, ◌<◌, Bool, true, false, ◌&&◌, not}
use fluss_go.Prelude.{List, [], ◌∷◌, Option, none, some, All, length, ltb, leb, if◌then◌else◌}
use fluss_go.Prelude.{◌≡◌, ◌↔◌, ◌⊎◌, inl, inr, refl, arith, if_cases, Bool-cases}
use fluss_go.Prelude.Assoc.{nat_key, find, put, remove}
use fluss_go.Prelude.Errors.{GoError, Result, ok, err, err_closed}
use fluss_go.Scan.Scanner.{
  ScannerConfig, ScannerState, ScanOffset, Call, subscribing, unsubscribing, waking, closing,
  all_stopped, update_done, subscribe, unsubscribe, wakeup, close, advance_offset, run_call,
  validate_scan_offset, resolve_offset, has_bucket,
}
use fluss_go.Scan.Scanner.Poll.{Exchange, ScanResult, deliver, poll}
use fluss_go.Scan.Scanner.{move_offset}
use fluss_go.Scan.Scanner.Poll.{at_bucket_bounds}
use fluss_go.Scan.Bounds.{apply_bounds}
use fluss_go.Scan.Scanner.Kept.{IsKept, Outcome, poll-kept}

-- The bucket has a stopping offset, and the scan reached it.
pub IsStopped : List (ℕ × ℕ) → ℕ × ℕ → Type 0
IsStopped stops (bucket, offset) = (stop : ℕ) × (find bucket stops ≡ some stop) × (stop ≤ offset)

-- The scan delivered its row limit, or it has a subscription and reached the stopping offset of each.
unfoldable pub IsDone : ScannerConfig → ScannerState → Type 0
IsDone c s =
    ((0 < c.row_limit) × (c.row_limit ≤ s.delivered))
    ⊎ ((stops : List (ℕ × ℕ)) × (c.stopping ≡ some stops)
        × (0 < length s.offset)
        × All (IsStopped stops) s.offset)

-- A scanner is closed, or its flag tells whether it is done.
unfoldable pub IsSettled : ScannerConfig → ScannerState → Type 0
unfolding IsDone IsStopped
IsSettled c s = (s.closed ≡ true) ⊎ ((s.done ≡ true) ↔ IsDone c s)

stopped-cons :
    (stops : List (ℕ × ℕ)) (b offset : ℕ) (rest : Bool) (R : Type 0) (found : Option ℕ)
    → (rest ≡ true) ↔ R
    → (elim found [ none ↦ false | some stop ↦ leb stop offset && rest ] ≡ true)
      ↔ (((stop : ℕ) × (found ≡ some stop) × (stop ≤ offset)) × R)
stopped-cons stops b offset rest R none (to, from) = (λ h. cc, λ ((stop, e, l), r). cc)
stopped-cons stops b offset false R (some stop) (to, from) =
    (λ h. ground arith, λ ((other, e, l), r). cc (from r))
stopped-cons stops b offset true R (some stop) (to, from) = (
  λ h. ((stop, refl, ground arith), to refl),
  λ ((other, e, l), r). let same : stop ≡ other = cc in ground arith,
)

all_stopped_iff :
    (stops offsets : List (ℕ × ℕ))
    → (all_stopped offsets stops ≡ true) ↔ All (IsStopped stops) offsets
unfolding IsStopped
all_stopped_iff stops [] = (λ h. _, λ h. refl)
all_stopped_iff stops ((b, offset) ∷ offsets) =
    stopped-cons stops b offset (all_stopped offsets stops) _ (find b stops)
      (all_stopped_iff stops offsets)

subscribed-cons :
    (stops offsets : List (ℕ × ℕ))
    → (((elim offsets [ [] ↦ false | _ ∷ _ ↦ true ]) && all_stopped offsets stops) ≡ true)
      ↔ ((0 < length offsets) × All (IsStopped stops) offsets)
subscribed-cons stops [] = (λ h. cc, λ (l, a). ground arith)
subscribed-cons stops (o ∷ offsets) =
    let (to, from) = all_stopped_iff stops (o ∷ offsets) in
    (λ h. (omega arith, to h), λ (l, a). from a)

reached_stops_iff :
    (s : ScannerState) (stopping : Option (List (ℕ × ℕ)))
    → (elim stopping [
      | none ↦ false
      | some stops ↦ (elim s.offset [ [] ↦ false | _ ∷ _ ↦ true ]) && all_stopped s.offset stops
    ]
        ≡ true)
      ↔ ((stops : List (ℕ × ℕ)) × (stopping ≡ some stops)
          × (0 < length s.offset)
          × All (IsStopped stops) s.offset)
reached_stops_iff s none = (λ h. cc, λ (stops, e, l, a). cc)
reached_stops_iff s (some stops) =
    let (to, from) = subscribed-cons stops s.offset in
    (
      λ h. let (l, a) = to h in (stops, refl, l, a),
      λ (other, e, l, a). let same : stops ≡ other = cc in from (l, rw same a),
    )

update_done_iff :
    (c : ScannerConfig) (s : ScannerState) → ((update_done c s).done ≡ true) ↔ IsDone c s
unfolding update_done IsDone
update_done_iff c s =
    let (to, from) = reached_stops_iff s c.stopping in
    let limit = ltb 0 c.row_limit && leb c.row_limit s.delivered in
    elim (Bool-cases limit) [
      | inl over ↦ rw over (λ _. inl (ground arith, ground arith), λ _. refl)
      | inr under ↦
          rw under
            (λ h. inr (to h), λ h. elim h [ inl (lo, hi) ↦ ground arith | inr stops ↦ from stops ])
    ]

update_done-IsSettled : (c : ScannerConfig) (s : ScannerState) → IsSettled c (update_done c s)
unfolding IsSettled IsDone update_done
update_done-IsSettled c s = inr (update_done_iff c s)

subscribe-IsSettled :
    (c : ScannerConfig) (b : ℕ) (start : ScanOffset) (listed : Result ℕ) (s : ScannerState)
    → IsSettled c s
    → IsSettled c (subscribe c b start listed s).0
unfolding subscribe
subscribe-IsSettled c b start listed s h =
    let P : ScannerState × Option GoError → Type 0 = λ p. IsSettled c p.0 in
    if_cases P (not (has_bucket c.buckets b)) (λ _. h)
      λ _.
        elim (validate_scan_offset start)
          as (λ v. P (elim v [
            | some e ↦ (s, some e)
            | none ↦ elim (resolve_offset start listed) [
              | err e ↦ (s, some e)
              | ok offset ↦
                  if s.closed
                  then (s, some err_closed)
                  else (update_done c (record s { offset = put b offset s.offset }), none)
            ]
          ])) [
            | some e ↦ h
            | none ↦
                elim (resolve_offset start listed)
                  as (λ v. P (elim v [
                    | err e ↦ (s, some e)
                    | ok offset ↦
                        if s.closed
                        then (s, some err_closed)
                        else (update_done c (record s { offset = put b offset s.offset }), none)
                  ])) [
                    | err e ↦ h
                    | ok offset ↦
                        if_cases P s.closed (λ _. h)
                          λ _. update_done-IsSettled c (record s { offset = put b offset s.offset })
                  ]
          ]

wakeup-IsSettled : (c : ScannerConfig) (s : ScannerState) → IsSettled c s → IsSettled c (wakeup s)
unfolding wakeup IsSettled IsDone
wakeup-IsSettled c s h = if_cases (IsSettled c) (not s.closed && not s.done) (λ _. h) (λ _. h)

run_call-IsSettled :
    (c : ScannerConfig) (x : Call) (s : ScannerState) → IsSettled c s → IsSettled c (run_call c x s)
unfolding run_call unsubscribe close IsSettled
run_call-IsSettled c (subscribing b start listed) s h = subscribe-IsSettled c b start listed s h
run_call-IsSettled c (unsubscribing b) s h =
    update_done-IsSettled c (record s { offset = remove b s.offset })
run_call-IsSettled c waking s h = wakeup-IsSettled c s h
run_call-IsSettled c closing s h = inl refl

module _ {A : Type 0} (c : ScannerConfig) where
  IsSettled-IsKept : IsKept {A = A} c (λ s r. IsSettled c s)
  unfolding IsSettled IsDone deliver advance_offset
  IsSettled-IsKept = record {
    by_call = λ x s r h. run_call-IsSettled c x s h;
    by_wake = λ s r h. h;
    by_begin = λ s r h. h;
    by_end = λ s r h. h;
    by_done = λ d s r h. h;
    by_error = λ b e s r h. h;
    by_deliver = λ b offset next watermark d s r h.
        let bounded =
          apply_bounds c.row_limit s.delivered (at_bucket_bounds c b) d.rows d.arrows next in
        update_done-IsSettled c (move_offset b offset bounded.next bounded.delivered s);
  }

  outcome_state :
      (p : ScannerState × Result (ScanResult A))
      → Outcome (λ s r. IsSettled c s) p
      → IsSettled c p.0
  outcome_state (s, ok r) h = h
  outcome_state (s, err e) (r, h) = h

  -- In a scanner that is open, whatever was called, the done flag is set if and only if the row limit is
  -- delivered or there is a subscription and each subscribed bucket is at its stopping offset. A poll
  -- keeps this, with the calls of other goroutines that fall into it and whatever the fetches give,
  -- when it holds before the poll.
  pub poll-IsSettled :
      (xs : ℕ → Exchange A) (s : ScannerState) → IsSettled c s → IsSettled c (poll c xs s).0
  poll-IsSettled xs s h =
      outcome_state (poll c xs s) (poll-kept c (λ s r. IsSettled c s) IsSettled-IsKept xs s h)
