-- ===== src/Writer/Append/Invariant/Adds.antt =====
-- Adding an item leaves the append writer settled: the open batches concern no request.
use fluss_go.Prelude.{ℕ, List, [], ◌∷◌, Option, none, some, map}
use fluss_go.Prelude.{◌≡◌, refl, ap, sym, ◌∙◌, arith, Bool, true, false, inl, inr, if_cases}
use mathlib.Core.Path.{subst}
use fluss_go.Prelude.Int.{ℤ}
use fluss_go.Prelude.Errors.{GoError}
use fluss_go.Writer.Append.Slot.{Item, Batch, SlotState, append_slot, renew_slot, is_ready}
use fluss_go.Writer.Append.Actions.{
  LoopState, Config, Action, apply_at, flush_bucket, reject, buckets,
}
use fluss_go.Writer.Append.Frame.{at_bucket-map, flush_bucket-frame}
use fluss_go.Writer.Append.Conserves.Add.{
  IsReady, IsKnown, assign_cases, place_cases, available_cases, advance_sticky-slots,
}
use fluss_go.Writer.Append.Conserves.Add.{frame-IsReady, frame-Has, advance_sticky-IsReady}
use fluss_go.Writer.Append.Invariant.{sum_by, busy, busy_of, AllIdle, IsSettled}
use fluss_go.Writer.Append.Invariant.Flush.{flush_bucket-IsSettled, AllDistinct}
use fluss_go.Writer.Append.{
  assign_bucket, advance_sticky, arm_timer, reassigned, available_batch, place, add_arrow,
  add_assigned, add,
}

-- What concerns the requests of a bucket.
abbrev Requests : Type 0
Requests = ℕ × Option (Batch × ℕ) × List Batch

abbrev requests : SlotState → Requests
requests s = (s.bucket, s.running, s.pending)

buckets_of_requests :
    (ss : List SlotState)
    → map (λ (q : Requests). q.0) (map requests ss) ≡ map (λ (s : SlotState). s.bucket) ss
buckets_of_requests [] = refl
buckets_of_requests (s ∷ ss) = rw (buckets_of_requests ss)

busy_of_requests :
    (ss ts : List SlotState) → map requests ss ≡ map requests ts → sum_by busy ss ≡ sum_by busy ts
busy_of_requests [] [] e = refl
busy_of_requests [] (t ∷ ts) e = cc
busy_of_requests (s ∷ ss) [] e = cc
busy_of_requests (s ∷ ss) (t ∷ ts) e =
    let here : requests s ≡ requests t = cc in
    let rest : map requests ss ≡ map requests ts = cc in
    omega (arith, ap (λ (q : Requests). busy_of q.1) here, busy_of_requests ss ts rest)

abbrev ready_pair : Requests → Bool
ready_pair q = elim q.1 [ some _ ↦ false | none ↦ elim q.2 [ [] ↦ false | _ ∷ _ ↦ true ] ]

ready_of_requests : (s t : SlotState) → requests s ≡ requests t → is_ready s ≡ is_ready t
unfolding is_ready
ready_of_requests s t e = ap ready_pair e

idle_of_requests :
    (ss ts : List SlotState) → map requests ss ≡ map requests ts → AllIdle ts → AllIdle ss
idle_of_requests [] [] e idle = tt
idle_of_requests [] (t ∷ ts) e idle = cc
idle_of_requests (s ∷ ss) [] e idle = cc
idle_of_requests (s ∷ ss) (t ∷ ts) e (here, idle) =
    let same : requests s ≡ requests t = cc in
    let rest : map requests ss ≡ map requests ts = cc in
    (ready_of_requests s t same ∙ here, idle_of_requests ss ts rest idle)

-- A settled writer, each of whose buckets stands once.
abbrev pub IsOrderly : Config → LoopState → Type 0
IsOrderly c l = IsSettled c l × AllDistinct (buckets l)

module _ (c : Config) where
  same_requests-IsSettled :
      (l l' : LoopState)
      → map requests l'.slots ≡ map requests l.slots
      → l'.in_flight ≡ l.in_flight
      → IsSettled c l
      → IsSettled c l'
  same_requests-IsSettled l l' e flight ((counted, bound), settled) = (
    (omega (arith, busy_of_requests l'.slots l.slots e), omega arith),
    elim settled [
      | inl full ↦ inl (flight ∙ full)
      | inr idle ↦ inr (idle_of_requests l'.slots l.slots e idle)
    ],
  )

  same_requests-IsOrderly :
      (l l' : LoopState)
      → map requests l'.slots ≡ map requests l.slots
      → l'.in_flight ≡ l.in_flight
      → IsOrderly c l
      → IsOrderly c l'
  same_requests-IsOrderly l l' e flight (settled, distinct) =
      let same : buckets l' ≡ buckets l =
        rw (← buckets_of_requests l'.slots, ← buckets_of_requests l.slots, e) in
      (same_requests-IsSettled l l' e flight settled, subst AllDistinct (sym same) distinct)

  flush_bucket-IsOrderly :
      (b : ℕ) (l : LoopState) → IsOrderly c l → IsOrderly c (flush_bucket c b l).0
  flush_bucket-IsOrderly b l (settled, distinct) =
      let same : buckets (flush_bucket c b l).0 ≡ buckets l =
        ap (λ (p : List ℕ × ℤ). p.0) (flush_bucket-frame c b l) in
      (flush_bucket-IsSettled c b l settled, subst AllDistinct (sym same) distinct)

  same_slots-IsOrderly :
      (l l' : LoopState)
      → l'.slots ≡ l.slots
      → l'.in_flight ≡ l.in_flight
      → IsOrderly c l
      → IsOrderly c l'
  same_slots-IsOrderly l l' e = same_requests-IsOrderly l l' (ap (map requests) e)

  apply_at-IsOrderly :
      (b : ℕ) (act : Action) (l : LoopState)
      → ((s : SlotState) → requests (act s).0 ≡ requests s)
      → IsOrderly c l
      → IsOrderly c (apply_at b act l)
  unfolding apply_at
  apply_at-IsOrderly b act l h =
      same_requests-IsOrderly l (apply_at b act l) (at_bucket-map requests b act l.slots h) refl

  append_slot-requests : (i : Item) (s : SlotState) → requests (append_slot i s).0 ≡ requests s
  unfolding append_slot
  append_slot-requests i s = refl

  renew_slot-requests : (i : Item) (s : SlotState) → requests (renew_slot i s).0 ≡ requests s
  unfolding renew_slot
  renew_slot-requests i s = refl

  advance_sticky-IsOrderly : (l : LoopState) → IsOrderly c l → IsOrderly c (advance_sticky l)
  advance_sticky-IsOrderly l =
      let (slots, done, flight) = advance_sticky-slots l in
      same_slots-IsOrderly l (advance_sticky l) slots flight

  reject-IsOrderly :
      (i : Item) (e : GoError) (l : LoopState) → IsOrderly c l → IsOrderly c (reject i e l)
  unfolding reject
  reject-IsOrderly i e l settled = settled

  place-IsOrderly :
      (i : Item) (b : ℕ) (l : LoopState) → IsOrderly c l → IsOrderly c (place c i (l, some b))
  unfolding arm_timer
  place-IsOrderly i b l settled =
      let l' = apply_at b (append_slot i) l in
      let added = apply_at-IsOrderly b (append_slot i) l (append_slot-requests i) settled in
      let flushed = flush_bucket-IsOrderly b l' added in
      place_cases (IsOrderly c) c i b l (advance_sticky-IsOrderly (flush_bucket c b l').0 flushed)
        flushed added

  reassigned-IsOrderly :
      (i : Item) (l : LoopState)
      → IsReady l
      → IsKnown i l
      → IsOrderly c l
      → IsOrderly c (place c i (reassigned i (assign_bucket c i l)))
  unfolding reassigned place
  reassigned-IsOrderly i l ready known settled =
      assign_cases (λ r. IsOrderly c (place c i (reassigned i r))) c i l ready known
        (λ l' b same kept flight ready' has.
          place-IsOrderly i b l' (same_slots-IsOrderly l l' same flight settled))
        (λ l' e same kept flight ready'.
          reject-IsOrderly i e l' (same_slots-IsOrderly l l' same flight settled))

  add_row-IsOrderly :
      (i : Item) (b : ℕ) (l : LoopState)
      → IsReady l
      → IsKnown i l
      → IsOrderly c l
      → IsOrderly c (place c i (available_batch c b i l))
  add_row-IsOrderly i b l ready known settled =
      let flushed = (flush_bucket c b l).0 in
      let frames = flush_bucket-frame c b l in
      let ready' = frame-IsReady l flushed frames ready in
      let settled' = flush_bucket-IsOrderly b l settled in
      let (slots, done, flight) = advance_sticky-slots flushed in
      available_cases (λ r. IsOrderly c (place c i r)) c i b l (place-IsOrderly i b l settled)
        (place-IsOrderly i b flushed settled')
        (reassigned-IsOrderly i (advance_sticky flushed) (advance_sticky-IsReady flushed ready')
          (λ b' e. rw slots (frame-Has b' l flushed frames (known b' e)))
          (advance_sticky-IsOrderly flushed settled'))

  add_arrow-IsOrderly :
      (i : Item) (b : ℕ) (l : LoopState) → IsOrderly c l → IsOrderly c (add_arrow c i b l)
  unfolding add_arrow
  add_arrow-IsOrderly i b l settled =
      let flushed = (flush_bucket c b l).0 in
      flush_bucket-IsOrderly b (apply_at b (renew_slot i) flushed) (
        apply_at-IsOrderly b (renew_slot i) flushed (renew_slot-requests i)
          (flush_bucket-IsOrderly b l settled))

  pub add-IsOrderly :
      (ctx_err : Option GoError) (i : Item) (l : LoopState)
      → IsReady l
      → IsKnown i l
      → IsOrderly c l
      → IsOrderly c (add c ctx_err i l)
  unfolding add add_assigned
  add-IsOrderly (some e) i l ready known settled = reject-IsOrderly i e l settled
  add-IsOrderly none i l ready known settled =
      assign_cases (λ r. IsOrderly c (add_assigned c i r)) c i l ready known
        (λ l' b same kept flight ready' has.
          let settled' = same_slots-IsOrderly l l' same flight settled in
          if_cases (IsOrderly c) i.arrow (λ _. add_arrow-IsOrderly i b l' settled')
            (λ _. add_row-IsOrderly i b l' ready' (λ b' e. rw same (known b' e)) settled'))
        (λ l' e same kept flight ready'.
          reject-IsOrderly i e l' (same_slots-IsOrderly l l' same flight settled))
