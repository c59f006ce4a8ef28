-- ===== src/Writer/Append/Invariant.antt =====
-- Requests in flight: they are counted, bounded, and sent as soon as they can be.
pub mod Flush
pub mod Complete
pub mod Adds
pub mod Runs
pub mod Saturates
use fluss_go.Prelude.{
  ℕ, zero, suc, ◌+◌, ◌-◌, ◌<◌, ◌≤◌, List, [], ◌∷◌, ◌++◌, Option, none, some, All, is_some, ltb, leb,
  ◌==◌,
}
use fluss_go.Prelude.{
  ◌≡◌, refl, ap, ◌∙◌, arith, Bool, true, false, Bool-cases, Option-cases, inl, inr, ◌⊎◌,
}
use fluss_go.Prelude.Errors.{err_writer_state}
use fluss_go.Writer.Append.Slot.{
  Batch, SlotState, Reply, failed, acknowledged, flush_slot, finish_slot, finish_batch, is_ready,
  is_empty,
}
use fluss_go.Writer.Append.Slot.{start_slot, start_next, dispatch_pass}
use fluss_go.Writer.Append.Actions.{
  LoopState, Config, Action, at_bucket, apply_at, find_slot, passed, none_sent, release,
}
use fluss_go.Writer.Append.Actions.{
  dispatch_rounds, dispatch, flush_found, flush_bucket, handle_completion,
}
use fluss_go.Writer.Append.Conserves.{at_bucket-none}

abbrev pub sum_by : (SlotState → ℕ) → List SlotState → ℕ
sum_by f [] = 0
sum_by f (s ∷ ss) = f s + sum_by f ss

pub sum_by-at_bucket :
    (f : SlotState → ℕ) (b : ℕ) (act : Action) (ss : List SlotState) (s : SlotState)
    → find_slot b ss ≡ some s
    → sum_by f (at_bucket b act ss).0 + f s ≡ sum_by f ss + f (act s).0
unfolding at_bucket find_slot
sum_by-at_bucket f b act [] s = λ h. cc
sum_by-at_bucket f b act (x ∷ ss) s = elim (Bool-cases (x.bucket == b)) [
  | inl e ↦ rw e (λ h. let q : x ≡ s = cc in rw q (omega arith))
  | inr e ↦ rw e (λ h. omega (arith, sum_by-at_bucket f b act ss s h))
]

-- 1 for a bucket with a request in flight.
abbrev pub busy_of : Option (Batch × ℕ) → ℕ
busy_of none = 0
busy_of (some r) = 1

abbrev pub busy : SlotState → ℕ
busy s = busy_of s.running

abbrev count_of : List Batch → ℕ
count_of [] = 0
count_of (b ∷ bs) = suc (count_of bs)

count_of-append : (xs ys : List Batch) → count_of (xs ++ ys) ≡ count_of xs + count_of ys
count_of-append [] ys = omega arith
count_of-append (x ∷ xs) ys = omega (arith, count_of-append xs ys)

-- The batches of a bucket that are sent or will be.
abbrev pub queued : SlotState → ℕ
queued s = count_of s.pending + busy s

start_next-queued :
    (bs : List Batch) (s : SlotState)
    → s.pending ≡ bs
    → busy s ≡ 0
    → queued (start_next bs s) ≡ queued s
unfolding start_next
start_next-queued [] s e h = refl
start_next-queued (b ∷ bs) s e h = omega (arith, ap count_of e)

ready_busy : (s : SlotState) → is_ready s ≡ true → busy s ≡ 0
unfolding is_ready
ready_busy s h = ground arith

start_slot-busy : (s : SlotState) → is_ready s ≡ true → busy (start_slot s) ≡ 1
unfolding start_slot start_next is_ready
start_slot-busy s h = ground arith

start_slot-queued : (s : SlotState) → busy s ≡ 0 → queued (start_slot s) ≡ queued s
unfolding start_slot
start_slot-queued s h = start_next-queued s.pending s refl h

dispatch_pass-busy :
    (max n : ℕ) (ss : List SlotState)
    → let p = dispatch_pass max n ss in
      (p.1 + sum_by busy ss ≡ n + sum_by busy p.0) × (sum_by queued p.0 ≡ sum_by queued ss)
unfolding dispatch_pass
dispatch_pass-busy max n [] = (refl, refl)
dispatch_pass-busy max n (s ∷ ss) = elim (Bool-cases (is_ready s)) [
  | inr r ↦ rw r (omega (arith, dispatch_pass-busy max n ss))
  | inl r ↦
      let idle = ready_busy s r in
      let sent = start_slot-busy s r in
      let same : queued (start_slot s) ≡ queued s = start_slot-queued s idle in
      elim (Bool-cases ((n + 1) == max)) [
        | inl last ↦ rw (r, last) (omega arith)
        | inr more ↦ rw (r, more) (omega (arith, dispatch_pass-busy max (n + 1) ss))
      ]
]

dispatch_pass-le :
    (max n : ℕ) (ss : List SlotState)
    → n < max
    → (n ≤ (dispatch_pass max n ss).1) × ((dispatch_pass max n ss).1 ≤ max)
unfolding dispatch_pass
dispatch_pass-le max n [] h = omega arith
dispatch_pass-le max n (s ∷ ss) h = elim (Bool-cases (is_ready s)) [
  | inr r ↦ rw r (dispatch_pass-le max n ss h)
  | inl r ↦ elim (Bool-cases ((n + 1) == max)) [
    | inl last ↦ rw (r, last) (ground arith)
    | inr more ↦
        rw (r, more)
          (let lt : n + 1 < max = ground arith in omega (arith, dispatch_pass-le max (n + 1) ss lt))
  ]
]

-- No bucket has a batch that could be sent.
abbrev pub AllIdle : List SlotState → Type 0
AllIdle = All (λ s. is_ready s ≡ false)

dispatch_pass-sent :
    (max n : ℕ) (ss : List SlotState)
    → n < max
    → let p = dispatch_pass max n ss in
      ((none_sent p.2 ≡ true) → AllIdle p.0) × ((none_sent p.2 ≡ false) → n < p.1)
unfolding dispatch_pass none_sent
dispatch_pass-sent max n [] h = ((λ _. tt), (λ e. cc))
dispatch_pass-sent max n (s ∷ ss) h = elim (Bool-cases (is_ready s)) [
  | inr r ↦ rw r (let (idle, more) = dispatch_pass-sent max n ss h in ((λ e. (r, idle e)), more))
  | inl r ↦ elim (Bool-cases ((n + 1) == max)) [
    | inl last ↦ rw (r, last) ((λ e. cc), (λ e. omega arith))
    | inr more ↦
        rw (r, more)
          (let lt : n + 1 < max = ground arith in
            ((λ e. cc), (λ e. omega (arith, dispatch_pass-le max (n + 1) ss lt))))
  ]
]

-- The requests in flight are those of the busy buckets, and at most MaxConcurrentRequests.
abbrev pub IsCounted : Config → LoopState → Type 0
IsCounted c l = (l.in_flight ≡ sum_by busy l.slots) × (l.in_flight ≤ c.max_concurrent)

-- And no batch waits while there is room for its request.
abbrev pub IsSettled : Config → LoopState → Type 0
IsSettled c l = IsCounted c l × ((l.in_flight ≡ c.max_concurrent) ⊎ AllIdle l.slots)

passed-IsCounted :
    (c : Config) (l : LoopState)
    → l.in_flight < c.max_concurrent
    → IsCounted c l
    → IsCounted c (passed c.max_concurrent l)
unfolding passed
passed-IsCounted c l room counted = omega (
  arith,
  dispatch_pass-busy c.max_concurrent l.in_flight l.slots,
  dispatch_pass-le c.max_concurrent l.in_flight l.slots room,
)

passed-grows :
    (c : Config) (l : LoopState)
    → l.in_flight < c.max_concurrent
    → none_sent (dispatch_pass c.max_concurrent l.in_flight l.slots).2 ≡ false
    → l.in_flight < (passed c.max_concurrent l).in_flight
unfolding passed
passed-grows c l room = (dispatch_pass-sent c.max_concurrent l.in_flight l.slots room).1

passed-AllIdle :
    (c : Config) (l : LoopState)
    → l.in_flight < c.max_concurrent
    → none_sent (dispatch_pass c.max_concurrent l.in_flight l.slots).2 ≡ true
    → AllIdle (passed c.max_concurrent l).slots
unfolding passed
passed-AllIdle c l room = (dispatch_pass-sent c.max_concurrent l.in_flight l.slots room).0

dispatch_rounds-IsSettled :
    (c : Config) (rounds : ℕ) (l : LoopState)
    → IsCounted c l
    → c.max_concurrent ≤ l.in_flight + rounds
    → IsSettled c (dispatch_rounds rounds c.max_concurrent l)
unfolding dispatch_rounds
dispatch_rounds-IsSettled c zero l counted fuel = (counted, inl (omega arith))
dispatch_rounds-IsSettled c (suc rounds) l counted fuel =
    elim (Bool-cases (ltb l.in_flight c.max_concurrent)) [
      | inr full ↦ rw full (counted, inl (ground arith))
      | inl room ↦
          let lt : l.in_flight < c.max_concurrent = ground arith in
          let counted' = passed-IsCounted c l lt counted in
          elim (Bool-cases (none_sent (dispatch_pass c.max_concurrent l.in_flight l.slots).2)) [
            | inl idle ↦ rw (room, idle) (counted', inr (passed-AllIdle c l lt idle))
            | inr more ↦
                rw (room, more)
                  (dispatch_rounds-IsSettled c rounds (passed c.max_concurrent l) counted'
                    (omega (arith, passed-grows c l lt more)))
          ]
    ]

pub dispatch-IsSettled : (c : Config) (l : LoopState) → IsCounted c l → IsSettled c (dispatch c l)
unfolding dispatch
dispatch-IsSettled c l counted =
    dispatch_rounds-IsSettled c c.max_concurrent l counted (omega arith)

dispatch_rounds-queued :
    (rounds max : ℕ) (l : LoopState)
    → sum_by queued (dispatch_rounds rounds max l).slots ≡ sum_by queued l.slots
unfolding dispatch_rounds passed
dispatch_rounds-queued zero max l = refl
dispatch_rounds-queued (suc rounds) max l =
    let same = dispatch_pass-busy max l.in_flight l.slots in
    elim (Bool-cases (ltb l.in_flight max)) [
      | inr full ↦ rw full refl
      | inl room ↦ elim (Bool-cases (none_sent (dispatch_pass max l.in_flight l.slots).2)) [
        | inl idle ↦ rw (room, idle) (same.1)
        | inr more ↦
            rw (room, more) (omega (arith, dispatch_rounds-queued rounds max (passed max l)))
      ]
    ]

pub dispatch-queued :
    (c : Config) (l : LoopState) → sum_by queued (dispatch c l).slots ≡ sum_by queued l.slots
unfolding dispatch
dispatch-queued c l = dispatch_rounds-queued c.max_concurrent c.max_concurrent l

finish_batch-queued :
    (s : SlotState) (b : Batch) (reply : Reply)
    → (busy (finish_batch s b reply).0 ≡ 0)
      × (queued (finish_batch s b reply).0 ≤ count_of s.pending)
unfolding finish_batch
finish_batch-queued s b (failed e) = (refl, omega arith)
finish_batch-queued s b (acknowledged offset known) = (refl, omega arith)

-- A completion ends the request and takes its batch.
finish_slot-queued :
    (reply : Reply) (s : SlotState)
    → is_some s.running ≡ true
    → (busy s ≡ 1)
      × (busy (finish_slot reply s).0 ≡ 0)
      × (suc (queued (finish_slot reply s).0) ≤ queued s)
unfolding finish_slot
finish_slot-queued reply s h = elim (Option-cases s.running) [
  | inl e ↦ absurd (let q : is_some s.running ≡ false = rw e refl in cc)
  | inr ((b, n), e) ↦
      rw (e, finish_slot)
        (let (idle, less) = finish_batch-queued s b reply in (refl, idle, omega arith))
]

-- Some bucket b is busy.
abbrev pub IsBusyAt : ℕ → LoopState → Type 0
IsBusyAt b l = (s : SlotState) × (find_slot b l.slots ≡ some s) × (is_some s.running ≡ true)

abbrev finished : ℕ → Reply → LoopState → LoopState
finished b reply l = release (apply_at b (finish_slot reply) l)

finished-IsCounted :
    (c : Config) (b : ℕ) (reply : Reply) (l : LoopState)
    → IsCounted c l
    → IsBusyAt b l
    → IsCounted c (finished b reply l)
      × (suc (sum_by queued (finished b reply l).slots) ≤ sum_by queued l.slots)
unfolding release apply_at
finished-IsCounted c b reply l counted (s, found, runs) = omega (
  arith,
  sum_by-at_bucket busy b (finish_slot reply) l.slots s found,
  sum_by-at_bucket queued b (finish_slot reply) l.slots s found,
  finish_slot-queued reply s runs,
)

-- If the requests in flight are counted right, the completion of one of them leaves the writer
-- settled: counted right, not above the maximum, and at the maximum or without a batch to send. At
-- least one batch is gone.
pub handle_completion-IsSettled :
    (c : Config) (b : ℕ) (reply : Reply) (l : LoopState)
    → IsCounted c l
    → IsBusyAt b l
    → let l' = (handle_completion c b reply l).0 in
      IsSettled c l' × (sum_by queued l'.slots < sum_by queued l.slots)
unfolding handle_completion
handle_completion-IsSettled c b reply l counted at_b =
    let (counted', less) = finished-IsCounted c b reply l counted at_b in
    (
      dispatch-IsSettled c (finished b reply l) counted',
      omega (arith, dispatch-queued c (finished b reply l)),
    )

flush_slot-busy :
    (s : SlotState) → (busy (flush_slot s).0 ≡ busy s) × (queued (flush_slot s).0 ≤ queued s + 1)
unfolding flush_slot
flush_slot-busy s = elim (Option-cases s.poisoned) [
  | inr (x, e) ↦ rw e (refl, omega arith)
  | inl e ↦ rw e (refl, omega (arith, count_of-append s.pending (s.batch ∷ [])))
]

pub flushed-IsCounted :
    (c : Config) (b : ℕ) (l : LoopState)
    → IsCounted c l
    → let l' = apply_at b flush_slot l in
      IsCounted c l' × (sum_by queued l'.slots ≤ sum_by queued l.slots + 1)
unfolding apply_at
flushed-IsCounted c b l counted = elim (Option-cases (find_slot b l.slots)) [
  | inl e ↦ rw (at_bucket-none b flush_slot l.slots e) (counted, omega arith)
  | inr (s, e) ↦ omega (
    arith,
    sum_by-at_bucket busy b flush_slot l.slots s e,
    sum_by-at_bucket queued b flush_slot l.slots s e,
    flush_slot-busy s,
  )
]

flush_found-IsCounted :
    (c : Config) (s : SlotState) (b : ℕ) (l : LoopState)
    → IsCounted c l
    → let l' = (flush_found c s b l).0 in
      IsCounted c l' × (sum_by queued l'.slots ≤ sum_by queued l.slots + 1)
unfolding flush_found
flush_found-IsCounted c s b l counted =
    let (counted', more) = flushed-IsCounted c b l counted in
    elim (Bool-cases (is_empty s.batch)) [
      | inl e ↦ rw e (counted, omega arith)
      | inr e ↦ elim (Option-cases s.poisoned) [
        | inr (x, p) ↦ rw (e, p) (counted', more)
        | inl p ↦
            rw (e, p)
              (
                (dispatch-IsSettled c (apply_at b flush_slot l) counted').0,
                omega (arith, dispatch-queued c (apply_at b flush_slot l)),
              )
      ]
    ]

pub flush_bucket-IsCounted :
    (c : Config) (b : ℕ) (l : LoopState)
    → IsCounted c l
    → let l' = (flush_bucket c b l).0 in
      IsCounted c l' × (sum_by queued l'.slots ≤ sum_by queued l.slots + 1)
unfolding flush_bucket
flush_bucket-IsCounted c b l counted = elim (Option-cases (find_slot b l.slots)) [
  | inl e ↦ rw (e, flush_bucket) (counted, omega arith)
  | inr (s, e) ↦ rw (e, flush_bucket) (flush_found-IsCounted c s b l counted)
]
