-- ===== src/Examples/Appends.antt =====
-- The append writer's loop on concrete states.
use fluss_go.Prelude.{
  ◌⊎◌, All, ◌≤◌, ◌+◌, ◌≤◌, length, ℕ, ◌<◌, ◌≡◌, ◌≢◌, refl, ap, arith, List, [], ◌∷◌, All, map, none,
  some, true, false, is_some, ◌==◌, if◌then◌else◌,
}
use fluss_go.Prelude.{Bool-cases, Option-cases, inl, inr}
use fluss_go.Prelude.Int.{negsuc}
use fluss_go.Prelude.Errors.{ok}
use fluss_go.Writer.Append.Invariant.Saturates.{CannotSend, dispatch-saturates}
use fluss_go.Writer.Append.Slot.{Item, Batch, SlotState, Reply, acknowledged, failed, empty_batch}
use fluss_go.Writer.Append.Actions.{
  Config, LoopState, buckets, find_slot, dispatch, handle_completion,
}
use fluss_go.Writer.Append.Conserves.{weigh, weigh_slots, weigh_done}
use fluss_go.Writer.Append.Conserves.Loop.{total}
use fluss_go.Writer.Append.Conserves.Add.{Takes, add-Takes}
use fluss_go.Writer.Append.Invariant.{
  sum_by, busy, busy_of, queued, IsSettled, IsBusyAt, handle_completion-IsSettled,
}
use fluss_go.Writer.Append.Invariant.Flush.{AllDistinct}
use fluss_go.Writer.Append.Invariant.Complete.{flush_all-completes}
use fluss_go.Writer.Append.{
  assign_bucket, queue_all, batch_full, batch_full_with, effective_no_key_assigner, is_sticky,
  is_round_robin, next_sticky, advance_sticky, arm_timer,
}
use fluss_go.Writer.Append.Actions.{flush_bucket, apply_at, batch_at}
use fluss_go.Writer.Append.Slot.{
  flush_slot, append_slot, is_empty, finish_slot, finish_batch, dispatch_pass, is_ready, start_slot,
}
use fluss_go.Writer.Append.Run.{Event, item_command, timer_fired, completion, run, handle_event}
use fluss_go.Writer.Append.Invariant.Runs.{ArePossible, taken, run-completes}
use fluss_go.Prelude.Errors.{err_closed}
use fluss_go.Writer.Append.{add, flush_all}

abbrev one_at_a_time : Config
one_at_a_time = record {
  max_batch_records = 2;
  max_batch_bytes = 100;
  max_concurrent = 1;
  has_batch_timeout = true;
  has_bucket_key = false;
  no_key_assigner = none;
}

abbrev row : ℕ → Item
row id = record { id = id; size = 40; count = 1; arrow = false; bucket = none; key = ok [] }

abbrev a_batch : ℕ → Batch
a_batch id = record { items = row id ∷ []; bytes = 40 }

-- Bucket 0 has an open batch and a pending one, and bucket 1 a request in flight.
abbrev busy_writer : LoopState
busy_writer = record {
  slots =
      record {
        bucket = 0;
        batch = a_batch 1;
        pending = a_batch 2 ∷ [];
        running = none;
        sequence = 4;
        poisoned = none;
      }
      ∷ record {
        bucket = 1;
        batch = empty_batch;
        pending = [];
        running = some (a_batch 3, 0);
        sequence = 0;
        poisoned = none;
      }
      ∷ [];
  in_flight = 1;
  timer_armed = true;
  sticky_index = negsuc 0;
  next_round = 0;
  done = [];
  sent = (1, 0) ∷ [];
}

busy_writer-IsSettled : IsSettled one_at_a_time busy_writer
busy_writer-IsSettled = ((refl, omega arith), inl refl)

busy_writer-AllDistinct : AllDistinct (buckets busy_writer)
busy_writer-AllDistinct = (((λ e. omega arith), tt), (tt, tt))

second_runs : IsBusyAt 1 busy_writer
unfolding find_slot
second_runs = (_, refl, refl)

add-Takes_example :
    Takes
      (λ i. i.size)
      one_at_a_time
      (row 5)
      busy_writer
      (add one_at_a_time none (row 5) busy_writer)
add-Takes_example =
    add-Takes (λ i. i.size) one_at_a_time none (row 5) busy_writer
      (omega arith, omega arith, omega arith) (λ b e. cc)

dispatch-saturates_example :
    let l = dispatch one_at_a_time busy_writer in
    (sum_by busy l.slots ≡ l.in_flight)
    × (l.in_flight ≤ 1)
    × ((l.in_flight ≡ 1) ⊎ All CannotSend l.slots)
dispatch-saturates_example = dispatch-saturates one_at_a_time busy_writer refl (omega arith)

handle_completion-IsSettled_example :
    let l' = (handle_completion one_at_a_time 1 (acknowledged 9 true) busy_writer).0 in
    IsSettled one_at_a_time l' × (sum_by queued l'.slots < sum_by queued busy_writer.slots)
handle_completion-IsSettled_example =
    handle_completion-IsSettled one_at_a_time 1 (acknowledged 9 true) busy_writer
      (refl, omega arith) second_runs

-- A channel that gives the completion of the first busy bucket.
abbrev first_busy : List SlotState → ℕ
first_busy [] = 0
first_busy (s ∷ ss) = if is_some s.running then s.bucket else first_busy ss

abbrev first_completion : LoopState → ℕ × Reply
first_completion l = (first_busy l.slots, acknowledged 9 true)

other_bucket :
    (a b : ℕ) (ss : List SlotState) (t : SlotState)
    → All (λ c. a ≢ c) (map (λ (s : SlotState). s.bucket) ss)
    → find_slot b ss ≡ some t
    → (a == b) ≡ false
unfolding find_slot
other_bucket a b [] t other = λ h. cc
other_bucket a b (s ∷ ss) t (here, other) = elim (Bool-cases (s.bucket == b)) [
  | inl e ↦ rw e (λ h. ground arith)
  | inr e ↦ rw e (other_bucket a b ss t other)
]

found_later :
    (b : ℕ) (s : SlotState) (ss : List SlotState) (t : SlotState)
    → All (λ c. s.bucket ≢ c) (map (λ (s : SlotState). s.bucket) ss)
    → find_slot b ss ≡ some t
    → find_slot b (s ∷ ss) ≡ some t
unfolding find_slot
found_later b s ss t other found = rw (other_bucket s.bucket b ss t other found) found

found_first : (s : SlotState) (ss : List SlotState) → find_slot s.bucket (s ∷ ss) ≡ some s
unfolding find_slot
found_first s ss = let same : (s.bucket == s.bucket) ≡ true = ground arith in rw same refl

first_busy-idle :
    (s : SlotState) (ss : List SlotState) → s.running ≡ none → first_busy (s ∷ ss) ≡ first_busy ss
first_busy-idle s ss e = rw e refl

first_busy-running :
    (s : SlotState) (ss : List SlotState) {r : Batch × ℕ}
    → s.running ≡ some r
    → first_busy (s ∷ ss) ≡ s.bucket
first_busy-running s ss e = rw e refl

first_busy-busy :
    (ss : List SlotState)
    → AllDistinct (map (λ (s : SlotState). s.bucket) ss)
    → 0 < sum_by busy ss
    → (s : SlotState) × (find_slot (first_busy ss) ss ≡ some s) × (is_some s.running ≡ true)
first_busy-busy [] distinct h = absurd (omega arith)
first_busy-busy (s ∷ ss) (other, distinct) h = elim (Option-cases s.running) [
  | inr (r, e) ↦ (s, rw (first_busy-running s ss e) (found_first s ss), ap is_some e)
  | inl e ↦
      let (t, found, runs) = first_busy-busy ss distinct (omega (arith, ap busy_of e)) in
      (t, rw (first_busy-idle s ss e) (found_later (first_busy ss) s ss t other found), runs)
]

flush_all-completes_example :
    let l' = (flush_all one_at_a_time first_completion 10 busy_writer).0 in
    (l'.in_flight ≡ 0)
    × (weigh_slots (λ i. i.size) l'.slots ≡ 0)
    × (weigh_done (λ i. i.size) l'.done ≡ total (λ i. i.size) busy_writer)
flush_all-completes_example =
    flush_all-completes (λ i. i.size) one_at_a_time first_completion 10 busy_writer (omega arith)
      busy_writer-AllDistinct (λ l. first_busy-busy l.slots) busy_writer-IsSettled (omega arith)

-- A row, a tick of the timer, and the completion of the request of bucket 1.
abbrev some_events : List Event
some_events = item_command none (row 5) ∷ timer_fired ∷ completion 1 (failed err_closed) ∷ []

some_events-ArePossible : ArePossible one_at_a_time some_events busy_writer
unfolding handle_event find_slot add queue_all assign_bucket flush_bucket flush_slot dispatch
    append_slot is_empty batch_full batch_full_with batch_at apply_at run handle_completion
    finish_slot finish_batch dispatch_pass is_ready start_slot effective_no_key_assigner is_sticky
    is_round_robin next_sticky advance_sticky arm_timer
some_events-ArePossible = ((λ b e. cc), (tt, ((_, refl, refl), tt)))

few_batches :
    let l = run one_at_a_time some_events busy_writer in
    sum_by queued l.slots + length (buckets l) ≤ 20
unfolding handle_event find_slot add queue_all assign_bucket flush_bucket flush_slot dispatch
    append_slot is_empty batch_full batch_full_with batch_at apply_at run handle_completion
    finish_slot finish_batch dispatch_pass is_ready start_slot effective_no_key_assigner is_sticky
    is_round_robin next_sticky advance_sticky arm_timer
few_batches = omega arith

run-completes_example :
    let l' =
      (flush_all one_at_a_time first_completion 20 (run one_at_a_time some_events busy_writer)).0 in
    (l'.in_flight ≡ 0)
    × (weigh_slots (λ i. i.size) l'.slots ≡ 0)
    × (weigh_done (λ i. i.size) l'.done
        ≡ total (λ i. i.size) busy_writer + weigh (λ i. i.size) (taken some_events))
run-completes_example =
    run-completes (λ i. i.size) one_at_a_time some_events busy_writer first_completion 20
      (omega arith)
      ((omega arith, omega arith, omega arith), (busy_writer-IsSettled, busy_writer-AllDistinct))
      some_events-ArePossible (λ l. first_busy-busy l.slots) few_batches
