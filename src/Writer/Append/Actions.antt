-- ===== src/Writer/Append/Actions.antt =====
-- The state of the append writer's loop, and the actions on one bucket: flushBucket, dispatch and
-- handleCompletion. `apply_at` acts on the slot of a bucket, which the maps are keyed by.
use fluss_go.Prelude.{ℕ, zero, suc, ◌-◌, Bool, true, false}
use fluss_go.Prelude.{List, [], ◌∷◌, ◌++◌, Option, none, some, map}
use fluss_go.Prelude.{ltb, ◌==◌, if◌then◌else◌}
use fluss_go.Prelude.Int.{ℤ}
use fluss_go.Prelude.Errors.{GoError, err_writer_state}
use fluss_go.Writer.Append.Slot.{Item, Batch, SlotState, Done, empty_batch, complete_item, is_empty}
use fluss_go.Writer.Append.Slot.{
  flush_slot, finish_slot, dispatch_pass, Reply, failed, acknowledged,
}

pub data Assigner : Type 0 where
  sticky round_robin : Assigner

-- The part of AppendWriterConfig and of the table that the scheduler reads.
pub record Config : Type 0 where
  pub max_batch_records : ℕ
  pub max_batch_bytes : ℕ
  pub max_concurrent : ℕ
  pub has_batch_timeout : Bool
  pub has_bucket_key : Bool
  pub no_key_assigner : Option Assigner

-- `done` are the futures that were completed, oldest first, and `sent` the batches that were given
-- to a request, as the bucket and the sequence number. `sticky_index` starts at -1.
pub record LoopState : Type 0 where
  pub slots : List SlotState
  pub in_flight : ℕ
  pub timer_armed : Bool
  pub sticky_index : ℤ
  pub next_round : ℕ
  pub done : List Done
  pub sent : List (ℕ × ℕ)

abbrev pub buckets : LoopState → List ℕ
buckets l = map (λ (s : SlotState). s.bucket) l.slots

abbrev pub Action : Type 0
Action = SlotState → SlotState × List Done

unfoldable pub at_bucket : ℕ → Action → List SlotState → List SlotState × List Done
at_bucket b act [] = ([], [])
at_bucket b act (s ∷ ss) =
    let rest = at_bucket b act ss in
    if s.bucket == b then ((act s).0 ∷ ss, (act s).1) else (s ∷ rest.0, rest.1)

unfoldable pub apply_at : ℕ → Action → LoopState → LoopState
unfolding at_bucket
apply_at b act l = let r = at_bucket b act l.slots in record l { slots = r.0; done = l.done ++ r.1 }

unfoldable pub find_slot : ℕ → List SlotState → Option SlotState
find_slot b [] = none
find_slot b (s ∷ ss) = if s.bucket == b then some s else find_slot b ss

-- batch: the open batch of a bucket, which is made when it is missing.
unfoldable pub batch_at : ℕ → LoopState → Batch
unfolding find_slot
batch_at b l = elim (find_slot b l.slots) [ none ↦ empty_batch | some s ↦ s.batch ]

unfoldable pub reject : Item → GoError → LoopState → LoopState
reject i e l = record l { done = l.done ++ (complete_item i 0 0 false 0 (some e) ∷ []) }

unfoldable pub none_sent : List (ℕ × ℕ) → Bool
none_sent [] = true
none_sent (_ ∷ _) = false

unfoldable pub passed : ℕ → LoopState → LoopState
passed max l =
    let p = dispatch_pass max l.in_flight l.slots in
    record l { slots = p.0; in_flight = p.1; sent = l.sent ++ p.2 }

-- The loop of dispatch. A pass that sends nothing ends it, and every other one takes a place in
-- flight: MaxConcurrentRequests rounds are enough.
unfoldable pub dispatch_rounds : ℕ → ℕ → LoopState → LoopState
unfolding passed none_sent
dispatch_rounds zero max l = l
dispatch_rounds (suc rounds) max l =
    let again = dispatch_rounds rounds max (passed max l) in
    if ltb l.in_flight max
    then if none_sent (dispatch_pass max l.in_flight l.slots).2 then passed max l else again
    else l

unfoldable pub dispatch : Config → LoopState → LoopState
unfolding dispatch_rounds
dispatch c l = dispatch_rounds c.max_concurrent c.max_concurrent l

unfoldable pub flush_found : Config → SlotState → ℕ → LoopState → LoopState × List GoError
unfolding dispatch apply_at
flush_found c s b l = if is_empty s.batch then (l, []) else elim s.poisoned [
  | some e ↦ (apply_at b flush_slot l, err_writer_state e ∷ [])
  | none ↦ (dispatch c (apply_at b flush_slot l), [])
]

-- flushBucket. A list of errors stands for what errors.Join makes of it.
unfoldable pub flush_bucket : Config → ℕ → LoopState → LoopState × List GoError
unfolding flush_found
flush_bucket c b l = elim (find_slot b l.slots) [ none ↦ (l, []) | some s ↦ flush_found c s b l ]

unfoldable pub reply_errors : Reply → List GoError
reply_errors (failed e) = e ∷ []
reply_errors (acknowledged _ _) = []

unfoldable pub release : LoopState → LoopState
release l = record l { in_flight = l.in_flight - 1 }

unfoldable pub handle_completion : Config → ℕ → Reply → LoopState → LoopState × List GoError
unfolding reply_errors release apply_at dispatch
handle_completion c b reply l =
    (dispatch c (release (apply_at b (finish_slot reply) l)), reply_errors reply)
