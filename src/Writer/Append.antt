-- ===== src/Writer/Append.antt =====
-- The scheduler of the append writer, pkg/fgo/log_writer.go: appendWriterLoop. The maps by bucket
-- (batches, pending, active, sequences, poisoned) are kept together in one slot for each bucket of
-- the writer, in the writer's order; every key of the maps is such a bucket.
pub mod Slot
pub mod Actions
pub mod Frame
pub mod Run
pub mod Conserves
pub mod Invariant
use fluss_go.Prelude.{ℕ, zero, suc, ◌+◌, ◌%◌, Bool, true, false, ◌&&◌, ◌||◌, not}
use fluss_go.Prelude.{List, [], ◌∷◌, ◌++◌, Option, none, some, length, get_or, map}
use fluss_go.Prelude.{ltb, leb, if◌then◌else◌}
use fluss_go.Prelude.Int.{ℤ, pos, negsuc, pos_part}
use fluss_go.Prelude.Errors.{GoError, Result, ok, err, ◌>>=◌}
use fluss_go.Bucket.{fluss_bucket}
use fluss_go.Writer.Append.Slot.{Item, Batch, Reply, append_slot, renew_slot, is_empty}
use fluss_go.Writer.Append.Actions.{LoopState, Config, Assigner, sticky, round_robin, buckets}
use fluss_go.Writer.Append.Actions.{apply_at, batch_at, reject, flush_bucket, handle_completion}

unfoldable pub effective_no_key_assigner : Config → Option Assigner
effective_no_key_assigner c =
    if c.has_bucket_key
    then none
    else elim c.no_key_assigner [ none ↦ some sticky | some a ↦ some a ]

unfoldable pub is_sticky : Option Assigner → Bool
is_sticky (some sticky) = true
is_sticky _ = false

unfoldable pub is_round_robin : Option Assigner → Bool
is_round_robin (some round_robin) = true
is_round_robin _ = false

-- (index + 1) % count
unfoldable pub next_sticky : ℕ → ℤ → ℤ
next_sticky count (negsuc _) = pos 0
next_sticky count (pos n) = pos ((n + 1) % count)

unfoldable pub advance_sticky : LoopState → LoopState
unfolding next_sticky
advance_sticky l =
    if ltb 1 (length (buckets l))
    then record l { sticky_index = next_sticky (length (buckets l)) l.sticky_index }
    else l

-- assignBucket for a table without a bucket key.
unfoldable pub assign_in_turn : Config → LoopState → LoopState × Result ℕ
unfolding effective_no_key_assigner is_round_robin
assign_in_turn c l =
    if is_round_robin (effective_no_key_assigner c)
    then (
      record l { next_round = l.next_round + 1 },
      ok (get_or (buckets l) (l.next_round % length (buckets l)) 0),
    )
    else (
      record l { sticky_index = pos (pos_part l.sticky_index) },
      ok (get_or (buckets l) (pos_part l.sticky_index) 0),
    )

unfoldable pub bucket_of_key : List ℕ → List ℕ → Result ℕ
bucket_of_key bs key = fluss_bucket key (length bs) >>= λ n. ok (get_or bs n 0)

-- The bucket of an item: its own, or its key's, or the next one in turn, or the sticky one.
unfoldable pub assign_bucket : Config → Item → LoopState → LoopState × Result ℕ
unfolding bucket_of_key assign_in_turn
assign_bucket c i l = elim i.bucket [
  | some b ↦ (l, ok b)
  | none ↦ if c.has_bucket_key then (l, i.key >>= bucket_of_key (buckets l)) else assign_in_turn c l
]

unfoldable pub batch_full : Config → Batch → Bool
batch_full c b = leb c.max_batch_records (length b.items) || leb c.max_batch_bytes b.bytes

unfoldable pub batch_full_with : Config → Batch → Item → Bool
batch_full_with c b i =
    leb c.max_batch_records (length b.items) || ltb c.max_batch_bytes (b.bytes + i.size)

unfoldable pub arm_timer : Config → LoopState → LoopState
arm_timer c l = record l { timer_armed = l.timer_armed || c.has_batch_timeout }

-- The end of availableBatch: the bucket, or none if the item's future was completed.
unfoldable pub reassigned : Item → LoopState × Result ℕ → LoopState × Option ℕ
reassigned i (l, ok b) = (l, some b)
reassigned i (l, err e) = (reject i e l, none)

unfoldable pub available_batch : Config → ℕ → Item → LoopState → LoopState × Option ℕ
unfolding reassigned
available_batch c b i l =
    let flushed = (flush_bucket c b l).0 in
    if is_empty (batch_at b l) || not (batch_full_with c (batch_at b l) i)
    then (l, some b)
    else if not (is_sticky (effective_no_key_assigner c))
    then (flushed, some b)
    else reassigned i (assign_bucket c i (advance_sticky flushed))

-- What add does with the batch that availableBatch gives.
unfoldable pub place : Config → Item → LoopState × Option ℕ → LoopState
place c i (l, none) = l
place c i (l, some b) =
    let added = apply_at b (append_slot i) l in
    let flushed = (flush_bucket c b added).0 in
    if batch_full c (batch_at b added) || not c.has_batch_timeout
    then if is_sticky (effective_no_key_assigner c) then advance_sticky flushed else flushed
    else arm_timer c added

-- An Arrow batch is a batch of its own.
unfoldable pub add_arrow : Config → Item → ℕ → LoopState → LoopState
add_arrow c i b l = (flush_bucket c b (apply_at b (renew_slot i) (flush_bucket c b l).0)).0

unfoldable pub add_assigned : Config → Item → LoopState × Result ℕ → LoopState
unfolding place available_batch add_arrow
add_assigned c i (l, err e) = reject i e l
add_assigned c i (l, ok b) =
    if i.arrow then add_arrow c i b l else place c i (available_batch c b i l)

-- add, with what the item's context reports.
unfoldable pub add : Config → Option GoError → Item → LoopState → LoopState
unfolding add_assigned
add c ctx_err i l = elim ctx_err [
  | some e ↦ reject i e l
  | none ↦ add_assigned c i (assign_bucket c i l)
]

unfoldable pub flush_each : Config → List ℕ → LoopState → LoopState × List GoError
flush_each c [] l = (l, [])
flush_each c (b ∷ bs) l =
    let first = flush_bucket c b l in
    let rest = flush_each c bs first.0 in (rest.0, first.1 ++ rest.1)

unfoldable pub queue_all : Config → LoopState → LoopState × List GoError
unfolding flush_each
queue_all c l = flush_each c (buckets l) (record l { timer_armed = false })

-- `for l.inFlight > 0`: the completion that the channel gives is `next`'s. Each of them takes a
-- batch, so as many rounds as there are batches are enough.
unfoldable pub drain : Config → (LoopState → ℕ × Reply) → ℕ → LoopState → LoopState × List GoError
drain c next zero l = (l, [])
drain c next (suc fuel) l =
    let handled = handle_completion c (next l).0 (next l).1 l in
    let rest = drain c next fuel handled.0 in
    if ltb 0 l.in_flight then (rest.0, handled.1 ++ rest.1) else (l, [])

unfoldable pub flush_all :
    Config → (LoopState → ℕ × Reply) → ℕ → LoopState → LoopState × List GoError
unfolding drain queue_all
flush_all c next fuel l =
    let queued = queue_all c l in
    let drained = drain c next fuel queued.0 in (drained.0, queued.1 ++ drained.1)
