-- ===== src/Writer/Upsert.antt =====
-- The scheduler of the upsert writer, pkg/fgo/kv_writer.go: upsertWriterLoop.
pub mod Slot
pub mod Kept
pub mod Partial
pub mod Buckets
pub mod Weights
pub mod Moves
pub mod Conserves
pub mod Sequence
pub mod Uniform
use fluss_go.Prelude.{ℕ, zero, suc, ◌+◌, ◌-◌, Bool, true, false, ◌&&◌, ◌||◌, not}
use fluss_go.Prelude.{List, [], ◌∷◌, ◌++◌, Option, none, some, length, map}
use fluss_go.Prelude.{ltb, leb, ◌==◌, if◌then◌else◌}
use fluss_go.Prelude.Int.{pos}
use fluss_go.Prelude.Errors.{GoError, err_writer_state}
use fluss_go.Writer.Upsert.Slot.{
  KvWrite, KvPending, KvDone, KvSlot, KvReply, failed, acknowledged, has_items, flush_kv_slot,
  finish_kv_slot, append_kv_slot, drop_kv_slot, is_kv_ready, start_kv_slot,
}

-- The part of UpsertWriterConfig that the loop reads; `max_throttle` is BackpressureMaxThrottle.
pub record UpsertConfig : Type 0 where
  pub max_batch_records : ℕ
  pub max_batch_bytes : ℕ
  pub max_concurrent : ℕ
  pub has_batch_timeout : Bool
  pub max_throttle : ℕ

-- upsertWriterLoop, with the time that time.Now gives. `done` are the futures that were completed,
-- oldest first.
pub record UpsertLoop : Type 0 where
  pub slots : List KvSlot
  pub in_flight : ℕ
  pub timer_armed : Bool
  pub now : ℕ
  pub done : List KvDone

abbrev pub KvAction : Type 0
KvAction = KvSlot → KvSlot × List KvDone

unfoldable pub at_kv_bucket : ℕ → KvAction → List KvSlot → List KvSlot × List KvDone
at_kv_bucket b act [] = ([], [])
at_kv_bucket b act (s ∷ ss) =
    let rest = at_kv_bucket b act ss in
    if s.bucket == b then ((act s).0 ∷ ss, (act s).1) else (s ∷ rest.0, rest.1)

unfoldable pub apply_kv : ℕ → KvAction → UpsertLoop → UpsertLoop
unfolding at_kv_bucket
apply_kv b act l =
    let r = at_kv_bucket b act l.slots in record l { slots = r.0; done = l.done ++ r.1 }

unfoldable pub find_kv_slot : ℕ → List KvSlot → Option KvSlot
find_kv_slot b [] = none
find_kv_slot b (s ∷ ss) = if s.bucket == b then some s else find_kv_slot b ss

-- l.batches[bucket]
abbrev pub open_batch : Option KvSlot → Option KvPending
open_batch none = none
open_batch (some s) = s.batch

unfoldable pub kv_batch_at : ℕ → UpsertLoop → Option KvPending
unfolding find_kv_slot
kv_batch_at b l = open_batch (find_kv_slot b l.slots)

-- l.poisoned[bucket]
abbrev pub poison : Option KvSlot → Option GoError
poison none = none
poison (some s) = s.poisoned

-- One pass of dispatch over the buckets, with the requests in flight and whether one was started.
unfoldable pub dispatch_kv_pass : ℕ → ℕ → ℕ → List KvSlot → List KvSlot × ℕ × Bool
dispatch_kv_pass now max n [] = ([], n, false)
dispatch_kv_pass now max n (s ∷ ss) =
    let skip = dispatch_kv_pass now max n ss in
    let rest = dispatch_kv_pass now max (n + 1) ss in
    let s' = start_kv_slot now s in
    if is_kv_ready s
    then if n + 1 == max then (s' ∷ ss, n + 1, true) else (s' ∷ rest.0, rest.1, true)
    else (s ∷ skip.0, skip.1, skip.2)

-- The loop of dispatch: every pass but the last takes a place in flight.
unfoldable pub dispatch_kv_rounds : ℕ → ℕ → UpsertLoop → UpsertLoop
unfolding dispatch_kv_pass
dispatch_kv_rounds zero max l = l
dispatch_kv_rounds (suc rounds) max l =
    let p = dispatch_kv_pass l.now max l.in_flight l.slots in
    let l' = record l { slots = p.0; in_flight = p.1 } in
    let again = dispatch_kv_rounds rounds max l' in
    if ltb l.in_flight max then if p.2 then again else l' else l

unfoldable pub dispatch_kv : UpsertConfig → UpsertLoop → UpsertLoop
unfolding dispatch_kv_rounds
dispatch_kv c l = dispatch_kv_rounds c.max_concurrent c.max_concurrent l

abbrev pub holds_items : Option KvPending → Bool
holds_items none = false
holds_items (some b) = has_items b

unfoldable pub after_kv_flush :
    UpsertConfig → Option GoError → UpsertLoop → UpsertLoop × List GoError
unfolding dispatch_kv
after_kv_flush c (some e) l = (l, err_writer_state e ∷ [])
after_kv_flush c none l = (dispatch_kv c l, [])

-- flushBucket. A list of errors stands for what errors.Join makes of it.
unfoldable pub flush_kv_bucket : UpsertConfig → ℕ → UpsertLoop → UpsertLoop × List GoError
unfolding after_kv_flush apply_kv kv_batch_at
flush_kv_bucket c b l =
    if holds_items (kv_batch_at b l)
    then after_kv_flush c (poison (find_kv_slot b l.slots)) (apply_kv b flush_kv_slot l)
    else (l, [])

unfoldable pub kv_reply_errors : KvReply → List GoError
kv_reply_errors (failed e) = e ∷ []
kv_reply_errors (acknowledged _ _ _) = []

-- handleCompletion
unfoldable pub handle_kv_completion :
    UpsertConfig → ℕ → KvReply → UpsertLoop → UpsertLoop × List GoError
unfolding apply_kv dispatch_kv kv_reply_errors
handle_kv_completion c b reply l =
    let done = apply_kv b (finish_kv_slot c.max_throttle l.now reply) l in
    (dispatch_kv c (record done { in_flight = done.in_flight - 1 }), kv_reply_errors reply)

-- `targetKey(a) == targetKey(b)`: the keys are the targets in decimal, each with a comma, which are the
-- same text for the same lists.
unfoldable pub same_targets : List ℕ → List ℕ → Bool
same_targets [] [] = true
same_targets (a ∷ as') (b ∷ bs) = (a == b) && same_targets as' bs
same_targets [] (b ∷ bs) = false
same_targets (a ∷ as') [] = false

unfoldable pub kv_batch_full : UpsertConfig → Option KvPending → Bool
kv_batch_full c none = false
kv_batch_full c (some b) = leb c.max_batch_records (length b.items) || leb c.max_batch_bytes b.bytes

unfoldable pub kv_batch_full_with : UpsertConfig → Option KvPending → KvWrite → Bool
kv_batch_full_with c none i = false
kv_batch_full_with c (some b) i =
    has_items b
    && (leb c.max_batch_records (length b.items) || ltb c.max_batch_bytes (b.bytes + i.size))

unfoldable pub is_incompatible : Option KvPending → KvWrite → Bool
unfolding same_targets
is_incompatible none i = false
is_incompatible (some b) i = not (same_targets b.targets i.targets)

-- flushBucket, and then a new batch in the place of the old one.
unfoldable pub renew_kv_batch : UpsertConfig → ℕ → UpsertLoop → UpsertLoop
unfolding flush_kv_bucket apply_kv
renew_kv_batch c b l = apply_kv b drop_kv_slot (flush_kv_bucket c b l).0

-- compatibleBatch; the batch that it makes when there is none is made with the first write.
unfoldable pub compatible_batch : UpsertConfig → KvWrite → UpsertLoop → UpsertLoop
unfolding is_incompatible renew_kv_batch
compatible_batch c i l =
    if is_incompatible (kv_batch_at i.bucket l) i then renew_kv_batch c i.bucket l else l

-- `if len(batch.items) > 0 && l.batchFullWith(batch, item)`
unfoldable pub make_room : UpsertConfig → KvWrite → UpsertLoop → UpsertLoop
unfolding kv_batch_full_with renew_kv_batch
make_room c i l =
    if kv_batch_full_with c (kv_batch_at i.bucket l) i then renew_kv_batch c i.bucket l else l

unfoldable pub arm_kv_timer : UpsertConfig → UpsertLoop → UpsertLoop
arm_kv_timer c l = record l { timer_armed = l.timer_armed || c.has_batch_timeout }

unfoldable pub place_write : UpsertConfig → KvWrite → UpsertLoop → UpsertLoop
unfolding apply_kv flush_kv_bucket kv_batch_full arm_kv_timer
place_write c i l =
    let added = apply_kv i.bucket (append_kv_slot i) l in
    if kv_batch_full c (kv_batch_at i.bucket added) || not c.has_batch_timeout
    then (flush_kv_bucket c i.bucket added).0
    else arm_kv_timer c added

-- The future of a write whose context is done.
unfoldable pub reject_write : KvWrite → GoError → UpsertLoop → UpsertLoop
reject_write i e l = record l {
  done =
      l.done
      ++ (record {
        item = i;
        bucket = 0;
        base_offset = pos 0;
        offset_known = false;
        pressure = none;
        error = some e;
      }
          ∷ []);
}

-- add, with what the write's context reports.
unfoldable pub add_write : UpsertConfig → Option GoError → KvWrite → UpsertLoop → UpsertLoop
unfolding compatible_batch make_room place_write reject_write
add_write c (some e) i l = reject_write i e l
add_write c none i l = place_write c i (make_room c i (compatible_batch c i l))

unfoldable pub flush_kv_each : UpsertConfig → List ℕ → UpsertLoop → UpsertLoop × List GoError
unfolding flush_kv_bucket
flush_kv_each c [] l = (l, [])
flush_kv_each c (b ∷ bs) l =
    let first = flush_kv_bucket c b l in
    let rest = flush_kv_each c bs first.0 in (rest.0, first.1 ++ rest.1)

abbrev pub kv_buckets : UpsertLoop → List ℕ
kv_buckets l = map (λ (s : KvSlot). s.bucket) l.slots

-- queueAll
unfoldable pub queue_kv_all : UpsertConfig → UpsertLoop → UpsertLoop × List GoError
unfolding flush_kv_each
queue_kv_all c l = flush_kv_each c (kv_buckets l) (record l { timer_armed = false })

-- `for l.inFlight > 0`, with the completions that the channel gives.
unfoldable pub drain_kv :
    UpsertConfig → (UpsertLoop → ℕ × KvReply) → ℕ → UpsertLoop → UpsertLoop × List GoError
unfolding handle_kv_completion
drain_kv c next zero l = (l, [])
drain_kv c next (suc fuel) l =
    let handled = handle_kv_completion c (next l).0 (next l).1 l in
    let rest = drain_kv c next fuel handled.0 in
    if ltb 0 l.in_flight then (rest.0, handled.1 ++ rest.1) else (l, [])

-- flushAll
unfoldable pub flush_kv_all :
    UpsertConfig → (UpsertLoop → ℕ × KvReply) → ℕ → UpsertLoop → UpsertLoop × List GoError
unfolding drain_kv queue_kv_all
flush_kv_all c next fuel l =
    let queued = queue_kv_all c l in
    let drained = drain_kv c next fuel queued.0 in (drained.0, queued.1 ++ drained.1)

-- What the loop of run waits for, and the passing of time.
pub data UpsertEvent : Type 0 where
  write_command : Option GoError → KvWrite → UpsertEvent
  flush_command : (UpsertLoop → ℕ × KvReply) → ℕ → UpsertEvent
  timer_event : UpsertEvent
  completion_event : ℕ → KvReply → UpsertEvent
  time_passes : ℕ → UpsertEvent

-- One round of run. Close is a flush after which there is no round.
unfoldable pub handle_upsert : UpsertConfig → UpsertEvent → UpsertLoop → UpsertLoop
unfolding add_write flush_kv_all queue_kv_all handle_kv_completion
handle_upsert c (write_command ctx i) l = add_write c ctx i l
handle_upsert c (flush_command next fuel) l = (flush_kv_all c next fuel l).0
handle_upsert c timer_event l = (queue_kv_all c (record l { timer_armed = false })).0
handle_upsert c (completion_event b reply) l = (handle_kv_completion c b reply l).0
handle_upsert c (time_passes t) l = record l { now = l.now + t }

unfoldable pub run_upsert : UpsertConfig → List UpsertEvent → UpsertLoop → UpsertLoop
unfolding handle_upsert
run_upsert c [] l = l
run_upsert c (x ∷ xs) l = run_upsert c xs (handle_upsert c x l)
